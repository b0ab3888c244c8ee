-- ===== src/Wolfdisk/Chunks.antt =====
-- wolfdisk/src/storage/chunks.rs: chunks of files under the hash of their content. SHA-256 is a
-- parameter; a hash is a number, and so is the path that is made of it. The file system's own errors
-- are not modelled.
pub mod Store
pub mod Pieces
pub mod Order
pub mod Ranges
pub mod RoundTrip
pub mod Encoding
mod Tests
use wolf_scale.Base.{
  ℕ, zero, suc, ◌+◌, ◌-◌, min, Bool, true, false, not, ◌&&◌, ◌||◌, Option, none, some, List, [],
  ◌∷◌, ◌++◌, ltb, leb, ◌==◌, if◌then◌else◌, length, take, drop, keep, get, put, take_out, u32, u64,
}
use wolf_scale.Wolfdisk.Cache.{ReadCache}
use wolf_scale.Wolfdisk.Cache

-- storage/inode.rs
pub record ChunkRef : Type 0 where
  pub hash : ℕ
  pub offset : ℕ
  pub size : ℕ

pub record ChunkStore : Type 0 where
  pub chunk_size : ℕ
  pub files : List (ℕ × List ℕ)
  pub read_cache : ReadCache

unfoldable pub new : ℕ → ChunkStore
new chunk_size = record {
  chunk_size = chunk_size;
  files = [];
  read_cache = record { entries = []; access_order = []; capacity = 256 };
}

unfoldable pub exists : ℕ → ChunkStore → Bool
exists hash s = elim (get hash s.files) [ none ↦ false | some _ ↦ true ]

unfoldable pub store_with_hash : ℕ → List ℕ → ChunkStore → ChunkStore
store_with_hash hash bytes s = if exists hash s then s else record s {
  files = put hash bytes s.files;
  read_cache = Cache.insert hash bytes s.read_cache;
}

-- The content, or none for `ChunkNotFound`: what the cache gives, or else what the file has.
abbrev pub fetch_from :
    Option (List ℕ) × ReadCache → Option (List ℕ) → ℕ → ChunkStore → Option (List ℕ) × ChunkStore
fetch_from (some content, used) file hash s = (some content, record s { read_cache = used })
fetch_from (none, used) none hash s = (none, record s { read_cache = used })
fetch_from (none, used) (some content) hash s =
    (some content, record s { read_cache = Cache.insert hash content used })

unfoldable pub fetch : ℕ → ChunkStore → Option (List ℕ) × ChunkStore
fetch hash s = fetch_from (Cache.look_up hash s.read_cache) (get hash s.files) hash s

unfoldable pub delete : ℕ → ChunkStore → ChunkStore
delete hash s = record s {
  files = take_out hash s.files;
  read_cache = Cache.remove hash s.read_cache;
}

pub data ReadResult : Type 0 where
  bytes : List ℕ → ReadResult
  chunk_not_found : ℕ → ReadResult
  panics : ReadResult

abbrev pub chunk_end : ChunkRef → ℕ
chunk_end k = u64 (k.offset + k.size)

-- The part of a chunk's data that lies in the range; none where the slice is out of range.
abbrev pub part : ℕ → ℕ → ChunkRef → List ℕ → Option (List ℕ)
part offset end_offset k content =
    let read_start = if ltb k.offset offset then offset - k.offset else 0 in
    let past = if ltb end_offset (chunk_end k) then chunk_end k - end_offset else 0 in
    let read_end = length content - past in
    if leb past (length content) && leb read_start read_end
    then some (take (read_end - read_start) (drop read_start content))
    else none

abbrev pub extend :
    ℕ
    → Option (List ℕ)
    → List ℕ
    → ChunkStore
    → (List ℕ → ChunkStore → ReadResult × ChunkStore)
    → ReadResult × ChunkStore
extend size none result s onward = (panics, s)
extend size (some more) result s onward =
    if leb size (length (result ++ more))
    then (bytes (result ++ more), s)
    else onward (result ++ more) s

abbrev pub read_chunk :
    ℕ
    → ℕ
    → ℕ
    → ChunkRef
    → Option (List ℕ) × ChunkStore
    → List ℕ
    → (List ℕ → ChunkStore → ReadResult × ChunkStore)
    → ReadResult × ChunkStore
read_chunk offset end_offset size k (none, s) result onward = (chunk_not_found k.hash, s)
read_chunk offset end_offset size k (some content, s) result onward =
    extend size (part offset end_offset k content) result s onward

module _ (offset end_offset size : ℕ) where
  unfoldable pub read_loop : List ChunkRef → List ℕ → ChunkStore → ReadResult × ChunkStore
  read_loop [] result s = (bytes result, s)
  read_loop (k ∷ ks) result s =
      let skipped = read_loop ks result s in
      if leb (chunk_end k) offset
      then skipped
      else if leb end_offset k.offset
      then (bytes result, s)
      else read_chunk offset end_offset size k (fetch k.hash s) result (read_loop ks)

unfoldable pub read : List ChunkRef → ℕ → ℕ → ChunkStore → ReadResult × ChunkStore
read chunks offset size s = read_loop offset (u64 (offset + size)) size chunks [] s

-- `sort_by_key`, which keeps the order of equal keys
unfoldable pub insert_by_offset : ChunkRef → List ChunkRef → List ChunkRef
insert_by_offset k [] = k ∷ []
insert_by_offset k (j ∷ js) =
    if leb k.offset j.offset then k ∷ j ∷ js else j ∷ insert_by_offset k js

unfoldable pub sort_by_offset : List ChunkRef → List ChunkRef
sort_by_offset [] = []
sort_by_offset (k ∷ ks) = insert_by_offset k (sort_by_offset ks)

unfoldable pub is_apart : ℕ → ℕ → ChunkRef → Bool
is_apart offset write_end k = leb (chunk_end k) offset || leb write_end k.offset

module _ (sha256 : List ℕ → ℕ) where
  unfoldable pub store : List ℕ → ChunkStore → ℕ × ChunkStore
  store content s = (sha256 content, store_with_hash (sha256 content) content s)

  -- The loop of `write`: the references of the pieces, the data that is left, and the store.
  unfoldable pub store_pieces : ℕ → List ℕ → ℕ → ChunkStore → List ChunkRef × (List ℕ × ChunkStore)
  store_pieces zero content current_offset s = ([], (content, s))
  store_pieces (suc fuel) [] current_offset s = ([], ([], s))
  store_pieces (suc fuel) (b ∷ bs) current_offset s =
      let content = b ∷ bs in
      let n = min (length content) s.chunk_size in
      let (hash, s1) = store (take n content) s in
      let (refs, last) = store_pieces fuel (drop n content) (u64 (current_offset + n)) s1 in
      (record { hash = hash; offset = current_offset; size = u32 n } ∷ refs, last)

  -- Each round takes a byte at least, so the bytes are rounds enough. The number of bytes written,
  -- the references and the store.
  unfoldable pub write : List ChunkRef → ℕ → List ℕ → ChunkStore → ℕ × (List ChunkRef × ChunkStore)
  write chunks offset [] s = (0, (chunks, s))
  write chunks offset (b ∷ bs) s =
      let content = b ∷ bs in
      let apart = keep (is_apart offset (u64 (offset + length content))) chunks in
      let (refs, (left, last)) = store_pieces (length content) content offset s in
      (length content - length left, (sort_by_offset (apart ++ refs), last))
