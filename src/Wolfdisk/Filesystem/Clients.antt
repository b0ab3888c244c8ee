-- ===== src/Wolfdisk/Filesystem/Clients.antt =====
-- The write-back cache of a node that does not lead (wolfdisk/src/fuse/filesystem.rs): `write`, the
-- truncation of `setattr`, and `drain_client_writes`. What the leader answers is an argument.
use wolf_scale.Base.{
  ℕ, ◌+◌, ◌-◌, Option, none, some, List, [], ◌∷◌, ◌++◌, ltb, leb, ◌==◌, keep, if◌then◌else◌, get,
  put, take_out, length, drop, u64, u32,
}
use wolf_scale.Wolfdisk.Paths.{FilePath}
use wolf_scale.Wolfdisk.Index.{FileEntry, change_entry}
use wolf_scale.Wolfdisk.Inodes.{get_path}
use wolf_scale.Wolfdisk.Filesystem.{WolfDiskFs, ClientWriteEntry, Outcome, done, error, enoent}

abbrev pub Segment : Type 0
Segment = ℕ × List ℕ

abbrev pub cached : FilePath → ℕ → Option ClientWriteEntry → ClientWriteEntry
cached path size (some entry) = entry
cached path size none = record { path = path; segments = []; size = size; pending_truncate = none }

abbrev pub push_segment : ℕ → List ℕ → ClientWriteEntry → ClientWriteEntry
push_segment offset content entry =
    let new_end = u64 (offset + u32 (length content)) in
    record entry {
      segments = entry.segments ++ ((offset, content) ∷ []);
      size = if ltb entry.size new_end then new_end else entry.size;
    }

abbrev pub grow_entry : ℕ → ℕ → FileEntry → FileEntry
grow_entry now new_end entry = record entry {
  size = if ltb entry.size new_end then new_end else entry.size;
  modified = now;
}

abbrev pub cache_write : ℕ → ℕ → ℕ → List ℕ → WolfDiskFs → Option FilePath → Outcome ℕ × WolfDiskFs
cache_write now ino offset content fs none = (error enoent, fs)
cache_write now ino offset content fs (some path) =
    let entry = cached path 0 (get ino fs.client_write_cache) in
    (
      done (u32 (length content)),
      record fs {
        client_write_cache = put ino (push_segment offset content entry) fs.client_write_cache;
        file_index =
            change_entry path (grow_entry now (u64 (offset + u32 (length content)))) fs.file_index;
      },
    )

-- `write` where `is_leader()` is false
unfoldable pub write_back : ℕ → ℕ → ℕ → List ℕ → WolfDiskFs → Outcome ℕ × WolfDiskFs
write_back now ino offset content fs =
    cache_write now ino offset content fs (get_path ino fs.inode_table)

-- What a truncation does to the cache, in `setattr`
unfoldable pub truncate_back : ℕ → FilePath → ℕ → WolfDiskFs → WolfDiskFs
truncate_back ino path new_size fs =
    let entry = cached path new_size (get ino fs.client_write_cache) in
    record fs {
      client_write_cache =
          put ino
            (record entry {
              pending_truncate = some new_size;
              segments = if new_size == 0 then [] else keep (λ s. ltb s.0 new_size) entry.segments;
              size = new_size;
            })
            fs.client_write_cache;
    }

-- `sort_by_key`, which keeps the order of equal keys
unfoldable pub insert_segment : Segment → List Segment → List Segment
insert_segment s [] = s ∷ []
insert_segment s (t ∷ ts) = if leb s.0 t.0 then s ∷ t ∷ ts else t ∷ insert_segment s ts

unfoldable pub sort_segments : List Segment → List Segment
sort_segments [] = []
sort_segments (s ∷ ts) = insert_segment s (sort_segments ts)

-- A segment that begins inside the last one or at its end, put behind it
abbrev pub extended : Segment → Segment → Segment
extended (base, last) (offset, content) =
    let last_end = base + length last in
    let overlap = last_end - offset in
    if ltb offset last_end
    then if ltb overlap (length content) then (base, last ++ drop overlap content) else (base, last)
    else (base, last ++ content)

-- The segments in front of the last one are done with.
unfoldable pub coalesce_onto : Segment → List Segment → List Segment
coalesce_onto last [] = last ∷ []
coalesce_onto last (s ∷ ts) =
    let joined = coalesce_onto (extended last s) ts in
    let apart = last ∷ coalesce_onto s ts in
    if leb s.0 (last.0 + length last.1) then joined else apart

unfoldable pub coalesce : List Segment → List Segment
coalesce [] = []
coalesce (s ∷ ts) = coalesce_onto s ts

-- What is sent to the leader
pub data Forward : Type 0 where
  set_size : FilePath → ℕ → Forward
  write_at : FilePath → ℕ → List ℕ → Forward

abbrev pub ahead : Forward → Outcome (Unit {0}) × List Forward → Outcome (Unit {0}) × List Forward
ahead f (r, fs) = (r, f ∷ fs)

abbrev pub unless_error :
    Forward
    → Outcome (Unit {0})
    → Outcome (Unit {0}) × List Forward
    → Outcome (Unit {0}) × List Forward
unless_error f (error e) rest = (error e, f ∷ [])
unless_error f (done _) rest = ahead f rest

module _ (accepts : Forward → Outcome (Unit {0})) where
  unfoldable pub forward_writes : FilePath → List Segment → Outcome (Unit {0}) × List Forward
  forward_writes path [] = (done tt, [])
  forward_writes path (s ∷ ts) =
      let f = write_at path s.0 s.1 in unless_error f (accepts f) (forward_writes path ts)

  abbrev pub forward_entry : ClientWriteEntry → Option ℕ → Outcome (Unit {0}) × List Forward
  forward_entry entry none = forward_writes entry.path (coalesce (sort_segments entry.segments))
  forward_entry entry (some size) =
      let f = set_size entry.path size in
      unless_error f (accepts f)
        (forward_writes entry.path (coalesce (sort_segments entry.segments)))

  abbrev pub drained : Option ClientWriteEntry → Outcome (Unit {0}) × List Forward
  drained none = (done tt, [])
  drained (some entry) = forward_entry entry entry.pending_truncate

  -- The result, what was sent, and the state
  unfoldable pub drain_client_writes :
      ℕ → WolfDiskFs → (Outcome (Unit {0}) × List Forward) × WolfDiskFs
  drain_client_writes ino fs = (
    drained (get ino fs.client_write_cache),
    record fs { client_write_cache = take_out ino fs.client_write_cache },
  )
