-- ===== src/Wolfdisk/Requests/Tests.antt =====
-- The leader's answers of wolfdisk/src/main.rs, run.
use wolf_scale.Base.{
  ℕ, ◌+◌, ◌≡◌, refl, ap, true, false, none, some, List, [], ◌∷◌, arith, get, Member, inl, inr, All,
}
use wolf_scale.Base
use wolf_scale.Wolfdisk.Chunks.{ChunkRef, ChunkStore, is_apart}
use wolf_scale.Wolfdisk.Chunks
use wolf_scale.Wolfdisk.Chunks.Encoding.{encoded, encoded_same, empty-Coherent, empty-Addressed}
use wolf_scale.Wolfdisk.Index.{FileEntry, FileIndex, entry_of}
use wolf_scale.Wolfdisk.Index
use wolf_scale.Wolfdisk.Inodes.Agreement.{Apart}
use wolf_scale.Wolfdisk.Filesystem.{WolfDiskFs, start}
use wolf_scale.Wolfdisk.Filesystem.Entries.{new_entry}
use wolf_scale.Wolfdisk.Filesystem.Valid.{IsValid}
use wolf_scale.Wolfdisk.Filesystem.Runs.{run, AllAllowed, run_from_start-IsValid}
use wolf_scale.Wolfdisk.Requests.{
  Request, write_request, create_file, delete_file, create_dir, rename_file, read_request, success,
  contents, panicked, Leader, owner, serve, serve_all,
}
use wolf_scale.Wolfdisk.Requests.Valid.{IsServable, serve_all-IsValid}
use wolf_scale.Wolfdisk.Requests.Writes.{serve-read_request-write_request}
use wolf_scale.Wolfdisk.Requests.Panics.{serve-panicked}

abbrev empty : FileIndex
empty = Index.new

abbrev leading : WolfDiskFs → Leader
leading fs = record {
  fs = fs;
  broadcast_queue = [];
  metadata_update_queue = [];
  chunk_stream_queue = [];
}

start-IsValid : IsValid (start empty 2 none)
unfolding run Apart AllAllowed
start-IsValid = run_from_start-IsValid empty 2 none [] tt (λ m. m) tt

abbrev requests : List Request
requests =
    create_dir ("d" ∷ []) 493 1 2
    ∷ create_file ("f" ∷ []) 420 1 2
    ∷ write_request ("f" ∷ []) 0 (5 ∷ 6 ∷ 7 ∷ [])
    ∷ rename_file ("f" ∷ []) ("d" ∷ "g" ∷ [])
    ∷ delete_file ("d" ∷ "g" ∷ [])
    ∷ []

requests-IsServable : All IsServable requests
unfolding IsServable
requests-IsServable =
    ((λ h. cc h, (λ h. cc h, (λ h. cc h, ((λ h. cc h, λ h. cc h, λ h. cc h), (λ h. cc h, tt))))))

serve_all-IsValid_example : IsValid (serve_all encoded 5 requests (leading (start empty 2 none))).fs
serve_all-IsValid_example =
    serve_all-IsValid encoded 5 requests (leading (start empty 2 none)) requests-IsServable
      start-IsValid

abbrev file : FileEntry
file = new_entry false 420 5 (owner 1 2)

abbrev index : FileIndex
index = record { entries = ("f" ∷ [], file) ∷ []; version = 1 }

known : entry_of ("f" ∷ []) index ≡ some file
unfolding entry_of Base.find
known = refl

serve-read_request-write_request_example :
    let (a, l) =
      serve encoded 5
        (write_request ("f" ∷ []) 1 (5 ∷ 6 ∷ 7 ∷ []))
        (leading (start index 2 none)) in
    (a ≡ success)
    × ((serve encoded 6 (read_request ("f" ∷ []) 1 3) l).0 ≡ contents (5 ∷ 6 ∷ 7 ∷ []))
unfolding start Chunks.new
serve-read_request-write_request_example =
    serve-read_request-write_request encoded 5 6 ("f" ∷ []) 1 5 (6 ∷ 7 ∷ [])
      (leading (start index 2 none)) file known (omega arith) encoded_same empty-Coherent
      empty-Addressed (omega arith) (omega arith) (omega arith)

-- A file in two chunks
abbrev chunks : List ChunkRef
chunks = record { hash = 9; offset = 0; size = 1 } ∷ record { hash = 8; offset = 1; size = 1 } ∷ []

abbrev long_file : FileEntry
long_file = record file { size = 2; chunks = chunks }

abbrev long_index : FileIndex
long_index = record { entries = ("f" ∷ [], long_file) ∷ []; version = 1 }

long_known : entry_of ("f" ∷ []) long_index ≡ some long_file
unfolding entry_of Base.find
long_known = refl

met : All (λ k. is_apart 0 2 k ≡ false) chunks
unfolding is_apart
met = (refl, (refl, tt))

serve-panicked_example :
    (serve encoded 5
      (write_request ("f" ∷ []) 0 (3 ∷ 4 ∷ []))
      (leading (start long_index 2 none))).0
    ≡ panicked
unfolding start Chunks.new
serve-panicked_example =
    serve-panicked encoded 5 ("f" ∷ []) 0 3 (4 ∷ []) (leading (start long_index 2 none)) long_file
      long_known (omega arith) met (omega arith)
