-- ===== src/Wolfdisk/Replicas/Tables.antt =====
-- What the handler of wolfdisk/src/main.rs keeps of a follower's index and inode table.
use wolf_scale.Base.{
  ℕ, ◌+◌, ◌≡◌, refl, ap, ◌∙◌, Bool, true, false, Option, none, some, List, [], ◌∷◌, arith, ◌==◌,
  Bool-cases, Option-cases, inl, inr,
}
use wolf_scale.Wolfdisk.Paths.{FilePath, path_eq_refl}
use wolf_scale.Wolfdisk.Index.{FileEntry, entry_of, remove_entry}
use wolf_scale.Wolfdisk.Inodes.{get_inode, remove_path}
use wolf_scale.Wolfdisk.Filesystem.{
  WolfDiskFs, upsert, delete, mkdir, rename, Message, index_update, file_sync, file_sync_data,
  store_chunk,
}
use wolf_scale.Wolfdisk.Filesystem.Sound.{
  replace-IsSound, add-IsSound, remove-IsSound, entry_of-remove_entry,
}
use wolf_scale.Wolfdisk.Filesystem.Valid.{IsValid}
use wolf_scale.Wolfdisk.Replicas.{
  received, with_inode, ensure_inode, put_entry, drop_path, drop_old, carry, move_path,
  handle_index_update, deleted_size, synced, refresh, is_empty, update_or_add, handle_deletion,
  handle_file_sync, handle, deliver, store_all, regrown, without_chunks,
}

with_inode-IsValid :
    (p : FilePath) (e : FileEntry) (fs : WolfDiskFs) (o : Option ℕ)
    → get_inode p fs.inode_table ≡ o
    → (p ≡ [] → ⊥)
    → IsValid fs
    → IsValid (with_inode p (put_entry p e fs) o)
unfolding put_entry
with_inode-IsValid p e fs none h ne v =
    add-IsSound fs.file_index fs.inode_table fs.next_inode (fs.next_inode + 1) fs.next_inode p e v
      ne (ground (arith, h, v.covers p ne, Option-cases (entry_of p fs.file_index)))
      (v.fresh fs.next_inode (omega arith)) (omega arith) (omega arith)
with_inode-IsValid p e fs (some i) h ne v =
    replace-IsSound fs.file_index fs.inode_table fs.next_inode i p e v ne h

pub ensure_put-IsValid :
    (p : FilePath) (e : FileEntry) (fs : WolfDiskFs)
    → (p ≡ [] → ⊥)
    → IsValid fs
    → IsValid (ensure_inode p (put_entry p e fs))
unfolding ensure_inode put_entry
ensure_put-IsValid p e fs ne v = with_inode-IsValid p e fs (get_inode p fs.inode_table) refl ne v

pub drop_path-IsValid :
    (p : FilePath) (fs : WolfDiskFs) → (p ≡ [] → ⊥) → IsValid fs → IsValid (drop_path p fs)
unfolding drop_path
drop_path-IsValid p fs ne v = remove-IsSound fs.file_index fs.inode_table fs.next_inode p v ne

drop_old-IsValid :
    (p : FilePath) (fs : WolfDiskFs) (o : Option FileEntry)
    → (p ≡ [] → ⊥)
    → IsValid fs
    → IsValid (drop_old p fs o)
drop_old-IsValid p fs none ne v = v
drop_old-IsValid p fs (some old) ne v = drop_path-IsValid p fs ne v

-- What was dropped is not indexed.
entry_of-drop_old :
    (p : FilePath) (fs : WolfDiskFs) (o : Option FileEntry)
    → entry_of p fs.file_index ≡ o
    → entry_of p (drop_old p fs o).file_index ≡ none
unfolding drop_path
entry_of-drop_old p fs none h = h
entry_of-drop_old p fs (some old) h =
    entry_of-remove_entry p p fs.file_index ∙ simp (path_eq_refl p) refl

carry-IsValid :
    (from to : FilePath) (fs : WolfDiskFs) (o : Option FileEntry)
    → (from ≡ [] → ⊥)
    → (to ≡ [] → ⊥)
    → entry_of to fs.file_index ≡ none
    → IsValid fs
    → IsValid (carry from to fs o)
carry-IsValid from to fs none nf nt h v = v
carry-IsValid from to fs (some entry) nf nt h v =
    let rest = remove-IsSound fs.file_index fs.inode_table fs.next_inode from v nf in
    add-IsSound (remove_entry from fs.file_index) ((remove_path from fs.inode_table).1)
      fs.next_inode (fs.next_inode + 1) fs.next_inode to entry rest nt
      (ground (arith, h, entry_of-remove_entry from to fs.file_index))
      (rest.fresh fs.next_inode (omega arith)) (omega arith) (omega arith)

pub move_path-IsValid :
    (from to : FilePath) (fs : WolfDiskFs)
    → (from ≡ [] → ⊥)
    → (to ≡ [] → ⊥)
    → IsValid fs
    → IsValid (move_path from to fs)
unfolding move_path
move_path-IsValid from to fs nf nt v =
    let cleared = drop_old to fs (entry_of to fs.file_index) in
    carry-IsValid from to cleared (entry_of from cleared.file_index) nf nt
      (entry_of-drop_old to fs (entry_of to fs.file_index) refl)
      (drop_old-IsValid to fs (entry_of to fs.file_index) nt v)

-- A message that names no path of no components, and continues the batches of a file only if that is
-- indexed
unfoldable pub IsFit : Message → WolfDiskFs → Type 0
IsFit (store_chunk hash content) fs = Unit {0}
IsFit (index_update version (upsert path _ _ _ _)) fs = path ≡ [] → ⊥
IsFit (index_update version (delete path)) fs = path ≡ [] → ⊥
IsFit (index_update version (mkdir path _)) fs = path ≡ [] → ⊥
IsFit (index_update version (rename from to)) fs = (from ≡ [] → ⊥) × (to ≡ [] → ⊥)
IsFit (file_sync path sync) fs = path ≡ [] → ⊥
IsFit (file_sync_data path sync chunk_data) fs =
    (path ≡ [] → ⊥)
    × (is_empty sync.chunks ≡ true → (e : FileEntry) × (entry_of path fs.file_index ≡ some e))

store_all-IsValid :
    (is_client : Bool) (chunk_data : List (ℕ × List ℕ)) (fs : WolfDiskFs)
    → IsValid fs
    → IsValid (store_all is_client chunk_data fs)
unfolding store_all
store_all-IsValid is_client [] fs v = v
store_all-IsValid true ((hash, content) ∷ more) fs v = store_all-IsValid true more fs v
store_all-IsValid false ((hash, content) ∷ more) fs v = store_all-IsValid false more _ v

store_all-file_index :
    (is_client : Bool) (chunk_data : List (ℕ × List ℕ)) (fs : WolfDiskFs)
    → (store_all is_client chunk_data fs).file_index ≡ fs.file_index
unfolding store_all
store_all-file_index is_client [] fs = refl
store_all-file_index true ((hash, content) ∷ more) fs = store_all-file_index true more fs
store_all-file_index false ((hash, content) ∷ more) fs = store_all-file_index false more _

update_or_add-IsValid :
    (now : ℕ) (p : FilePath) (sync : FileEntry) (o : Option FileEntry) (fs : WolfDiskFs)
    → (p ≡ [] → ⊥)
    → IsValid fs
    → IsValid (ensure_inode p (update_or_add now p sync o fs))
update_or_add-IsValid now p sync none fs ne v = ensure_put-IsValid p (synced now sync) fs ne v
update_or_add-IsValid now p sync (some entry) fs ne v =
    ensure_put-IsValid p (refresh sync entry) fs ne v

handle_deletion-IsValid :
    (p : FilePath) (fs : WolfDiskFs) (o : Option FileEntry)
    → (p ≡ [] → ⊥)
    → IsValid fs
    → IsValid (handle_deletion p fs o)
handle_deletion-IsValid p fs none ne v = v
handle_deletion-IsValid p fs (some entry) ne v = drop_path-IsValid p fs ne v

without_chunks-IsValid :
    (now : ℕ) (p : FilePath) (sync : FileEntry) (chunk_data : List (ℕ × List ℕ)) (fs : WolfDiskFs)
    (e : FileEntry)
    → (p ≡ [] → ⊥)
    → entry_of p fs.file_index ≡ some e
    → IsValid fs
    → IsValid (ensure_inode p (without_chunks now p sync chunk_data fs))
without_chunks-IsValid now p sync [] fs e ne known v =
    update_or_add-IsValid now p sync (entry_of p fs.file_index) fs ne v
without_chunks-IsValid now p sync (_ ∷ _) fs e ne known v =
    rw known (ensure_put-IsValid p (regrown sync e) fs ne v)

handle_file_sync-IsValid :
    (is_client : Bool) (now : ℕ) (p : FilePath) (sync : FileEntry) (chunk_data : List (ℕ × List ℕ))
    (fs : WolfDiskFs)
    → (p ≡ [] → ⊥)
    → (is_empty sync.chunks ≡ true
        → IsValid (
            ensure_inode p
              (without_chunks now p sync chunk_data (store_all is_client chunk_data fs))))
    → IsValid fs
    → IsValid (handle_file_sync is_client now p sync chunk_data fs)
unfolding handle_file_sync
handle_file_sync-IsValid is_client now p sync chunk_data fs ne bare_case v =
    elim (Bool-cases (sync.size == deleted_size)) [
      | inl gone ↦ simp gone (handle_deletion-IsValid p fs (entry_of p fs.file_index) ne v)
      | inr stays ↦ elim (Bool-cases (is_empty sync.chunks)) [
        | inl bare ↦ simp (stays, bare) (bare_case bare)
        | inr full ↦
            simp (stays, full)
              (ensure_put-IsValid p (synced now sync) (store_all is_client chunk_data fs) ne
                (store_all-IsValid is_client chunk_data fs v))
      ]
    ]

handle-IsValid :
    (is_client : Bool) (now : ℕ) (m : Message) (fs : WolfDiskFs)
    → IsFit m fs
    → IsValid fs
    → IsValid (handle is_client now m fs)
unfolding handle handle_index_update IsFit
handle-IsValid true now (store_chunk hash content) fs n v = v
handle-IsValid false now (store_chunk hash content) fs n v = v
handle-IsValid is_client now (index_update version (upsert path size modified permissions chunks))
      fs n v =
    ensure_put-IsValid path (received false size modified permissions chunks now) fs n v
handle-IsValid is_client now (index_update version (delete path)) fs n v =
    drop_path-IsValid path fs n v
handle-IsValid is_client now (index_update version (mkdir path permissions)) fs n v =
    ensure_put-IsValid path (received true 0 now permissions [] now) fs n v
handle-IsValid is_client now (index_update version (rename from to)) fs n v =
    move_path-IsValid from to fs n.0 n.1 v
handle-IsValid is_client now (file_sync path sync) fs n v =
    handle_file_sync-IsValid is_client now path sync [] fs n
      (λ bare.
        unfold store_all in
        update_or_add-IsValid now path sync (entry_of path fs.file_index) fs n v)
      v
handle-IsValid is_client now (file_sync_data path sync chunk_data) fs (n, known) v =
    handle_file_sync-IsValid is_client now path sync chunk_data fs n
      (λ bare.
        let (e, there) = known bare in
        without_chunks-IsValid now path sync chunk_data (store_all is_client chunk_data fs) e n
          (ap (entry_of path) (store_all-file_index is_client chunk_data fs) ∙ there)
          (store_all-IsValid is_client chunk_data fs v))
      v

-- Each message is fit for the state in which it arrives.
unfoldable pub AllFit : Bool → ℕ → List Message → WolfDiskFs → Type 0
AllFit is_client now [] fs = Unit {0}
AllFit is_client now (m ∷ ms) fs = IsFit m fs × AllFit is_client now ms (handle is_client now m fs)

-- Over any messages of a leader in which no path is that of the root, and of which each `FileSync`
-- that has the content of chunks and no references to chunks is for a path that is indexed when it
-- arrives: a follower's two maps of inodes stay inverse to one another, with no inode in use from the
-- next one on, and the paths that have an inode stay those of the index, and the root.
pub deliver-IsValid :
    (is_client : Bool) (now : ℕ) (ms : List Message) (fs : WolfDiskFs)
    → AllFit is_client now ms fs
    → IsValid fs
    → IsValid (deliver is_client now ms fs)
unfolding deliver AllFit
deliver-IsValid is_client now [] fs n v = v
deliver-IsValid is_client now (m ∷ ms) fs (n, ns) v =
    deliver-IsValid is_client now ms (handle is_client now m fs) ns
      (handle-IsValid is_client now m fs n v)
