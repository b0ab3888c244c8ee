-- ===== src/Wolfdisk/Filesystem/Losses.antt =====
-- What the leader's `rename` and `unlink` of wolfdisk/src/fuse/filesystem.rs leave behind.
use wolf_scale.Base.{
  ℕ, ◌≡◌, refl, ap, sym, ◌∙◌, String, Bool, true, false, Option, none, some, List, [], ◌∷◌, arith,
  if◌then◌else◌, Bool-cases, inl, inr, Member, length, length-append, get-take_out,
}
use wolf_scale.Wolfdisk.Paths.{FilePath, join, path_eq, path_eq_iff, path_eq_refl}
use wolf_scale.Wolfdisk.Chunks.{ChunkRef, ChunkStore, exists, delete}
use wolf_scale.Wolfdisk.Index.{FileEntry, FileIndex, entry_of, has_children}
use wolf_scale.Wolfdisk.Inodes.{get_inode}
use wolf_scale.Wolfdisk.Cluster.{ClusterManager}
use wolf_scale.Wolfdisk.Filesystem.{
  WolfDiskFs, Outcome, done, IndexOperation, Message, is_leader, parent_path, delete_chunks,
  broadcast_with, broadcast_index_update, queue_message, broadcast_file_sync_final,
}
use wolf_scale.Wolfdisk.Filesystem.Entries.{at}
use wolf_scale.Wolfdisk.Filesystem.Removal.{
  rename, rename_at, rename_found, rename_over, move_entry, unlink, unlink_at, unlink_found,
  drop_file, forget_writes, announce_unlink, delete_signal, chunks_of,
}
use wolf_scale.Wolfdisk.Filesystem.Sound.{entry_of-add_entry, entry_of-remove_entry}

-- A broadcast changes neither the index nor the store.
SameFiles : WolfDiskFs → WolfDiskFs → Type 0
SameFiles fs fs' = (fs.file_index ≡ fs'.file_index) × (fs.chunk_store ≡ fs'.chunk_store)

either :
    (P : WolfDiskFs → Type 0) (b : Bool) (x y : WolfDiskFs) → P x → P y → P (if b then x else y)
either P true x y p q = p
either P false x y p q = q

broadcast_with-SameFiles :
    (op : IndexOperation) (fs : WolfDiskFs) (o : Option ClusterManager)
    → SameFiles (broadcast_with op fs o) fs
unfolding SameFiles
broadcast_with-SameFiles op fs none = (refl, refl)
broadcast_with-SameFiles op fs (some m) = (refl, refl)

queue_message-SameFiles :
    (m : Message) (fs : WolfDiskFs) (o : Option ClusterManager)
    → SameFiles (queue_message m fs o) fs
unfolding SameFiles
queue_message-SameFiles m fs none = (refl, refl)
queue_message-SameFiles m fs (some _) = (refl, refl)

broadcast-SameFiles :
    (op : IndexOperation) (fs : WolfDiskFs) → SameFiles (broadcast_index_update op fs) fs
unfolding SameFiles broadcast_index_update
broadcast-SameFiles op fs =
    either (λ s. SameFiles s fs) (is_leader fs) (broadcast_with op fs fs.cluster) fs
      (broadcast_with-SameFiles op fs fs.cluster) (refl, refl)

file_sync-SameFiles :
    (p : FilePath) (e : FileEntry) (fs : WolfDiskFs)
    → SameFiles (broadcast_file_sync_final p e fs) fs
unfolding SameFiles broadcast_file_sync_final
file_sync-SameFiles p e fs =
    either (λ s. SameFiles s fs) (is_leader fs)
      (queue_message (Message.file_sync p e) fs fs.cluster) fs
      (queue_message-SameFiles (Message.file_sync p e) fs fs.cluster) (refl, refl)

announce_unlink-SameFiles :
    (now : ℕ) (p : FilePath) (fs : WolfDiskFs) → SameFiles (announce_unlink now p fs) fs
unfolding SameFiles
announce_unlink-SameFiles now p fs =
    let told = broadcast_index_update (IndexOperation.delete p) fs in
    let one = file_sync-SameFiles p (delete_signal now) told in
    let two = broadcast-SameFiles (IndexOperation.delete p) fs in (one.0 ∙ two.0, one.1 ∙ two.1)

forget-SameFiles : (o : Option ℕ) (fs : WolfDiskFs) → SameFiles (forget_writes o fs) fs
unfolding SameFiles forget_writes
forget-SameFiles none fs = (refl, refl)
forget-SameFiles (some i) fs = (refl, refl)

join-ne-dir : (dir : FilePath) (name : String) → join dir name ≡ dir → ⊥
join-ne-dir dir name h = omega (arith, length-append dir (name ∷ []), ap (length {0}) h)

-- When the leader renames a directory to a path that is not indexed, each entry in the directory
-- keeps its old path, of which the directory is no longer indexed.
pub rename_orphans :
    (answer : Outcome (Unit {0})) (parent : ℕ) (name : String) (newparent : ℕ) (newname : String)
    (fs : WolfDiskFs) (dir dir' : FilePath) (entry : FileEntry) (child : String)
    (inside : FileEntry)
    → is_leader fs ≡ true
    → parent_path parent fs ≡ some dir
    → parent_path newparent fs ≡ some dir'
    → entry_of (join dir name) fs.file_index ≡ some entry
    → entry.is_dir ≡ true
    → entry_of (join dir' newname) fs.file_index ≡ none
    → entry_of (join (join dir name) child) fs.file_index ≡ some inside
    → let (reply, fs') = rename answer parent name newparent newname fs in
      (reply ≡ done tt)
      × (entry_of (join (join dir name) child) fs'.file_index ≡ some inside)
      × (entry_of (join dir name) fs'.file_index ≡ none)
unfolding rename rename_at rename_found rename_over move_entry SameFiles
rename_orphans answer parent name newparent newname fs dir dir' entry child inside l h h' e d new
      c =
    let from = join dir name in
    let to = join dir' newname in
    let p = join from child in
    let moved = move_entry from to entry fs in
    let told =
      ap (λ i. entry_of p i) (broadcast-SameFiles (IndexOperation.rename from to) moved).0 in
    let told' =
      ap (λ i. entry_of from i) (broadcast-SameFiles (IndexOperation.rename from to) moved).0 in
    let apart : path_eq from p ≡ false = elim (Bool-cases (path_eq from p)) [
      | inl z ↦ absurd (join-ne-dir from child (sym ((path_eq_iff from p).0 z)))
      | inr z ↦ z
    ] in
    let apart' : path_eq to p ≡ false = elim (Bool-cases (path_eq to p)) [
      | inl z ↦ cc (new, c, ap (λ q. entry_of q fs.file_index) ((path_eq_iff to p).0 z))
      | inr z ↦ z
    ] in
    let apart'' : path_eq to from ≡ false = elim (Bool-cases (path_eq to from)) [
      | inl z ↦ cc (new, e, ap (λ q. entry_of q fs.file_index) ((path_eq_iff to from).0 z))
      | inr z ↦ z
    ] in
    let rest = wolf_scale.Wolfdisk.Index.remove_entry from fs.file_index in
    rw (h, at)
      (rw (h', at)
        (simp (l, e, new)
          (
            refl,
            told
                ∙ entry_of-add_entry to p entry rest
                ∙ simp apart' (entry_of-remove_entry from p fs.file_index ∙ simp apart c),
            told'
                ∙ entry_of-add_entry to from entry rest
                ∙ simp apart''
                    (entry_of-remove_entry from from fs.file_index ∙ simp (path_eq_refl from) refl),
          )))

delete-keeps-absent :
    (h k : ℕ) (s : ChunkStore) → exists h s ≡ false → exists h (delete k s) ≡ false
unfolding exists delete
delete-keeps-absent h k s e = ground (arith, e, get-take_out k h s.files)

delete_chunks-keeps-absent :
    (h : ℕ) (ks : List ChunkRef) (s : ChunkStore)
    → exists h s ≡ false
    → exists h (delete_chunks ks s) ≡ false
unfolding delete_chunks
delete_chunks-keeps-absent h [] s e = e
delete_chunks-keeps-absent h (k ∷ ks) s e =
    delete_chunks-keeps-absent h ks (delete k.hash s) (delete-keeps-absent h k.hash s e)

exists-delete : (h : ℕ) (s : ChunkStore) → exists h (delete h s) ≡ false
unfolding exists delete
exists-delete h s = ground (arith, get-take_out h h s.files)

exists-delete_chunks :
    (k : ChunkRef) (ks : List ChunkRef) (s : ChunkStore)
    → Member k ks
    → exists k.hash (delete_chunks ks s) ≡ false
unfolding delete_chunks
exists-delete_chunks k [] s m = absurd m
exists-delete_chunks k (j ∷ ks) s (inl e) =
    delete_chunks-keeps-absent k.hash ks (delete j.hash s)
      (rw (ap (λ (r : ChunkRef). r.hash) e) (exists-delete k.hash s))
exists-delete_chunks k (j ∷ ks) s (inr m) = exists-delete_chunks k ks (delete j.hash s) m

-- A chunk that a file refers to is not in the store.
unfoldable pub HasLost : FileEntry → ChunkStore → Type 0
HasLost entry s = (k : ChunkRef) × Member k entry.chunks × (exists k.hash s ≡ false)

-- When the leader unlinks a file that has a chunk in common with another, as a hard link has, the
-- other is still indexed as it was and has lost the chunk.
pub unlink_takes_shared_chunks :
    (answer : Outcome (Unit {0})) (now parent : ℕ) (name : String) (fs : WolfDiskFs)
    (dir : FilePath) (entry : FileEntry) (q : FilePath) (other : FileEntry) (k : ChunkRef)
    → is_leader fs ≡ true
    → parent_path parent fs ≡ some dir
    → entry_of (join dir name) fs.file_index ≡ some entry
    → entry.is_dir ≡ false
    → (q ≡ join dir name → ⊥)
    → entry_of q fs.file_index ≡ some other
    → Member k entry.chunks
    → Member k other.chunks
    → let fs' = (unlink answer now parent name fs).1 in
      (entry_of q fs'.file_index ≡ some other) × HasLost other fs'.chunk_store
unfolding unlink unlink_at unlink_found drop_file HasLost SameFiles forget_writes
unlink_takes_shared_chunks answer now parent name fs dir entry q other k l h e file ne o m m' =
    let path = join dir name in
    let forgotten = forget_writes (get_inode path fs.inode_table) fs in
    let dropped = drop_file path forgotten in
    let same = announce_unlink-SameFiles now path dropped in
    let kept = forget-SameFiles (get_inode path fs.inode_table) fs in
    let apart : path_eq path q ≡ false = elim (Bool-cases (path_eq path q)) [
      | inl z ↦ absurd (ne (sym ((path_eq_iff path q).0 z)))
      | inr z ↦ z
    ] in
    rw (h, at)
      (simp (l, e, file)
        (
          ap (entry_of q) same.0
              ∙ entry_of-remove_entry path q forgotten.file_index
              ∙ simp apart (ap (entry_of q) kept.0 ∙ o),
          (
            k,
            m',
            ap (exists k.hash) same.1
                ∙ exists-delete_chunks k (chunks_of (entry_of path forgotten.file_index))
                    forgotten.chunk_store (rw (ap (entry_of path) kept.0 ∙ e) m),
          ),
        ))
