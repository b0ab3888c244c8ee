-- ===== src/Wolfdisk/Filesystem/Tests.antt =====
-- The calls of wolfdisk/src/fuse/filesystem.rs, run.
use wolf_scale.Base.{
  ℕ, ◌≡◌, refl, String, true, false, none, some, List, [], ◌∷◌, Member, inl, inr, length,
}
use wolf_scale.Base
use wolf_scale.Wolfdisk.Paths.{FilePath, path_eq, path_eq_iff}
use wolf_scale.Wolfdisk.Paths
use wolf_scale.Wolfdisk.Chunks.{ChunkRef}
use wolf_scale.Wolfdisk.Chunks
use wolf_scale.Wolfdisk.Index.{FileEntry, FileIndex, entry_of, paths}
use wolf_scale.Wolfdisk.Index
use wolf_scale.Wolfdisk.Inodes
use wolf_scale.Wolfdisk.Inodes.Agreement.{Apart}
use wolf_scale.Wolfdisk.Filesystem.{
  WolfDiskFs, Request, Outcome, done, error, enotempty, parent_path, start, entry_to_attr,
}
use wolf_scale.Wolfdisk.Filesystem
use wolf_scale.Wolfdisk.Filesystem.Buffers
use wolf_scale.Wolfdisk.Filesystem.Syncs
use wolf_scale.Wolfdisk.Cluster.{ClusterManager}
use wolf_scale.Wolfdisk.Cluster
use wolf_scale.Wolfdisk.Filesystem.Entries.{create, new_entry, forwarded}
use wolf_scale.Wolfdisk.Filesystem.Entries
use wolf_scale.Wolfdisk.Filesystem.Removal.{rename, unlink, rmdir}
use wolf_scale.Wolfdisk.Filesystem.Removal
use wolf_scale.Wolfdisk.Filesystem.Valid.{IsValid}
use wolf_scale.Wolfdisk.Filesystem.Runs.{
  Call, make_file, write_file, flush_file, remove_file, remove_dir, call, run, AllAllowed,
  IsAllowed, run_from_start-IsValid,
}
use wolf_scale.Wolfdisk.Filesystem.Losses.{HasLost, unlink_takes_shared_chunks}

abbrev user : Request
user = record { uid = 1; gid = 2 }

abbrev chunk : ChunkRef
chunk = record { hash = 77; offset = 0; size = 3 }

abbrev file : FileEntry
file = record (new_entry false 420 5 user) { size = 3; chunks = chunk ∷ [] }

abbrev folder : FileEntry
folder = new_entry true 493 5 user

-- A directory with a file in it, and a file with the same content
abbrev index : FileIndex
index = record {
  entries = ("d" ∷ [], folder) ∷ ("d" ∷ "f" ∷ [], file) ∷ ("g" ∷ [], file) ∷ [];
  version = 1;
}

abbrev fs : WolfDiskFs
fs = start index 4 none

differ : (p q : FilePath) → path_eq p q ≡ false → p ≡ q → ⊥
differ p q n e = cc (n, (path_eq_iff p q).1 e)

paths-Apart : Apart (paths index)
unfolding Apart
paths-Apart = (
  (λ m. elim m [
    | inl e ↦ differ ("d" ∷ "f" ∷ []) ("d" ∷ []) refl e
    | inr (inl e) ↦ differ ("g" ∷ []) ("d" ∷ []) refl e
    | inr (inr n) ↦ absurd n
  ]),
  (
    (λ m. elim m [ inl e ↦ differ ("g" ∷ []) ("d" ∷ "f" ∷ []) refl e | inr n ↦ absurd n ]),
    ((λ n. absurd n), tt),
  ),
)

no_root : Member [] (paths index) → ⊥
no_root (inl e) = cc e
no_root (inr (inl e)) = cc e
no_root (inr (inr (inl e))) = cc e
no_root (inr (inr (inr n))) = absurd n

-- A node that leads its cluster
abbrev manager : ClusterManager
manager = record (Cluster.new 0 "n1" Cluster.NodeRole.auto_role) {
  state = Cluster.ClusterState.leading;
}

abbrev leader : WolfDiskFs
leader = start index 4 (some manager)

-- Two bytes are written into a new file.
abbrev calls : List Call
calls =
    remove_file 9 2 "f"
    ∷ make_file 9 user 2 "h" 420
    ∷ write_file length 9 5 0 (7 ∷ 8 ∷ [])
    ∷ flush_file length 9 5
    ∷ remove_dir 1 "d"
    ∷ []

calls-AllAllowed : AllAllowed calls leader
unfolding AllAllowed IsAllowed call Filesystem.is_leader unlink parent_path Inodes.get_path Base.get
    Inodes.from_index Inodes.add Base.put Inodes.new Removal.unlink_at Removal.unlink_found entry_of
    Base.find Filesystem.broadcast_file_sync_final Filesystem.broadcast_index_update
    Removal.drop_file Removal.forget_writes Inodes.get_inode Base.set Base.unset Base.take_out
    wolf_scale.Wolfdisk.Cache.remove wolf_scale.Wolfdisk.Cache.remove_first Chunks.delete Chunks.new
    create Entries.create_at rename Removal.rename_at Removal.rename_found Removal.rename_over
    Removal.move_entry Removal.move_inode rmdir Removal.rmdir_at Removal.rmdir_found
    Removal.drop_dir Filesystem.delete_chunks entry_to_attr Filesystem.link_in
    Filesystem.open_handle Index.add_entry Index.contains Index.has_children Index.remove_entry
    Inodes.remove_path Paths.is_child Paths.parent start Cluster.record_change Cluster.is_leader
    Cluster.new Paths.path_text Buffers.write Buffers.buffer_write Buffers.flush_full Buffers.stream
    Buffers.mark_dirty Syncs.flush Buffers.flush_write_buffer Buffers.flush_content
calls-AllAllowed = (refl, tt, (refl, tt, (refl, tt, (refl, tt, (refl, tt, tt)))))

run_from_start-IsValid_example : IsValid (run calls leader)
run_from_start-IsValid_example =
    run_from_start-IsValid index 4 (some manager) calls paths-Apart no_root calls-AllAllowed

unlink_takes_shared_chunks_example :
    let fs' = (unlink (done tt) 9 2 "f" fs).1 in
    (entry_of ("g" ∷ []) fs'.file_index ≡ some file) × HasLost file fs'.chunk_store
unfolding Filesystem.is_leader unlink parent_path Inodes.get_path Base.get Inodes.from_index
    Inodes.add Base.put Inodes.new Removal.unlink_at Removal.unlink_found entry_of Base.find
    Filesystem.broadcast_file_sync_final Filesystem.broadcast_index_update Removal.drop_file
    Removal.forget_writes Inodes.get_inode Base.set Base.unset Base.take_out
    wolf_scale.Wolfdisk.Cache.remove wolf_scale.Wolfdisk.Cache.remove_first Chunks.delete Chunks.new
    create Entries.create_at rename Removal.rename_at Removal.rename_found Removal.rename_over
    Removal.move_entry Removal.move_inode rmdir Removal.rmdir_at Removal.rmdir_found
    Removal.drop_dir Filesystem.delete_chunks entry_to_attr Filesystem.link_in
    Filesystem.open_handle Index.add_entry Index.contains Index.has_children Index.remove_entry
    Inodes.remove_path Paths.is_child Paths.parent start
unlink_takes_shared_chunks_example =
    unlink_takes_shared_chunks (done tt) 9 2 "f" fs ("d" ∷ []) file ("g" ∷ []) file chunk refl refl
      refl refl (differ ("g" ∷ []) ("d" ∷ "f" ∷ []) refl) refl (inl refl) (inl refl)

-- A directory with an entry in it is not removed, and an entry of another name is.
refused : (rmdir (done tt) 1 "d" fs).0 ≡ error enotempty
unfolding Filesystem.is_leader unlink parent_path Inodes.get_path Base.get Inodes.from_index
    Inodes.add Base.put Inodes.new Removal.unlink_at Removal.unlink_found entry_of Base.find
    Filesystem.broadcast_file_sync_final Filesystem.broadcast_index_update Removal.drop_file
    Removal.forget_writes Inodes.get_inode Base.set Base.unset Base.take_out
    wolf_scale.Wolfdisk.Cache.remove wolf_scale.Wolfdisk.Cache.remove_first Chunks.delete Chunks.new
    create Entries.create_at rename Removal.rename_at Removal.rename_found Removal.rename_over
    Removal.move_entry Removal.move_inode rmdir Removal.rmdir_at Removal.rmdir_found
    Removal.drop_dir Filesystem.delete_chunks entry_to_attr Filesystem.link_in
    Filesystem.open_handle Index.add_entry Index.contains Index.has_children Index.remove_entry
    Inodes.remove_path Paths.is_child Paths.parent start
refused = refl

removed : (rmdir (done tt) 1 "d" (run (remove_file 9 2 "f" ∷ []) fs)).0 ≡ done tt
unfolding run call Filesystem.is_leader unlink parent_path Inodes.get_path Base.get
    Inodes.from_index Inodes.add Base.put Inodes.new Removal.unlink_at Removal.unlink_found entry_of
    Base.find Filesystem.broadcast_file_sync_final Filesystem.broadcast_index_update
    Removal.drop_file Removal.forget_writes Inodes.get_inode Base.set Base.unset Base.take_out
    wolf_scale.Wolfdisk.Cache.remove wolf_scale.Wolfdisk.Cache.remove_first Chunks.delete Chunks.new
    create Entries.create_at rename Removal.rename_at Removal.rename_found Removal.rename_over
    Removal.move_entry Removal.move_inode rmdir Removal.rmdir_at Removal.rmdir_found
    Removal.drop_dir Filesystem.delete_chunks entry_to_attr Filesystem.link_in
    Filesystem.open_handle Index.add_entry Index.contains Index.has_children Index.remove_entry
    Inodes.remove_path Paths.is_child Paths.parent start
removed = refl
