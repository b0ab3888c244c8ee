-- ===== src/Wolfdisk/Replicas/Tests.antt =====
-- A leader and its follower (wolfdisk/src/main.rs), run.
use wolf_scale.Base.{ℕ, ◌≡◌, refl, true, false, none, some, List, [], ◌∷◌}
use wolf_scale.Base
use wolf_scale.Wolfdisk.Paths.{FilePath, path_eq, path_eq_iff}
use wolf_scale.Wolfdisk.Paths
use wolf_scale.Wolfdisk.Cache
use wolf_scale.Wolfdisk.Chunks
use wolf_scale.Wolfdisk.Cluster.{ClusterManager, ClusterState, leading}
use wolf_scale.Wolfdisk.Cluster
use wolf_scale.Wolfdisk.Index.{FileEntry, FileIndex, entry_of}
use wolf_scale.Wolfdisk.Index
use wolf_scale.Wolfdisk.Inodes
use wolf_scale.Wolfdisk.Filesystem.{
  WolfDiskFs, Request, start, Message, index_update, file_sync_data, mkdir, upsert, rename, delete,
}
use wolf_scale.Wolfdisk.Filesystem
use wolf_scale.Wolfdisk.Filesystem.Entries.{new_entry}
use wolf_scale.Wolfdisk.Filesystem.Entries
use wolf_scale.Wolfdisk.Filesystem.Removal
use wolf_scale.Wolfdisk.Filesystem.Valid.{IsValid}
use wolf_scale.Wolfdisk.Filesystem.Runs.{
  Call, make_dir, make_file, remove_file, move, call, run, IsAllowed, run_from_start-IsValid,
  AllAllowed,
}
use wolf_scale.Wolfdisk.Inodes.Agreement.{Apart}
use wolf_scale.Wolfdisk.Replicas.{
  deliver, handle, handle_file_sync, store_all, ensure_inode, put_entry,
}
use wolf_scale.Wolfdisk.Replicas.Tables.{AllFit, IsFit, deliver-IsValid}
use wolf_scale.Wolfdisk.Replicas.Mirror.{Mirrors}
use wolf_scale.Wolfdisk.Replicas.Followers.{Leads, Follows, AllTold, IsTold, run-Follows}

abbrev user : Request
user = record { uid = 1; gid = 2 }

abbrev index : FileIndex
index = record { entries = ("a" ∷ [], new_entry false 420 5 user) ∷ []; version = 1 }

abbrev follower : WolfDiskFs
follower = start index 4 none

abbrev manager : ClusterManager
manager = record (Cluster.new 0 "n1" Cluster.NodeRole.auto_role) { state = leading }

abbrev leader : WolfDiskFs
leader = start index 4 (some manager)

differ : (p q : FilePath) → path_eq p q ≡ false → p ≡ q → ⊥
differ p q n e = cc (n, (path_eq_iff p q).1 e)

alike : Follows false 9 follower leader
unfolding Follows Mirrors deliver start
alike p = refl

abbrev calls : List Call
calls =
    make_dir 6 user 1 "d" 493
    ∷ move 1 "a" 3 "b"
    ∷ make_file 7 user 1 "a" 420
    ∷ remove_file 8 3 "b"
    ∷ []

calls-AllTold : AllTold calls leader
unfolding AllTold IsTold IsAllowed Leads call Filesystem.is_leader Filesystem.parent_path
    Inodes.get_path Base.get Inodes.from_index Inodes.add Base.put Inodes.new Removal.unlink
    Removal.unlink_at Removal.unlink_found entry_of Base.find Filesystem.broadcast_file_sync_final
    Filesystem.broadcast_index_update Removal.drop_file Removal.forget_writes Inodes.get_inode
    Base.set Base.unset Base.take_out Cache.remove Cache.remove_first Chunks.delete Chunks.new
    Entries.create Entries.create_at Entries.mkdir Entries.mkdir_at Removal.rename Removal.rename_at
    Removal.rename_found Removal.rename_over Removal.move_entry Removal.move_inode
    Filesystem.delete_chunks Filesystem.entry_to_attr Filesystem.link_in Filesystem.open_handle
    Index.add_entry Index.contains Index.remove_entry Inodes.remove_path start Cluster.record_change
    Cluster.is_leader Cluster.new Paths.path_text
calls-AllTold = (
  (manager, refl, refl),
  tt,
  tt,
  (
    (_, refl, refl),
    (λ dir dir' e e' z. differ ("a" ∷ []) ("d" ∷ "b" ∷ []) refl (cc (e, e', z))),
    tt,
    ((_, refl, refl), tt, tt, ((_, refl, refl), tt, tt, tt)),
  ),
)

run-Follows_example : Follows false 9 follower (run calls leader)
run-Follows_example = run-Follows false 9 follower calls leader calls-AllTold alike

abbrev written : FileEntry
written = record (new_entry false 420 5 user) {
  size = 3;
  chunks =
      record { hash = 4; offset = 0; size = 2 } ∷ record { hash = 6; offset = 2; size = 1 } ∷ [];
}

-- What the leader sends of a file that is written, in two batches of chunks, and then deleted
abbrev sent : List Message
sent =
    file_sync_data ("a" ∷ "b" ∷ []) written ((4, 1 ∷ 2 ∷ []) ∷ [])
    ∷ file_sync_data ("a" ∷ "b" ∷ []) (record written { chunks = [] }) ((6, 3 ∷ []) ∷ [])
    ∷ index_update 3 (delete ("a" ∷ "b" ∷ []))
    ∷ []

only_a : Apart (Index.paths index)
unfolding Apart
only_a = ((λ m. absurd m), tt)

no_root : Base.Member [] (Index.paths index) → ⊥
no_root (Base.inl e) = cc e
no_root (Base.inr m) = absurd m

follower-IsValid : IsValid follower
unfolding run AllAllowed
follower-IsValid = run_from_start-IsValid index 4 none [] only_a no_root tt

sent-AllFit : AllFit false 9 sent follower
unfolding AllFit IsFit handle handle_file_sync store_all ensure_inode put_entry start entry_of
    Base.find Base.set Index.add_entry Inodes.get_inode Inodes.add Chunks.store_with_hash
    Inodes.from_index Inodes.new Chunks.new
sent-AllFit = (((λ e. cc e), (λ e. cc e)), (((λ e. cc e), (λ e. (_, refl))), ((λ e. cc e), tt)))

deliver-IsValid_example : IsValid (deliver false 9 sent follower)
deliver-IsValid_example = deliver-IsValid false 9 sent follower sent-AllFit follower-IsValid
