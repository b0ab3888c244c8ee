-- ===== src/Wolfdisk/Filesystem/Removal.antt =====
-- `unlink`, `rmdir` and `rename` of wolfdisk/src/fuse/filesystem.rs. What the leader answers to a call
-- that is forwarded is an argument.
use wolf_scale.Base.{
  ℕ, ◌^◌, ◌-◌, String, false, Option, none, some, List, [], ◌==◌, not, ◌&&◌, if◌then◌else◌,
  take_out, keep,
}
use wolf_scale.Wolfdisk.Paths.{FilePath}
use wolf_scale.Wolfdisk.Chunks.{ChunkRef}
use wolf_scale.Wolfdisk.Index.{FileEntry, entry_of, add_entry, remove_entry, has_children}
use wolf_scale.Wolfdisk.Inodes.{InodeTable, get_inode, remove_path, remove_inode, add}
use wolf_scale.Wolfdisk.Filesystem.{
  WolfDiskFs, Outcome, done, error, enoent, eisdir, enotdir, enotempty, IndexOperation, is_leader,
  broadcast_index_update, broadcast_file_sync_final, delete_chunks,
}
use wolf_scale.Wolfdisk.Filesystem.Entries.{at, forwarded}

abbrev pub Reply : Type 0
Reply = Outcome (Unit {0}) × WolfDiskFs

abbrev pub without_inode_of : ℕ → WolfDiskFs → WolfDiskFs
without_inode_of ino fs = record fs {
  write_buffers = take_out ino fs.write_buffers;
  dirty_inodes = keep (λ i. not (i == ino)) fs.dirty_inodes;
}

unfoldable pub forget_writes : Option ℕ → WolfDiskFs → WolfDiskFs
forget_writes none fs = fs
forget_writes (some ino) fs = without_inode_of ino fs

abbrev pub chunks_of : Option FileEntry → List ChunkRef
chunks_of none = []
chunks_of (some entry) = entry.chunks

-- A file out of the index, its chunks out of the store, and its inode out of the table
unfoldable pub drop_file : FilePath → WolfDiskFs → WolfDiskFs
drop_file path fs = record fs {
  chunk_store = delete_chunks (chunks_of (entry_of path fs.file_index)) fs.chunk_store;
  file_index = remove_entry path fs.file_index;
  inode_table = (remove_path path fs.inode_table).1;
}

-- The entry that tells the followers of a deletion
abbrev pub delete_signal : ℕ → FileEntry
delete_signal now = record {
  size = 2 ^ 64 - 1;
  is_dir = false;
  permissions = 0;
  uid = 0;
  gid = 0;
  created = now;
  modified = now;
  accessed = now;
  chunks = [];
  symlink_target = none;
}

abbrev pub announce_unlink : ℕ → FilePath → WolfDiskFs → WolfDiskFs
announce_unlink now path fs =
    broadcast_file_sync_final path (delete_signal now)
      (broadcast_index_update (IndexOperation.delete path) fs)

unfoldable pub unlink_found : ℕ → FilePath → WolfDiskFs → Option FileEntry → Reply
unlink_found now path fs none = (error enoent, fs)
unlink_found now path fs (some entry) = if entry.is_dir then (error eisdir, fs) else (
  done tt,
  announce_unlink now path (drop_file path (forget_writes (get_inode path fs.inode_table) fs)),
)

unfoldable pub unlink_at : Outcome (Unit {0}) → ℕ → WolfDiskFs → FilePath → Reply
unlink_at answer now fs path =
    if not (is_leader fs)
    then forwarded answer fs (done tt, drop_file path fs)
    else unlink_found now path fs (entry_of path fs.file_index)

unfoldable pub unlink : Outcome (Unit {0}) → ℕ → ℕ → String → WolfDiskFs → Reply
unlink answer now parent name fs = at parent name fs (unlink_at answer now fs)

unfoldable pub drop_dir : FilePath → WolfDiskFs → WolfDiskFs
drop_dir path fs = record fs {
  file_index = remove_entry path fs.file_index;
  inode_table = (remove_path path fs.inode_table).1;
}

unfoldable pub rmdir_found : FilePath → WolfDiskFs → Option FileEntry → Reply
rmdir_found path fs none = (error enoent, fs)
rmdir_found path fs (some entry) =
    if not entry.is_dir
    then (error enotdir, fs)
    else if has_children path fs.file_index
    then (error enotempty, fs)
    else (done tt, broadcast_index_update (IndexOperation.delete path) (drop_dir path fs))

unfoldable pub rmdir_at : Outcome (Unit {0}) → WolfDiskFs → FilePath → Reply
rmdir_at answer fs path =
    if not (is_leader fs)
    then forwarded answer fs (done tt, drop_dir path fs)
    else rmdir_found path fs (entry_of path fs.file_index)

unfoldable pub rmdir : Outcome (Unit {0}) → ℕ → String → WolfDiskFs → Reply
rmdir answer parent name fs = at parent name fs (rmdir_at answer fs)

-- An inode from one path to another
abbrev pub move_inode_as : FilePath → FilePath → InodeTable → Option ℕ → InodeTable
move_inode_as from to t none = t
move_inode_as from to t (some ino) = add ino to ((remove_path from t).1)

unfoldable pub move_inode : FilePath → FilePath → InodeTable → InodeTable
move_inode from to t = move_inode_as from to t (get_inode from t)

abbrev pub drop_inode_as : InodeTable → Option ℕ → InodeTable
drop_inode_as t none = t
drop_inode_as t (some ino) = (remove_inode ino t).1

-- What is at the destination of `rename`, removed
unfoldable pub drop_target : FilePath → FileEntry → WolfDiskFs → WolfDiskFs
drop_target to target fs = record fs {
  chunk_store = delete_chunks target.chunks fs.chunk_store;
  inode_table = drop_inode_as fs.inode_table (get_inode to fs.inode_table);
  file_index = remove_entry to fs.file_index;
}

unfoldable pub move_entry : FilePath → FilePath → FileEntry → WolfDiskFs → WolfDiskFs
move_entry from to entry fs = record fs {
  file_index = add_entry to entry (remove_entry from fs.file_index);
  inode_table = move_inode from to fs.inode_table;
}

abbrev pub finish_rename : FilePath → FilePath → FileEntry → WolfDiskFs → Reply
finish_rename from to entry fs =
    (done tt, broadcast_index_update (IndexOperation.rename from to) (move_entry from to entry fs))

unfoldable pub rename_over : FilePath → FilePath → FileEntry → WolfDiskFs → Option FileEntry → Reply
rename_over from to entry fs none = finish_rename from to entry fs
rename_over from to entry fs (some target) =
    if target.is_dir && has_children to fs.file_index
    then (error enotempty, fs)
    else finish_rename from to entry (drop_target to target fs)

unfoldable pub rename_found : FilePath → FilePath → WolfDiskFs → Option FileEntry → Reply
rename_found from to fs none = (error enoent, fs)
rename_found from to fs (some entry) = rename_over from to entry fs (entry_of to fs.file_index)

-- A follower moves the entry and the inode, each if it is there.
abbrev pub move_known : FilePath → FilePath → WolfDiskFs → Option FileEntry → WolfDiskFs
move_known from to fs none = record fs { inode_table = move_inode from to fs.inode_table }
move_known from to fs (some entry) = move_entry from to entry fs

unfoldable pub rename_at : Outcome (Unit {0}) → FilePath → WolfDiskFs → FilePath → Reply
rename_at answer from fs to =
    if not (is_leader fs)
    then forwarded answer fs (done tt, move_known from to fs (entry_of from fs.file_index))
    else rename_found from to fs (entry_of from fs.file_index)

unfoldable pub rename : Outcome (Unit {0}) → ℕ → String → ℕ → String → WolfDiskFs → Reply
rename answer parent name newparent newname fs =
    at parent name fs (λ from. at newparent newname fs (rename_at answer from fs))
