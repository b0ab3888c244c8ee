-- ===== src/Wolfdisk/Filesystem/Attributes.antt =====
-- `setattr` of wolfdisk/src/fuse/filesystem.rs. What the leader answers to a call that is forwarded is
-- an argument; a time is given as the value that `Now` or a specific time comes to.
use wolf_scale.Base.{
  ℕ, Bool, true, false, Option, none, some, [], ◌==◌, ◌||◌, ltb, keep, not, if◌then◌else◌, take_out,
}
use wolf_scale.Wolfdisk.Paths.{FilePath}
use wolf_scale.Wolfdisk.Chunks.{ChunkRef, ChunkStore}
use wolf_scale.Wolfdisk.Index.{FileEntry, entry_of, add_entry, is_some}
use wolf_scale.Wolfdisk.Inodes.{root_inode, get_path}
use wolf_scale.Wolfdisk.Filesystem.{
  WolfDiskFs, Request, Outcome, done, error, enoent, FileAttr, entry_to_attr, is_leader,
  broadcast_file_sync_final, delete_chunks,
}
use wolf_scale.Wolfdisk.Filesystem.Entries.{root_attr}
use wolf_scale.Wolfdisk.Filesystem.Clients.{truncate_back}

-- The attributes that a call changes
pub record Change : Type 0 where
  pub mode : Option ℕ
  pub uid : Option ℕ
  pub gid : Option ℕ
  pub size : Option ℕ
  pub atime : Option ℕ
  pub mtime : Option ℕ

abbrev pub or_old : Option ℕ → ℕ → ℕ
or_old none old = old
or_old (some new) old = new

abbrev pub changed : Change → FileEntry → FileEntry
changed c e = record e {
  permissions = or_old c.mode e.permissions;
  uid = or_old c.uid e.uid;
  gid = or_old c.gid e.gid;
  accessed = or_old c.atime e.accessed;
  modified = or_old c.mtime e.modified;
}

-- The leader's change of the size; the chunks of a file of size 0 go from the store.
abbrev pub truncated : Option ℕ → FileEntry → FileEntry
truncated none e = e
truncated (some n) e =
    if n == 0
    then record e { chunks = []; size = 0 }
    else if ltb n e.size
    then record e { chunks = keep (λ (k : ChunkRef). ltb k.offset n) e.chunks; size = n }
    else record e { size = n }

abbrev pub cleared : Option ℕ → FileEntry → ChunkStore → ChunkStore
cleared none e s = s
cleared (some n) e s = if n == 0 then delete_chunks e.chunks s else s

-- A follower keeps the chunks of a file that is not empty.
abbrev pub truncated_here : Option ℕ → FileEntry → FileEntry
truncated_here none e = e
truncated_here (some n) e =
    if n == 0 then record e { chunks = []; size = 0 } else record e { size = n }

abbrev pub drop_buffer : ℕ → Option ℕ → WolfDiskFs → WolfDiskFs
drop_buffer ino none fs = fs
drop_buffer ino (some n) fs = record fs { write_buffers = take_out ino fs.write_buffers }

abbrev pub sync_size : Option ℕ → FilePath → FileEntry → WolfDiskFs → WolfDiskFs
sync_size none path e fs = fs
sync_size (some n) path e fs = broadcast_file_sync_final path e fs

abbrev pub lead_change :
    ℕ → FilePath → Change → WolfDiskFs → Option FileEntry → Outcome FileAttr × WolfDiskFs
lead_change ino path c fs none = (error enoent, fs)
lead_change ino path c fs (some e) =
    let e' = changed c (truncated c.size e) in
    (
      done (entry_to_attr e' ino),
      sync_size c.size path e' (record fs {
        file_index = add_entry path e' fs.file_index;
        chunk_store = cleared c.size e fs.chunk_store;
        index_dirty = true;
      }),
    )

abbrev pub change_here :
    ℕ → FilePath → Change → WolfDiskFs → Option FileEntry → Outcome FileAttr × WolfDiskFs
change_here ino path c fs none = (error enoent, fs)
change_here ino path c fs (some e) =
    let e' = changed c (truncated_here c.size e) in
    (
      done (entry_to_attr e' ino),
      record fs {
        file_index = add_entry path e' fs.file_index;
        chunk_store = cleared c.size e fs.chunk_store;
      },
    )

-- The part of a follower's call that changes its entry, with the state before it
abbrev pub change_local : ℕ → FilePath → Change → WolfDiskFs → Outcome FileAttr × WolfDiskFs
change_local ino path c fs = change_here ino path c fs (entry_of path fs.file_index)

abbrev pub unless_refused :
    Bool
    → Outcome (Unit {0})
    → WolfDiskFs
    → Outcome FileAttr × WolfDiskFs
    → Outcome FileAttr × WolfDiskFs
unless_refused false answer fs next = next
unless_refused true (error e) fs next = (error e, fs)
unless_refused true (done _) fs next = next

-- A truncation waits in the cache; the other changes are forwarded first.
abbrev pub follow_change :
    Outcome (Unit {0})
    → ℕ
    → FilePath
    → Change
    → WolfDiskFs
    → Option ℕ
    → Outcome FileAttr × WolfDiskFs
follow_change answer ino path c fs (some n) = change_local ino path c (truncate_back ino path n fs)
follow_change answer ino path c fs none =
    unless_refused (is_some c.mode || (is_some c.uid || is_some c.gid)) answer fs
      (change_local ino path c fs)

unfoldable pub setattr_at :
    Outcome (Unit {0}) → ℕ → Change → WolfDiskFs → FilePath → Outcome FileAttr × WolfDiskFs
setattr_at answer ino c fs path =
    let fs' = drop_buffer ino c.size fs in
    if not (is_leader fs')
    then follow_change answer ino path c fs' c.size
    else lead_change ino path c fs' (entry_of path fs'.file_index)

abbrev pub setattr_known :
    Outcome (Unit {0}) → ℕ → Change → WolfDiskFs → Option FilePath → Outcome FileAttr × WolfDiskFs
setattr_known answer ino c fs none = (error enoent, fs)
setattr_known answer ino c fs (some path) = setattr_at answer ino c fs path

unfoldable pub setattr :
    Outcome (Unit {0}) → ℕ → Request → ℕ → Change → WolfDiskFs → Outcome FileAttr × WolfDiskFs
setattr answer now user ino c fs =
    if ino == root_inode
    then (done (root_attr now user), fs)
    else setattr_known answer ino c fs (get_path ino fs.inode_table)
