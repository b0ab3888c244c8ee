-- ===== src/Wolfdisk/Filesystem/Runs.antt =====
-- Whole runs of the leader's calls of wolfdisk/src/fuse/filesystem.rs, from the start on.
use wolf_scale.Base.{
  ℕ, suc, ◌≡◌, refl, ◌∙◌, String, Bool, true, false, ◌||◌, Option, none, some, List, [], ◌∷◌, arith,
  if◌then◌else◌, Bool-cases, inl, inr, Member, any, find,
}
use wolf_scale.Wolfdisk.Paths.{FilePath, join, join-ne-nil, path_eq, path_eq_iff, path_keys}
use wolf_scale.Wolfdisk.Index.{FileEntry, FileIndex, entry_of, is_some, paths_of, paths}
use wolf_scale.Wolfdisk.Inodes.{InodeTable, new, add, assign, from_index, get_path, get_inode}
use wolf_scale.Wolfdisk.Inodes.Agreement.{Agrees, Apart, FreeAbove, AllFresh, run-from_index-Agrees}
use wolf_scale.Wolfdisk.Cluster.{ClusterManager}
use wolf_scale.Wolfdisk.Filesystem.{WolfDiskFs, Request, done, is_leader, parent_path, start}
use wolf_scale.Wolfdisk.Filesystem.Entries.{
  at, mkdir, mkdir_at, create, create_at, symlink, symlink_at, mknod_at, link, link_known,
  link_from, mknod, open_file,
}
use wolf_scale.Wolfdisk.Filesystem.Removal.{unlink, unlink_at, rmdir, rmdir_at, rename, rename_at}
use wolf_scale.Wolfdisk.Filesystem.Attributes.{Change, setattr}
use wolf_scale.Wolfdisk.Filesystem.Buffers.{write, release}
use wolf_scale.Wolfdisk.Filesystem.Syncs.{flush, fsync}
use wolf_scale.Wolfdisk.Filesystem.Written.{
  setattr-IsValid, write-IsValid, flush-IsValid, fsync-IsValid, release-IsValid,
}
use wolf_scale.Wolfdisk.Filesystem.Sound.{get_inode-add}
use wolf_scale.Wolfdisk.Filesystem.Valid.{
  IsValid, at-IsValid, mkdir_at-IsValid, create_at-IsValid, symlink_at-IsValid, link_from-IsValid,
  mknod_at-IsValid, unlink_at-IsValid, rmdir_at-IsValid, rename_at-IsValid, open_file-IsValid,
}

-- The calls that change something. SHA-256 comes with those that store chunks.
pub data Call : Type 0 where
  make_dir make_file make_node :
      (now : ℕ) (req : Request) (parent : ℕ) (name : String) (mode : ℕ) → Call
  make_symlink :
      (now : ℕ) (req : Request) (parent : ℕ) (name : String) (size : ℕ) (target : String) → Call
  make_link : (now : ℕ) (req : Request) (ino newparent : ℕ) (newname : String) → Call
  remove_file : (now parent : ℕ) (name : String) → Call
  remove_dir : (parent : ℕ) (name : String) → Call
  move : (parent : ℕ) (name : String) (newparent : ℕ) (newname : String) → Call
  open_inode : ℕ → Call
  change_file : (now : ℕ) (req : Request) (ino : ℕ) (change : Change) → Call
  write_file : (sha256 : List ℕ → ℕ) (now ino offset : ℕ) (content : List ℕ) → Call
  flush_file sync_file : (sha256 : List ℕ → ℕ) (now ino : ℕ) → Call
  release_file : (sha256 : List ℕ → ℕ) (now ino fh : ℕ) (due : Bool) → Call

-- The leader forwards nothing, so the answer that is passed in is not looked at.
unfoldable pub call : Call → WolfDiskFs → WolfDiskFs
call (make_dir now req parent name mode) fs = (mkdir (done tt) now req parent name mode fs).1
call (make_file now req parent name mode) fs = (create (done tt) now req parent name mode fs).1
call (make_node now req parent name mode) fs = (mknod now req parent name mode fs).1
call (make_symlink now req parent name size target) fs =
    (symlink (done tt) now req parent name size target fs).1
call (make_link now req ino newparent newname) fs = (link now req ino newparent newname fs).1
call (remove_file now parent name) fs = (unlink (done tt) now parent name fs).1
call (remove_dir parent name) fs = (rmdir (done tt) parent name fs).1
call (move parent name newparent newname) fs = (rename (done tt) parent name newparent newname fs).1
call (open_inode ino) fs = (open_file ino fs).1
call (change_file now req ino change) fs = (setattr (done tt) now req ino change fs).1
call (write_file sha256 now ino offset content) fs = (write sha256 now ino offset content fs).1
call (flush_file sha256 now ino) fs = (flush sha256 (λ _. done tt) now ino fs).1
call (sync_file sha256 now ino) fs = fsync sha256 now ino fs
call (release_file sha256 now ino fh due) fs = release sha256 now ino fh due fs

-- No entry of that name in that directory
unfoldable pub IsNew : ℕ → String → WolfDiskFs → Type 0
IsNew parent name fs =
    (dir : FilePath)
    → parent_path parent fs ≡ some dir
    → entry_of (join dir name) fs.file_index ≡ none

-- What the kernel sees to: it makes links under new names only, and renames nothing to itself.
unfoldable pub IsAllowed : Call → WolfDiskFs → Type 0
unfolding IsNew
IsAllowed (make_dir _ _ _ _ _) fs = Unit {0}
IsAllowed (make_file _ _ _ _ _) fs = Unit {0}
IsAllowed (make_node _ _ _ _ _) fs = Unit {0}
IsAllowed (make_symlink _ _ parent name _ _) fs = IsNew parent name fs
IsAllowed (make_link _ _ _ newparent newname) fs = IsNew newparent newname fs
IsAllowed (remove_file _ _ _) fs = Unit {0}
IsAllowed (remove_dir _ _) fs = Unit {0}
IsAllowed (move parent name newparent newname) fs =
    (dir dir' : FilePath)
    → parent_path parent fs ≡ some dir
    → parent_path newparent fs ≡ some dir'
    → join dir name ≡ join dir' newname
    → ⊥
IsAllowed (open_inode _) fs = Unit {0}
IsAllowed (change_file _ _ _ _) fs = Unit {0}
IsAllowed (write_file _ _ _ _ _) fs = Unit {0}
IsAllowed (flush_file _ _ _) fs = Unit {0}
IsAllowed (sync_file _ _ _) fs = Unit {0}
IsAllowed (release_file _ _ _ _ _) fs = Unit {0}

unfoldable pub run : List Call → WolfDiskFs → WolfDiskFs
run [] fs = fs
run (c ∷ cs) fs = run cs (call c fs)

-- Each call is allowed when it is made, and the node leads then.
unfoldable pub AllAllowed : List Call → WolfDiskFs → Type 0
AllAllowed [] fs = Unit {0}
AllAllowed (c ∷ cs) fs = (is_leader fs ≡ true) × IsAllowed c fs × AllAllowed cs (call c fs)

link_known-IsValid :
    (now : ℕ) (req : Request) (newparent : ℕ) (newname : String) (fs : WolfDiskFs)
    (o : Option FilePath)
    → IsNew newparent newname fs
    → IsValid fs
    → IsValid ((link_known now req newparent newname fs o).1)
unfolding IsNew
link_known-IsValid now req newparent newname fs none h v = v
link_known-IsValid now req newparent newname fs (some source) h v =
    at-IsValid newparent newname fs (link_from now req fs (entry_of source fs.file_index)) v
      (λ dir e.
        link_from-IsValid fs v (join dir newname) (join-ne-nil dir newname) now req
          (entry_of source fs.file_index) (h dir e))

call-IsValid :
    (c : Call) (fs : WolfDiskFs)
    → is_leader fs ≡ true
    → IsAllowed c fs
    → IsValid fs
    → IsValid (call c fs)
unfolding call IsAllowed mkdir create mknod symlink link unlink rmdir rename
call-IsValid (make_dir now req parent name mode) fs l h v =
    at-IsValid parent name fs (mkdir_at (done tt) now req mode fs) v (λ dir e.
      mkdir_at-IsValid fs v (join dir name) (join-ne-nil dir name) (done tt) now req mode l)
call-IsValid (make_file now req parent name mode) fs l h v =
    at-IsValid parent name fs (create_at (done tt) now req mode fs) v (λ dir e.
      create_at-IsValid fs v (join dir name) (join-ne-nil dir name) (done tt) now req mode l)
call-IsValid (make_node now req parent name mode) fs l h v =
    at-IsValid parent name fs (mknod_at now req mode fs) v
      (λ dir e. mknod_at-IsValid fs v (join dir name) (join-ne-nil dir name) now req mode)
call-IsValid (make_symlink now req parent name size target) fs l h v =
    at-IsValid parent name fs (symlink_at (done tt) now req size target fs) v (λ dir e.
      symlink_at-IsValid fs v (join dir name) (join-ne-nil dir name) (done tt) now req size target l
        (h dir e))
call-IsValid (make_link now req ino newparent newname) fs l h v =
    link_known-IsValid now req newparent newname fs (get_path ino fs.inode_table) h v
call-IsValid (remove_file now parent name) fs l h v =
    at-IsValid parent name fs (unlink_at (done tt) now fs) v
      (λ dir e. unlink_at-IsValid fs (join dir name) (done tt) now v (join-ne-nil dir name) l)
call-IsValid (remove_dir parent name) fs l h v =
    at-IsValid parent name fs (rmdir_at (done tt) fs) v
      (λ dir e. rmdir_at-IsValid fs v (join dir name) (join-ne-nil dir name) (done tt) l)
call-IsValid (move parent name newparent newname) fs l h v =
    at-IsValid parent name fs (λ from. at newparent newname fs (rename_at (done tt) from fs)) v
      (λ dir e.
        at-IsValid newparent newname fs (rename_at (done tt) (join dir name) fs) v (λ dir' e'.
          rename_at-IsValid fs (join dir name) (join dir' newname) (done tt) v
            (join-ne-nil dir name) (join-ne-nil dir' newname) (h dir dir' e e') l))
call-IsValid (open_inode ino) fs l h v = open_file-IsValid ino fs v
call-IsValid (change_file now req ino change) fs l h v = setattr-IsValid now req ino change fs l v
call-IsValid (write_file sha256 now ino offset content) fs l h v =
    write-IsValid sha256 now ino offset content fs v
call-IsValid (flush_file sha256 now ino) fs l h v =
    flush-IsValid sha256 (λ _. done tt) now ino fs l v
call-IsValid (sync_file sha256 now ino) fs l h v = fsync-IsValid sha256 now ino fs v
call-IsValid (release_file sha256 now ino fh due) fs l h v =
    release-IsValid sha256 now ino fh due fs v

run-IsValid :
    (cs : List Call) (fs : WolfDiskFs) → AllAllowed cs fs → IsValid fs → IsValid (run cs fs)
unfolding run AllAllowed
run-IsValid [] fs h v = v
run-IsValid (c ∷ cs) fs (l, h, hs) v = run-IsValid cs (call c fs) hs (call-IsValid c fs l h v)

is_listed : FilePath → List FilePath → Bool
is_listed q = any (λ p. path_eq p q)

entry_of-is_listed :
    (q : FilePath) (es : List (FilePath × FileEntry))
    → is_some (find q es) ≡ is_listed q (paths_of es)
unfolding is_listed find
entry_of-is_listed q [] = refl
entry_of-is_listed q ((p, e) ∷ es) = ground (arith, entry_of-is_listed q es)

get_inode-assign :
    (q : FilePath) (ps : List FilePath) (t : InodeTable) (n : ℕ)
    → is_some (get_inode q (assign ps (t, n)).0) ≡ (is_some (get_inode q t) || is_listed q ps)
unfolding is_listed
get_inode-assign q [] t n = ground arith
get_inode-assign q (p ∷ ps) t n =
    ground (arith, get_inode-assign q ps (add (suc n) p t) (suc n), get_inode-add (suc n) p q t)

root-assign :
    (ps : List FilePath) (t : InodeTable) (n : ℕ)
    → (Member [] ps → ⊥)
    → get_inode [] (assign ps (t, n)).0 ≡ get_inode [] t
root-assign [] t n h = refl
root-assign (p ∷ ps) t n h =
    root-assign ps (add (suc n) p t) (suc n) (λ m. h (inr m))
    ∙ get_inode-add (suc n) p [] t
    ∙ elim (Bool-cases (path_eq p [])) [
      | inl e ↦ absurd (h (inl ((path_eq_iff p []).0 e)))
      | inr e ↦ simp e refl
    ]

get_inode-new : (q : FilePath) → get_inode q new ≡ (if path_eq [] q then some 1 else none)
unfolding new get_inode find
get_inode-new q = get_inode-add 1 [] q (record { inode_to_path = []; path_to_inode = [] })

unlisted_root : (ps : List FilePath) → (Member [] ps → ⊥) → is_listed [] ps ≡ false
unfolding is_listed
unlisted_root [] h = refl
unlisted_root (p ∷ ps) h = elim (Bool-cases (path_eq p [])) [
  | inl e ↦ absurd (h (inl ((path_eq_iff p []).0 e)))
  | inr e ↦ simp e (unlisted_root ps (λ m. h (inr m)))
]

start-IsValid :
    (index : FileIndex) (chunk_size : ℕ) (cluster : Option ClusterManager)
    → Apart (paths index)
    → (Member [] (paths index) → ⊥)
    → IsValid (start index chunk_size cluster)
unfolding start from_index FreeAbove entry_of AllFresh wolf_scale.Wolfdisk.Inodes.Agreement.run
start-IsValid index chunk_size cluster d r =
    let ps = paths index in
    let (a, f) = run-from_index-Agrees ps [] d r tt in
    record {
      agrees = a;
      fresh = λ i l. f i (omega (arith, l));
      root = root-assign ps new 1 r ∙ get_inode-new [];
      unindexed = ground (arith, entry_of-is_listed [] index.entries, unlisted_root ps r);
      covers = λ p ne. ground (
        arith,
        get_inode-assign p ps new 1,
        get_inode-new p,
        entry_of-is_listed p index.entries,
        path_eq_iff [] p,
        ne,
      );
    }

-- From the start on an index whose paths are distinct and not that of the root, with or without a
-- cluster, over any of these calls, each made while the node leads: mkdir, create, mknod, symlink and
-- link under new names, unlink, rmdir, rename of a path to another, open, setattr, write, flush, fsync
-- and release. The two maps of the inode table stay inverse to one another, no inode from the next one
-- on is in use, and the paths that have an inode are the root's and those of the index.
pub run_from_start-IsValid :
    (index : FileIndex) (chunk_size : ℕ) (cluster : Option ClusterManager) (cs : List Call)
    → Apart (paths index)
    → (Member [] (paths index) → ⊥)
    → AllAllowed cs (start index chunk_size cluster)
    → IsValid (run cs (start index chunk_size cluster))
run_from_start-IsValid index chunk_size cluster cs d r h =
    run-IsValid cs (start index chunk_size cluster) h (start-IsValid index chunk_size cluster d r)
