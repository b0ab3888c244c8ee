-- ===== src/Wolfdisk/Filesystem/Valid.antt =====
-- What the leader's calls of wolfdisk/src/fuse/filesystem.rs keep.
use wolf_scale.Base.{
  ℕ, ◌+◌, ◌%◌, ◌≡◌, String, Bool, true, false, Option, none, some, [], arith, not, ◌&&◌, ◌==◌,
  if◌then◌else◌, Bool-cases, Option-cases, inl, inr,
}
use wolf_scale.Wolfdisk.Paths.{FilePath, join, path_eq, path_eq_iff}
use wolf_scale.Wolfdisk.Index.{FileEntry, FileIndex, entry_of, contains, has_children}
use wolf_scale.Wolfdisk.Inodes.{get_path, get_inode}
use wolf_scale.Wolfdisk.Cluster.{ClusterManager}
use wolf_scale.Wolfdisk.Filesystem.{
  WolfDiskFs, Request, Outcome, IndexOperation, Message, is_leader, open_handle, broadcast_with,
  broadcast_index_update, queue_message, broadcast_file_sync_final, parent_path, link_in,
}
use wolf_scale.Wolfdisk.Filesystem.Entries.{
  at, new_entry, link_entry, copy_entry, type_bits, mkdir_at, create_at, symlink_at, link_from,
  mknod_at, is_open_to, open_file,
}
use wolf_scale.Wolfdisk.Filesystem.Removal.{
  forget_writes, drop_file, drop_dir, unlink_found, unlink_at, rmdir_found, rmdir_at, drop_target,
  move_entry, finish_rename, rename_over, rename_found, rename_at, delete_signal,
}
use wolf_scale.Wolfdisk.Filesystem.Sound.{
  IsSound, add-IsSound, remove-IsSound, drop_inode-IsSound, move-IsSound, entry_of-remove_entry,
}

abbrev pub IsValid : WolfDiskFs → Type 0
IsValid fs = IsSound fs.file_index fs.inode_table fs.next_inode

broadcast_with-IsValid :
    (op : IndexOperation) (fs : WolfDiskFs) (o : Option ClusterManager)
    → IsValid fs
    → IsValid (broadcast_with op fs o)
broadcast_with-IsValid op fs none v = v
broadcast_with-IsValid op fs (some m) v = v

pub queue_message-IsValid :
    (m : Message) (fs : WolfDiskFs) (o : Option ClusterManager)
    → IsValid fs
    → IsValid (queue_message m fs o)
queue_message-IsValid m fs none v = v
queue_message-IsValid m fs (some _) v = v

pub either :
    (P : WolfDiskFs → Type 0) (b : Bool) (x y : WolfDiskFs) → P x → P y → P (if b then x else y)
either P true x y p q = p
either P false x y p q = q

pub broadcast_index_update-IsValid :
    (op : IndexOperation) (fs : WolfDiskFs) → IsValid fs → IsValid (broadcast_index_update op fs)
unfolding broadcast_index_update
broadcast_index_update-IsValid op fs v =
    either IsValid (is_leader fs) (broadcast_with op fs fs.cluster) fs
      (broadcast_with-IsValid op fs fs.cluster v) v

pub broadcast_file_sync_final-IsValid :
    (p : FilePath) (e : FileEntry) (fs : WolfDiskFs)
    → IsValid fs
    → IsValid (broadcast_file_sync_final p e fs)
unfolding broadcast_file_sync_final
broadcast_file_sync_final-IsValid p e fs v =
    either IsValid (is_leader fs) (queue_message (Message.file_sync p e) fs fs.cluster) fs
      (queue_message-IsValid (Message.file_sync p e) fs fs.cluster v) v

pub link_in-IsValid :
    (p : FilePath) (e : FileEntry) (fs : WolfDiskFs)
    → IsValid fs
    → (p ≡ [] → ⊥)
    → entry_of p fs.file_index ≡ none
    → IsValid (link_in p e fs)
unfolding link_in
link_in-IsValid p e fs v ne new =
    add-IsSound fs.file_index fs.inode_table fs.next_inode (fs.next_inode + 1) fs.next_inode p e v
      ne new (v.fresh fs.next_inode (omega arith)) (omega arith) (omega arith)

open_handle-IsValid : (i : ℕ) (fs : WolfDiskFs) → IsValid fs → IsValid ((open_handle i fs).1)
unfolding open_handle
open_handle-IsValid i fs v = v

-- What holds of the state before a call in a directory and after it, whichever directory it is
pub at_keeps :
    {A : Type 0} (P : WolfDiskFs → Type 0) (parent : ℕ) (name : String) (fs : WolfDiskFs)
    (act : FilePath → Outcome A × WolfDiskFs)
    → P fs
    → ((dir : FilePath) → parent_path parent fs ≡ some dir → P ((act (join dir name)).1))
    → P ((at parent name fs act).1)
at_keeps P parent name fs act v h = elim (Option-cases (parent_path parent fs)) [
  | inl absent ↦ rw (absent, at) v
  | inr (dir, e) ↦ rw (e, at) (h dir e)
]

pub at-IsValid :
    {A : Type 0} (parent : ℕ) (name : String) (fs : WolfDiskFs)
    (act : FilePath → Outcome A × WolfDiskFs)
    → IsValid fs
    → ((dir : FilePath) → parent_path parent fs ≡ some dir → IsValid ((act (join dir name)).1))
    → IsValid ((at parent name fs act).1)
at-IsValid parent name fs act v h = at_keeps (λ s. IsValid s) parent name fs act v h

-- A path that `contains` does not find
pub absent_entry :
    (p : FilePath) (index : FileIndex) → contains p index ≡ false → entry_of p index ≡ none
unfolding contains
absent_entry p index h = elim (Option-cases (entry_of p index)) [
  | inl absent ↦ absent
  | inr (e, k) ↦ absurd (ground (arith, h, k))
]

module _ (fs : WolfDiskFs) (v : IsValid fs) (p : FilePath) (ne : p ≡ [] → ⊥) where
  pub mkdir_at-IsValid :
      (answer : Outcome (Unit {0})) (now : ℕ) (req : Request) (mode : ℕ)
      → is_leader fs ≡ true
      → IsValid ((mkdir_at answer now req mode fs p).1)
  unfolding mkdir_at
  mkdir_at-IsValid answer now req mode l = elim (Bool-cases (contains p fs.file_index)) [
    | inl there ↦ simp (l, there) v
    | inr new ↦
        simp (l, new)
          (broadcast_index_update-IsValid (IndexOperation.mkdir p mode)
            (link_in p (new_entry true mode now req) fs)
            (link_in-IsValid p (new_entry true mode now req) fs v ne
              (absent_entry p fs.file_index new)))
  ]

  pub create_at-IsValid :
      (answer : Outcome (Unit {0})) (now : ℕ) (req : Request) (mode : ℕ)
      → is_leader fs ≡ true
      → IsValid ((create_at answer now req mode fs p).1)
  unfolding create_at
  create_at-IsValid answer now req mode l =
      let entry = new_entry false mode now req in
      elim (Bool-cases (contains p fs.file_index)) [
        | inl there ↦ simp (l, there) v
        | inr new ↦
            simp (l, new)
              (broadcast_index_update-IsValid (IndexOperation.upsert p 0 now mode [])
                ((open_handle fs.next_inode (link_in p entry fs)).1)
                (open_handle-IsValid fs.next_inode (link_in p entry fs)
                  (link_in-IsValid p entry fs v ne (absent_entry p fs.file_index new))))
      ]

  pub symlink_at-IsValid :
      (answer : Outcome (Unit {0})) (now : ℕ) (req : Request) (n : ℕ) (target : String)
      → is_leader fs ≡ true
      → entry_of p fs.file_index ≡ none
      → IsValid ((symlink_at answer now req n target fs p).1)
  unfolding symlink_at
  symlink_at-IsValid answer now req n target l new =
      simp l (link_in-IsValid p (link_entry n target now req) fs v ne new)

  pub link_from-IsValid :
      (now : ℕ) (req : Request) (o : Option FileEntry)
      → entry_of p fs.file_index ≡ none
      → IsValid ((link_from now req fs o p).1)
  unfolding link_from
  link_from-IsValid now req none new = v
  link_from-IsValid now req (some source) new = elim (Bool-cases source.is_dir) [
    | inl dir ↦ simp dir v
    | inr file ↦ simp file (link_in-IsValid p (copy_entry source now req) fs v ne new)
  ]

  pub mknod_at-IsValid :
      (now : ℕ) (req : Request) (mode : ℕ) → IsValid ((mknod_at now req mode fs p).1)
  unfolding mknod_at
  mknod_at-IsValid now req mode = elim (Bool-cases (contains p fs.file_index)) [
    | inl there ↦ simp there v
    | inr new ↦ elim (Bool-cases (not (type_bits mode == 8) && not (type_bits mode == 0))) [
      | inl other ↦ simp (new, other) v
      | inr plain ↦
          simp (new, plain)
            (link_in-IsValid p (new_entry false (mode % 4096) now req) fs v ne
              (absent_entry p fs.file_index new))
    ]
  ]

  forget_writes-IsValid : (o : Option ℕ) → IsValid (forget_writes o fs)
  unfolding forget_writes
  forget_writes-IsValid none = v
  forget_writes-IsValid (some i) = v

  drop_dir-IsValid : IsValid (drop_dir p fs)
  unfolding drop_dir
  drop_dir-IsValid = remove-IsSound fs.file_index fs.inode_table fs.next_inode p v ne

  drop_target-IsValid : (target : FileEntry) → IsValid (drop_target p target fs)
  unfolding drop_target
  drop_target-IsValid target = drop_inode-IsSound fs.file_index fs.inode_table fs.next_inode p v ne

  pub rmdir_at-IsValid :
      (answer : Outcome (Unit {0})) → is_leader fs ≡ true → IsValid ((rmdir_at answer fs p).1)
  unfolding rmdir_at rmdir_found
  rmdir_at-IsValid answer l = elim (Option-cases (entry_of p fs.file_index)) [
    | inl absent ↦ simp (l, absent) v
    | inr (e, h) ↦ elim (Bool-cases e.is_dir) [
      | inr file ↦ simp (l, h, file) v
      | inl dir ↦ elim (Bool-cases (has_children p fs.file_index)) [
        | inl full ↦ simp (l, h, dir, full) v
        | inr bare ↦
            simp (l, h, dir, bare)
              (broadcast_index_update-IsValid (IndexOperation.delete p) (drop_dir p fs)
                drop_dir-IsValid)
      ]
    ]
  ]

pub drop_file-IsValid :
    (p : FilePath) (fs : WolfDiskFs) → (p ≡ [] → ⊥) → IsValid fs → IsValid (drop_file p fs)
unfolding drop_file
drop_file-IsValid p fs ne v = remove-IsSound fs.file_index fs.inode_table fs.next_inode p v ne

pub unlink_at-IsValid :
    (fs : WolfDiskFs) (p : FilePath) (answer : Outcome (Unit {0})) (now : ℕ)
    → IsValid fs
    → (p ≡ [] → ⊥)
    → is_leader fs ≡ true
    → IsValid ((unlink_at answer now fs p).1)
unfolding unlink_at unlink_found
unlink_at-IsValid fs p answer now v ne l = elim (Option-cases (entry_of p fs.file_index)) [
  | inl absent ↦ simp (l, absent) v
  | inr (e, h) ↦ elim (Bool-cases e.is_dir) [
    | inl dir ↦ simp (l, h, dir) v
    | inr file ↦
        let o = get_inode p fs.inode_table in
        let dropped = drop_file p (forget_writes o fs) in
        simp (l, h, file)
          (broadcast_file_sync_final-IsValid p (delete_signal now)
            (broadcast_index_update (IndexOperation.delete p) dropped)
            (broadcast_index_update-IsValid (IndexOperation.delete p) dropped
              (drop_file-IsValid p (forget_writes o fs) ne (forget_writes-IsValid fs v p ne o))))
  ]
]

finish_rename-IsValid :
    (fs : WolfDiskFs) (from to : FilePath) (entry old : FileEntry)
    → IsValid fs
    → (from ≡ [] → ⊥)
    → (to ≡ [] → ⊥)
    → entry_of from fs.file_index ≡ some old
    → entry_of to fs.file_index ≡ none
    → IsValid ((finish_rename from to entry fs).1)
unfolding move_entry
finish_rename-IsValid fs from to entry old v nf nt known new =
    broadcast_index_update-IsValid (IndexOperation.rename from to) (move_entry from to entry fs)
      (move-IsSound fs.file_index fs.inode_table fs.next_inode from to entry old v nf nt known new)

-- The target is no longer indexed once it is dropped, and all else is.
entry_of-drop_target :
    (q to : FilePath) (target : FileEntry) (fs : WolfDiskFs)
    → entry_of q (drop_target to target fs).file_index
      ≡ (if path_eq to q then none else entry_of q fs.file_index)
unfolding drop_target
entry_of-drop_target q to target fs = entry_of-remove_entry to q fs.file_index

pub rename_at-IsValid :
    (fs : WolfDiskFs) (from to : FilePath) (answer : Outcome (Unit {0}))
    → IsValid fs
    → (from ≡ [] → ⊥)
    → (to ≡ [] → ⊥)
    → (from ≡ to → ⊥)
    → is_leader fs ≡ true
    → IsValid ((rename_at answer from fs to).1)
unfolding rename_at rename_found rename_over
rename_at-IsValid fs from to answer v nf nt ft l =
    elim (Option-cases (entry_of from fs.file_index)) [
      | inl absent ↦ simp (l, absent) v
      | inr (e, h) ↦ elim (Option-cases (entry_of to fs.file_index)) [
        | inl new ↦ simp (l, h, new) (finish_rename-IsValid fs from to e e v nf nt h new)
        | inr (target, k) ↦ elim (Bool-cases (target.is_dir && has_children to fs.file_index)) [
          | inl full ↦ simp (l, h, k, full) v
          | inr bare ↦
              let fs' = drop_target to target fs in
              simp (l, h, k, bare)
                (finish_rename-IsValid fs' from to e e (drop_target-IsValid fs v to nt target) nf nt
                  (ground (arith, h, entry_of-drop_target from to target fs, path_eq_iff to from))
                  (ground (arith, entry_of-drop_target to to target fs, path_eq_iff to to)))
        ]
      ]
    ]

pub open_file-IsValid : (ino : ℕ) (fs : WolfDiskFs) → IsValid fs → IsValid ((open_file ino fs).1)
unfolding open_file
open_file-IsValid ino fs v = elim (Bool-cases (is_open_to ino (get_path ino fs.inode_table))) [
  | inl e ↦ simp e (open_handle-IsValid ino fs v)
  | inr e ↦ simp e v
]
