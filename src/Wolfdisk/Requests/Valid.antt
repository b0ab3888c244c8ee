-- ===== src/Wolfdisk/Requests/Valid.antt =====
-- What the leader's answers in wolfdisk/src/main.rs keep of its index and its inode table.
use wolf_scale.Base.{
  ℕ, ◌+◌, ◌≡◌, true, false, Option, none, some, List, [], ◌∷◌, arith, ltb, length, u64, ◌&&◌,
  String, Bool-cases, Option-cases, inl, inr, All,
}
use wolf_scale.Wolfdisk.Paths.{FilePath, path_eq_iff}
use wolf_scale.Wolfdisk.Chunks.{write}
use wolf_scale.Wolfdisk.Index.{FileEntry, entry_of, add_entry, contains, has_children}
use wolf_scale.Wolfdisk.Filesystem.{WolfDiskFs}
use wolf_scale.Wolfdisk.Filesystem.Clients.{grow_entry}
use wolf_scale.Wolfdisk.Filesystem.Entries.{new_entry, link_entry}
use wolf_scale.Wolfdisk.Filesystem.Removal.{drop_file, drop_dir}
use wolf_scale.Wolfdisk.Filesystem.Attributes.{Change, changed, truncated}
use wolf_scale.Wolfdisk.Filesystem.Sound.{
  IsSound, replace-IsSound, remove-IsSound, move-IsSound, indexed_path, entry_of-remove_entry,
}
use wolf_scale.Wolfdisk.Filesystem.Valid.{IsValid, link_in-IsValid, drop_file-IsValid, absent_entry}
use wolf_scale.Wolfdisk.Requests.{
  Request, write_request, create_file, delete_file, create_dir, delete_dir, rename_file,
  create_symlink, set_attr, read_request, read_dir, get_attr, Leader, note_change, write_found,
  handle_create, handle_create_dir, delete_found, delete_dir_found, rename_source, rename_target,
  set_attr_found, read_found, owner, serve, serve_all,
}

-- A path that is asked for is not the root's, and a file is not renamed to itself.
unfoldable pub IsServable : Request → Type 0
IsServable (write_request path _ _) = path ≡ [] → ⊥
IsServable (create_file path _ _ _) = path ≡ [] → ⊥
IsServable (delete_file path) = path ≡ [] → ⊥
IsServable (create_dir path _ _ _) = path ≡ [] → ⊥
IsServable (delete_dir path) = path ≡ [] → ⊥
IsServable (rename_file from to) = (from ≡ [] → ⊥) × (to ≡ [] → ⊥) × (from ≡ to → ⊥)
IsServable (create_symlink path _ _) = path ≡ [] → ⊥
IsServable (set_attr path _) = path ≡ [] → ⊥
IsServable (read_request _ _ _) = Unit {0}
IsServable (read_dir _) = Unit {0}
IsServable (get_attr _) = Unit {0}

-- An entry that takes the place of the one that was there
update-IsSound :
    (p : FilePath) (e old : FileEntry) (fs : WolfDiskFs)
    → (p ≡ [] → ⊥)
    → entry_of p fs.file_index ≡ some old
    → IsValid fs
    → IsSound (add_entry p e fs.file_index) fs.inode_table fs.next_inode
update-IsSound p e old fs ne h v =
    let (i, known) = indexed_path fs.file_index fs.inode_table fs.next_inode p old v h in
    replace-IsSound fs.file_index fs.inode_table fs.next_inode i p e v ne known

module _ (sha256 : List ℕ → ℕ) (now : ℕ) (l : Leader) (v : IsValid l.fs) where
  write_found-IsValid :
      (p : FilePath) (offset : ℕ) (content : List ℕ)
      → (p ≡ [] → ⊥)
      → IsValid (write_found sha256 now p offset content l (entry_of p l.fs.file_index)).1.fs
  unfolding write_found note_change
  write_found-IsValid p offset content ne = elim (Option-cases (entry_of p l.fs.file_index)) [
    | inl absent ↦ simp absent v
    | inr (e, h) ↦
        let (written, (chunks, s)) = write sha256 e.chunks offset content l.fs.chunk_store in
        let e' = grow_entry now (u64 (offset + written)) (record e { chunks = chunks }) in
        let sound = update-IsSound p e' e l.fs ne h v in
        elim (Bool-cases (ltb (length chunks) (length e.chunks))) [
          | inl short ↦ simp (h, short) sound
          | inr long ↦ simp (h, long) sound
        ]
  ]

  handle_create-IsValid :
      (p : FilePath) (e : FileEntry) → (p ≡ [] → ⊥) → IsValid (handle_create p e l).1.fs
  unfolding handle_create note_change
  handle_create-IsValid p e ne = elim (Bool-cases (contains p l.fs.file_index)) [
    | inl there ↦ simp there v
    | inr new ↦ simp new (link_in-IsValid p e l.fs v ne (absent_entry p l.fs.file_index new))
  ]

  handle_create_dir-IsValid :
      (there : String) (p : FilePath) (e : FileEntry)
      → (p ≡ [] → ⊥)
      → IsValid (handle_create_dir there p e l).1.fs
  unfolding handle_create_dir
  handle_create_dir-IsValid there p e ne = elim (Bool-cases (contains p l.fs.file_index)) [
    | inl known ↦ simp known v
    | inr new ↦ simp new (link_in-IsValid p e l.fs v ne (absent_entry p l.fs.file_index new))
  ]

  delete_found-IsValid :
      (p : FilePath) (o : Option FileEntry) → (p ≡ [] → ⊥) → IsValid (delete_found now p l o).1.fs
  unfolding delete_found note_change
  delete_found-IsValid p none ne = v
  delete_found-IsValid p (some e) ne = drop_file-IsValid p l.fs ne v

  delete_dir_found-IsValid :
      (p : FilePath) (o : Option FileEntry)
      → (p ≡ [] → ⊥)
      → IsValid (delete_dir_found now p l o).1.fs
  unfolding delete_dir_found note_change drop_dir
  delete_dir_found-IsValid p none ne = v
  delete_dir_found-IsValid p (some e) ne = elim (Bool-cases e.is_dir) [
    | inr file ↦ simp file v
    | inl dir ↦ elim (Bool-cases (has_children p l.fs.file_index)) [
      | inl full ↦ simp (dir, full) v
      | inr bare ↦
          simp (dir, bare) (remove-IsSound l.fs.file_index l.fs.inode_table l.fs.next_inode p v ne)
    ]
  ]

  rename_source-IsValid :
      (from to : FilePath)
      → (from ≡ [] → ⊥)
      → (to ≡ [] → ⊥)
      → (from ≡ to → ⊥)
      → IsValid (rename_source now from to l (entry_of from l.fs.file_index)).1.fs
  unfolding rename_source rename_target drop_file
  rename_source-IsValid from to nf nt ft = elim (Option-cases (entry_of from l.fs.file_index)) [
    | inl absent ↦ simp absent v
    | inr (e, h) ↦ elim (Option-cases (entry_of to l.fs.file_index)) [
      | inl new ↦
          simp (h, new)
            (move-IsSound l.fs.file_index l.fs.inode_table l.fs.next_inode from to e e v nf nt h
              new)
      | inr (target, k) ↦ elim (Bool-cases (target.is_dir && has_children to l.fs.file_index)) [
        | inl full ↦ simp (h, k, full) v
        | inr bare ↦
            let fs' = drop_file to l.fs in
            simp (h, k, bare)
              (move-IsSound fs'.file_index fs'.inode_table fs'.next_inode from to e e
                (drop_file-IsValid to l.fs nt v) nf nt
                (ground
                  (arith, h, entry_of-remove_entry to from l.fs.file_index, path_eq_iff to from))
                (ground (arith, entry_of-remove_entry to to l.fs.file_index, path_eq_iff to to)))
      ]
    ]
  ]

  set_attr_found-IsValid :
      (p : FilePath) (c : Change)
      → (p ≡ [] → ⊥)
      → IsValid (set_attr_found p c l (entry_of p l.fs.file_index)).1.fs
  unfolding set_attr_found
  set_attr_found-IsValid p c ne = elim (Option-cases (entry_of p l.fs.file_index)) [
    | inl absent ↦ simp absent v
    | inr (e, h) ↦ simp h (update-IsSound p (changed c (truncated c.size e)) e l.fs ne h v)
  ]

  read_found-IsValid :
      (offset size : ℕ) (o : Option FileEntry) → IsValid (read_found offset size l o).1.fs
  unfolding read_found
  read_found-IsValid offset size none = v
  read_found-IsValid offset size (some e) = v

serve-IsValid :
    (sha256 : List ℕ → ℕ) (now : ℕ) (r : Request) (l : Leader)
    → IsServable r
    → IsValid l.fs
    → IsValid (serve sha256 now r l).1.fs
unfolding serve IsServable
serve-IsValid sha256 now (write_request path offset content) l h v =
    write_found-IsValid sha256 now l v path offset content h
serve-IsValid sha256 now (create_file path mode uid gid) l h v =
    handle_create-IsValid sha256 now l v path (new_entry false mode now (owner uid gid)) h
serve-IsValid sha256 now (delete_file path) l h v =
    delete_found-IsValid sha256 now l v path (entry_of path l.fs.file_index) h
serve-IsValid sha256 now (create_dir path mode uid gid) l h v =
    handle_create_dir-IsValid sha256 now l v "Directory already exists" path
      (new_entry true mode now (owner uid gid)) h
serve-IsValid sha256 now (delete_dir path) l h v =
    delete_dir_found-IsValid sha256 now l v path (entry_of path l.fs.file_index) h
serve-IsValid sha256 now (rename_file from to) l (nf, nt, ft) v =
    rename_source-IsValid sha256 now l v from to nf nt ft
serve-IsValid sha256 now (create_symlink path target n) l h v =
    handle_create_dir-IsValid sha256 now l v "Path already exists" path
      (link_entry n target now (owner 0 0)) h
serve-IsValid sha256 now (set_attr path c) l h v = set_attr_found-IsValid sha256 now l v path c h
serve-IsValid sha256 now (read_request path offset size) l h v =
    read_found-IsValid sha256 now l v offset size (entry_of path l.fs.file_index)
serve-IsValid sha256 now (read_dir dir) l h v = v
serve-IsValid sha256 now (get_attr path) l h v = v

-- Over any requests that the leader serves, of paths other than the root's and with no file renamed to
-- itself: if at first the two maps of the inode table are inverse to one another, no inode from the
-- next one on is in use and the paths that have an inode are the root's and those of the index, then
-- so it is at the end, also after a request that panicked.
pub serve_all-IsValid :
    (sha256 : List ℕ → ℕ) (now : ℕ) (rs : List Request) (l : Leader)
    → All IsServable rs
    → IsValid l.fs
    → IsValid (serve_all sha256 now rs l).fs
unfolding serve_all
serve_all-IsValid sha256 now [] l h v = v
serve_all-IsValid sha256 now (r ∷ rs) l (k, h) v =
    serve_all-IsValid sha256 now rs ((serve sha256 now r l).1) h (serve-IsValid sha256 now r l k v)
