-- ===== src/Wolfdisk/Filesystem/Sound.antt =====
-- The index of the mounted file system against its inode table.
use wolf_scale.Base.{
  sym, Bool-cases, ℕ, ◌≤◌, ◌<◌, ◌≡◌, refl, ap, none, some, [], arith, ◌==◌, if◌then◌else◌,
  Option-cases, inl, inr, find, find-set, find-unset, get-put, get-take_out,
}
use wolf_scale.Wolfdisk.Paths.{FilePath, path_eq, path_eq_iff, path_eq_refl, path_keys}
use wolf_scale.Wolfdisk.Index.{FileEntry, FileIndex, entry_of, is_some, add_entry, remove_entry}
use wolf_scale.Wolfdisk.Inodes.{
  InodeTable, add, get_path, get_inode, remove_path, remove_inode, without_inode,
}
use wolf_scale.Wolfdisk.Inodes.Agreement.{Agrees, add-Agrees, without_path-Agrees}
use wolf_scale.Wolfdisk.Filesystem.Removal.{drop_inode_as, move_inode}

-- The two maps of the inodes agree, no inode from the next one on is in use, the root has inode 1 and
-- is not indexed, and of the other paths those that are indexed have an inode.
pub record IsSound (index : FileIndex) (t : InodeTable) (next : ℕ) : Type 0 where
  pub agrees : Agrees t
  pub fresh : (i : ℕ) → next ≤ i → get_path i t ≡ none
  pub root : get_inode [] t ≡ some 1
  pub unindexed : entry_of [] index ≡ none
  pub covers : (p : FilePath) → (p ≡ [] → ⊥) → is_some (get_inode p t) ≡ is_some (entry_of p index)

pub get_inode-add :
    (i : ℕ) (p q : FilePath) (t : InodeTable)
    → get_inode q (add i p t) ≡ (if path_eq p q then some i else get_inode q t)
unfolding get_inode add
get_inode-add i p q t = find-set p q i t.path_to_inode

pub get_path-add :
    (i j : ℕ) (p : FilePath) (t : InodeTable)
    → get_path j (add i p t) ≡ (if i == j then some p else get_path j t)
unfolding get_path add
get_path-add i j p t = get-put i j p t.inode_to_path

pub entry_of-add_entry :
    (p q : FilePath) (e : FileEntry) (index : FileIndex)
    → entry_of q (add_entry p e index) ≡ (if path_eq p q then some e else entry_of q index)
unfolding entry_of add_entry
entry_of-add_entry p q e index = find-set p q e index.entries

pub entry_of-remove_entry :
    (p q : FilePath) (index : FileIndex)
    → entry_of q (remove_entry p index) ≡ (if path_eq p q then none else entry_of q index)
unfolding entry_of remove_entry
entry_of-remove_entry p q index = find-unset p q index.entries

pub get_inode-remove_path :
    (p q : FilePath) (t : InodeTable)
    → get_inode q ((remove_path p t).1) ≡ (if path_eq p q then none else get_inode q t)
unfolding get_inode remove_path
get_inode-remove_path p q t = elim (Option-cases (find p t.path_to_inode)) [
  | inl absent ↦ simp absent (ground (arith, absent, path_eq_iff p q))
  | inr (i, e) ↦ simp e (find-unset p q t.path_to_inode)
]

-- An inode that goes with its path, and those that stay
pub get_path-remove_path :
    (p : FilePath) (i j : ℕ) (t : InodeTable)
    → get_inode p t ≡ some i
    → get_path j ((remove_path p t).1) ≡ (if i == j then none else get_path j t)
unfolding get_inode get_path remove_path
get_path-remove_path p i j t e = simp e (get-take_out i j t.inode_to_path)

remove_path-keeps-none :
    (p : FilePath) (j : ℕ) (t : InodeTable)
    → get_path j t ≡ none
    → get_path j ((remove_path p t).1) ≡ none
unfolding get_path remove_path
remove_path-keeps-none p j t h = elim (Option-cases (find p t.path_to_inode)) [
  | inl absent ↦ simp absent h
  | inr (i, e) ↦ simp e (ground (arith, h, get-take_out i j t.inode_to_path))
]

remove_path-Agrees : (p : FilePath) (t : InodeTable) → Agrees t → Agrees ((remove_path p t).1)
unfolding remove_path get_inode
remove_path-Agrees p t a = without_path-Agrees p t (find p t.path_to_inode) refl a

-- A path that is not indexed has no inode.
pub unindexed_path :
    (index : FileIndex) (t : InodeTable) (n : ℕ) (p : FilePath)
    → IsSound index t n
    → (p ≡ [] → ⊥)
    → entry_of p index ≡ none
    → get_inode p t ≡ none
unindexed_path index t n p s ne e = ground (arith, e, s.covers p ne)

pub indexed_path :
    (index : FileIndex) (t : InodeTable) (n : ℕ) (p : FilePath) (e : FileEntry)
    → IsSound index t n
    → entry_of p index ≡ some e
    → (i : ℕ) × (get_inode p t ≡ some i)
indexed_path index t n p e s h = elim (Option-cases (get_inode p t)) [
  | inl absent ↦ absurd (
      ground (
        arith,
        absent,
        h,
        s.unindexed,
        s.covers p (λ k. cc (h, s.unindexed, ap (λ q. entry_of q index) k)),
      ))
  | inr found ↦ found
]

pub add-IsSound :
    (index : FileIndex) (t : InodeTable) (n m i : ℕ) (p : FilePath) (e : FileEntry)
    → IsSound index t n
    → (p ≡ [] → ⊥)
    → entry_of p index ≡ none
    → get_path i t ≡ none
    → i < m
    → n ≤ m
    → IsSound (add_entry p e index) (add i p t) m
add-IsSound index t n m i p e s ne new free il nl = record {
  agrees = add-Agrees i p t free (unindexed_path index t n p s ne new) s.agrees;
  fresh = λ j l. ground (arith, get_path-add i j p t, s.fresh j);
  root = ground (arith, get_inode-add i p [] t, path_eq_iff p [], s.root);
  unindexed = ground (arith, entry_of-add_entry p [] e index, path_eq_iff p [], s.unindexed);
  covers = λ q k.
      ground (
        arith,
        get_inode-add i p q t,
        entry_of-add_entry p q e index,
        path_eq_iff p q,
        s.covers q k,
      );
}

pub remove-IsSound :
    (index : FileIndex) (t : InodeTable) (n : ℕ) (p : FilePath)
    → IsSound index t n
    → (p ≡ [] → ⊥)
    → IsSound (remove_entry p index) ((remove_path p t).1) n
remove-IsSound index t n p s ne = record {
  agrees = remove_path-Agrees p t s.agrees;
  fresh = λ j l. remove_path-keeps-none p j t (s.fresh j l);
  root = ground (arith, get_inode-remove_path p [] t, path_eq_iff p [], s.root);
  unindexed = ground (arith, entry_of-remove_entry p [] index, path_eq_iff p [], s.unindexed);
  covers = λ q k. ground (
    arith,
    get_inode-remove_path p q t,
    entry_of-remove_entry p q index,
    path_eq_iff p q,
    s.covers q k,
  );
}

-- Taking out the inode of a path is taking out the path.
drop_inode_as-remove_path :
    (p : FilePath) (t : InodeTable)
    → Agrees t
    → drop_inode_as t (get_inode p t) ≡ (remove_path p t).1
unfolding Agrees remove_path remove_inode get_inode get_path
drop_inode_as-remove_path p t a = elim (Option-cases (find p t.path_to_inode)) [
  | inl absent ↦ simp absent refl
  | inr (i, e) ↦ simp e (ap (λ x. (without_inode i t x).1) (a.1 i p e))
]

pub drop_inode-IsSound :
    (index : FileIndex) (t : InodeTable) (n : ℕ) (p : FilePath)
    → IsSound index t n
    → (p ≡ [] → ⊥)
    → IsSound (remove_entry p index) (drop_inode_as t (get_inode p t)) n
drop_inode-IsSound index t n p s ne =
    rw (drop_inode_as-remove_path p t s.agrees) (remove-IsSound index t n p s ne)

-- An indexed path moves to one that is not indexed.
pub move-IsSound :
    (index : FileIndex) (t : InodeTable) (n : ℕ) (from to : FilePath) (e old : FileEntry)
    → IsSound index t n
    → (from ≡ [] → ⊥)
    → (to ≡ [] → ⊥)
    → entry_of from index ≡ some old
    → entry_of to index ≡ none
    → IsSound (add_entry to e (remove_entry from index)) (move_inode from to t) n
unfolding move_inode Agrees
move-IsSound index t n from to e old s nf nt known new =
    let (i, h) = indexed_path index t n from old s known in
    let back : get_path i t ≡ some from = s.agrees.1 i from h in
    let used : i < n = ground (arith, back, s.fresh i) in
    let still : entry_of to (remove_entry from index) ≡ none =
      ground (arith, new, entry_of-remove_entry from to index) in
    let free : get_path i ((remove_path from t).1) ≡ none =
      ground (arith, get_path-remove_path from i i t h) in
    rw h (
      add-IsSound (remove_entry from index) ((remove_path from t).1) n n i to e
        (remove-IsSound index t n from s nf) nt still free used (omega arith))

-- An entry that replaces another
pub replace-IsSound :
    (index : FileIndex) (t : InodeTable) (n i : ℕ) (p : FilePath) (e : FileEntry)
    → IsSound index t n
    → (p ≡ [] → ⊥)
    → get_inode p t ≡ some i
    → IsSound (add_entry p e index) t n
replace-IsSound index t n i p e s ne known = record {
  agrees = s.agrees;
  fresh = s.fresh;
  root = s.root;
  unindexed = ground (arith, entry_of-add_entry p [] e index, path_eq_iff p [], ne, s.unindexed);
  covers = λ q k. elim (Bool-cases (path_eq p q)) [
    | inl z ↦
        rw (sym ((path_eq_iff p q).0 z))
          (simp (entry_of-add_entry p p e index, path_eq_refl p, known) refl)
    | inr z ↦ ground (arith, z, entry_of-add_entry p q e index, s.covers q k)
  ];
}
