-- ===== src/Wolfdisk/Replicas/Mirror.antt =====
-- The index of a follower (wolfdisk/src/main.rs) against that of its leader
-- (wolfdisk/src/fuse/filesystem.rs).
use wolf_scale.Base.{
  ℕ, ◌≡◌, refl, ap, sym, ◌∙◌, Bool, true, false, Option, none, some, List, [], arith, if◌then◌else◌,
  Bool-cases, Option-cases, inl, inr,
}
use wolf_scale.Wolfdisk.Paths.{FilePath, path_eq, path_eq_iff, path_eq_refl}
use wolf_scale.Wolfdisk.Chunks.{ChunkRef}
use wolf_scale.Wolfdisk.Index.{FileEntry, FileIndex, entry_of, add_entry, remove_entry}
use wolf_scale.Wolfdisk.Inodes.{get_inode}
use wolf_scale.Wolfdisk.Filesystem.{WolfDiskFs, IndexOperation, upsert, delete, mkdir, rename}
use wolf_scale.Wolfdisk.Filesystem.Sound.{entry_of-add_entry, entry_of-remove_entry}
use wolf_scale.Wolfdisk.Replicas.{
  received, with_inode, ensure_inode, put_entry, drop_path, drop_old, carry, move_path,
  handle_index_update,
}

-- What the operations on the index send of an entry
abbrev pub Shown : Type 0
Shown = Bool × (ℕ × (ℕ × List ChunkRef))

abbrev pub shown : FileEntry → Shown
shown e = (e.is_dir, (e.size, (e.permissions, e.chunks)))

abbrev pub shown_of : Option FileEntry → Option Shown
shown_of none = none
shown_of (some e) = some (shown e)

unfoldable pub seen : FilePath → FileIndex → Option Shown
seen p index = shown_of (entry_of p index)

-- Two indexes with the same paths, and under each the same kind, size, permissions and chunks
unfoldable pub Mirrors : FileIndex → FileIndex → Type 0
Mirrors a b = (p : FilePath) → seen p a ≡ seen p b

pub seen-add_entry :
    (p q : FilePath) (e : FileEntry) (index : FileIndex)
    → seen q (add_entry p e index) ≡ (if path_eq p q then some (shown e) else seen q index)
unfolding seen
seen-add_entry p q e index = ground (arith, entry_of-add_entry p q e index)

pub seen-remove_entry :
    (p q : FilePath) (index : FileIndex)
    → seen q (remove_entry p index) ≡ (if path_eq p q then none else seen q index)
unfolding seen
seen-remove_entry p q index = ground (arith, entry_of-remove_entry p q index)

seen-ensure_inode :
    (p q : FilePath) (fs : WolfDiskFs)
    → seen q (ensure_inode p fs).file_index ≡ seen q fs.file_index
unfolding ensure_inode
seen-ensure_inode p q fs = elim (Option-cases (get_inode p fs.inode_table)) [
  | inl absent ↦ rw (absent, with_inode) refl
  | inr (i, e) ↦ rw (e, with_inode) refl
]

pub seen-none : (p : FilePath) (index : FileIndex) → entry_of p index ≡ none → seen p index ≡ none
unfolding seen
seen-none p index e = ap shown_of e

pub seen-some :
    (p : FilePath) (e : FileEntry) (index : FileIndex)
    → entry_of p index ≡ some e
    → seen p index ≡ some (shown e)
unfolding seen
seen-some p e index h = ap shown_of h

entry_seen :
    (p : FilePath) (x : Shown) (index : FileIndex)
    → seen p index ≡ some x
    → (e : FileEntry) × (entry_of p index ≡ some e) × (shown e ≡ x)
unfolding seen
entry_seen p x index h = elim (Option-cases (entry_of p index)) [
  | inl absent ↦ cc (h, ap shown_of absent)
  | inr (e, k) ↦ (e, k, cc (h, ap shown_of k))
]

-- What an operation makes of an index
unfoldable pub after_op : IndexOperation → FilePath → FileIndex → Option Shown
after_op (upsert path size modified permissions chunks) q index =
    if path_eq path q then some (false, (size, (permissions, chunks))) else seen q index
after_op (delete path) q index = if path_eq path q then none else seen q index
after_op (mkdir path permissions) q index =
    if path_eq path q then some (true, (0, (permissions, []))) else seen q index
after_op (rename from to) q index =
    if path_eq to q then seen from index else if path_eq from q then none else seen q index

-- A rename is sent of a path that is indexed, and to another.
unfoldable pub IsSendable : IndexOperation → FileIndex → Type 0
IsSendable (upsert _ _ _ _ _) index = Unit {0}
IsSendable (delete _) index = Unit {0}
IsSendable (mkdir _ _) index = Unit {0}
IsSendable (rename from to) index =
    (from ≡ to → ⊥) × ((e : FileEntry) × (entry_of from index ≡ some e))

pub seen-drop_old :
    (p q : FilePath) (fs : WolfDiskFs) (o : Option FileEntry)
    → entry_of p fs.file_index ≡ o
    → seen q (drop_old p fs o).file_index ≡ (if path_eq p q then none else seen q fs.file_index)
unfolding drop_path
seen-drop_old p q fs none h = elim (Bool-cases (path_eq p q)) [
  | inl e ↦ simp (sym ((path_eq_iff p q).0 e), path_eq_refl p) (seen-none p fs.file_index h)
  | inr e ↦ simp e refl
]
seen-drop_old p q fs (some old) h = seen-remove_entry p q fs.file_index

seen-move_path :
    (from to q : FilePath) (fs : WolfDiskFs) (e : FileEntry)
    → (from ≡ to → ⊥)
    → entry_of from fs.file_index ≡ some e
    → seen q (move_path from to fs).file_index ≡ after_op (rename from to) q fs.file_index
unfolding move_path after_op drop_path
seen-move_path from to q fs e ne h =
    let cleared = drop_old to fs (entry_of to fs.file_index) in
    let there : seen from cleared.file_index ≡ some (shown e) = ground (
      arith,
      ne,
      seen-drop_old to from fs (entry_of to fs.file_index) refl,
      path_eq_iff to from,
      seen-some from e fs.file_index h,
    ) in
    let (e', k, same) = entry_seen from (shown e) cleared.file_index there in
    rw (k, carry)
      (seen-add_entry to q e' (remove_entry from cleared.file_index)
        ∙ elim (Bool-cases (path_eq to q)) [
          | inl z ↦ simp z (ap some same ∙ sym (seen-some from e fs.file_index h))
          | inr z ↦ simp z (
              seen-remove_entry from q cleared.file_index
              ∙ ap (λ r. if path_eq from q then none else r)
                  (seen-drop_old to q fs (entry_of to fs.file_index) refl ∙ simp z refl))
        ])

-- A follower does to its index what the operation says.
pub handle_index_update-seen :
    (is_client : Bool) (now : ℕ) (op : IndexOperation) (q : FilePath) (fs : WolfDiskFs)
    → IsSendable op fs.file_index
    → seen q (handle_index_update is_client now op fs).file_index ≡ after_op op q fs.file_index
unfolding handle_index_update after_op IsSendable put_entry drop_path
handle_index_update-seen is_client now (upsert path size modified permissions chunks) q fs s =
    let entry = received false size modified permissions chunks now in
    seen-ensure_inode path q (put_entry path entry fs) ∙ seen-add_entry path q entry fs.file_index
handle_index_update-seen is_client now (delete path) q fs s = seen-remove_entry path q fs.file_index
handle_index_update-seen is_client now (mkdir path permissions) q fs s =
    let entry = received true 0 now permissions [] now in
    seen-ensure_inode path q (put_entry path entry fs) ∙ seen-add_entry path q entry fs.file_index
handle_index_update-seen is_client now (rename from to) q fs (ne, (e, h)) =
    seen-move_path from to q fs e ne h

-- Operations keep indexes alike.
pub after_op-Mirrors :
    (op : IndexOperation) (q : FilePath) (a b : FileIndex)
    → Mirrors a b
    → after_op op q a ≡ after_op op q b
unfolding after_op Mirrors
after_op-Mirrors (upsert path size modified permissions chunks) q a b m = ground (arith, m q)
after_op-Mirrors (delete path) q a b m = ground (arith, m q)
after_op-Mirrors (mkdir path permissions) q a b m = ground (arith, m q)
after_op-Mirrors (rename from to) q a b m = ground (arith, m q, m from)

pub IsSendable-Mirrors :
    (op : IndexOperation) (a b : FileIndex) → Mirrors a b → IsSendable op a → IsSendable op b
unfolding IsSendable Mirrors
IsSendable-Mirrors (upsert _ _ _ _ _) a b m s = tt
IsSendable-Mirrors (delete _) a b m s = tt
IsSendable-Mirrors (mkdir _ _) a b m s = tt
IsSendable-Mirrors (rename from to) a b m (ne, (e, h)) =
    let (e', k, _) = entry_seen from (shown e) b (sym (m from) ∙ seen-some from e a h) in
    (ne, (e', k))
