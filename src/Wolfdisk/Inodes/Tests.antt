-- ===== src/Wolfdisk/Inodes/Tests.antt =====
-- Inode tables of wolfdisk/src/storage/inode.rs, run.
use wolf_scale.Base.{◌≡◌, refl, String, none, some, List, [], ◌∷◌, Member, inl, inr}
use wolf_scale.Base
use wolf_scale.Wolfdisk.Paths.{FilePath}
use wolf_scale.Wolfdisk.Inodes.{
  add, new, from_index, get_path, get_inode, remove_path, remove_inode,
}
use wolf_scale.Wolfdisk.Inodes.Agreement.{
  Apart, Step, added, path_removed, inode_removed, step, IsFresh, AllFresh,
}

abbrev paths : List FilePath
paths = ("a" ∷ []) ∷ ("a" ∷ "b" ∷ []) ∷ []

abbrev steps : List Step
steps = path_removed ("a" ∷ "b" ∷ []) ∷ added 4 ("c" ∷ []) ∷ inode_removed 2 ∷ []

paths-Apart : Apart paths
unfolding Apart
paths-Apart = ((λ m. elim m [ inl e ↦ cc e | inr n ↦ absurd n ]), ((λ n. absurd n), tt))

no_root : Member [] paths → ⊥
no_root (inl e) = cc e
no_root (inr (inl e)) = cc e
no_root (inr (inr n)) = absurd n

steps-AllFresh : AllFresh steps ((from_index paths).0)
unfolding AllFresh IsFresh step from_index new add get_path get_inode remove_path remove_inode
    wolf_scale.Base.get wolf_scale.Base.put wolf_scale.Base.take_out wolf_scale.Base.find
    wolf_scale.Base.set wolf_scale.Base.unset
steps-AllFresh = (tt, ((refl, refl), (tt, tt)))

third : (from_index paths).1 ≡ 3
unfolding from_index
third = refl

-- A path that is added again leaves its old inode behind.
left_behind : get_path 2 (add 5 ("a" ∷ []) ((from_index paths).0)) ≡ some ("a" ∷ [])
unfolding from_index new add get_path wolf_scale.Base.get wolf_scale.Base.put
left_behind = refl
