-- ===== src/Wolfdisk/Inodes/Agreement.antt =====
-- The two maps of an inode table are inverse to one another.
use mathlib.Core.Path.{subst}
use wolf_scale.Base.{
  ℕ, suc, ◌<◌, ◌≡◌, refl, sym, ◌∙◌, Option, none, some, List, [], ◌∷◌, arith, Bool-cases, inl, inr,
  Member, find, set, unset, find-set, find-unset, get, put, take_out, get-put, get-take_out,
}
use wolf_scale.Wolfdisk.Paths.{FilePath, path_eq, path_eq_iff, path_keys}
use wolf_scale.Wolfdisk.Inodes.{
  InodeTable, add, new, assign, from_index, get_path, get_inode, remove_path, remove_inode,
  without_path, without_inode,
}

-- The path of every inode has that inode, and the inode of every path that path.
unfoldable pub Agrees : InodeTable → Type 0
Agrees t =
    ((i : ℕ) (p : FilePath) → get_path i t ≡ some p → get_inode p t ≡ some i)
    × ((i : ℕ) (p : FilePath) → get_inode p t ≡ some i → get_path i t ≡ some p)

pub add-Agrees :
    (i : ℕ) (p : FilePath) (t : InodeTable)
    → get_path i t ≡ none
    → get_inode p t ≡ none
    → Agrees t
    → Agrees (add i p t)
unfolding Agrees add get_path get_inode
add-Agrees i p t a b (f, g) = (
  (λ j q e. ground (
    arith,
    e,
    a,
    b,
    f j q,
    get-put i j p t.inode_to_path,
    find-set p q i t.path_to_inode,
    path_eq_iff p q,
  )),
  (λ j q e. ground (
    arith,
    e,
    a,
    b,
    g j q,
    get-put i j p t.inode_to_path,
    find-set p q i t.path_to_inode,
    path_eq_iff p q,
  )),
)

-- Taking out a pair that agrees.
pair-Agrees :
    (i : ℕ) (p : FilePath) (t : InodeTable)
    → get_path i t ≡ some p
    → get_inode p t ≡ some i
    → Agrees t
    → Agrees (record {
      inode_to_path = take_out i t.inode_to_path;
      path_to_inode = unset p t.path_to_inode;
    })
unfolding Agrees get_path get_inode
pair-Agrees i p t a b (f, g) = (
  (λ j q e. ground (
    arith,
    e,
    a,
    b,
    f j q,
    g i q,
    get-take_out i j t.inode_to_path,
    find-unset p q t.path_to_inode,
    path_eq_iff p q,
  )),
  (λ j q e. ground (
    arith,
    e,
    a,
    b,
    g j q,
    f j p,
    get-take_out i j t.inode_to_path,
    find-unset p q t.path_to_inode,
    path_eq_iff p q,
  )),
)

pub without_path-Agrees :
    (p : FilePath) (t : InodeTable) (x : Option ℕ)
    → get_inode p t ≡ x
    → Agrees t
    → Agrees ((without_path p t x).1)
unfolding Agrees
without_path-Agrees p t none e a = a
without_path-Agrees p t (some i) e a = pair-Agrees i p t (a.1 i p e) e a

pub without_inode-Agrees :
    (i : ℕ) (t : InodeTable) (x : Option FilePath)
    → get_path i t ≡ x
    → Agrees t
    → Agrees ((without_inode i t x).1)
unfolding Agrees
without_inode-Agrees i t none e a = a
without_inode-Agrees i t (some p) e a = pair-Agrees i p t e (a.0 i p e) a

-- No inode above the bound has a path.
unfoldable pub FreeAbove : ℕ → InodeTable → Type 0
FreeAbove n t = (i : ℕ) → n < i → get_path i t ≡ none

add-FreeAbove :
    (n : ℕ) (p : FilePath) (t : InodeTable) → FreeAbove n t → FreeAbove (suc n) (add (suc n) p t)
unfolding FreeAbove get_path add
add-FreeAbove n p t h i l =
    ground (arith, h i (omega (arith, l)), get-put (suc n) i p t.inode_to_path, l)

-- Each path once.
unfoldable pub Apart : List FilePath → Type 0
Apart [] = Unit {0}
Apart (p ∷ ps) = (Member p ps → ⊥) × Apart ps

Unlisted : List FilePath → InodeTable → Type 0
Unlisted ps t = (q : FilePath) → Member q ps → get_inode q t ≡ none

add-Unlisted :
    (i : ℕ) (p : FilePath) (ps : List FilePath) (t : InodeTable)
    → (Member p ps → ⊥)
    → Unlisted (p ∷ ps) t
    → Unlisted ps (add i p t)
unfolding Unlisted get_inode add
add-Unlisted i p ps t n h q m = find-set p q i t.path_to_inode ∙ elim (Bool-cases (path_eq p q)) [
  | inl e ↦ absurd (n (subst (λ k. Member k ps) (sym ((path_eq_iff p q).0 e)) m))
  | inr e ↦ simp (e) (h q (inr m))
]

assign-Agrees :
    (ps : List FilePath) (t : InodeTable) (n : ℕ)
    → Agrees t
    → FreeAbove n t
    → Apart ps
    → Unlisted ps t
    → Agrees ((assign ps (t, n)).0) × FreeAbove ((assign ps (t, n)).1) ((assign ps (t, n)).0)
unfolding Apart FreeAbove Unlisted
assign-Agrees [] t n a f d u = (a, f)
assign-Agrees (p ∷ ps) t n a f (d, ds) u =
    assign-Agrees ps (add (suc n) p t) (suc n)
      (add-Agrees (suc n) p t (f (suc n) (omega arith)) (u p (inl refl)) a) (add-FreeAbove n p t f)
      ds (add-Unlisted (suc n) p ps t d u)

new-Agrees : Agrees new
unfolding Agrees new add get_path get_inode find set get put
new-Agrees =
    ((λ i p e. ground (arith, e, path_eq_iff [] p)), (λ i p e. ground (arith, e, path_eq_iff [] p)))

new-FreeAbove : FreeAbove 1 new
unfolding FreeAbove new add get_path get put
new-FreeAbove i l = ground (arith, l)

new-Unlisted : (ps : List FilePath) → (Member [] ps → ⊥) → Unlisted ps new
unfolding Unlisted new add get_inode find set
new-Unlisted ps n q m = elim (Bool-cases (path_eq [] q)) [
  | inl e ↦ absurd (n (subst (λ k. Member k ps) (sym ((path_eq_iff [] q).0 e)) m))
  | inr e ↦ simp (e) refl
]

-- What the file system does to the table.
pub data Step : Type 0 where
  added : (inode : ℕ) (path : FilePath) → Step
  path_removed : (path : FilePath) → Step
  inode_removed : (inode : ℕ) → Step

unfoldable pub step : Step → InodeTable → InodeTable
step (added i p) t = add i p t
step (path_removed p) t = (remove_path p t).1
step (inode_removed i) t = (remove_inode i t).1

unfoldable pub run : List Step → InodeTable → InodeTable
run [] t = t
run (x ∷ xs) t = run xs (step x t)

unfoldable pub IsFresh : Step → InodeTable → Type 0
IsFresh (added i p) t = (get_path i t ≡ none) × (get_inode p t ≡ none)
IsFresh (path_removed p) t = Unit {0}
IsFresh (inode_removed i) t = Unit {0}

-- Each inode and each path that is added is in neither map then.
unfoldable pub AllFresh : List Step → InodeTable → Type 0
AllFresh [] t = Unit {0}
AllFresh (x ∷ xs) t = IsFresh x t × AllFresh xs (step x t)

step-Agrees : (x : Step) (t : InodeTable) → IsFresh x t → Agrees t → Agrees (step x t)
unfolding step IsFresh remove_path remove_inode get_path get_inode
step-Agrees (added i p) t (e, e') a = add-Agrees i p t e e' a
step-Agrees (path_removed p) t e a = without_path-Agrees p t (find p t.path_to_inode) refl a
step-Agrees (inode_removed i) t e a = without_inode-Agrees i t (get i t.inode_to_path) refl a

run-Agrees : (xs : List Step) (t : InodeTable) → AllFresh xs t → Agrees t → Agrees (run xs t)
unfolding run AllFresh
run-Agrees [] t h a = a
run-Agrees (x ∷ xs) t (h, hs) a = run-Agrees xs (step x t) hs (step-Agrees x t h a)

-- The table built from an index whose paths are distinct and not that of the root has no inode above
-- the number returned with it, and after any removals and additions, these of an inode and a path
-- that are in neither map then, the path of every inode has that inode and the other way round.
pub run-from_index-Agrees :
    (paths : List FilePath) (xs : List Step)
    → Apart paths
    → (Member [] paths → ⊥)
    → AllFresh xs ((from_index paths).0)
    → Agrees (run xs ((from_index paths).0))
      × FreeAbove ((from_index paths).1) ((from_index paths).0)
unfolding from_index
run-from_index-Agrees paths xs d r h =
    let (a, f) = assign-Agrees paths new 1 new-Agrees new-FreeAbove d (new-Unlisted paths r) in
    (run-Agrees xs ((assign paths (new, 1)).0) h a, f)
