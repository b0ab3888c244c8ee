-- ===== src/Wolfdisk/Paths.antt =====
-- `Path` and `PathBuf` of the standard library, as WolfDisk uses them: a relative path is the list of
-- its components, by which the library compares paths too.
use wolf_scale.Base.{
  ◌≡◌, ◌↔◌, refl, ap, String, Bool, true, false, ◌&&◌, Option, none, some, List, [], ◌∷◌, ◌++◌,
  arith, str_eq, str_eq_iff, Eq,
}

abbrev pub FilePath : Type 0
FilePath = List String

abbrev pub join : FilePath → String → FilePath
join dir name = dir ++ (name ∷ [])

abbrev pub below : String → Option FilePath → Option FilePath
below n none = some []
below n (some dir) = some (n ∷ dir)

unfoldable pub parent : FilePath → Option FilePath
parent [] = none
parent (n ∷ ns) = below n (parent ns)

abbrev pub path_eq : FilePath → FilePath → Bool
path_eq [] [] = true
path_eq [] (n ∷ q) = false
path_eq (n ∷ p) [] = false
path_eq (n ∷ p) (m ∷ q) = str_eq n m && path_eq p q

pub path_eq_iff : (p q : FilePath) → (path_eq p q ≡ true) ↔ (p ≡ q)
path_eq_iff [] [] = (λ h. refl, λ h. refl)
path_eq_iff [] (n ∷ q) = (λ h. cc h, λ h. cc h)
path_eq_iff (n ∷ p) [] = (λ h. cc h, λ h. cc h)
path_eq_iff (n ∷ p) (m ∷ q) = (
  λ h. ground (arith, h, str_eq_iff n m, path_eq_iff p q),
  λ h. ground (arith, h, str_eq_iff n m, path_eq_iff p q),
)

instance abbrev pub path_keys : Eq FilePath
path_keys = record { beq = path_eq; beq_iff = path_eq_iff }

pub path_eq_refl : (p : FilePath) → path_eq p p ≡ true
path_eq_refl p = (path_eq_iff p p).1 refl

-- Whether a path is an entry of the directory.
abbrev pub is_parent : FilePath → Option FilePath → Bool
is_parent dir none = false
is_parent dir (some p) = path_eq p dir

unfoldable pub is_child : FilePath → FilePath → Bool
is_child dir p = is_parent dir (parent p)

pub parent-join : (dir : FilePath) (name : String) → parent (join dir name) ≡ some dir
unfolding parent
parent-join [] name = refl
parent-join (d ∷ dir) name = ap (below d) (parent-join dir name)

pub join-ne-nil : (dir : FilePath) (name : String) → join dir name ≡ [] → ⊥
join-ne-nil [] name h = cc h
join-ne-nil (d ∷ dir) name h = cc h

abbrev pub append_text : String → String → String
append_text String.[] t = t
append_text (String.◌∷◌ c s) t = String.◌∷◌ c (append_text s t)

abbrev pub after_slash : FilePath → String → String
after_slash [] rest = ""
after_slash (n ∷ p) rest = append_text "/" rest

-- `to_string_lossy`
unfoldable pub path_text : FilePath → String
path_text [] = ""
path_text (n ∷ p) = append_text n (after_slash p (path_text p))
