-- ===== src/Wolfdisk/Cache.antt =====
-- wolfdisk/src/storage/chunks.rs: `ReadCache`, the chunks read last in memory.
use wolf_scale.Base.{
  ℕ, Bool, true, false, Option, none, some, List, [], ◌∷◌, ◌++◌, leb, ◌==◌, if◌then◌else◌, length,
  get, put, take_out,
}

pub record ReadCache : Type 0 where
  pub entries : List (ℕ × List ℕ)
  pub access_order : List ℕ
  pub capacity : ℕ

unfoldable pub remove_first : ℕ → List ℕ → List ℕ
remove_first h [] = []
remove_first h (k ∷ ks) = if k == h then ks else k ∷ remove_first h ks

unfoldable pub is_in : ℕ → List ℕ → Bool
is_in h [] = false
is_in h (k ∷ ks) = if k == h then true else is_in h ks

unfoldable pub look_up : ℕ → ReadCache → Option (List ℕ) × ReadCache
look_up hash c =
    let used =
      if is_in hash c.access_order
      then record c { access_order = remove_first hash c.access_order ++ (hash ∷ []) }
      else c in
    elim (get hash c.entries) [ some bytes ↦ (some bytes, used) | none ↦ (none, c) ]

-- The oldest entries go while there is no room.
unfoldable pub evict : List ℕ → ReadCache → ReadCache
evict [] c = record c { access_order = [] }
evict (oldest ∷ order) c =
    let less = evict order (record c { entries = take_out oldest c.entries }) in
    if leb c.capacity (length c.entries) then less else record c { access_order = oldest ∷ order }

abbrev pub add : ℕ → List ℕ → ReadCache → ReadCache
add hash bytes c = record c {
  entries = put hash bytes c.entries;
  access_order = c.access_order ++ (hash ∷ []);
}

abbrev pub insert_unless : Option (List ℕ) → ℕ → List ℕ → ReadCache → ReadCache
insert_unless (some _) hash bytes c = c
insert_unless none hash bytes c = add hash bytes (evict c.access_order c)

unfoldable pub insert : ℕ → List ℕ → ReadCache → ReadCache
insert hash bytes c = insert_unless (get hash c.entries) hash bytes c

unfoldable pub remove : ℕ → ReadCache → ReadCache
remove hash c = record c {
  entries = take_out hash c.entries;
  access_order = remove_first hash c.access_order;
}
