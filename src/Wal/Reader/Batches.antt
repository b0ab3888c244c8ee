-- ===== src/Wal/Reader/Batches.antt =====
-- `read_batch` of wal/reader.rs against `read_from`.
use wolf_scale.Base.{
  ℕ, zero, suc, ◌≤◌, ◌<◌, ◌≡◌, refl, ap, sym, ◌∙◌, true, false, List, [], ◌∷◌, ◌++◌, arith, ◌⊎◌,
  inl, inr, length, length-append, take, append_assoc, append-nil, leb, Bool-cases,
}
use wolf_scale.Error.{Result, ok, err}
use wolf_scale.Wal.Entry.{WalEntry}
use wolf_scale.Wal.Segment.{Codec, iterate, and_then}
use wolf_scale.Wal.Writer.{Directory}
use wolf_scale.Wal.Reader.{
  WalReader, open_path, files_from, collect, collect_batch, read_files, read_from, batch_files,
  read_batch,
}

-- The first list is the front of the second.
abbrev IsFront : List WalEntry → List WalEntry → Type 0
IsFront xs ys = (rest : List WalEntry) × (ys ≡ xs ++ rest)

IsFront-snoc : (xs ys : List WalEntry) (e : WalEntry) → IsFront (xs ++ (e ∷ [])) ys → IsFront xs ys
IsFront-snoc xs ys e (rest, same) = (e ∷ rest, same ∙ append_assoc xs (e ∷ []) rest)

IsFront-trans : (xs ys zs : List WalEntry) → IsFront xs ys → IsFront ys zs → IsFront xs zs
IsFront-trans xs ys zs (r, same) (q, more) =
    (r ++ q, more ∙ ap (λ l. l ++ q) same ∙ append_assoc xs r q)

take-front : (n : ℕ) (xs rest : List WalEntry) → length xs ≡ n → take n (xs ++ rest) ≡ xs
take-front zero [] rest h = refl
take-front (suc n) [] rest h = absurd (omega arith)
take-front zero (x ∷ xs) rest h = absurd (omega arith)
take-front (suc n) (x ∷ xs) rest h = ap (◌∷◌ x) (take-front n xs rest (omega arith))

take-all : (n : ℕ) (xs : List WalEntry) → length xs ≤ n → take n xs ≡ xs
take-all zero [] h = refl
take-all (suc n) [] h = refl
take-all zero (x ∷ xs) h = absurd (omega arith)
take-all (suc n) (x ∷ xs) h = ap (◌∷◌ x) (take-all n xs (omega arith))

take_more : (n : ℕ) (xs rest : List WalEntry) → n ≤ length xs → take n (xs ++ rest) ≡ take n xs
take_more zero xs rest h = refl
take_more (suc n) [] rest h = absurd (omega arith)
take_more (suc n) (x ∷ xs) rest h = ap (◌∷◌ x) (take_more n xs rest (omega arith))

went :
    {A B : Type 0} (r : Result A) (f : A → Result B) (b : B)
    → and_then r f ≡ ok b
    → (a : A) × (r ≡ ok a) × (f a ≡ ok b)
went (ok a) f b h = (a, refl, h)
went (err e) f b h = cc

ok-injective : {A : Type 0} {a b : A} → ok a ≡ ok b → a ≡ b
ok-injective h = cc

collect-IsFront :
    (from : ℕ) (rs : List (Result WalEntry)) (acc out : List WalEntry)
    → collect from rs acc ≡ ok out
    → IsFront acc out
unfolding collect
collect-IsFront from [] acc out h = ([], ground (arith, h, append-nil acc))
collect-IsFront from (err x ∷ rs) acc out h = cc
collect-IsFront from (ok e ∷ rs) acc out h = elim (Bool-cases (leb from e.header.lsn)) [
  | inl in_range ↦
      IsFront-snoc acc out e (collect-IsFront from rs (acc ++ (e ∷ [])) out (rw in_range at h))
  | inr skipped ↦ collect-IsFront from rs acc out (rw skipped at h)
]

-- A batch that stops has as many entries as it may, one that does not stop has them all.
Stopped : (from max : ℕ) (rs : List (Result WalEntry)) (acc out : List WalEntry) → Type 0
Stopped from max rs acc out =
    ((collect_batch from max rs acc ≡ ok (true, take max out)) × (max ≤ length out))
    ⊎ ((collect_batch from max rs acc ≡ ok (false, out)) × (length out < max))

collect_batch-collect :
    (from max : ℕ) (rs : List (Result WalEntry)) (acc out : List WalEntry)
    → collect from rs acc ≡ ok out
    → length acc < max
    → Stopped from max rs acc out
unfolding collect collect_batch Stopped
collect_batch-collect from max [] acc out h short =
    let same : acc ≡ out = ok-injective h in inr (ap (λ l. ok (false, l)) same, rw same at short)
collect_batch-collect from max (err x ∷ rs) acc out h short = cc
collect_batch-collect from max (ok e ∷ rs) acc out h short =
    elim (Bool-cases (leb from e.header.lsn)) [
      | inl in_range ↦
          let more = acc ++ (e ∷ []) in
          let n : length more ≡ suc (length acc) = omega (arith, length-append acc (e ∷ [])) in
          let h' : collect from rs more ≡ ok out = rw in_range at h in
          elim (Bool-cases (leb max (length more))) [
            | inl full ↦
                let (rest, same) = collect-IsFront from rs more out h' in
                let whole : length more ≡ max = ground (arith, full, n, short) in
                let enough : max ≤ length out =
                  omega (arith, whole, ap (λ l. length l) same, length-append more rest) in
                let front : take max out ≡ more = rw same (take-front max more rest whole) in
                rw (in_range, full, front) (inl (refl, enough))
            | inr room ↦
                rw (in_range, room)
                  (collect_batch-collect from max rs more out h' (ground (arith, room)))
          ]
      | inr skipped ↦ rw skipped (collect_batch-collect from max rs acc out (rw skipped at h) short)
    ]

module _ (c : Codec) (d : Directory) (r : WalReader) where
  read_files-IsFront :
      (from : ℕ) (files : List (ℕ × ℕ)) (acc all : List WalEntry)
      → read_files c d r from files acc ≡ ok all
      → IsFront acc all
  unfolding read_files
  read_files-IsFront from [] acc all h = ([], ground (arith, h, append-nil acc))
  read_files-IsFront from ((_, path) ∷ files) acc all h =
      let (s, _, h₁) = went (open_path d r path) _ all h in
      let (out, here, h₂) = went (collect from (iterate c s) acc) _ all h₁ in
      IsFront-trans acc out all (collect-IsFront from (iterate c s) acc out here)
        (read_files-IsFront from files out all h₂)

  batch_files-read_files :
      (from max : ℕ) (files : List (ℕ × ℕ)) (acc all : List WalEntry)
      → read_files c d r from files acc ≡ ok all
      → length acc < max
      → batch_files c d r from max files acc ≡ ok (take max all)
  unfolding read_files batch_files Stopped
  batch_files-read_files from max [] acc all h short =
      let same : acc ≡ all = ok-injective h in
      ap ok (sym (take-all max acc (omega (arith, short))) ∙ ap (λ l. take max l) same)
  batch_files-read_files from max ((_, path) ∷ files) acc all h short =
      let (s, opens, h₁) = went (open_path d r path) _ all h in
      let (out, here, h₂) = went (collect from (iterate c s) acc) _ all h₁ in
      let (rest, same) = read_files-IsFront from files out all h₂ in
      elim (collect_batch-collect from max (iterate c s) acc out here short) [
        | inl (stopped, enough) ↦
            rw (opens, stopped)
              (ap ok (sym (take_more max out rest enough) ∙ ap (λ l. take max l) (sym same)))
        | inr (went_on, room) ↦
            rw (opens, went_on) (batch_files-read_files from max files out all h₂ room)
      ]

  -- A batch is the first entries of what `read_from` gives from the same LSN on, as many as the
  -- batch may have, which is at least one.
  pub read_batch-read_from :
      (from max : ℕ) (all : List WalEntry)
      → 1 ≤ max
      → read_from c d r from ≡ ok all
      → read_batch c d r from max ≡ ok (take max all)
  unfolding read_from read_batch
  read_batch-read_from from max all some_room h =
      batch_files-read_files from max (files_from from r) [] all h (omega (arith, some_room))
