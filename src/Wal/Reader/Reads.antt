-- ===== src/Wal/Reader/Reads.antt =====
-- What the reader of wal/reader.rs gives over files that hold known entries.
use wolf_scale.Base.{
  ℕ, ◌≡◌, refl, ap, sym, ◌∙◌, Bool, List, [], ◌∷◌, ◌++◌, map, arith, ◌&&◌, keep, first,
  append_assoc, append-nil, leb, ◌==◌, ◌<◌, ◌≤◌, some, none, Option, range_from, last_up_to, Above,
  Sorted, if◌then◌else◌, Bool-cases, inl, inr,
}
use mathlib.Core.Path.{subst}
use wolf_scale.Error.{ok}
use wolf_scale.Wal.Entry.{WalEntry}
use wolf_scale.Wal.Segment.{Codec, Segment, iterate}
use wolf_scale.Wal.Writer.{Directory}
use wolf_scale.Wal.Reader.{
  WalReader, open_path, files_from, collect, read_files, start_lsn, key_of, read_from, read_range,
  get, head?,
}

abbrev pub AllBelow : ℕ → List WalEntry → Type 0
AllBelow n [] = Unit {0}
AllBelow n (e ∷ es) = (e.header.lsn < n) × AllBelow n es

-- Entries that are all below the first LSN of the next file, if there is one
abbrev pub Behind : List (ℕ × ℕ) → List WalEntry → Type 0
Behind [] es = Unit {0}
Behind ((first_lsn, _) ∷ files) es = AllBelow first_lsn es

-- Each file opens, its iterator gives its part of the entries, and these are below the next file.
abbrev pub Reads : Codec → Directory → WalReader → List (ℕ × ℕ) → List WalEntry → Type 0
Reads c d r [] es = es ≡ []
Reads c d r ((_, path) ∷ files) es =
    (s : Segment) × (here later : List WalEntry) × (open_path d r path ≡ ok s)
    × (iterate c s ≡ map ok here)
    × (es ≡ here ++ later)
    × Behind files here
    × Reads c d r files later

abbrev pub from_on : ℕ → List WalEntry → List WalEntry
from_on from es = keep (λ e. leb from e.header.lsn) es

keep-append :
    (p : WalEntry → Bool) (xs ys : List WalEntry) → keep p (xs ++ ys) ≡ keep p xs ++ keep p ys
keep-append p [] ys = refl
keep-append p (x ∷ xs) ys = ground (arith, keep-append p xs ys)

keep-keep :
    (p q : WalEntry → Bool) (xs : List WalEntry) → keep q (keep p xs) ≡ keep (λ e. p e && q e) xs
keep-keep p q [] = refl
keep-keep p q (x ∷ xs) = ground (arith, keep-keep p q xs)

head?-keep : (p : WalEntry → Bool) (xs : List WalEntry) → head? (keep p xs) ≡ first p xs
head?-keep p [] = refl
head?-keep p (x ∷ xs) = ground (arith, head?-keep p xs)

first-same :
    (p q : WalEntry → Bool) (xs : List WalEntry)
    → ((e : WalEntry) → p e ≡ q e)
    → first p xs ≡ first q xs
first-same p q [] h = refl
first-same p q (x ∷ xs) h = rw (h x, first-same p q xs h) refl

collect-map :
    (from : ℕ) (es acc : List WalEntry) → collect from (map ok es) acc ≡ ok (acc ++ from_on from es)
unfolding collect
collect-map from [] acc = ap ok (sym (append-nil acc))
collect-map from (e ∷ es) acc = ground (
  arith,
  collect-map from es acc,
  collect-map from es (acc ++ (e ∷ [])),
  append_assoc acc (e ∷ []) (from_on from es),
)

from_on-none : (from n : ℕ) (es : List WalEntry) → AllBelow n es → n ≤ from → from_on from es ≡ []
from_on-none from n [] a le = refl
from_on-none from n (e ∷ es) a le = ground (arith, a.0, le, from_on-none from n es a.1 le)

range_from_self : (k path : ℕ) (m : List (ℕ × ℕ)) → range_from k ((k, path) ∷ m) ≡ (k, path) ∷ m
unfolding range_from
range_from_self k path m = ground arith

range_from_skip :
    (j k path : ℕ) (m : List (ℕ × ℕ)) → j < k → range_from k ((j, path) ∷ m) ≡ range_from k m
unfolding range_from
range_from_skip j k path m h = ground (arith, h)

module _ (c : Codec) (d : Directory) (r : WalReader) where
  read_files-Reads :
      (from : ℕ) (files : List (ℕ × ℕ)) (es acc : List WalEntry)
      → Reads c d r files es
      → read_files c d r from files acc ≡ ok (acc ++ from_on from es)
  unfolding read_files
  read_files-Reads from [] es acc none_left = rw none_left (ap ok (sym (append-nil acc)))
  read_files-Reads from ((_, path) ∷ files) es acc (s, here, later, opens, held, split, _, rest) =
      let front = from_on from here in
      rw (opens, held, collect-map from here acc)
        (read_files-Reads from files later (acc ++ front) rest
          ∙ ap ok (
              append_assoc acc front (from_on from later)
              ∙ ap (λ l. acc ++ l) (sym (keep-append _ here later))
              ∙ ap (λ l. acc ++ from_on from l) (sym split)))

  -- The files from one on hold all entries from the LSN on.
  abbrev HasAll : ℕ → List (ℕ × ℕ) → List WalEntry → Type 0
  HasAll from files es =
      (left : List WalEntry) × Reads c d r files left × (from_on from left ≡ from_on from es)

  -- The last file that does not start above the LSN, and all that is read from there
  abbrev StartsAt : ℕ → ℕ → ℕ → List (ℕ × ℕ) → List WalEntry → Type 0
  StartsAt from j path m es =
      (k path' : ℕ) × (last_up_to from (some (j, path)) m ≡ some (k, path'))
      × (j ≤ k)
      × HasAll from (range_from k ((j, path) ∷ m)) es

  stays :
      (from j path : ℕ) (m : List (ℕ × ℕ)) (es : List WalEntry)
      → Reads c d r ((j, path) ∷ m) es
      → HasAll from (range_from j ((j, path) ∷ m)) es
  stays from j path m es h = rw (range_from_self j path m) (es, h, refl)

  starts_at :
      (from j path : ℕ) (m : List (ℕ × ℕ)) (es : List WalEntry)
      → Above j m
      → Reads c d r ((j, path) ∷ m) es
      → StartsAt from j path m es
  unfolding last_up_to
  starts_at from j path [] es up h = (j, path, refl, omega arith, stays from j path [] es h)
  starts_at from j path ((i, path') ∷ m) es (lt, up)
        (s, here, later, opens, held, split, behind, rest) =
      elim (Bool-cases (leb i from)) [
        | inl le ↦
            let (k, p, found, above, (left, reads, same)) =
              starts_at from i path' m later up rest in
            let passed : from_on from here ≡ [] =
              from_on-none from i here behind (ground (arith, le)) in
            let whole : from_on from left ≡ from_on from es =
              same
              ∙ ap (λ l. l ++ from_on from later) (sym passed)
              ∙ sym (keep-append _ here later)
              ∙ ap (λ l. from_on from l) (sym split) in
            simp le (
              k,
              p,
              found,
              omega (arith, lt, above),
              subst (λ fs. HasAll from fs es)
                  (sym (range_from_skip j k path ((i, path') ∷ m) (omega (arith, lt, above))))
                  (left, reads, whole),
            )
        | inr gt ↦ simp gt (
          j,
          path,
          refl,
          omega arith,
          stays from j path ((i, path') ∷ m) es (s, here, later, opens, held, split, behind, rest),
        )
      ]

  -- `files_from` on an index, from what the search in it gives on
  abbrev chosen : Option (ℕ × ℕ) → List (ℕ × ℕ) → List (ℕ × ℕ)
  chosen found index =
      let first_lsn : Option ℕ = elim found [ some (k, _) ↦ some k | none ↦ key_of index ] in
      elim first_lsn [ some k ↦ range_from k index | none ↦ [] ]

  last_up_to-below :
      (from j path : ℕ) (m : List (ℕ × ℕ))
      → last_up_to from none ((j, path) ∷ m)
        ≡ (if leb j from then last_up_to from (some (j, path)) m else none)
  unfolding last_up_to
  last_up_to-below from j path m = refl

  chosen-HasAll :
      (from : ℕ) (index : List (ℕ × ℕ)) (es : List WalEntry)
      → Sorted index
      → Reads c d r index es
      → HasAll from (chosen (last_up_to from none index) index) es
  chosen-HasAll from [] es up h = unfold last_up_to in (es, h, refl)
  chosen-HasAll from ((j, path) ∷ m) es up h = elim (Bool-cases (leb j from)) [
    | inl le ↦
        let (k, p, found, above, all) = starts_at from j path m es up h in
        subst (λ o. HasAll from (chosen o ((j, path) ∷ m)) es)
          (sym (
            last_up_to-below from j path m
            ∙ ap (λ b. if b then last_up_to from (some (j, path)) m else none) le
            ∙ found))
          all
    | inr gt ↦
        subst (λ o. HasAll from (chosen o ((j, path) ∷ m)) es)
          (sym (
            last_up_to-below from j path m
            ∙ ap (λ b. if b then last_up_to from (some (j, path)) m else none) gt))
          (stays from j path m es h)
  ]

  files_from-HasAll :
      (from : ℕ) (es : List WalEntry)
      → Sorted r.segment_index
      → Reads c d r r.segment_index es
      → HasAll from (files_from from r) es
  unfolding start_lsn
  files_from-HasAll from es up h = chosen-HasAll from r.segment_index es up h

  -- `read_from` gives the entries from the LSN on, in order, of all that the files of the index hold,
  -- where the files open and are read without an error, their first LSNs go up, and the entries of each
  -- are below the first LSN of the next.
  pub read_from-Reads :
      (from : ℕ) (es : List WalEntry)
      → Sorted r.segment_index
      → Reads c d r r.segment_index es
      → read_from c d r from ≡ ok (from_on from es)
  unfolding read_from
  read_from-Reads from es up h =
      let (left, reads, same) = files_from-HasAll from es up h in
      read_files-Reads from (files_from from r) left [] reads ∙ ap ok same

  -- `get` gives the first entry with the LSN, if there is one, of all that the files of the index
  -- hold, under the conditions of `read_from-Reads`.
  pub get-Reads :
      (lsn : ℕ) (es : List WalEntry)
      → Sorted r.segment_index
      → Reads c d r r.segment_index es
      → get c d r lsn ≡ ok (first (λ e. e.header.lsn == lsn) es)
  unfolding get read_range
  get-Reads lsn es up h = rw (read_from-Reads lsn es up h) (
      ap ok (
        ap (λ l. head? l) (keep-keep (λ e. leb lsn e.header.lsn) (λ e. leb e.header.lsn lsn) es)
        ∙ head?-keep (λ e. leb lsn e.header.lsn && leb e.header.lsn lsn) es
        ∙ first-same (λ e. leb lsn e.header.lsn && leb e.header.lsn lsn) (λ e. e.header.lsn == lsn)
            es (λ e. ground arith)))
