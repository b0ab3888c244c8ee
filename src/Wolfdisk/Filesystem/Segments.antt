-- ===== src/Wolfdisk/Filesystem/Segments.antt =====
-- The segments that `drain_client_writes` of wolfdisk/src/fuse/filesystem.rs sends.
use wolf_scale.Base.{
  ℕ, zero, suc, ◌+◌, ◌-◌, ◌≤◌, ◌<◌, ◌≡◌, refl, ap, sym, ◌∙◌, true, false, Option, none, some, List,
  [], ◌∷◌, ◌++◌, ltb, leb, if◌then◌else◌, arith, Bool-cases, inl, inr, length, drop, get_elem?,
}
use wolf_scale.Wolfdisk.Filesystem.Clients.{Segment, extended, coalesce_onto}

abbrev pub or_else : Option ℕ → Option ℕ → Option ℕ
or_else none y = y
or_else (some a) y = some a

-- The byte that a segment has for a position of the file
unfoldable pub byte_in : ℕ → Segment → Option ℕ
byte_in p (offset, content) = if leb offset p then get_elem? content (p - offset) else none

-- The byte for a position by the first of the segments that has one
unfoldable pub first_byte : ℕ → List Segment → Option ℕ
first_byte p [] = none
first_byte p (s ∷ ts) = or_else (byte_in p s) (first_byte p ts)

get_elem?-append :
    (xs ys : List ℕ) (i : ℕ)
    → get_elem? (xs ++ ys) i
      ≡ (if ltb i (length xs) then get_elem? xs i else get_elem? ys (i - length xs))
get_elem?-append [] ys i = ground arith
get_elem?-append (x ∷ xs) ys zero = ground arith
get_elem?-append (x ∷ xs) ys (suc i) =
    get_elem?-append xs ys i ∙ elim (Bool-cases (ltb i (length xs))) [
      | inl e ↦ simp (e, ground_lt i (length xs) e) refl
      | inr e ↦ simp (e, ground_ge i (length xs) e) (ap (get_elem? ys) (omega arith))
    ]
  where
    ground_lt : (i n : ℕ) → ltb i n ≡ true → ltb (suc i) (suc n) ≡ true
    ground_lt i n e = ground arith

    ground_ge : (i n : ℕ) → ltb i n ≡ false → ltb (suc i) (suc n) ≡ false
    ground_ge i n e = ground arith

get_elem?-drop : (n i : ℕ) (xs : List ℕ) → get_elem? (drop n xs) i ≡ get_elem? xs (n + i)
get_elem?-drop zero i xs = ap (get_elem? xs) (omega arith)
get_elem?-drop (suc n) i [] = refl
get_elem?-drop (suc n) i (x ∷ xs) =
    let e : suc n + i ≡ suc (n + i) = omega arith in rw e (get_elem?-drop n i xs)

get_elem?_end : (xs : List ℕ) (i : ℕ) → length xs ≤ i → get_elem? xs i ≡ none
get_elem?_end [] i h = refl
get_elem?_end (x ∷ xs) zero h = absurd (omega (arith, h))
get_elem?_end (x ∷ xs) (suc i) h = get_elem?_end xs i (omega (arith, h))

get_elem?_within : (xs : List ℕ) (i : ℕ) → i < length xs → (b : ℕ) × (get_elem? xs i ≡ some b)
get_elem?_within [] i h = absurd (omega (arith, h))
get_elem?_within (x ∷ xs) zero h = (x, refl)
get_elem?_within (x ∷ xs) (suc i) h = get_elem?_within xs i (omega (arith, h))

or_else_assoc : (x y z : Option ℕ) → or_else (or_else x y) z ≡ or_else x (or_else y z)
or_else_assoc none y z = refl
or_else_assoc (some a) y z = refl

-- A segment before its start, within it and from its end on
pub byte_before :
    (p offset : ℕ) (content : List ℕ) → p < offset → byte_in p (offset, content) ≡ none
unfolding byte_in
byte_before p offset content h = ground (arith, h)

byte_from :
    (p offset : ℕ) (content : List ℕ)
    → offset ≤ p
    → byte_in p (offset, content) ≡ get_elem? content (p - offset)
unfolding byte_in
byte_from p offset content h = ground (arith, h)

pub byte_after :
    (p offset : ℕ) (content : List ℕ)
    → offset + length content ≤ p
    → byte_in p (offset, content) ≡ none
byte_after p offset content h =
    byte_from p offset content (omega (arith, h))
    ∙ get_elem?_end content (p - offset) (omega (arith, h))

-- Content put behind a segment
byte_append :
    (p base : ℕ) (last more : List ℕ)
    → base ≤ p
    → byte_in p (base, last ++ more) ≡ (
        if ltb (p - base) (length last)
        then byte_in p (base, last)
        else get_elem? more (p - base - length last))
byte_append p base last more h =
    byte_from p base (last ++ more) h
    ∙ get_elem?-append last more (p - base)
    ∙ ap (λ b. if ltb (p - base) (length last) then b else get_elem? more (p - base - length last))
        (sym (byte_from p base last h))

or_else_within :
    (p base : ℕ) (last : List ℕ) (y : Option ℕ)
    → base ≤ p
    → ltb (p - base) (length last) ≡ true
    → or_else (byte_in p (base, last)) y ≡ byte_in p (base, last)
or_else_within p base last y h e =
    let (b, k) = get_elem?_within last (p - base) (ground (arith, e)) in
    rw (byte_from p base last h ∙ k) refl

-- Behind the last one, a joined segment has what the next one has.
extended_past :
    (p base offset : ℕ) (last content : List ℕ)
    → base + length last ≤ p
    → offset ≤ base + length last
    → byte_in p (extended (base, last) (offset, content)) ≡ byte_in p (offset, content)
extended_past p base offset last content past touch =
    let last_end = base + length last in
    let overlap = last_end - offset in
    let out : ltb (p - base) (length last) ≡ false = ground (arith, past) in
    let there = byte_from p offset content (omega (arith, past, touch)) in
    elim (Bool-cases (ltb offset last_end)) [
      | inr meets ↦
          let index : p - base - length last ≡ p - offset = ground (arith, meets, past, touch) in
          simp meets (
            byte_append p base last content (omega (arith, past))
            ∙ simp out (ap (get_elem? content) index)
            ∙ sym there)
      | inl inside ↦ elim (Bool-cases (ltb overlap (length content))) [
        | inl more ↦
            let index : overlap + (p - base - length last) ≡ p - offset =
              ground (arith, inside, past, touch) in
            simp (inside, more)
              (byte_append p base last (drop overlap content) (omega (arith, past))
                ∙ simp out (
                    get_elem?-drop overlap (p - base - length last) content
                    ∙ ap (get_elem? content) index)
                ∙ sym there)
        | inr covered ↦
            simp (inside, covered)
              (byte_after p base last past
                ∙ sym (byte_after p offset content (ground (arith, covered, past, touch))))
      ]
    ]

-- Within the last one, a joined segment has what that one has.
extended_within :
    (p base offset : ℕ) (last content : List ℕ)
    → base ≤ p
    → ltb (p - base) (length last) ≡ true
    → byte_in p (extended (base, last) (offset, content)) ≡ byte_in p (base, last)
extended_within p base offset last content start e =
    let last_end = base + length last in
    let overlap = last_end - offset in
    elim (Bool-cases (ltb offset last_end)) [
      | inr meets ↦ simp meets (byte_append p base last content start ∙ simp e refl)
      | inl inside ↦ elim (Bool-cases (ltb overlap (length content))) [
        | inl more ↦
            simp (inside, more) (byte_append p base last (drop overlap content) start ∙ simp e refl)
        | inr covered ↦ simp (inside, covered) refl
      ]
    ]

pub base-extended : (last s : Segment) → (extended last s).0 ≡ last.0
base-extended (base, last) (offset, content) = ground arith

byte_in-extended :
    (p : ℕ) (last s : Segment)
    → last.0 ≤ s.0
    → s.0 ≤ last.0 + length last.1
    → byte_in p (extended last s) ≡ or_else (byte_in p last) (byte_in p s)
byte_in-extended p (base, last) (offset, content) order touch = elim (Bool-cases (leb base p)) [
  | inr early ↦
      let low : p < base = ground (arith, early) in
      let e = base-extended (base, last) (offset, content) in
      let (x, xs) = extended (base, last) (offset, content) in
      byte_before p x xs (omega (arith, e, low))
      ∙ sym (
          ap (λ y. or_else y (byte_in p (offset, content))) (byte_before p base last low)
          ∙ byte_before p offset content (omega (arith, order, low)))
  | inl late ↦
      let start : base ≤ p = ground (arith, late) in
      elim (Bool-cases (ltb (p - base) (length last))) [
        | inl e ↦
            extended_within p base offset last content start e
            ∙ sym (or_else_within p base last (byte_in p (offset, content)) start e)
        | inr e ↦
            let past : base + length last ≤ p = ground (arith, e, start) in
            extended_past p base offset last content past touch
            ∙ sym (ap (λ y. or_else y (byte_in p (offset, content))) (byte_after p base last past))
      ]
]

-- Segments in the order of their offsets, from one on
unfoldable pub AscendsFrom : ℕ → List Segment → Type 0
AscendsFrom b [] = Unit {0}
AscendsFrom b (s ∷ ts) = (b ≤ s.0) × AscendsFrom s.0 ts

pub AscendsFrom-weaken : (b c : ℕ) (ts : List Segment) → b ≤ c → AscendsFrom c ts → AscendsFrom b ts
unfolding AscendsFrom
AscendsFrom-weaken b c [] h a = tt
AscendsFrom-weaken b c (s ∷ ts) h (k, a) = (omega (arith, h, k), a)

pub first_byte-coalesce_onto :
    (p : ℕ) (last : Segment) (ts : List Segment)
    → AscendsFrom last.0 ts
    → first_byte p (coalesce_onto last ts) ≡ or_else (byte_in p last) (first_byte p ts)
unfolding first_byte coalesce_onto AscendsFrom
first_byte-coalesce_onto p last [] a = refl
first_byte-coalesce_onto p last (s ∷ ts) (b, a) =
    elim (Bool-cases (leb s.0 (last.0 + length last.1))) [
      | inl touch ↦
          let wide =
            AscendsFrom-weaken (extended last s).0 s.0 ts (omega (arith, base-extended last s, b))
              a in
          simp touch (
            first_byte-coalesce_onto p (extended last s) ts wide
            ∙ ap (λ y. or_else y (first_byte p ts))
                (byte_in-extended p last s b (ground (arith, touch)))
            ∙ or_else_assoc (byte_in p last) (byte_in p s) (first_byte p ts))
      | inr gap ↦ simp gap (ap (or_else (byte_in p last)) (first_byte-coalesce_onto p s ts a))
    ]
