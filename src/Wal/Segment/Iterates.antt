-- ===== src/Wal/Segment/Iterates.antt =====
-- The iterator of wal/segment.rs, over a file that holds the frames of a list of entries.
use wolf_scale.Base.{
  ℕ, zero, suc, ◌+◌, ◌^◌, ◌≤◌, ◌<◌, ◌≡◌, refl, ap, sym, ◌∙◌, Bool, true, false, List, [], ◌∷◌, ◌++◌,
  map, leb, arith, append_assoc, append-nil, All, to_le_bytes, length, length-append, Bool-cases,
  inl, inr, ◌⊎◌,
}
use wolf_scale.Error.{Error, Result, ok, err}
use wolf_scale.Wal.Entry.{WalEntry}
use wolf_scale.Wal.Segment.{
  Codec, Segment, create, write_at, to_bytes, encode, frame, required, append, read_at,
  iterate_from, iterate, header_size,
}
use wolf_scale.Wal.Segment.RoundTrip.{read_at-frame}
use wolf_scale.Wal.Segment.Appends.{
  IsCodec, IsOpen, append-IsOpen, append_done, written, length-frame, open_data-encode,
}

Result-cases : {A : Type 0} (r : Result A) → ((a : A) × (r ≡ ok a)) ⊎ ((e : Error) × (r ≡ err e))
Result-cases (ok a) = inl (a, refl)
Result-cases (err e) = inr (e, refl)

module _ (c : Codec) where
  iterate_done :
      (f pos : ℕ) (s : Segment) → leb s.write_pos pos ≡ true → iterate_from c f pos s ≡ []
  unfolding iterate_from
  iterate_done zero pos s h = refl
  iterate_done (suc f) pos s h = ground (arith, h)

  iterate_err :
      (f pos : ℕ) (s : Segment) (x : Error)
      → leb s.write_pos pos ≡ false
      → read_at c pos s.file ≡ err x
      → iterate_from c (suc f) pos s ≡ err x ∷ []
  unfolding iterate_from
  iterate_err f pos s x h r = ground (arith, h, r)

  iterate_ok :
      (f pos : ℕ) (s : Segment) (e : WalEntry)
      → leb s.write_pos pos ≡ false
      → read_at c pos s.file ≡ ok e
      → iterate_from c (suc f) pos s
        ≡ ok e ∷ iterate_from c f (pos + required c (encode c s.compression e)) s
  unfolding iterate_from
  iterate_ok f pos s e h r = ground (arith, h, r)

  -- The iterator ends: as many rounds as bytes are left give the same as any larger number.
  pub iterate_from-fuel :
      (f g pos : ℕ) (s : Segment)
      → s.write_pos ≤ pos + f
      → f ≤ g
      → iterate_from c g pos s ≡ iterate_from c f pos s
  iterate_from-fuel zero g pos s h k =
      let past : leb s.write_pos pos ≡ true = ground arith in
      iterate_done g pos s past ∙ sym (iterate_done zero pos s past)
  iterate_from-fuel (suc f) zero pos s h k = absurd (omega arith)
  iterate_from-fuel (suc f) (suc g) pos s h k = elim (Bool-cases (leb s.write_pos pos)) [
    | inl past ↦ iterate_done (suc g) pos s past ∙ sym (iterate_done (suc f) pos s past)
    | inr more ↦ elim (Result-cases (read_at c pos s.file)) [
      | inr (x, bad) ↦ iterate_err g pos s x more bad ∙ sym (iterate_err f pos s x more bad)
      | inl (e, good) ↦
          let next = pos + required c (encode c s.compression e) in
          iterate_ok g pos s e more good
          ∙ ap (λ rs. ok e ∷ rs)
              (iterate_from-fuel f g next s (omega (arith, h)) (omega (arith, k)))
          ∙ sym (iterate_ok f pos s e more good)
    ]
  ]

  -- An entry that the codec brings back, with data shorter than 4 GiB.
  abbrev pub Fits : Bool → WalEntry → Type 0
  Fits compression e = IsCodec c e × (length (encode c compression e) < 2 ^ 32)

  unfoldable pub frames : Bool → List WalEntry → List ℕ
  frames compression [] = []
  frames compression (e ∷ es) =
      frame c compression (encode c compression e) ++ frames compression es

  -- The segment's file is a header and the frames of these entries.
  pub record Holds (s : Segment) (es : List WalEntry) : Type 0 where
    pub at_end : s.write_pos ≡ length s.file
    pub fits : All (Fits s.compression) es
    pub header_bytes : List ℕ
    pub header_long : length header_bytes ≡ header_size
    pub whole : s.file ≡ header_bytes ++ frames s.compression es

  length-frames :
      (compression : Bool) (e : WalEntry) (es : List WalEntry)
      → length (frames compression (e ∷ es))
        ≡ required c (encode c compression e) + length (frames compression es)
  unfolding frames
  length-frames compression e es = omega (
    arith,
    length-append (frame c compression (encode c compression e)) (frames compression es),
    length-frame c compression (encode c compression e),
  )

  iterate_from-frames :
      (fuel : ℕ) (s : Segment) (before : List ℕ) (es : List WalEntry)
      → s.write_pos ≡ length s.file
      → All (Fits s.compression) es
      → s.file ≡ before ++ frames s.compression es
      → s.write_pos ≤ length before + fuel
      → iterate_from c fuel (length before) s ≡ map ok es
  iterate_from-frames fuel s before [] end fits whole h = iterate_done fuel (length before) s (
      ground (
        arith,
        ap (λ xs. length xs) whole,
        length-append before (frames s.compression []),
        nothing,
      ))
    where
      nothing : length (frames s.compression []) ≡ 0
      nothing = unfold frames in refl
  iterate_from-frames zero s before (e ∷ es) end fits whole h = absurd (
      omega (
        arith,
        h,
        end,
        ap (λ xs. length xs) whole,
        length-frames s.compression e es,
        length-append before (frames s.compression (e ∷ es)),
      ))
  iterate_from-frames (suc fuel) s before (e ∷ es) end ((laws, short), fits) whole h =
      let body = encode c s.compression e in
      let bytes = frame c s.compression body in
      let rest = frames s.compression es in
      let whole' : s.file ≡ before ++ (bytes ++ rest) = unfold frames in whole in
      let n : length s.file ≡ length before + (required c body + length rest) = omega (
        arith,
        ap (λ xs. length xs) whole',
        length-append before (bytes ++ rest),
        length-append bytes rest,
        length-frame c s.compression body,
      ) in
      let more : leb s.write_pos (length before) ≡ false = ground (arith, n, end) in
      let good : read_at c (length before) s.file ≡ ok e = rw whole' (
        read_at-frame c s.compression body before rest short (laws.hash-lt body)
        ∙ open_data-encode c s.compression e laws) in
      let there : length (before ++ bytes) ≡ length before + required c body =
        omega (arith, length-append before bytes, length-frame c s.compression body) in
      let later =
        iterate_from-frames fuel s (before ++ bytes) es end fits
          (whole' ∙ sym (append_assoc before bytes rest)) (omega (arith, h, there)) in
      iterate_ok fuel (length before) s e more good ∙ ap (λ rs. ok e ∷ rs) (rw there at later)

  -- The iterator over a segment that holds some entries gives these entries, in order.
  pub iterate-Holds : (s : Segment) (es : List WalEntry) → Holds s es → iterate c s ≡ map ok es
  iterate-Holds s es h =
      let r =
        iterate_from-frames s.write_pos s h.header_bytes es h.at_end h.fits h.whole (omega arith) in
      rw h.header_long at r

  frames-snoc :
      (compression : Bool) (es : List WalEntry) (e : WalEntry)
      → frames compression (es ++ (e ∷ []))
        ≡ frames compression es ++ frame c compression (encode c compression e)
  unfolding frames
  frames-snoc compression [] e = append-nil (frame c compression (encode c compression e))
  frames-snoc compression (f ∷ es) e =
      ap (λ xs. frame c compression (encode c compression f) ++ xs) (frames-snoc compression es e)
      ∙ sym (
          append_assoc (frame c compression (encode c compression f)) (frames compression es)
            (frame c compression (encode c compression e)))

  -- A new segment holds nothing.
  pub create-Holds : (lsn mb : ℕ) (compression : Bool) → Holds (create lsn mb compression) []
  unfolding create to_bytes write_at frames to_le_bytes
  create-Holds lsn mb compression = record {
    at_end = refl;
    fits = tt;
    header_bytes = (create lsn mb compression).file;
    header_long = refl;
    whole = sym (append-nil (create lsn mb compression).file);
  }

  snoc-All :
      (compression : Bool) (es : List WalEntry) (e : WalEntry)
      → All (Fits compression) es
      → Fits compression e
      → All (Fits compression) (es ++ (e ∷ []))
  snoc-All compression [] e fs f = (f, tt)
  snoc-All compression (x ∷ es) e (g, fs) f = (g, snoc-All compression es e fs f)

  -- An append that succeeds adds its entry to what the segment holds.
  pub append-Holds :
      (e : WalEntry) (s : Segment) (es : List WalEntry) (pos : ℕ)
      → Holds s es
      → IsOpen s
      → Fits s.compression e
      → (append c e s).0 ≡ ok pos
      → Holds (append c e s).1 (es ++ (e ∷ []))
  append-Holds e s es pos h o fit done =
      let body = encode c s.compression e in
      let bytes = frame c s.compression body in
      let end = (append-IsOpen c e s o).at_end in
      let (_, same) = append_done c e s pos done in
      rw same (record {
        at_end = rw same at end;
        fits = snoc-All s.compression es e h.fits fit;
        header_bytes = h.header_bytes;
        header_long = h.header_long;
        whole =
            written c e s o
            ∙ ap (λ xs. xs ++ bytes) h.whole
            ∙ append_assoc h.header_bytes (frames s.compression es) bytes
            ∙ ap (λ xs. h.header_bytes ++ xs) (sym (frames-snoc s.compression es e));
      })

  -- One that fails leaves the segment as it was.
  append-refused :
      (e : WalEntry) (s : Segment) (x : Error) → (append c e s).0 ≡ err x → (append c e s).1 ≡ s
  unfolding append
  append-refused e s x failed = ground arith
