-- ===== src/Wal/Segment/Appends.antt =====
-- Appending to a segment of wal/segment.rs, for a codec that undoes what it does.
use wolf_scale.Base.{
  ℕ, zero, suc, ◌+◌, ◌%◌, ◌^◌, ◌≤◌, ◌<◌, ◌≡◌, refl, ap, sym, ◌∙◌, Bool, true, false, List, [], ◌∷◌,
  ◌++◌, arith, append-nil, length, length-append, take, drop, to_le_bytes, from_le_bytes,
  length-to_le_bytes, ◌⊎◌, inl, inr,
}
use wolf_scale.Error.{Result, ok, err}
use wolf_scale.Wal.Entry.{WalEntry}
use wolf_scale.Wal.Segment.{
  Codec, Segment, read_exact, encode, frame, flag_of, required, appended, append, open_data,
  read_at, and_then,
}
use wolf_scale.Wal.Segment.RoundTrip.{write_at_end, read_at-frame}

-- What bincode promises of an entry, and lz4_flex and crc32fast of any bytes.
pub record IsCodec (c : Codec) (e : WalEntry) : Type 0 where
  pub deserialize-serialize : c.deserialize (c.serialize e) ≡ ok e
  pub decompress-compress : (bs : List ℕ) → c.decompress (c.compress bs) ≡ ok bs
  pub hash-lt : (bs : List ℕ) → c.hash bs < 2 ^ 32

-- The segment is written on at the end of its file, within its size.
pub record IsOpen (s : Segment) : Type 0 where
  pub at_end : s.write_pos ≡ length s.file
  pub bounded : s.write_pos ≤ s.max_size

went :
    {A B : Type 0} (r : Result A) (f : A → Result B) (b : B)
    → and_then r f ≡ ok b
    → (a : A) × (r ≡ ok a) × (f a ≡ ok b)
went (ok a) f b h = (a, refl, h)
went (err e) f b h = cc

take_front : (n : ℕ) (f g : List ℕ) → n ≤ length f → take n (f ++ g) ≡ take n f
take_front zero f g h = refl
take_front (suc n) [] g h = absurd (omega (arith, h))
take_front (suc n) (x ∷ f) g h = ap (◌∷◌ x) (take_front n f g (omega (arith, h)))

part-append :
    (p n : ℕ) (f g : List ℕ) → p + n ≤ length f → take n (drop p (f ++ g)) ≡ take n (drop p f)
part-append zero n f g h = take_front n f g (omega (arith, h))
part-append (suc p) n [] g h = absurd (omega (arith, h))
part-append (suc p) n (x ∷ f) g h = part-append p n f g (omega (arith, h))

read_exact-append :
    (p n : ℕ) (f g bs : List ℕ) → read_exact p n f ≡ ok bs → read_exact p n (f ++ g) ≡ ok bs
unfolding read_exact
read_exact-append p n f g bs h = ground (arith, part-append p n f g, length-append f g)

module _ (c : Codec) where
  read_at-append :
      (p : ℕ) (f g : List ℕ) (e : WalEntry) → read_at c p f ≡ ok e → read_at c p (f ++ g) ≡ ok e
  unfolding read_at
  read_at-append p f g e h =
      let (len, a, h₁) = went (read_exact p 4 f) _ e h in
      let (flag, b, h₂) = went (read_exact (p + 4) 1 f) _ e h₁ in
      let (body, d, h₃) = went (read_exact (p + 5) (from_le_bytes len) f) _ e h₂ in
      let (sum, k, h₄) = went (read_exact (p + 5 + from_le_bytes len) 4 f) _ e h₃ in
      rw
        (
          read_exact-append p 4 f g len a,
          read_exact-append (p + 4) 1 f g flag b,
          read_exact-append (p + 5) (from_le_bytes len) f g body d,
          read_exact-append (p + 5 + from_le_bytes len) 4 f g sum k,
        )
        h₄

  pub open_data-encode :
      (compression : Bool) (e : WalEntry)
      → IsCodec c e
      → open_data c (flag_of c compression ∷ []) (encode c compression e) ≡ ok e
  unfolding from_le_bytes
  open_data-encode true e laws =
      rw (laws.decompress-compress (c.serialize e)) laws.deserialize-serialize
  open_data-encode false e laws = laws.deserialize-serialize

  pub append_cases :
      (e : WalEntry) (s : Segment)
      → ((append c e s).1 ≡ s)
        ⊎ ((append c e s ≡ (ok s.write_pos, appended c e (encode c s.compression e) s))
            × (s.write_pos + required c (encode c s.compression e) ≤ s.max_size))
  unfolding append
  append_cases e s = ground arith

  pub append_done :
      (e : WalEntry) (s : Segment) (pos : ℕ)
      → (append c e s).0 ≡ ok pos
      → (pos ≡ s.write_pos) × ((append c e s).1 ≡ appended c e (encode c s.compression e) s)
  unfolding append
  append_done e s pos h = ground arith

  pub length-frame :
      (compression : Bool) (body : List ℕ) → length (frame c compression body) ≡ required c body
  unfolding frame
  length-frame compression body = omega (
    arith,
    length-append (to_le_bytes 4 (length body % 2 ^ 32))
        ((flag_of c compression ∷ []) ++ (body ++ to_le_bytes 4 (c.hash body))),
    length-append body (to_le_bytes 4 (c.hash body)),
    length-to_le_bytes 4 (length body % 2 ^ 32),
    length-to_le_bytes 4 (c.hash body),
  )

  pub written :
      (e : WalEntry) (s : Segment)
      → IsOpen s
      → (appended c e (encode c s.compression e) s).file
        ≡ s.file ++ frame c s.compression (encode c s.compression e)
  written e s o =
      rw o.at_end (write_at_end (frame c s.compression (encode c s.compression e)) s.file)

  -- Appending keeps a segment open: its position stays the end of the file and within the size.
  pub append-IsOpen : (e : WalEntry) (s : Segment) → IsOpen s → IsOpen (append c e s).1
  append-IsOpen e s o = elim (append_cases e s) [
    | inl same ↦ rw same o
    | inr (done, fits) ↦ rw done (record {
      at_end = omega (
        arith,
        ap (λ xs. length xs) (written e s o),
        length-append s.file (frame c s.compression (encode c s.compression e)),
        length-frame s.compression (encode c s.compression e),
        o.at_end,
      );
      bounded = fits;
    })
  ]

  -- What an open segment has appended is read back at the position that it returned, if the data
  -- is shorter than 4 GiB.
  pub read_at-appended :
      (e : WalEntry) (s : Segment) (pos : ℕ)
      → IsCodec c e
      → IsOpen s
      → length (encode c s.compression e) < 2 ^ 32
      → (append c e s).0 ≡ ok pos
      → read_at c pos (append c e s).1.file ≡ ok e
  read_at-appended e s pos laws o short h =
      let body = encode c s.compression e in
      let (at, done) = append_done e s pos h in
      let there = read_at-frame c s.compression body s.file [] short (laws.hash-lt body) in
      let bytes = frame c s.compression body in
      let grown : (append c e s).1.file ≡ s.file ++ (bytes ++ []) =
        ap (λ t. t.file) done ∙ written e s o ∙ ap (λ xs. s.file ++ xs) (sym (append-nil bytes)) in
      rw (grown, at, o.at_end) (there ∙ open_data-encode s.compression e laws)

  -- What could be read from an open segment is read the same after any append, done or refused.
  pub append_keeps_entries :
      (e x : WalEntry) (s : Segment) (pos : ℕ)
      → IsOpen s
      → read_at c pos s.file ≡ ok x
      → read_at c pos (append c e s).1.file ≡ ok x
  append_keeps_entries e x s pos o h = elim (append_cases e s) [
    | inl same ↦ rw same h
    | inr (done, _) ↦
        rw (done, written e s o)
          (read_at-append pos s.file (frame c s.compression (encode c s.compression e)) x h)
  ]
