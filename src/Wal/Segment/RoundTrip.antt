-- ===== src/Wal/Segment/RoundTrip.antt =====
-- What wal/segment.rs writes is what it reads: the header, and each entry at its position.
use wolf_scale.Base.{
  ℕ, zero, suc, ◌+◌, ◌-◌, ◌%◌, ◌^◌, ◌<◌, ◌≡◌, refl, ap, sym, ◌∙◌, Bool, true, false, List, [], ◌∷◌,
  ◌++◌, leb, ◌==◌, arith, append_assoc, append-nil, length, length-append, take, drop, take-append,
  drop-append, to_le_bytes, from_le_bytes, length-to_le_bytes, from_le_bytes-to_le_bytes,
}
use wolf_scale.Error.{ok}
use wolf_scale.Wal.Segment.{
  Codec, SegmentHeader, to_bytes, from_bytes, same_bytes, write_at, read_exact, frame, flag_of,
  open_data, read_at,
}

-- A part of a file that is as long as asked for.
pub read_exact_part :
    (before part after : List ℕ) (p n : ℕ)
    → length before ≡ p
    → length part ≡ n
    → read_exact p n (before ++ (part ++ after)) ≡ ok part
unfolding read_exact
read_exact_part before part after p n h k =
    let enough : leb (p + n) (length (before ++ (part ++ after))) ≡ true =
      ground (arith, h, k, length-append before (part ++ after), length-append part after) in
    rw (enough, drop-append before (part ++ after) p h, take-append part after n k) refl

length_zero : (xs : List ℕ) → length xs ≡ 0 → xs ≡ []
length_zero [] h = refl
length_zero (x ∷ xs) h = absurd (omega arith)

take_all : (xs : List ℕ) → take (length xs) xs ≡ xs
take_all xs = rw (append-nil xs) at (take-append xs [] (length xs) refl)

drop_nil : (n : ℕ) → drop {A = ℕ} n [] ≡ []
drop_nil zero = refl
drop_nil (suc n) = refl

drop_past : (xs : List ℕ) (n : ℕ) → drop (length xs + n) xs ≡ []
drop_past [] n = drop_nil (0 + n)
drop_past (x ∷ xs) n =
    let e : suc (length xs) + n ≡ suc (length xs + n) = omega arith in rw e (drop_past xs n)

-- At the end of a file, a write appends.
pub write_at_end : (bytes file : List ℕ) → write_at (length file) bytes file ≡ file ++ bytes
unfolding write_at
write_at_end bytes file =
    let e : length file - length file ≡ 0 = omega arith in
    rw (e, take_all file, drop_past file (length bytes), append-nil bytes) refl

-- A header whose numbers fit their fields is read back from its bytes but for `sealed`, which comes
-- back as false whatever it was.
pub from_bytes_lem :
    (h : SegmentHeader)
    → h.first_lsn < 2 ^ 64
    → h.last_lsn < 2 ^ 64
    → h.entry_count < 2 ^ 32
    → from_bytes (to_bytes h) ≡ ok (record h { sealed = false })
unfolding from_bytes to_bytes same_bytes to_le_bytes from_le_bytes
from_bytes_lem h a b c =
    ap
      (λ v. ok (record {
        first_lsn = v;
        last_lsn = from_le_bytes (to_le_bytes 8 h.last_lsn);
        entry_count = from_le_bytes (to_le_bytes 4 h.entry_count);
        sealed = false;
      }))
      (from_le_bytes-to_le_bytes 8 h.first_lsn a)
    ∙ ap
        (λ v. ok (record {
          first_lsn = h.first_lsn;
          last_lsn = v;
          entry_count = from_le_bytes (to_le_bytes 4 h.entry_count);
          sealed = false;
        }))
        (from_le_bytes-to_le_bytes 8 h.last_lsn b)
    ∙ ap
        (λ v. ok (record {
          first_lsn = h.first_lsn;
          last_lsn = h.last_lsn;
          entry_count = v;
          sealed = false;
        }))
        (from_le_bytes-to_le_bytes 4 h.entry_count c)

-- A part of a file that is split at another place.
part_at :
    (file before part after : List ℕ) (p n : ℕ)
    → file ≡ before ++ (part ++ after)
    → length before ≡ p
    → length part ≡ n
    → read_exact p n file ≡ ok part
part_at file before part after p n e h k = rw e (read_exact_part before part after p n h k)

module _ (c : Codec) where
  read_at-parts :
      (file len flag body sum : List ℕ) (p n : ℕ)
      → read_exact p 4 file ≡ ok len
      → from_le_bytes len ≡ n
      → read_exact (p + 4) 1 file ≡ ok flag
      → read_exact (p + 5) n file ≡ ok body
      → read_exact (p + 5 + n) 4 file ≡ ok sum
      → from_le_bytes sum ≡ c.hash body
      → read_at c p file ≡ open_data c flag body
  unfolding read_at
  read_at-parts file len flag body sum p n a b d e f g =
      let same : (from_le_bytes sum == c.hash body) ≡ true = ground (arith, g) in
      rw (a, b, d, e, f, same) refl

  -- A frame that stands anywhere in a file is read back from its position.
  pub read_at-frame :
      (compression : Bool) (body before after : List ℕ)
      → length body < 2 ^ 32
      → c.hash body < 2 ^ 32
      → read_at c (length before) (before ++ (frame c compression body ++ after))
        ≡ open_data c (flag_of c compression ∷ []) body
  unfolding frame
  read_at-frame compression body before after short small =
      let n = length body in
      let len = to_le_bytes 4 (n % 2 ^ 32) in
      let flag = flag_of c compression ∷ [] in
      let sum = to_le_bytes 4 (c.hash body) in
      let file = before ++ ((len ++ (flag ++ (body ++ sum))) ++ after) in
      let four = length-to_le_bytes 4 (n % 2 ^ 32) in
      let fits : n % 2 ^ 32 ≡ n = omega (arith, short) in
      let e₁ : file ≡ before ++ (len ++ (flag ++ (body ++ (sum ++ after)))) =
        ap (λ xs. before ++ xs)
          (append_assoc len (flag ++ (body ++ sum)) after
            ∙ ap (λ xs. len ++ (flag ++ xs)) (append_assoc body sum after)) in
      let e₂ : file ≡ (before ++ len) ++ (flag ++ (body ++ (sum ++ after))) =
        e₁ ∙ sym (append_assoc before len (flag ++ (body ++ (sum ++ after)))) in
      let e₃ : file ≡ ((before ++ len) ++ flag) ++ (body ++ (sum ++ after)) =
        e₂ ∙ sym (append_assoc (before ++ len) flag (body ++ (sum ++ after))) in
      let e₄ : file ≡ (((before ++ len) ++ flag) ++ body) ++ (sum ++ after) =
        e₃ ∙ sym (append_assoc ((before ++ len) ++ flag) body (sum ++ after)) in
      let l₂ : length (before ++ len) ≡ length before + 4 =
        omega (arith, length-append before len, four) in
      let l₃ : length ((before ++ len) ++ flag) ≡ length before + 5 =
        omega (arith, length-append (before ++ len) flag, l₂) in
      let l₄ : length (((before ++ len) ++ flag) ++ body) ≡ length before + 5 + n =
        omega (arith, length-append ((before ++ len) ++ flag) body, l₃) in
      read_at-parts file len flag body sum (length before) n
        (part_at file before len (flag ++ (body ++ (sum ++ after))) (length before) 4 e₁ refl four)
        (from_le_bytes-to_le_bytes 4 (n % 2 ^ 32) (omega (arith, fits, short)) ∙ fits)
        (part_at file (before ++ len) flag (body ++ (sum ++ after)) (length before + 4) 1 e₂ l₂
          refl)
        (part_at file ((before ++ len) ++ flag) body (sum ++ after) (length before + 5) n e₃ l₃
          refl)
        (part_at file (((before ++ len) ++ flag) ++ body) sum after (length before + 5 + n) 4 e₄ l₄
          (length-to_le_bytes 4 (c.hash body)))
        (from_le_bytes-to_le_bytes 4 (c.hash body) small)
