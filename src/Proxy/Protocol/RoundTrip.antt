-- ===== src/Proxy/Protocol/RoundTrip.antt =====
-- The packets of proxy/protocol.rs, written and read back.
use wolf_scale.Base.{
  ℕ, suc, ◌+◌, ◌^◌, ◌<◌, ◌≡◌, refl, ap, ◌∙◌, false, Option, none, some, List, [], ◌∷◌, ◌++◌, ltb,
  ◌==◌, arith, Bool-cases, inl, inr, if◌then◌else◌, length, take, length-append, take-append,
  drop-append, append_assoc, u32, to_le_bytes, from_le_bytes, length-to_le_bytes,
  from_le_bytes-to_le_bytes,
}
use wolf_scale.Error.{ok}
use wolf_scale.Proxy.Protocol.{
  PacketHeader, read_header, write_header, new, read, write, write_lenenc_int,
}

-- A header whose length fits three bytes is read back from in front of anything.
read_header-write_header :
    (n s : ℕ) (rest : List ℕ)
    → n < 2 ^ 24
    → read_header (write_header (record { length = n; sequence_id = s }) [] ++ rest)
      ≡ ok (record { length = n; sequence_id = s })
unfolding read_header write_header to_le_bytes from_le_bytes
read_header-write_header n s rest h = ground (arith, h)

length-write_header :
    (n s : ℕ) → length (write_header (record { length = n; sequence_id = s }) []) ≡ 4
unfolding write_header to_le_bytes
length-write_header n s = refl

-- A packet whose payload is shorter than 16 MiB is read back from the front of a buffer, with the
-- number of its bytes.
pub read-write_packet :
    (sequence_id : ℕ) (payload rest : List ℕ)
    → length payload < 2 ^ 24
    → read (write (new sequence_id payload) [] ++ rest)
      ≡ ok (new sequence_id payload, 4 + length payload)
unfolding read write new
read-write_packet sequence_id payload rest h =
    let n = length payload in
    let small : u32 n ≡ n = omega (arith, h) in
    let hdr : PacketHeader = record { length = n; sequence_id = sequence_id } in
    let bytes = write_header hdr [] in
    let long : length bytes ≡ 4 = length-write_header n sequence_id in
    let there : length (bytes ++ (payload ++ rest)) ≡ 4 + (n + length rest) =
      omega (arith, length-append bytes (payload ++ rest), length-append payload rest, long) in
    let enough : ltb (length (bytes ++ (payload ++ rest))) (4 + n) ≡ false =
      ground (arith, there) in
    rw
      (
        small,
        append_assoc bytes payload rest,
        read_header-write_header n sequence_id (payload ++ rest) h,
        enough,
        drop-append bytes (payload ++ rest) 4 long,
        take-append payload rest n refl,
      )
      refl

-- How the protocol reads an integer: by its first byte, and with how many bytes it has.
unfoldable pub read_lenenc_int : List ℕ → Option (ℕ × ℕ)
read_lenenc_int [] = none
read_lenenc_int (b ∷ bs) =
    if ltb b 251
    then some (b, 1)
    else if b == 252
    then some (from_le_bytes (take 2 bs), 3)
    else if b == 253
    then some (from_le_bytes (take 3 bs), 4)
    else if b == 254
    then some (from_le_bytes (take 8 bs), 9)
    else none

bytes_back :
    (k value : ℕ) (rest : List ℕ)
    → value < 256 ^ k
    → from_le_bytes (take k (to_le_bytes k value ++ rest)) ≡ value
bytes_back k value rest h =
    ap from_le_bytes (take-append (to_le_bytes k value) rest k (length-to_le_bytes k value))
    ∙ from_le_bytes-to_le_bytes k value h

known : {v w : ℕ} (n : ℕ) → v ≡ w → ◌≡◌ {A = Option (ℕ × ℕ)} (some (v, n)) (some (w, n))
known n h = ap (λ k. some (k, n)) h

-- An integer of 64 bits is read back by the protocol's rule from where it was written, in the
-- fewest bytes that hold it.
pub read_lenenc_int-write_lenenc_int :
    (value : ℕ) (rest : List ℕ)
    → value < 2 ^ 64
    → (n : ℕ) × (read_lenenc_int (write_lenenc_int [] value ++ rest) ≡ some (value, n))
      × (length (write_lenenc_int [] value) ≡ n)
unfolding read_lenenc_int write_lenenc_int
read_lenenc_int-write_lenenc_int value rest h = elim (Bool-cases (ltb value 251)) [
  | inl one ↦ (1, ground (arith, one), ground (arith, one))
  | inr over ↦ elim (Bool-cases (ltb value 65536)) [
    | inl two ↦ (
      3,
      simp (over, two) (known 3 (bytes_back 2 value rest (ground (arith, two)))),
      simp (over, two) (ap suc (length-to_le_bytes 2 value)),
    )
    | inr over' ↦ elim (Bool-cases (ltb value 16777216)) [
      | inl three ↦ (
        4,
        simp (over, over', three) (known 4 (bytes_back 3 value rest (ground (arith, three)))),
        simp (over, over', three) (ap suc (length-to_le_bytes 3 value)),
      )
      | inr over'' ↦ (
        9,
        simp (over, over', over'') (known 9 (bytes_back 8 value rest (omega (arith, h)))),
        simp (over, over', over'') (ap suc (length-to_le_bytes 8 value)),
      )
    ]
  ]
]
