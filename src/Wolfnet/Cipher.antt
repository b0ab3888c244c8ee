-- ===== src/Wolfnet/Cipher.antt =====
-- wolfnet/src/crypto.rs: the cipher of a session between two peers. ChaCha20-Poly1305 under the
-- shared key is a parameter, `Aead`; a nonce is its 12 bytes.
pub mod Nonces
pub mod Session
mod Tests
use wolf_scale.Base.{
  ℕ, ◌+◌, ◌-◌, Bool, true, false, not, ◌&&◌, ◌||◌, Option, none, some, List, [], ◌∷◌, ◌++◌, ltb,
  leb, if◌then◌else◌, u64, to_le_bytes,
}

pub record Aead : Type 0 where
  pub encrypt : List ℕ → List ℕ → Option (List ℕ)
  pub decrypt : List ℕ → List ℕ → Option (List ℕ)

pub data CipherError : Type 0 where
  encryption_failed : CipherError
  replay_detected : CipherError
  decryption_failed : CipherError

pub data Outcome (A : Type 0) : Type 0 where
  done : A → Outcome A
  failed : CipherError → Outcome A

pub record SessionCipher : Type 0 where
  pub cipher : Aead
  pub send_counter : ℕ
  pub recv_counter : ℕ
  pub is_low_side : Bool

-- `a < b` of byte slices
unfoldable pub bytes_lt : List ℕ → List ℕ → Bool
bytes_lt [] [] = false
bytes_lt [] (_ ∷ _) = true
bytes_lt (_ ∷ _) [] = false
bytes_lt (a ∷ as') (b ∷ bs) =
    let rest = bytes_lt as' bs in if ltb a b then true else if ltb b a then false else rest

unfoldable pub new : Aead → List ℕ → List ℕ → SessionCipher
new cipher my_public peer_public = record {
  cipher = cipher;
  send_counter = 0;
  recv_counter = 0;
  is_low_side = bytes_lt my_public peer_public;
}

unfoldable pub make_nonce : ℕ → Bool → List ℕ
make_nonce counter is_low_side =
    to_le_bytes 8 counter ++ (0 ∷ 0 ∷ 0 ∷ (if is_low_side then 0 else 1) ∷ [])

abbrev pub encrypted : ℕ → Option (List ℕ) → Outcome (ℕ × List ℕ)
encrypted counter (some ciphertext) = done (counter, ciphertext)
encrypted counter none = failed encryption_failed

unfoldable pub encrypt : List ℕ → SessionCipher → Outcome (ℕ × List ℕ) × SessionCipher
encrypt plaintext s = (
  encrypted s.send_counter (s.cipher.encrypt (make_nonce s.send_counter s.is_low_side) plaintext),
  record s { send_counter = u64 (s.send_counter + 1) },
)

unfoldable pub is_likely_restart : ℕ → SessionCipher → Bool
is_likely_restart counter s = ltb counter 100 && ltb 100 s.recv_counter

unfoldable pub is_stale : ℕ → SessionCipher → Bool
is_stale counter s =
    (leb counter s.recv_counter && ltb 0 s.recv_counter && not (is_likely_restart counter s))
    && ltb 32 (s.recv_counter - counter)

abbrev pub opened : ℕ → SessionCipher → Option (List ℕ) → Outcome (List ℕ) × SessionCipher
opened counter s none = (failed decryption_failed, s)
opened counter s (some plaintext) = (
  done plaintext,
  if ltb s.recv_counter counter || is_likely_restart counter s
      then record s { recv_counter = counter }
      else s,
)

unfoldable pub decrypt : ℕ → List ℕ → SessionCipher → Outcome (List ℕ) × SessionCipher
decrypt counter ciphertext s =
    let plain = s.cipher.decrypt (make_nonce counter (not s.is_low_side)) ciphertext in
    if is_stale counter s then (failed replay_detected, s) else opened counter s plain
