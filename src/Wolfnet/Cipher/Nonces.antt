-- ===== src/Wolfnet/Cipher/Nonces.antt =====
-- No nonce of wolfnet/src/crypto.rs is used twice under a session's key.
use wolf_scale.Base.{
  ℕ, ◌^◌, ◌<◌, ◌≡◌, ap, sym, ◌∙◌, Bool, List, [], ◌∷◌, arith, if◌then◌else◌, take, take-append,
  drop, drop-append, to_le_bytes, from_le_bytes, length-to_le_bytes, from_le_bytes-to_le_bytes,
}
use wolf_scale.Wolfnet.Cipher.{make_nonce}

abbrev flag : Bool → ℕ
flag z = if z then 0 else 1

flag-injective : (a b : Bool) → flag a ≡ flag b → a ≡ b
flag-injective a b h = ground (arith, h)

-- A nonce gives back its counter and its side.
pub make_nonce-injective :
    (m n : ℕ) (a b : Bool)
    → m < 2 ^ 64
    → n < 2 ^ 64
    → make_nonce m a ≡ make_nonce n b
    → (m ≡ n) × (a ≡ b)
unfolding make_nonce
make_nonce-injective m n a b hm hn h =
    let tail : Bool → List ℕ = λ z. 0 ∷ 0 ∷ 0 ∷ flag z ∷ [] in
    let heads : to_le_bytes 8 m ≡ to_le_bytes 8 n =
      sym (take-append (to_le_bytes 8 m) (tail a) 8 (length-to_le_bytes 8 m))
      ∙ ap (λ l. take 8 l) h
      ∙ take-append (to_le_bytes 8 n) (tail b) 8 (length-to_le_bytes 8 n) in
    let tails : tail a ≡ tail b =
      sym (drop-append (to_le_bytes 8 m) (tail a) 8 (length-to_le_bytes 8 m))
      ∙ ap (λ l. drop 8 l) h
      ∙ drop-append (to_le_bytes 8 n) (tail b) 8 (length-to_le_bytes 8 n) in
    (
      sym (from_le_bytes-to_le_bytes 8 m (omega (arith, hm)))
          ∙ ap from_le_bytes heads
          ∙ from_le_bytes-to_le_bytes 8 n (omega (arith, hn)),
      flag-injective a b (ap (λ l. last_of l) tails),
    )
  where
    last_of : List ℕ → ℕ
    last_of (_ ∷ _ ∷ _ ∷ x ∷ _) = x
    last_of _ = 0
