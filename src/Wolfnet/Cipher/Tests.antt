-- ===== src/Wolfnet/Cipher/Tests.antt =====
-- wolfnet/src/crypto.rs with a cipher that puts the nonce in front.
use wolf_scale.Base.{
  ℕ, ◌≡◌, refl, ap, sym, ◌∙◌, true, false, Option, none, some, List, [], ◌∷◌, ◌++◌, arith, length,
  drop, drop-append,
}
use wolf_scale.Wolfnet.Cipher.{Aead, SessionCipher, new, bytes_lt, done}
use wolf_scale.Wolfnet.Cipher.Session.{IsAead, Paired, deliver, deliver-arrived}

abbrev plain : Aead
plain = record {
  encrypt = λ nonce text. some (nonce ++ text);
  decrypt = λ nonce sealed. some (drop (length nonce) sealed);
}

abbrev or_empty : Option (List ℕ) → List ℕ
or_empty none = []
or_empty (some l) = l

plain-IsAead : IsAead plain
plain-IsAead = record {
  encrypts = λ nonce text. (nonce ++ text, refl);
  decrypt-encrypt = λ nonce text sealed h.
      ap (λ o. some (drop (length nonce) (or_empty o))) (sym h)
      ∙ ap some (drop-append nonce text (length nonce) refl);
}

abbrev low : SessionCipher
low = new plain (1 ∷ []) (2 ∷ [])

abbrev high : SessionCipher
high = new plain (2 ∷ []) (1 ∷ [])

low-high-Paired : Paired low high
unfolding new bytes_lt
low-high-Paired = record { same_key = refl; other_side = refl; behind = omega arith }

deliver-arrived_example :
    deliver ((5 ∷ [], true) ∷ (6 ∷ [], false) ∷ (7 ∷ [], true) ∷ []) low high
    ≡ done (5 ∷ []) ∷ done (7 ∷ []) ∷ []
unfolding new
deliver-arrived_example =
    deliver-arrived ((5 ∷ [], true) ∷ (6 ∷ [], false) ∷ (7 ∷ [], true) ∷ []) low high plain-IsAead
      low-high-Paired (omega arith)
