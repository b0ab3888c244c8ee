-- ===== src/Wolfnet/Cipher/Session.antt =====
-- A session of wolfnet/src/crypto.rs: packets in order, some of them lost, and packets that come
-- again.
use wolf_scale.Base.{
  ℕ, ◌+◌, ◌^◌, ◌≤◌, ◌<◌, ◌≡◌, refl, ap, ◌∙◌, Bool, true, false, not, some, List, [], ◌∷◌, ◌++◌,
  arith, length, if◌then◌else◌, u64, ltb,
}
use wolf_scale.Wolfnet.Cipher.{
  Aead, SessionCipher, Outcome, done, failed, make_nonce, encrypt, decrypt, is_stale,
  is_likely_restart,
}

-- What the cipher promises: a text can be encrypted, and what was encrypted comes back under the
-- same nonce.
pub record IsAead (c : Aead) : Type 0 where
  pub encrypts : (nonce text : List ℕ) → (sealed : List ℕ) × (c.encrypt nonce text ≡ some sealed)
  pub decrypt-encrypt :
      (nonce text sealed : List ℕ)
      → c.encrypt nonce text ≡ some sealed
      → c.decrypt nonce sealed ≡ some text

-- Two ends of a session: the receiver has seen no counter that the sender has yet to use.
pub record Paired (a b : SessionCipher) : Type 0 where
  pub same_key : b.cipher ≡ a.cipher
  pub other_side : not b.is_low_side ≡ a.is_low_side
  pub behind : b.recv_counter ≤ a.send_counter

-- Texts are sent one after the other, each with whether its packet arrives; what arrives is
-- decrypted.
abbrev pub arrive :
    Bool → Outcome (ℕ × List ℕ) → SessionCipher → List (Outcome (List ℕ)) × SessionCipher
arrive true (done (counter, sealed)) b = let (r, next) = decrypt counter sealed b in (r ∷ [], next)
arrive true (failed e) b = ([], b)
arrive false packet b = ([], b)

unfoldable pub deliver :
    List (List ℕ × Bool) → SessionCipher → SessionCipher → List (Outcome (List ℕ))
deliver [] a b = []
deliver ((text, arrives) ∷ rest) a b =
    let (packet, sender) = encrypt text a in
    let (here, receiver) = arrive arrives packet b in here ++ deliver rest sender receiver

abbrev pub arrived : List (List ℕ × Bool) → List (Outcome (List ℕ))
arrived [] = []
arrived ((text, true) ∷ rest) = done text ∷ arrived rest
arrived ((text, false) ∷ rest) = arrived rest

-- Where the receiver is after a counter that is not behind it
abbrev after : ℕ → SessionCipher → SessionCipher
after n b = if ltb b.recv_counter n then record b { recv_counter = n } else b

decrypt_forward :
    (n : ℕ) (sealed text : List ℕ) (b : SessionCipher)
    → b.recv_counter ≤ n
    → b.cipher.decrypt (make_nonce n (not b.is_low_side)) sealed ≡ some text
    → decrypt n sealed b ≡ (done text, after n b)
unfolding decrypt is_stale is_likely_restart
decrypt_forward n sealed text b h opens = ground (arith, opens, h)

after-Paired :
    (a b : SessionCipher)
    → Paired a b
    → a.send_counter + 1 < 2 ^ 64
    → Paired (record a { send_counter = u64 (a.send_counter + 1) }) (after a.send_counter b)
after-Paired a b p h = record {
  same_key = ground (arith, p.same_key);
  other_side = ground (arith, p.other_side);
  behind = ground (arith, p.behind, h);
}

lost-Paired :
    (a b : SessionCipher)
    → Paired a b
    → a.send_counter + 1 < 2 ^ 64
    → Paired (record a { send_counter = u64 (a.send_counter + 1) }) b
lost-Paired a b p h = record {
  same_key = p.same_key;
  other_side = p.other_side;
  behind = omega (arith, p.behind, h);
}

encrypt_done :
    (text : List ℕ) (a : SessionCipher)
    → IsAead a.cipher
    → (sealed : List ℕ) × (a.cipher.encrypt (make_nonce a.send_counter a.is_low_side) text
        ≡ some sealed)
      × (encrypt text a
          ≡ (done (a.send_counter, sealed), record a { send_counter = u64 (a.send_counter + 1) }))
unfolding encrypt
encrypt_done text a laws =
    let (sealed, h) = laws.encrypts (make_nonce a.send_counter a.is_low_side) text in
    (sealed, h, rw h refl)

-- Between two ends of a session, every text whose packet arrives is decrypted to itself, in order,
-- whichever packets are lost, until the counter has used its 64 bits.
pub deliver-arrived :
    (texts : List (List ℕ × Bool)) (a b : SessionCipher)
    → IsAead a.cipher
    → Paired a b
    → a.send_counter + length texts < 2 ^ 64
    → deliver texts a b ≡ arrived texts
unfolding deliver
deliver-arrived [] a b laws p h = refl
deliver-arrived ((text, false) ∷ rest) a b laws p h =
    let (_, _, sends) = encrypt_done text a laws in
    let sender = record a { send_counter = u64 (a.send_counter + 1) } in
    rw sends
      (deliver-arrived rest sender b laws (lost-Paired a b p (omega (arith, h))) (omega (arith, h)))
deliver-arrived ((text, true) ∷ rest) a b laws p h =
    let (sealed, seals, sends) = encrypt_done text a laws in
    let sender = record a { send_counter = u64 (a.send_counter + 1) } in
    let receiver = after a.send_counter b in
    let nonce = make_nonce a.send_counter a.is_low_side in
    let opens : b.cipher.decrypt (make_nonce a.send_counter (not b.is_low_side)) sealed
        ≡ some text =
      ap (λ k. k.decrypt (make_nonce a.send_counter (not b.is_low_side)) sealed) p.same_key
      ∙ ap (λ z. a.cipher.decrypt (make_nonce a.send_counter z) sealed) p.other_side
      ∙ laws.decrypt-encrypt nonce text sealed seals in
    let takes = decrypt_forward a.send_counter sealed text b p.behind opens in
    rw (sends, takes)
      (ap (λ l. done text ∷ l)
        (deliver-arrived rest sender receiver laws (after-Paired a b p (omega (arith, h)))
          (omega (arith, h))))

after-after : (n : ℕ) (b : SessionCipher) → after n (after n b) ≡ after n b
after-after n b = ground arith

-- A packet that was not behind the receiver is accepted a second time, and leaves it as it was.
pub decrypt_again :
    (n : ℕ) (sealed text : List ℕ) (b : SessionCipher)
    → b.recv_counter ≤ n
    → b.cipher.decrypt (make_nonce n (not b.is_low_side)) sealed ≡ some text
    → decrypt n sealed (decrypt n sealed b).1 ≡ (done text, (decrypt n sealed b).1)
decrypt_again n sealed text b h opens =
    let once = decrypt_forward n sealed text b h opens in
    rw once (
      decrypt_forward n sealed text (after n b) (ground (arith, h)) (ground (arith, opens))
      ∙ ap (λ k. (done text, k)) (after-after n b))
