-- ===== src/Network/Streams.antt =====
-- The frames of network/mod.rs one after another, and the handler of network/server.rs that reads
-- them.
use wolf_scale.Base.{
  ℕ, zero, suc, ◌^◌, ◌≤◌, ◌<◌, ◌≡◌, refl, sym, ap, String, true, false, Option, none, some, List,
  [], ◌∷◌, ◌++◌, map, ltb, ◌==◌, arith, All, length, length-append, take-append, drop-append,
  append_assoc, append-nil,
}
use wolf_scale.Error.{Result, ok, err}
use wolf_scale.Replication.Protocol.{Message}
use wolf_scale.Replication.Protocol.Frame.{
  FrameHeader, new, to_bytes, from_bytes-to_bytes, length-to_bytes,
}
use wolf_scale.Network.{
  Codec, max_message_size, read_body, read_message, framed, write_message, Connection, Handler,
  respond, handle_connection,
}

-- A message that `bincode` gives back from its bytes, which are not more than a frame may hold.
unfoldable pub IsSendable : Codec → Message → Type 0
IsSendable c m =
    (body : List ℕ) × (c.serialize m ≡ some body)
    × (c.deserialize body ≡ some m)
    × (length body ≤ max_message_size)
    × (c.crc32 body < 2 ^ 32)

-- The bytes of a message are a frame that is read back from in front of anything.
IsFrame : Codec → Message → List ℕ → Type 0
IsFrame c m bytes =
    ((out : List ℕ) → write_message c m out ≡ ok (out ++ bytes))
    × ((rest : List ℕ) → read_message c (bytes ++ rest) ≡ ok (m, rest))
    × (16 ≤ length bytes)

module _ (c : Codec) where
  read_body_lem :
      (m : Message) (body rest : List ℕ)
      → c.deserialize body ≡ some m
      → length body ≤ max_message_size
      → read_body c (record { length_field = length body; checksum = c.crc32 body }) (body ++ rest)
        ≡ ok (m, rest)
  unfolding read_body
  read_body_lem m body rest d l =
      let fits : ltb max_message_size (length body) ≡ false = ground (arith, l) in
      let there : ltb (length (body ++ rest)) (length body) ≡ false =
        ground (arith, length-append body rest) in
      let same : (c.crc32 body == c.crc32 body) ≡ true = ground arith in
      rw
        (
          fits,
          there,
          take-append body rest (length body) refl,
          same,
          drop-append body rest (length body) refl,
          d,
        )
        refl

  sendable-IsFrame : (m : Message) → IsSendable c m → (bytes : List ℕ) × IsFrame c m bytes
  unfolding IsSendable IsFrame write_message read_message new
  sendable-IsFrame m (body, s, d, l, k) =
      let header : FrameHeader = record { length_field = length body; checksum = c.crc32 body } in
      let front = to_bytes header in
      let sixteen : length front ≡ 16 = length-to_bytes header in
      let back : (rest : List ℕ) → read_message c ((front ++ body) ++ rest) ≡ ok (m, rest) = λ rest.
        let enough : ltb (length (front ++ (body ++ rest))) 16 ≡ false =
          ground (arith, length-append front (body ++ rest), sixteen) in
        rw
          (
            append_assoc front body rest,
            enough,
            take-append front (body ++ rest) 16 sixteen,
            drop-append front (body ++ rest) 16 sixteen,
            from_bytes-to_bytes header (omega (arith, l)) k,
            read_body_lem m body rest d l,
          )
          refl in
      (
        front ++ body,
        ((λ out. ap (framed c out) s), back, omega (arith, length-append front body, sixteen)),
      )

module _ {A B : Type 0} where
  abbrev and_then : Result A → (A → Result B) → Result B
  and_then (err e) k = err e
  and_then (ok a) k = k a

abbrev in_front : {A : Type 0} → Option A → List A → List A
in_front none xs = xs
in_front (some x) xs = x ∷ xs

-- The messages of a peer, written one after another.
unfoldable pub write_all : Codec → List Message → List ℕ → Result (List ℕ)
write_all c [] out = ok out
write_all c (m ∷ ms) out = and_then (write_message c m out) (write_all c ms)

-- What a handler answers to each message.
unfoldable pub responses : (Message → Option Message) → List Message → List Message
responses f [] = []
responses f (m ∷ ms) = in_front (f m) (responses f ms)

Writes : Codec → List Message → List ℕ → Type 0
Writes c ms bytes = (out : List ℕ) → write_all c ms out ≡ ok (out ++ bytes)

module _ (c : Codec) where
  respond_lem :
      (x : Option Message)
      → ((r : Message) → x ≡ some r → IsSendable c r)
      → (a : List ℕ) × ((out : List ℕ) → respond c x out ≡ ok (out ++ a))
        × ((ms : List Message) (out : List ℕ)
            → write_all c (in_front x ms) out ≡ write_all c ms (out ++ a))
  unfolding write_all IsFrame
  respond_lem none s = (
    [],
    (λ out. ap ok (sym (append-nil out))),
    (λ ms out. ap (write_all c ms) (sym (append-nil out))),
  )
  respond_lem (some r) s =
      let (f, (w, _, _)) = sendable-IsFrame c r (s r refl) in
      (f, w, (λ ms out. ap (λ k. and_then k (write_all c ms)) (w out)))

  module _ (h : Handler) (addr : String) where
    Hears : List Message → List ℕ → List ℕ → Type 0
    Hears ms fs rs =
        (fuel : ℕ) (s : Connection)
        → length fs < fuel
        → handle_connection c (some h) addr (λ _. true) fuel fs s ≡ (
          ok tt,
          record { written = s.written ++ rs; heard = s.heard ++ map (λ m. (addr, m)) ms },
        )

    Hears-nil : Hears [] [] []
    unfolding Hears handle_connection read_message
    Hears-nil zero s l = absurd (omega arith)
    Hears-nil (suc fuel) s l = rw (append-nil s.written, append-nil s.heard) refl

    Hears-cons :
        (m : Message) (ms : List Message) (f fs a rs : List ℕ)
        → IsFrame c m f
        → ((out : List ℕ) → respond c (h addr m) out ≡ ok (out ++ a))
        → Hears ms fs rs
        → Hears (m ∷ ms) (f ++ fs) (a ++ rs)
    unfolding Hears handle_connection IsFrame
    Hears-cons m ms f fs a rs p q ih zero s l = absurd (omega arith)
    Hears-cons m ms f fs a rs (_, r, n) q ih (suc fuel) s l =
        let s' : Connection = record {
          written = s.written ++ a;
          heard = s.heard ++ ((addr, m) ∷ []);
        } in
        let more = ih fuel s' (omega (arith, length-append f fs, n, l)) in
        rw
          (
            r fs,
            q s.written,
            more,
            append_assoc s.written a rs,
            append_assoc s.heard ((addr, m) ∷ []) (map (λ k. (addr, k)) ms),
          )
          refl

    conversation :
        ((m r : Message) → h addr m ≡ some r → IsSendable c r)
        → (ms : List Message) → All (IsSendable c) ms
        → (fs : List ℕ) × (rs : List ℕ) × Writes c ms fs
          × Writes c (responses (h addr) ms) rs
          × Hears ms fs rs
    unfolding Writes write_all responses IsFrame
    conversation g [] u =
        let empty : Writes c [] [] = λ out. ap ok (sym (append-nil out)) in
        ([], [], empty, empty, Hears-nil)
    conversation g (m ∷ ms) (p, ps) =
        let (f, (w, back, n)) = sendable-IsFrame c m p in
        let (a, q, q') = respond_lem (h addr m) (λ r. g m r) in
        let (fs, rs, ws, vs, ih) = conversation g ms ps in
        (
          f ++ fs,
          a ++ rs,
          (λ out. rw (w out, ws (out ++ f), append_assoc out f fs) refl),
          (λ out. rw (q' (responses (h addr) ms) out, vs (out ++ a), append_assoc out a rs) refl),
          Hears-cons m ms f fs a rs (w, back, n) q ih,
        )

-- What a peer writes and closes, all of it messages that can be sent, the handler of the connection
-- hears in that order, and it writes back the frames of its answers in that order, if they can be
-- sent too and the channel stays open. As fuel, one more than the number of the bytes is enough.
pub handle_connection-write_all :
    (c : Codec) (h : Handler) (addr : String) (ms : List Message)
    → ((m r : Message) → h addr m ≡ some r → IsSendable c r)
    → All (IsSendable c) ms
    → (fs : List ℕ) × (rs : List ℕ) × (write_all c ms [] ≡ ok fs)
      × (write_all c (responses (h addr) ms) [] ≡ ok rs)
      × (handle_connection c
            (some h)
            addr
            (λ _. true)
            (suc (length fs))
            fs
            (record { written = []; heard = [] })
          ≡ (ok tt, record { written = rs; heard = map (λ m. (addr, m)) ms }))
unfolding Writes Hears
handle_connection-write_all c h addr ms g ps =
    let (fs, rs, ws, vs, hears) = conversation c h addr g ms ps in
    (
      fs,
      rs,
      ws [],
      vs [],
      hears (suc (length fs)) (record { written = []; heard = [] }) (omega arith),
    )
