-- ===== src/Wal/Writer/Files.antt =====
-- The files that wal/writer.rs leaves: what can be read from the directory stays readable when a
-- segment is changed, as long as none is created over a file that is there.
use wolf_scale.Base.{
  ℕ, ◌^◌, ◌≤◌, ◌<◌, ◌≡◌, refl, ap, sym, ◌∙◌, Bool, Option, none, some, List, arith, ◌⊎◌, inl, inr,
  length, ◌==◌, Bool-cases, get, get-put, to_le_bytes,
}
use wolf_scale.Error.{ok}
use wolf_scale.Wal.Entry.{WalEntry}
use wolf_scale.Wal.Segment.{
  Codec, Segment, create, seal, append, encode, read_at, write_at, to_bytes,
}
use wolf_scale.Wal.Segment.Appends.{
  IsCodec, IsOpen, append-IsOpen, append_cases, append_done, read_at-appended, append_keeps_entries,
}
use wolf_scale.Wal.Segment.Seals.{read_at-seal}
use wolf_scale.Wal.Writer.{WalWriter, Directory, store, create_at, rotate}

-- The current segment: open, behind its header, and the directory has its bytes.
pub record Ready (s : Segment) (d : Directory) : Type 0 where
  pub is_open : IsOpen s
  pub behind : 32 ≤ s.write_pos
  pub backed : get s.id d ≡ some s.file

-- An entry that is in some file of the directory.
pub record Stored (c : Codec) (d : Directory) (e : WalEntry) : Type 0 where
  pub name : ℕ
  pub file : List ℕ
  pub pos : ℕ
  pub behind : 32 ≤ pos
  pub found : get name d ≡ some file
  pub reads : read_at c pos file ≡ ok e

abbrev pub Fresh : Directory → ℕ → Type 0
Fresh d n = get n d ≡ none

-- An entry that the codec brings back, with data shorter than 4 GiB, in either form.
abbrev pub Writable : Codec → WalEntry → Type 0
Writable c e = IsCodec c e × ((z : Bool) → length (encode c z e) < 2 ^ 32)

pub create-IsOpen : (lsn mb : ℕ) (z : Bool) → 1 ≤ mb → IsOpen (create lsn mb z)
unfolding create to_bytes write_at to_le_bytes
create-IsOpen lsn mb z h = record { at_end = refl; bounded = omega (arith, h) }

create_fields :
    (lsn mb : ℕ) (z : Bool)
    → ((create lsn mb z).id ≡ lsn)
      × ((create lsn mb z).write_pos ≡ 32)
      × ((create lsn mb z).compression ≡ z)
unfolding create
create_fields lsn mb z = (refl, refl, refl)

pub get_stored : (t : Segment) (d : Directory) → get t.id (store t d) ≡ some t.file
get_stored t d = ground (arith, get-put t.id t.id t.file d)

some-injective : {A : Type 0} {a b : A} → some a ≡ some b → a ≡ b
some-injective h = cc

clash : {A : Type 0} {o : Option A} {a : A} → o ≡ none → o ≡ some a → ⊥
clash h k = cc

store-Fresh :
    (t : Segment) (d : Directory) (file : List ℕ) (n : ℕ)
    → get t.id d ≡ some file
    → Fresh d n
    → Fresh (store t d) n
store-Fresh t d file n there fresh = ground (arith, get-put t.id n t.file d, there, fresh)

module _ (c : Codec) (w : WalWriter) (roomy : 1 ≤ w.segment_size_mb) where
  rotate_cases :
      (lsn : ℕ) (s : Segment) (d : Directory)
      → (rotate w lsn s d ≡ (s, d))
        ⊎ (rotate w lsn s d ≡ (create_at lsn w, store (create_at lsn w) (store (seal s) d)))
  unfolding rotate
  rotate_cases lsn s d = ground arith

  -- Writing back a file that has grown, or a new one, keeps what could be read.
  store-Stored :
      (t : Segment) (d : Directory) (e : WalEntry)
      → ((file : List ℕ)
          → get t.id d ≡ some file
          → (pos : ℕ) → 32 ≤ pos
          → read_at c pos file ≡ ok e
          → read_at c pos t.file ≡ ok e)
      → Stored c d e
      → Stored c (store t d) e
  store-Stored t d e keeps h = elim (Bool-cases (t.id == h.name)) [
    | inl hit ↦
        let same : t.id ≡ h.name = ground (arith, hit) in
        record {
          name = t.id;
          file = t.file;
          pos = h.pos;
          behind = h.behind;
          found = get_stored t d;
          reads = keeps h.file (ap (λ n. get n d) same ∙ h.found) h.pos h.behind h.reads;
        }
    | inr miss ↦ record {
      name = h.name;
      file = h.file;
      pos = h.pos;
      behind = h.behind;
      found = get-put t.id h.name t.file d ∙ rw miss h.found;
      reads = h.reads;
    }
  ]

  pub rotate-Ready :
      (lsn : ℕ) (s : Segment) (d : Directory)
      → Ready s d
      → Ready (rotate w lsn s d).0 (rotate w lsn s d).1
  rotate-Ready lsn s d h = elim (rotate_cases lsn s d) [
    | inl same ↦ rw same h
    | inr new ↦ rw new (record {
      is_open = create-IsOpen lsn w.segment_size_mb w.compression roomy;
      behind = omega (arith, (create_fields lsn w.segment_size_mb w.compression).1);
      backed = get_stored (create_at lsn w) (store (seal s) d);
    })
  ]

  seal-Stored :
      (s : Segment) (d : Directory) (e : WalEntry)
      → Ready s d
      → Stored c d e
      → Stored c (store (seal s) d) e
  unfolding seal
  seal-Stored s d e h = store-Stored (seal s) d e (λ file there pos past reads.
      let same : s.file ≡ file = some-injective (sym h.backed ∙ there) in
      let long : 32 ≤ length s.file = omega (arith, h.behind, h.is_open.at_end) in
      read_at-seal c pos s past long ∙ rw same reads)

  seal-Fresh :
      (s : Segment) (d : Directory) (n : ℕ) → Ready s d → Fresh d n → Fresh (store (seal s) d) n
  unfolding seal
  seal-Fresh s d n h fresh = store-Fresh (seal s) d s.file n h.backed fresh

  pub rotate-Stored :
      (lsn : ℕ) (s : Segment) (d : Directory) (e : WalEntry)
      → Ready s d
      → Fresh d lsn
      → Stored c d e
      → Stored c (rotate w lsn s d).1 e
  unfolding create
  rotate-Stored lsn s d e h fresh old = elim (rotate_cases lsn s d) [
    | inl same ↦ rw same old
    | inr new ↦ rw new (
        store-Stored (create_at lsn w) (store (seal s) d) e
          (λ file there pos past reads. absurd (clash (seal-Fresh s d lsn h fresh) there))
          (seal-Stored s d e h old))
  ]

  pub rotate-Fresh :
      (lsn n : ℕ) (s : Segment) (d : Directory)
      → Ready s d
      → lsn < n
      → Fresh d n
      → Fresh (rotate w lsn s d).1 n
  unfolding create
  rotate-Fresh lsn n s d h above fresh = elim (rotate_cases lsn s d) [
    | inl same ↦ rw same fresh
    | inr new ↦ rw new (
        ground (
          arith,
          get-put lsn n (create_at lsn w).file (store (seal s) d),
          seal-Fresh s d n h fresh,
          above,
        ))
  ]

  append-id : (e : WalEntry) (s : Segment) → (append c e s).1.id ≡ s.id
  append-id e s = elim (append_cases c e s) [
    | inl same ↦ rw same refl
    | inr (done, _) ↦ rw done refl
  ]

  append_forward : (e : WalEntry) (s : Segment) → s.write_pos ≤ (append c e s).1.write_pos
  append_forward e s = elim (append_cases c e s) [
    | inl same ↦ rw same (omega arith)
    | inr (done, _) ↦ rw done (omega arith)
  ]

  pub written-Ready :
      (e : WalEntry) (s : Segment) (d : Directory)
      → Ready s d
      → Ready (append c e s).1 (store (append c e s).1 d)
  written-Ready e s d h = record {
    is_open = append-IsOpen c e s h.is_open;
    behind = omega (arith, h.behind, append_forward e s);
    backed = get_stored (append c e s).1 d;
  }

  pub written-Stored :
      (e x : WalEntry) (s : Segment) (d : Directory)
      → Ready s d
      → Stored c d x
      → Stored c (store (append c e s).1 d) x
  written-Stored e x s d h old =
      store-Stored (append c e s).1 d x
        (λ file there pos past reads.
          let same : s.file ≡ file =
            some-injective (sym h.backed ∙ ap (λ n. get n d) (sym (append-id e s)) ∙ there) in
          append_keeps_entries c e x s pos h.is_open (rw same reads))
        old

  pub written-Fresh :
      (e : WalEntry) (s : Segment) (d : Directory) (n : ℕ)
      → Ready s d
      → Fresh d n
      → Fresh (store (append c e s).1 d) n
  written-Fresh e s d n h fresh =
      store-Fresh (append c e s).1 d s.file n (ap (λ k. get k d) (append-id e s) ∙ h.backed) fresh

  pub appended-Stored :
      (e : WalEntry) (s : Segment) (d : Directory) (pos : ℕ)
      → Ready s d
      → Writable c e
      → (append c e s).0 ≡ ok pos
      → Stored c (store (append c e s).1 d) e
  appended-Stored e s d pos h (laws, short) done = record {
    name = (append c e s).1.id;
    file = (append c e s).1.file;
    pos = pos;
    behind = omega (arith, h.behind, (append_done c e s pos done).0);
    found = get_stored (append c e s).1 d;
    reads = read_at-appended c e s pos laws h.is_open (short s.compression) done;
  }
