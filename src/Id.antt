-- ===== src/Id.antt =====
-- id.rs: the generator of Snowflake ids. `>>` is a division, `<<` a multiplication within 64 bits,
-- `&` with a mask of low bits a remainder, and `|` of numbers without a common bit a sum. A round of
-- the loop of `generate` is one event: it reads the clock, and its exchange of the state succeeds,
-- or it changes nothing (it waits, or another thread came first). A text is its UTF-8 bytes.
pub mod Layout
pub mod Unique
mod Tests
use wolf_scale.Base.{
  ℕ, zero, suc, ◌+◌, ◌*◌, ◌/◌, ◌%◌, ◌^◌, ◌-◌, Bool, true, false, ◌&&◌, Option, none, some, List, [],
  ◌∷◌, ltb, leb, ◌==◌, if◌then◌else◌, u64,
}

abbrev pub wolfscale_epoch : ℕ
wolfscale_epoch = 1704067200000

abbrev pub node_id_bits : ℕ
node_id_bits = 10

abbrev pub sequence_bits : ℕ
sequence_bits = 12

abbrev pub max_node_id : ℕ
max_node_id = 1023

abbrev pub max_sequence : ℕ
max_sequence = 4095

abbrev pub timestamp_shift : ℕ
timestamp_shift = 22

-- `SnowflakeId`
unfoldable pub timestamp : ℕ → ℕ
timestamp id = u64 (id / 2 ^ timestamp_shift + wolfscale_epoch)

unfoldable pub node_id : ℕ → ℕ
node_id id = id / 2 ^ sequence_bits % 2 ^ node_id_bits

unfoldable pub sequence : ℕ → ℕ
sequence id = id % 2 ^ sequence_bits

pub record SnowflakeGenerator : Type 0 where
  pub node_id : ℕ
  pub state : ℕ

-- `new`, which panics above the greatest node id
unfoldable pub new : ℕ → Option SnowflakeGenerator
new node = if leb node max_node_id then some (record { node_id = node; state = 0 }) else none

-- The timestamp and the sequence that follow a state at a time; none to wait.
unfoldable pub follow : ℕ → ℕ → Option (ℕ × ℕ)
follow current_time old_state =
    let old_timestamp = old_state / 2 ^ sequence_bits in
    let next_seq = old_state % 2 ^ sequence_bits + 1 in
    if ltb old_timestamp current_time
    then some (current_time, 0)
    else if current_time == old_timestamp
    then if ltb max_sequence next_seq then none else some (current_time, next_seq)
    else if ltb max_sequence next_seq
    then none
    else some (old_timestamp, next_seq)

unfoldable pub pack_state : ℕ → ℕ → ℕ
pack_state new_timestamp new_sequence = u64 (new_timestamp * 2 ^ sequence_bits) + new_sequence

unfoldable pub pack_id : ℕ → ℕ → ℕ → ℕ
pack_id new_timestamp node new_sequence =
    u64 (new_timestamp * 2 ^ timestamp_shift) + (node * 2 ^ sequence_bits + new_sequence)

-- A round whose exchange is not preceded by another's.
unfoldable pub round : ℕ → SnowflakeGenerator → Option ℕ × SnowflakeGenerator
round current_time g = elim (follow current_time g.state) [
  | none ↦ (none, g)
  | some (t, s) ↦ (some (pack_id t g.node_id s), record g { state = pack_state t s })
]

-- A call of `generate`: rounds at these readings of the clock until one gives an id.
unfoldable pub generate : List ℕ → SnowflakeGenerator → Option ℕ × SnowflakeGenerator
generate [] g = (none, g)
generate (time ∷ times) g = elim (follow time g.state) [
  | none ↦ generate times g
  | some (t, s) ↦ (some (pack_id t g.node_id s), record g { state = pack_state t s })
]

abbrev pub with_id : Option ℕ → List ℕ → List ℕ
with_id none ids = ids
with_id (some id) ids = id ∷ ids

-- The ids that all rounds of all threads give, in the order of their exchanges.
unfoldable pub rounds : List ℕ → SnowflakeGenerator → List ℕ
rounds [] g = []
rounds (time ∷ times) g =
    let (id, next) = round time g in let later = rounds times next in with_id id later

abbrev pub is_digit : ℕ → Bool
is_digit b = leb 48 b && ltb b 58

-- The digits at the end: a digit goes to those before it, anything else drops them.
unfoldable pub last_digits : List ℕ → List ℕ → List ℕ
last_digits [] digits = digits
last_digits (b ∷ bs) digits =
    let more = last_digits bs (b ∷ digits) in
    let anew = last_digits bs [] in if is_digit b then more else anew

-- The value of digits, the last of them first, as `last_digits` leaves them.
unfoldable pub value_of : List ℕ → ℕ
value_of [] = 0
value_of (b ∷ bs) = (b - 48) + 10 * value_of bs

-- `parse::<u16>().unwrap_or(0)`
abbrev pub parse_u16 : List ℕ → ℕ
parse_u16 digits = if ltb (value_of digits) (2 ^ 16) then value_of digits else 0

unfoldable pub hash_bytes : ℕ → List ℕ → ℕ
hash_bytes acc [] = acc
hash_bytes acc (b ∷ bs) = hash_bytes (u64 (u64 (acc * 31) + b)) bs

unfoldable pub parse_node_id : List ℕ → ℕ
parse_node_id bytes = elim (last_digits bytes []) [
  | [] ↦ hash_bytes 0 bytes % (max_node_id + 1)
  | d ∷ ds ↦ parse_u16 (d ∷ ds) % (max_node_id + 1)
]
