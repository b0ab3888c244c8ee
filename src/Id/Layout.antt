-- ===== src/Id/Layout.antt =====
-- The bits of a Snowflake id of id.rs.
use wolf_scale.Base.{ℕ, ◌+◌, ◌^◌, ◌≤◌, ◌<◌, ◌≡◌, some, List, arith}
use wolf_scale.Id.{
  wolfscale_epoch, max_node_id, timestamp, node_id, sequence, new, pack_id, parse_node_id,
}

-- An id gives back the milliseconds, the node and the sequence number that it was made of, if each
-- fits its bits: 41, 10 and 12 of them.
pub unpack-pack_id :
    (t n s : ℕ)
    → t < 2 ^ 41
    → n < 2 ^ 10
    → s < 2 ^ 12
    → (timestamp (pack_id t n s) ≡ t + wolfscale_epoch)
      × (node_id (pack_id t n s) ≡ n)
      × (sequence (pack_id t n s) ≡ s)
unfolding timestamp node_id sequence pack_id
unpack-pack_id t n s ht hn hs = (omega arith, omega arith, omega arith)

parse_node_id-le : (bytes : List ℕ) → parse_node_id bytes ≤ max_node_id
unfolding parse_node_id
parse_node_id-le bytes = ground arith

-- Any text gives a node id that the generator takes.
pub new-parse_node_id :
    (bytes : List ℕ)
    → new (parse_node_id bytes) ≡ some (record { node_id = parse_node_id bytes; state = 0 })
unfolding new
new-parse_node_id bytes = ground (arith, parse_node_id-le bytes)
