-- ===== src/Id/Unique.antt =====
-- No two ids of id.rs are the same, whatever the clock and the threads do.
use wolf_scale.Base.{
  ℕ, ◌+◌, ◌*◌, ◌/◌, ◌%◌, ◌^◌, ◌<◌, ◌≡◌, none, some, List, [], ◌∷◌, arith, ◌⊎◌, inl, inr, All,
}
use wolf_scale.Id.{SnowflakeGenerator, follow, pack_state, pack_id, round, rounds}

-- The id that the state stands for: each id to come is above it.
abbrev pub id_of : SnowflakeGenerator → ℕ
id_of g = g.state / 2 ^ 12 * 2 ^ 22 + (g.node_id * 2 ^ 12 + g.state % 2 ^ 12)

abbrev pub Fits : SnowflakeGenerator → Type 0
Fits g = (g.node_id < 2 ^ 10) × (g.state < 2 ^ 53)

abbrev pub Above : ℕ → List ℕ → Type 0
Above n [] = Unit {0}
Above n (id ∷ ids) = (n < id) × Above id ids

follow_cases :
    (time old : ℕ)
    → time < 2 ^ 41
    → old < 2 ^ 53
    → (follow time old ≡ none)
      ⊎ ((t s : ℕ) × (follow time old ≡ some (t, s))
          × (t < 2 ^ 41)
          × (s < 2 ^ 12)
          × (old < t * 2 ^ 12 + s))
unfolding follow
follow_cases time old ht ho = ground arith

pack-Fits :
    (g : SnowflakeGenerator) (t s : ℕ)
    → Fits g
    → t < 2 ^ 41
    → s < 2 ^ 12
    → g.state < t * 2 ^ 12 + s
    → Fits (record g { state = pack_state t s })
      × (id_of (record g { state = pack_state t s }) ≡ pack_id t g.node_id s)
      × (id_of g < pack_id t g.node_id s)
unfolding pack_state pack_id
pack-Fits g t s (fit_node, fit_state) ht hs up = (
  (omega (arith, fit_node), omega (arith, ht, hs)),
  omega (arith, ht, hs, fit_node),
  omega (arith, ht, hs, up, fit_node, fit_state),
)

round_waits :
    (time : ℕ) (g : SnowflakeGenerator) → follow time g.state ≡ none → round time g ≡ (none, g)
unfolding round
round_waits time g h = ground (arith, h)

round_gives :
    (time t s : ℕ) (g : SnowflakeGenerator)
    → follow time g.state ≡ some (t, s)
    → round time g ≡ (some (pack_id t g.node_id s), record g { state = pack_state t s })
unfolding round
round_gives time t s g h = ground (arith, h)

-- Whatever the readings of the clock are, backwards too, the ids that the rounds of all threads
-- give go up, in the order of their exchanges, if the readings fit 41 bits.
pub rounds-Above :
    (times : List ℕ) (g : SnowflakeGenerator)
    → All (λ t. t < 2 ^ 41) times
    → Fits g
    → Above (id_of g) (rounds times g)
unfolding rounds
rounds-Above [] g ht fit = tt
rounds-Above (time ∷ times) g (h, ht) fit = elim (follow_cases time g.state h fit.1) [
  | inl waits ↦ rw (round_waits time g waits) (rounds-Above times g ht fit)
  | inr (t, s, gives, t_fits, s_fits, up) ↦
      let (fit', same, above) = pack-Fits g t s fit t_fits s_fits up in
      rw (round_gives time t s g gives)
        (above, rw same at (rounds-Above times (record g { state = pack_state t s }) ht fit'))
]
