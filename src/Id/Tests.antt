-- ===== src/Id/Tests.antt =====
-- id.rs at small inputs.
use wolf_scale.Base.{[], ◌∷◌, arith}
use wolf_scale.Id.{SnowflakeGenerator, rounds}
use wolf_scale.Id.Unique.{Above, id_of, rounds-Above}

abbrev generator : SnowflakeGenerator
generator = record { node_id = 42; state = 0 }

rounds-Above_example : Above (id_of generator) (rounds (5 ∷ 5 ∷ 3 ∷ 6 ∷ []) generator)
rounds-Above_example =
    rounds-Above (5 ∷ 5 ∷ 3 ∷ 6 ∷ []) generator
      (omega arith, (omega arith, (omega arith, (omega arith, tt)))) (omega arith, omega arith)
