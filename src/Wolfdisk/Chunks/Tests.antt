-- ===== src/Wolfdisk/Chunks/Tests.antt =====
-- wolfdisk/src/storage/chunks.rs at a small file.
use wolf_scale.Base.{◌≡◌, List, [], ◌∷◌, arith}
use wolf_scale.Wolfdisk.Chunks.{ChunkRef, new, read, write, bytes}
use wolf_scale.Wolfdisk.Chunks.Encoding.{encoded, encoded_same, empty-Coherent, empty-Addressed}
use wolf_scale.Wolfdisk.Chunks.RoundTrip.{read-write_range}

abbrev old_chunks : List ChunkRef
old_chunks =
    record { hash = 9; offset = 0; size = 2 } ∷ record { hash = 8; offset = 3; size = 9 } ∷ []

read-write_range_example :
    ((write encoded old_chunks 2 (5 ∷ 6 ∷ 7 ∷ []) (new 2)).0 ≡ 3)
    × ((read
          (write encoded old_chunks 2 (5 ∷ 6 ∷ 7 ∷ []) (new 2)).1.0
          2
          3
          (write encoded old_chunks 2 (5 ∷ 6 ∷ 7 ∷ []) (new 2)).1.1).0
        ≡ bytes (5 ∷ 6 ∷ 7 ∷ []))
unfolding new
read-write_range_example =
    read-write_range encoded old_chunks 2 5 (6 ∷ 7 ∷ []) (new 2) encoded_same empty-Coherent
      empty-Addressed (omega arith) (omega arith) (omega arith)
