-- ===== src/Wolfdisk/Filesystem/Drains/Tests.antt =====
-- The write-back cache of wolfdisk/src/fuse/filesystem.rs, run.
use wolf_scale.Base.{
  ℕ, ◌+◌, ◌≤◌, ◌<◌, ◌≡◌, refl, true, false, none, some, List, [], ◌∷◌, ltb, arith, Bool-cases, inl,
  inr, get,
}
use wolf_scale.Base
use wolf_scale.Wolfdisk.Index.{FileIndex}
use wolf_scale.Wolfdisk.Inodes.{get_path}
use wolf_scale.Wolfdisk.Inodes
use wolf_scale.Wolfdisk.Filesystem.{WolfDiskFs, Request, Outcome, done, start}
use wolf_scale.Wolfdisk.Filesystem.Entries.{new_entry}
use wolf_scale.Wolfdisk.Filesystem.Clients.{
  Segment, Forward, write_at, coalesce, coalesce_onto, insert_segment, sort_segments, write_back,
  drain_client_writes,
}
use wolf_scale.Wolfdisk.Filesystem.Segments.{byte_before, byte_after, first_byte}
use wolf_scale.Wolfdisk.Filesystem.Drains.{
  AreApart, NoOverlap, HasGaps, first_byte-coalesce-sort_segments, rewritten_is_lost,
}

-- Two writes with a gap between them, the later part of the file first
abbrev segments : List Segment
segments = (3, 7 ∷ 8 ∷ []) ∷ (0, 1 ∷ 2 ∷ []) ∷ []

segments-NoOverlap : NoOverlap segments
unfolding NoOverlap AreApart
segments-NoOverlap = (
  (
    λ p. elim (Bool-cases (ltb p 3)) [
      | inl e ↦ inl (byte_before p 3 (7 ∷ 8 ∷ []) (ground (arith, e)))
      | inr e ↦ inr (byte_after p 0 (1 ∷ 2 ∷ []) (ground (arith, e)))
    ],
    tt,
  ),
  (tt, tt),
)

first_byte-coalesce-sort_segments_example :
    ((p : ℕ) → first_byte p (coalesce (sort_segments segments)) ≡ first_byte p segments)
    × HasGaps (coalesce (sort_segments segments))
first_byte-coalesce-sort_segments_example =
    first_byte-coalesce-sort_segments segments segments-NoOverlap

abbrev user : Request
user = record { uid = 1; gid = 2 }

abbrev index : FileIndex
index = record { entries = ("f" ∷ [], new_entry false 420 5 user) ∷ []; version = 1 }

abbrev fs : WolfDiskFs
fs = start index 4 none

abbrev accepts : Forward → Outcome (Unit {0})
accepts f = done tt

known : get_path 2 fs.inode_table ≡ some ("f" ∷ [])
unfolding get_path start get Inodes.from_index Inodes.add Base.find Base.set Inodes.new Base.put
known = refl

rewritten_is_lost_example :
    let once = (write_back 5 2 0 (1 ∷ 2 ∷ 3 ∷ []) fs).1 in
    let twice = (write_back 6 2 0 (7 ∷ 8 ∷ []) once).1 in
    (drain_client_writes accepts 2 twice).0.1 ≡ write_at ("f" ∷ []) 0 (1 ∷ 2 ∷ 3 ∷ []) ∷ []
unfolding get start
rewritten_is_lost_example =
    rewritten_is_lost accepts 5 6 2 0 (1 ∷ 2 ∷ 3 ∷ []) (7 ∷ 8 ∷ []) fs ("f" ∷ []) refl known
      (omega arith)

-- A write that runs into the next one is cut to it; a gap keeps two apart.
drain_test :
    coalesce (sort_segments ((9, 5 ∷ []) ∷ (2, 3 ∷ 4 ∷ []) ∷ (0, 1 ∷ 2 ∷ 9 ∷ []) ∷ []))
    ≡ (0, 1 ∷ 2 ∷ 9 ∷ 4 ∷ []) ∷ (9, 5 ∷ []) ∷ []
unfolding coalesce coalesce_onto sort_segments insert_segment
drain_test = refl
