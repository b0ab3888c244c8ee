-- ===== src/Wolfdisk/Filesystem/Syncs.antt =====
-- `fsync` and `flush` of wolfdisk/src/fuse/filesystem.rs. What the leader answers is an argument.
use wolf_scale.Base.{ℕ, List, [], if◌then◌else◌}
use wolf_scale.Wolfdisk.Filesystem.{WolfDiskFs, Outcome, done, error, eio, is_leader}
use wolf_scale.Wolfdisk.Filesystem.Buffers.{flush_write_buffer}
use wolf_scale.Wolfdisk.Filesystem.Clients.{Forward, drain_client_writes}

unfoldable pub fsync : (List ℕ → ℕ) → ℕ → ℕ → WolfDiskFs → WolfDiskFs
fsync sha256 now ino fs = if is_leader fs then flush_write_buffer sha256 now ino fs else fs

-- Any failure to send is an input/output error.
abbrev pub as_eio : Outcome (Unit {0}) → Outcome (Unit {0})
as_eio (done _) = done tt
as_eio (error e) = error eio

-- The result, what was sent to the leader, and the state
unfoldable pub flush :
    (List ℕ → ℕ)
    → (Forward → Outcome (Unit {0}))
    → ℕ
    → ℕ
    → WolfDiskFs
    → (Outcome (Unit {0}) × List Forward) × WolfDiskFs
flush sha256 accepts now ino fs =
    if is_leader fs
    then ((done tt, []), flush_write_buffer sha256 now ino fs)
    else (let ((r, sent), fs') = drain_client_writes accepts ino fs in ((as_eio r, sent), fs'))
