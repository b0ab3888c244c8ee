-- ===== src/Wolfdisk/Errors.antt =====
-- wolfdisk/src/error.rs: the errors of the file system. An error of another crate carries nothing but,
-- for one of the operating system, its code.
use wolf_scale.Base.{ℕ, String, Option, none, some}

pub data Error : Type 0 where
  io : (raw_os_error : Option ℕ) → Error
  config : String → Error
  toml : Error
  toml_ser : Error
  storage : String → Error
  chunk_not_found : String → Error
  file_not_found : String → Error
  replication : String → Error
  network : String → Error
  invalid_operation : String → Error

abbrev pub unwrap_or : ℕ → Option ℕ → ℕ
unwrap_or d none = d
unwrap_or d (some n) = n

-- `ENOENT`, `EIO` and `EINVAL` are 2, 5 and 22.
unfoldable pub to_errno : Error → ℕ
to_errno (io code) = unwrap_or 5 code
to_errno (file_not_found _) = 2
to_errno (chunk_not_found _) = 5
to_errno (invalid_operation _) = 22
to_errno _ = 5
