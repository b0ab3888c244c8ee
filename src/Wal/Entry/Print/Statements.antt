-- ===== src/Wal/Entry/Print/Statements.antt =====
-- How many statements an entry of wal/entry.rs executes.
use wolf_scale.Base.{ℕ, ◌+◌, ◌≡◌, refl, [], ◌∷◌, arith, length, length-append}
use wolf_scale.Wal.Entry.{LogEntry, Entries, nil, cons, transaction, noop}
use wolf_scale.Wal.Entry.Print.{to_sql, entries_to_sql}

-- What an entry should amount to: nothing for a no-op, START and COMMIT round the entries of a
-- transaction, and one statement otherwise.
mutual
  pub weight : LogEntry → ℕ
  weight (transaction entries) = 2 + weights entries
  weight noop = 0
  weight _ = 1

  pub weights : Entries → ℕ
  weights nil = 0
  weights (cons e rest) = weight e + weights rest

mutual
  unfolding to_sql weight

  to_sql_count : (e : LogEntry) → length (to_sql e) ≡ weight e
  to_sql_count (transaction entries) =
      omega (arith, length-append (entries_to_sql entries) ("COMMIT" ∷ []), entries_count entries)
  to_sql_count noop = refl
  to_sql_count _ = refl

  entries_count : (es : Entries) → length (entries_to_sql es) ≡ weights es
  entries_count nil = refl
  entries_count (cons e rest) =
      omega
        (arith, length-append (to_sql e) (entries_to_sql rest), to_sql_count e, entries_count rest)

-- Every entry gives the statements that it should amount to, in number.
pub length-to_sql : (e : LogEntry) → length (to_sql e) ≡ weight e
length-to_sql e = to_sql_count e
