-- ===== src/Wal/Entry/Print.antt =====
-- The SQL text of wal/entry.rs. `format!` is written as a concatenation, and `to_string` of an
-- integer as its decimal digits; 20 of them hold every `u64`.
pub mod Literals
pub mod Statements
use Prim.Native.String.{◌++◌}
use mathlib.Core.List
use wolf_scale.Base.{
  ℕ, zero, suc, ◌+◌, ◌/◌, ◌%◌, String, Bool, true, false, Option, none, some, List, [], ◌∷◌, map,
  ltb, get_elem?, if◌then◌else◌, replace_char,
}
use wolf_scale.Wal.Entry.{
  Int64, pos, negsuc, Value, null, bool, int, uint, float, string, bytes, uuid, timestamp, json,
  PrimaryKey, int_key, string_key, uuid_key, composite, LogEntry, insert, update, delete, upsert,
  bulk_insert, alter_table, create_table, drop_table, create_index, drop_index, transaction,
  raw_sql, noop, Entries, nil, cons,
}

abbrev digit_names : List String
digit_names =
    "0" ∷ "1" ∷ "2" ∷ "3" ∷ "4" ∷ "5" ∷ "6" ∷ "7" ∷ "8" ∷ "9" ∷ "a" ∷ "b" ∷ "c" ∷ "d" ∷ "e" ∷ "f"
    ∷ []

abbrev text_or : Option String → String
text_or none = ""
text_or (some s) = s

digit : ℕ → String
digit d = text_or (get_elem? digit_names d)

decimal_loop : ℕ → ℕ → String
decimal_loop zero n = ""
decimal_loop (suc fuel) n =
    let front = decimal_loop fuel (n / 10) in if ltb n 10 then digit n else front ++ digit (n % 10)

unfoldable pub decimal : ℕ → String
unfolding decimal_loop digit
decimal = decimal_loop 20

unfoldable pub decimal_int : Int64 → String
unfolding decimal
decimal_int (pos n) = decimal n
decimal_int (negsuc n) = "-" ++ decimal (suc n)

-- `mod hex`
unfoldable pub hex_encode : List ℕ → String
unfolding digit
hex_encode [] = ""
hex_encode (b ∷ bs) = (digit (b / 16) ++ digit (b % 16)) ++ hex_encode bs

-- `s.replace('\'', "''")`
unfoldable pub escape : String → String
unfolding replace_char
escape = replace_char 39 "''"

unfoldable pub quoted : String → String
quoted s = "'" ++ (s ++ "'")

unfoldable pub value_to_sql : Value → String
unfolding decimal decimal_int hex_encode escape quoted
value_to_sql null = "NULL"
value_to_sql (bool b) = if b then "1" else "0"
value_to_sql (int i) = decimal_int i
value_to_sql (uint u) = decimal u
value_to_sql (float f) = f
value_to_sql (string s) = quoted (escape s)
value_to_sql (bytes b) = "X'" ++ (hex_encode b ++ "'")
value_to_sql (uuid u) = quoted u
value_to_sql (timestamp t) = quoted t
value_to_sql (json j) = quoted (escape j)

-- `v.join(sep)`
unfoldable pub join : String → List String → String
join sep [] = ""
join sep (s ∷ []) = s
join sep (s ∷ t ∷ r) = s ++ (sep ++ join sep (t ∷ r))

abbrev pub backtick : String → String
backtick s = "`" ++ (s ++ "`")

-- The pairs `` `column` = value`` of an UPDATE and of a composite key.
unfoldable pub assignments : List String → List Value → List String
unfolding value_to_sql
assignments (c ∷ cs) (v ∷ vs) = (backtick c ++ (" = " ++ value_to_sql v)) ∷ assignments cs vs
assignments _ _ = []

-- `key_columns.first()` or "id"
abbrev first_column : List String → String
first_column [] = "id"
first_column (c ∷ cs) = c

unfoldable pub to_where_clause : PrimaryKey → List String → String
unfolding decimal_int escape quoted join assignments
to_where_clause (int_key v) cols = backtick (first_column cols) ++ (" = " ++ decimal_int v)
to_where_clause (string_key v) cols = backtick (first_column cols) ++ (" = " ++ quoted (escape v))
to_where_clause (uuid_key v) cols = backtick (first_column cols) ++ (" = " ++ quoted v)
to_where_clause (composite values) cols = join " AND " (assignments cols values)

-- `Display` of a key
unfoldable pub key_to_string : PrimaryKey → String
unfolding decimal_int join value_to_sql
key_to_string (int_key v) = decimal_int v
key_to_string (string_key v) = v
key_to_string (uuid_key v) = v
key_to_string (composite values) = "(" ++ (join ", " (map value_to_sql values) ++ ")")

abbrev columns_sql : List String → String
columns_sql columns = join ", " (map backtick columns)

unfoldable pub values_sql : List Value → String
unfolding join value_to_sql
values_sql values = join ", " (map value_to_sql values)

abbrev in_parens : String → String
in_parens s = "(" ++ (s ++ ")")

insert_sql : String → List String → List Value → String
unfolding values_sql join
insert_sql table columns values =
    "INSERT INTO "
    ++ (backtick table
        ++ (" (" ++ (columns_sql columns ++ (") VALUES (" ++ (values_sql values ++ ")")))))

update_sql : String → List String → List Value → PrimaryKey → List String → String
unfolding assignments join to_where_clause
update_sql table set_columns set_values key key_columns =
    "UPDATE "
    ++ (backtick table
        ++ (" SET "
            ++ (join ", " (assignments set_columns set_values)
                ++ (" WHERE " ++ to_where_clause key key_columns))))

abbrev on_duplicate : String → String
on_duplicate c = backtick c ++ (" = VALUES(" ++ (backtick c ++ ")"))

upsert_sql : String → List String → List Value → List String → String
unfolding insert_sql join
upsert_sql table columns values update_columns =
    insert_sql table columns values
    ++ (" ON DUPLICATE KEY UPDATE " ++ join ", " (map on_duplicate update_columns))

bulk_insert_sql : String → List String → List (List Value) → String
unfolding values_sql join
bulk_insert_sql table columns rows =
    "INSERT INTO "
    ++ (backtick table
        ++ (" ("
            ++ (columns_sql columns
                ++ (") VALUES " ++ join ", " (map (λ row. in_parens (values_sql row)) rows)))))

unfoldable mutual
  unfolding insert_sql update_sql upsert_sql bulk_insert_sql to_where_clause

  pub to_sql : LogEntry → List String
  to_sql (insert table columns values _) = insert_sql table columns values ∷ []
  to_sql (update table set_columns set_values key key_columns) =
      update_sql table set_columns set_values key key_columns ∷ []
  to_sql (delete table key key_columns) =
      ("DELETE FROM " ++ (backtick table ++ (" WHERE " ++ to_where_clause key key_columns))) ∷ []
  to_sql (upsert table columns values update_columns _) =
      upsert_sql table columns values update_columns ∷ []
  to_sql (bulk_insert table columns rows) = bulk_insert_sql table columns rows ∷ []
  to_sql (alter_table _ ddl) = ddl ∷ []
  to_sql (create_table _ ddl) = ddl ∷ []
  to_sql (create_index _ _ ddl) = ddl ∷ []
  to_sql (drop_table table) = ("DROP TABLE IF EXISTS " ++ backtick table) ∷ []
  to_sql (drop_index table index_name) =
      ("DROP INDEX " ++ (backtick index_name ++ (" ON " ++ backtick table))) ∷ []
  to_sql (transaction entries) =
      "START TRANSACTION" ∷ (List.◌++◌ (entries_to_sql entries) ("COMMIT" ∷ []))
  to_sql (raw_sql sql _ _) = sql ∷ []
  to_sql noop = []

  -- The loop over the entries of a transaction.
  pub entries_to_sql : Entries → List String
  entries_to_sql nil = []
  entries_to_sql (cons e rest) = List.◌++◌ (to_sql e) (entries_to_sql rest)
