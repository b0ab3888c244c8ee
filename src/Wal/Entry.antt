-- ===== src/Wal/Entry.antt =====
-- wal/entry.rs: the entries of the log and their SQL. A value of another crate's type (`f64`,
-- `Uuid`, `DateTime<Utc>`, `serde_json::Value`) is the text by which that crate prints it; a
-- `Timestamp` is printed by the format "%Y-%m-%d %H:%M:%S%.6f".
pub mod Print
use wolf_scale.Base.{
  ℕ, zero, suc, ◌+◌, String, Bool, true, false, Option, none, some, List, [], ◌∷◌,
}

-- `Uuid::to_string` and the like.
abbrev pub Printed : Type 0
Printed = String

pub data Int64 : Type 0 where
  pos : ℕ → Int64
  negsuc : ℕ → Int64

pub data Value : Type 0 where
  null : Value
  bool : Bool → Value
  int : Int64 → Value
  uint : ℕ → Value
  float : Printed → Value
  string : String → Value
  bytes : List ℕ → Value
  uuid timestamp json : Printed → Value

pub data PrimaryKey : Type 0 where
  int_key : Int64 → PrimaryKey
  string_key : String → PrimaryKey
  uuid_key : Printed → PrimaryKey
  composite : List Value → PrimaryKey

-- `Vec<LogEntry>` is `Entries`.
mutual
  pub data LogEntry : Type 0 where
    insert :
        (table : String) (columns : List String) (values : List Value) (primary_key : PrimaryKey)
        → LogEntry
    update :
        (table : String) (set_columns : List String) (set_values : List Value)
        (primary_key : PrimaryKey) (key_columns : List String)
        → LogEntry
    delete : (table : String) (primary_key : PrimaryKey) (key_columns : List String) → LogEntry
    upsert :
        (table : String) (columns : List String) (values : List Value)
        (update_columns : List String) (primary_key : PrimaryKey)
        → LogEntry
    bulk_insert : (table : String) (columns : List String) (rows : List (List Value)) → LogEntry
    alter_table create_table : (table ddl : String) → LogEntry
    drop_table : (table : String) → LogEntry
    create_index : (table index_name ddl : String) → LogEntry
    drop_index : (table index_name : String) → LogEntry
    transaction : Entries → LogEntry
    raw_sql : (sql : String) (affects_table database : Option String) → LogEntry
    noop : LogEntry

  pub data Entries : Type 0 where
    nil : Entries
    cons : LogEntry → Entries → Entries

unfoldable mutual
  pub table_name : LogEntry → Option String
  table_name (insert table _ _ _) = some table
  table_name (update table _ _ _ _) = some table
  table_name (delete table _ _) = some table
  table_name (upsert table _ _ _ _) = some table
  table_name (bulk_insert table _ _) = some table
  table_name (alter_table table _) = some table
  table_name (create_table table _) = some table
  table_name (drop_table table) = some table
  table_name (create_index table _ _) = some table
  table_name (drop_index table _) = some table
  table_name (transaction entries) = first_table_name entries
  table_name (raw_sql _ affects_table _) = affects_table
  table_name noop = none

  -- `entries.first().and_then(|e| e.table_name())`
  pub first_table_name : Entries → Option String
  first_table_name nil = none
  first_table_name (cons e rest) = table_name e

unfoldable pub is_ddl : LogEntry → Bool
is_ddl (alter_table _ _) = true
is_ddl (create_table _ _) = true
is_ddl (drop_table _) = true
is_ddl (create_index _ _ _) = true
is_ddl (drop_index _ _) = true
is_ddl _ = false

abbrev pub is_noop : LogEntry → Bool
is_noop noop = true
is_noop _ = false

pub record EntryHeader : Type 0 where
  pub lsn : ℕ
  pub term : ℕ
  pub created : ℕ  -- the field `timestamp`
  pub origin_node : String
  pub checksum : ℕ
  pub body_size : ℕ
  pub compressed : Bool

pub record WalEntry : Type 0 where
  pub header : EntryHeader
  pub entry : LogEntry
