-- ===== src/Wolfdisk/Requests/Syncs.antt =====
-- What the leader of wolfdisk/src/main.rs answers to `SyncRequest`, `GetChunk` and `GetAttr`. Times are
-- milliseconds from the epoch on, and a path in the change log is its text.
use wolf_scale.Base.{
  ℕ, String, Bool, true, false, Option, none, some, List, [], ◌∷◌, ◌&&◌, ◌==◌, ltb, str_eq,
  if◌then◌else◌,
}
use wolf_scale.Wolfdisk.Paths.{FilePath, path_text}
use wolf_scale.Wolfdisk.Chunks.{ChunkRef, ChunkStore, fetch}
use wolf_scale.Wolfdisk.Index.{FileEntry, FileIndex, entry_of}
use wolf_scale.Wolfdisk.Cluster.{ClusterManager, changes_since}

pub record IndexEntryMsg : Type 0 where
  pub path : String
  pub is_dir : Bool
  pub size : ℕ
  pub modified_ms : ℕ
  pub permissions : ℕ
  pub chunks : List ChunkRef

pub record SyncResponseMsg : Type 0 where
  pub current_version : ℕ
  pub entries : List IndexEntryMsg
  pub deleted_paths : List String

abbrev pub index_entry : String → FileEntry → IndexEntryMsg
index_entry path e = record {
  path = path;
  is_dir = e.is_dir;
  size = e.size;
  modified_ms = e.modified;
  permissions = e.permissions;
  chunks = e.chunks;
}

unfoldable pub all_entries : List (FilePath × FileEntry) → List IndexEntryMsg
all_entries [] = []
all_entries ((path, e) ∷ rest) = index_entry (path_text path) e ∷ all_entries rest

-- `get`, of a path given as its text
unfoldable pub entry_at : String → List (FilePath × FileEntry) → Option FileEntry
entry_at text [] = none
entry_at text ((path, e) ∷ rest) =
    if str_eq (path_text path) text then some e else entry_at text rest

abbrev pub with_entry : String → Option FileEntry → List IndexEntryMsg → List IndexEntryMsg
with_entry text none rest = rest
with_entry text (some e) rest = index_entry text e ∷ rest

-- A changed path that is no longer indexed is left out.
unfoldable pub changed_entries : List String → FileIndex → List IndexEntryMsg
changed_entries [] index = []
changed_entries (text ∷ texts) index =
    with_entry text (entry_at text index.entries) (changed_entries texts index)

abbrev pub full_sync : ClusterManager → FileIndex → SyncResponseMsg
full_sync m index = record {
  current_version = m.index_version;
  entries = all_entries index.entries;
  deleted_paths = [];
}

abbrev pub delta_sync :
    ClusterManager → FileIndex → Option (List String × List String) → SyncResponseMsg
delta_sync m index none = full_sync m index
delta_sync m index (some (changed, deleted)) = record {
  current_version = m.index_version;
  entries = changed_entries changed index;
  deleted_paths = deleted;
}

unfoldable pub handle_sync_request : ℕ → ClusterManager → FileIndex → SyncResponseMsg
handle_sync_request from_version m index =
    if ltb 0 from_version && (from_version == m.index_version)
    then record { current_version = m.index_version; entries = []; deleted_paths = [] }
    else if ltb 0 from_version
    then delta_sync m index (changes_since from_version m)
    else full_sync m index

-- The content, if the chunk can be fetched
unfoldable pub handle_get_chunk : ℕ → ChunkStore → Option (List ℕ) × ChunkStore
handle_get_chunk hash s = fetch hash s

pub record GetAttrResponseMsg : Type 0 where
  pub exists : Bool
  pub is_dir : Bool
  pub size : ℕ
  pub permissions : ℕ
  pub uid : ℕ
  pub gid : ℕ
  pub modified_ms : ℕ
  pub created_ms : ℕ
  pub accessed_ms : ℕ

abbrev pub attr_response : Option FileEntry → GetAttrResponseMsg
attr_response none = record {
  exists = false;
  is_dir = false;
  size = 0;
  permissions = 0;
  uid = 0;
  gid = 0;
  modified_ms = 0;
  created_ms = 0;
  accessed_ms = 0;
}
attr_response (some e) = record {
  exists = true;
  is_dir = e.is_dir;
  size = e.size;
  permissions = e.permissions;
  uid = e.uid;
  gid = e.gid;
  modified_ms = e.modified;
  created_ms = e.created;
  accessed_ms = e.accessed;
}

unfoldable pub handle_get_attr : FilePath → FileIndex → GetAttrResponseMsg
handle_get_attr path index = attr_response (entry_of path index)
