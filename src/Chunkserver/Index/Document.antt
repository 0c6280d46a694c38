-- ===== src/Chunkserver/Index/Document.antt =====
-- chunkserver/chunk_index.py: the index file, that is the document that save_to_disk writes and
-- load_from_disk reads, in the format of today and in the legacy one. `json.dump` and `json.load` stand
-- between the document and the text of the file, and are parameters.
use redcloud_files.Base.{
  ℕ, suc, Bool, true, false, Option, none, some, [], ◌∷◌, ◌==◌, if◌then◌else◌,
}
use redcloud_files.Base.Dict
use redcloud_files.Base.Dict.{Dict}
use redcloud_files.Chunkserver.Index.{pos, ChunkIndex, ChunkIndexEntry, TombstoneEntry}
use redcloud_files.Protocol.Json.{
  Json, int, str, object, Fields, end, field, look_up, get_str, get_int, get_nat, ◌>>=◌,
}

-- `asdict(entry)`
unfoldable pub entry_to_json : ChunkIndexEntry → Json
entry_to_json entry = object (
    field "chunk_id" (str entry.chunk_id) (
      field "file_id" (str entry.file_id) (
        field "chunk_index" (int entry.chunk_index) (
          field "size" (int (pos entry.size))
            (field "checksum" (str entry.checksum) (field "filepath" (str entry.filepath) end))))))

-- `asdict(tombstone)`
unfoldable pub tombstone_to_json : TombstoneEntry → Json
tombstone_to_json tombstone = object (
    field "chunk_id" (str tombstone.chunk_id) (
      field "deleted_at" (str tombstone.deleted_at)
        (field "checksum" (str tombstone.checksum) end)))

unfoldable pub field_count : Fields → ℕ
field_count end = 0
field_count (field k v rest) = suc (field_count rest)

-- the number of keyword arguments of `**v`
unfoldable pub arguments : Json → ℕ
arguments (object fields) = field_count fields
arguments _ = 0

unfoldable pub expects : ℕ → Json → Option Bool
expects n v = if arguments v == n then some true else none

-- `ChunkIndexEntry(**v)`, which raises (none here) where a key is missing or is one too many. A
-- field of another type than the class has is none here; Python takes it as it is.
unfoldable pub entry_from_json : Json → Option ChunkIndexEntry
entry_from_json v = do
  _ ← expects 6 v
  chunk_id ← get_str "chunk_id" v
  file_id ← get_str "file_id" v
  chunk_index ← get_int "chunk_index" v
  size ← get_nat "size" v
  checksum ← get_str "checksum" v
  filepath ← get_str "filepath" v
  some (record {
    chunk_id = chunk_id;
    file_id = file_id;
    chunk_index = chunk_index;
    size = size;
    checksum = checksum;
    filepath = filepath;
  })

-- `TombstoneEntry(**v)`
unfoldable pub tombstone_from_json : Json → Option TombstoneEntry
tombstone_from_json v = do
  _ ← expects 3 v
  chunk_id ← get_str "chunk_id" v
  deleted_at ← get_str "deleted_at" v
  checksum ← get_str "checksum" v
  some (record { chunk_id = chunk_id; deleted_at = deleted_at; checksum = checksum })

-- a dict comprehension over the items of a dict
unfoldable pub items_to_json : {V : Type 0} → (V → Json) → Dict V → Fields
items_to_json to_json [] = end
items_to_json to_json ((k, v) ∷ rest) = field k (to_json v) (items_to_json to_json rest)

-- `data` in save_to_disk
unfoldable pub document : ChunkIndex → Json
document self = object (
    field "chunks" (object (items_to_json entry_to_json self.index))
      (field "tombstones" (object (items_to_json tombstone_to_json self.tombstones)) end))

-- `encode` is `json.dump`
unfoldable pub save_to_disk : {Text : Type 0} → (Json → Text) → ChunkIndex → Text
save_to_disk encode self = encode (document self)

-- a loop over `items()`, which an exception (False here) ends; what it had inserted stays
unfoldable pub load_items : {V : Type 0} → (Json → Option V) → Fields → Dict V → Bool × Dict V
load_items from_json end d = (true, d)
load_items from_json (field k v rest) d = elim (from_json v) [
  | none ↦ (false, d)
  | some entry ↦ load_items from_json rest (Dict.insert k entry d)
]

-- `v.items()` raises where `v` is no dict
unfoldable pub load_section : {V : Type 0} → (Json → Option V) → Json → Bool × Dict V
load_section from_json (object fields) = load_items from_json fields []
load_section from_json _ = (false, [])

pub data Loaded : Type 0 where
  not_found : Loaded
  loaded : Loaded
  json_decode_error : Loaded
  other_error : Loaded

abbrev outcome : Bool → Loaded
outcome true = loaded
outcome false = other_error

unfoldable pub or_empty : Option Json → Json
or_empty none = object end
or_empty (some v) = v

-- after the loop over the chunks
unfoldable pub load_tombstones : Option Json → Bool × Dict ChunkIndexEntry → Loaded × ChunkIndex
load_tombstones tombstones (false, index) = (other_error, record { index = index; tombstones = [] })
load_tombstones tombstones (true, index) =
    let (ended, graves) = load_section tombstone_from_json (or_empty tombstones) in
    (outcome ended, record { index = index; tombstones = graves })

unfoldable pub load_legacy : Json → Loaded × ChunkIndex
load_legacy json =
    let (ended, index) = load_section entry_from_json json in
    (outcome ended, record { index = index; tombstones = [] })

-- `'chunks' in data`
unfoldable pub load_object : Fields → Option Json → Loaded × ChunkIndex
load_object fields (some chunks) =
    load_tombstones (look_up "tombstones" fields) (load_section entry_from_json chunks)
load_object fields none = load_legacy (object fields)

-- an object that `json.load` makes has no key twice
unfoldable pub load_document : Json → Loaded × ChunkIndex
load_document (object fields) = load_object fields (look_up "chunks" fields)
load_document json = load_legacy json

unfoldable pub load_decoded : Option Json → ChunkIndex → Loaded × ChunkIndex
load_decoded none self = (json_decode_error, self)
load_decoded (some json) self = load_document json

-- `decode` is `json.load`; the argument is what the index file holds, none where there is no file
unfoldable pub load_from_disk :
    {Text : Type 0} → (Text → Option Json) → Option Text → ChunkIndex → Loaded × ChunkIndex
load_from_disk decode none self = (not_found, self)
load_from_disk decode (some text) self = load_decoded (decode text) self
