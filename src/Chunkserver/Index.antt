-- ===== src/Chunkserver/Index.antt =====
-- chunkserver/chunk_index.py: the entries and the tombstones, and the file they are saved in.
pub mod Document
pub mod Saved
use redcloud_files.Base.{
  ℕ, zero, suc, ◌+◌, String, Bool, true, false, Option, none, some, List, [], ◌∷◌, map, length, ltb,
  if◌then◌else◌,
}
use redcloud_files.Base.Dict
use redcloud_files.Base.Dict.{Dict}
use redcloud_files.Chunkserver.Storage.{
  Bytes, Disk, get_chunk_size, get_chunk_path, list_all_chunks, read_chunk,
}

-- a Python int: `pos n` is n and `negsuc n` is -(n + 1)
pub data ℤ : Type 0 where
  pos : ℕ → ℤ
  negsuc : ℕ → ℤ

pub record ChunkIndexEntry : Type 0 where
  pub chunk_id : String
  pub file_id : String
  pub chunk_index : ℤ
  pub size : ℕ
  pub checksum : String
  pub filepath : String

pub record TombstoneEntry : Type 0 where
  pub chunk_id : String
  pub deleted_at : String
  pub checksum : String

pub record ChunkIndex : Type 0 where
  pub index : Dict ChunkIndexEntry
  pub tombstones : Dict TombstoneEntry

unfoldable pub add_chunk : ChunkIndexEntry → ChunkIndex → ChunkIndex
add_chunk entry self = record self { index = Dict.insert entry.chunk_id entry self.index }

unfoldable pub get_chunk : String → ChunkIndex → Option ChunkIndexEntry
get_chunk chunk_id self = Dict.lookup chunk_id self.index

unfoldable pub remove_chunk : String → ChunkIndex → Bool × ChunkIndex
remove_chunk chunk_id self =
    if Dict.has_key chunk_id self.index
    then (true, record self { index = Dict.remove chunk_id self.index })
    else (false, self)

unfoldable pub chunk_exists : String → ChunkIndex → Bool
chunk_exists chunk_id self = Dict.has_key chunk_id self.index

unfoldable pub get_all_chunk_ids : ChunkIndex → List String
get_all_chunk_ids self = Dict.keys self.index

unfoldable pub count : ChunkIndex → ℕ
count self = length self.index

-- `now` is the text of the current time
unfoldable pub add_tombstone : String → String → String → ChunkIndex → ChunkIndex
add_tombstone now chunk_id checksum self = record {
  index = if Dict.has_key chunk_id self.index then Dict.remove chunk_id self.index else self.index;
  tombstones =
      Dict.insert chunk_id (record { chunk_id = chunk_id; deleted_at = now; checksum = checksum })
        self.tombstones;
}

unfoldable pub get_tombstone : String → ChunkIndex → Option TombstoneEntry
get_tombstone chunk_id self = Dict.lookup chunk_id self.tombstones

unfoldable pub is_tombstoned : String → ChunkIndex → Bool
is_tombstoned chunk_id self = Dict.has_key chunk_id self.tombstones

unfoldable pub get_all_tombstone_ids : ChunkIndex → List String
get_all_tombstone_ids self = Dict.keys self.tombstones

-- `age_days` reads a time stamp and counts the whole days since then; none for a text that is no time
unfoldable pub is_old : (String → Option ℕ) → ℕ → TombstoneEntry → Bool
is_old age_days max_age_days tombstone = elim (age_days tombstone.deleted_at) [
  | none ↦ false
  | some age ↦ ltb max_age_days age
]

unfoldable pub to_remove : (String → Option ℕ) → ℕ → Dict TombstoneEntry → List String
to_remove age_days max_age_days [] = []
to_remove age_days max_age_days ((chunk_id, tombstone) ∷ rest) =
    let others = to_remove age_days max_age_days rest in
    if is_old age_days max_age_days tombstone then chunk_id ∷ others else others

unfoldable pub remove_all {ℓ} : {V : Type ℓ} → List String → Dict V → Dict V
remove_all [] d = d
remove_all (k ∷ ks) d = remove_all ks (Dict.remove k d)

unfoldable pub prune_old_tombstones : (String → Option ℕ) → ℕ → ChunkIndex → ℕ × ChunkIndex
prune_old_tombstones age_days max_age_days self =
    let old = to_remove age_days max_age_days self.tombstones in
    (length old, record self { tombstones = remove_all old self.tombstones })

unfoldable pub rebuilt_entry : String → String → ℕ → String → ChunkIndexEntry
rebuilt_entry chunks_dir chunk_id size checksum = record {
  chunk_id = chunk_id;
  file_id = "unknown";
  chunk_index = negsuc 0;
  size = size;
  checksum = checksum;
  filepath = get_chunk_path chunks_dir chunk_id;
}

unfoldable pub rebuilt_checksum : (Bytes → String) → Bool → Option Bytes → Option String
rebuilt_checksum sha256 verify_checksums bytes =
    if verify_checksums
    then elim bytes [ none ↦ none | some read ↦ some (sha256 read) ]
    else some ""

unfoldable pub rebuild_chunk :
    String → String → Option ℕ → Option String → Dict ChunkIndexEntry → Dict ChunkIndexEntry
rebuild_chunk chunks_dir chunk_id none checksum index = index
rebuild_chunk chunks_dir chunk_id (some size) none index = index
rebuild_chunk chunks_dir chunk_id (some size) (some checksum) index =
    Dict.insert chunk_id (rebuilt_entry chunks_dir chunk_id size checksum) index

unfoldable pub rebuild_chunks :
    (Bytes → String)
    → String
    → Bool
    → Disk
    → List String
    → Dict ChunkIndexEntry
    → Dict ChunkIndexEntry
rebuild_chunks sha256 chunks_dir verify_checksums disk [] index = index
rebuild_chunks sha256 chunks_dir verify_checksums disk (chunk_id ∷ rest) index =
    rebuild_chunks sha256 chunks_dir verify_checksums disk rest (
      rebuild_chunk chunks_dir chunk_id (get_chunk_size chunk_id disk)
        (rebuilt_checksum sha256 verify_checksums (read_chunk chunk_id disk)) index)

unfoldable pub rebuild_from_directory :
    (Bytes → String) → String → Bool → Disk → ChunkIndex → ℕ × ChunkIndex
rebuild_from_directory sha256 chunks_dir verify_checksums disk self =
    let index = rebuild_chunks sha256 chunks_dir verify_checksums disk (list_all_chunks disk) [] in
    (length index, record self { index = index })
