-- ===== src/Chunkserver/Storage.antt =====
-- chunkserver/chunk_storage.py: the chunk files, one for each chunk id, and what a failed write leaves.
pub mod Pieces
use redcloud_files.Base.{
  ◌&&◌, ℕ, zero, suc, String, Bool, true, false, Option, none, some, List, [], ◌∷◌, map, length,
  take, if◌then◌else◌,
}
use redcloud_files.Base.Dict
use redcloud_files.Base.Dict.{Dict}
use Prim.Native.String.{◌++◌}

-- `bytes`: the numbers of the bytes
abbrev pub Bytes : Type 0
Bytes = List ℕ

-- the directory of the chunk files: the content of `<chunk_id>.chk` under the chunk id
abbrev pub Disk : Type 0
Disk = Dict Bytes

abbrev pub get_chunk_path : String → String → String
get_chunk_path chunks_dir chunk_id = chunks_dir ++ "/" ++ chunk_id ++ ".chk"

-- An `OSError` of the operating system in a write. The file was not opened (`written` is none), or it
-- was cut to nothing and then got that many bytes.
pub record Fault : Type 0 where
  pub errno : ℕ
  pub written : Option ℕ

-- what the file holds after the failure
unfoldable pub broken_off : String → Bytes → Option ℕ → Disk → Disk
broken_off chunk_id bytes none disk = disk
broken_off chunk_id bytes (some n) disk = Dict.insert chunk_id (take n bytes) disk

unfoldable pub write_chunk : Option Fault → String → Bytes → Disk → Disk
write_chunk none chunk_id bytes disk = Dict.insert chunk_id bytes disk
write_chunk (some fault) chunk_id bytes disk = broken_off chunk_id bytes fault.written disk

-- none stands for FileNotFoundError
unfoldable pub read_chunk : String → Disk → Option Bytes
read_chunk chunk_id disk = Dict.lookup chunk_id disk

unfoldable pub drop : ℕ → Bytes → Bytes
drop zero xs = xs
drop (suc n) [] = []
drop (suc n) (x ∷ xs) = drop n xs

-- the loop `while True: piece = f.read(piece_size)`, on fuel
unfoldable pub pieces : ℕ → ℕ → Bytes → List Bytes
pieces zero piece_size bytes = []
pieces (suc fuel) piece_size bytes =
    let rest = pieces fuel piece_size (drop piece_size bytes) in
    elim (take piece_size bytes) [ [] ↦ [] | b ∷ piece ↦ (b ∷ piece) ∷ rest ]

-- one more round than there are bytes
unfoldable pub read_chunk_streaming : ℕ → String → Disk → Option (List Bytes)
read_chunk_streaming piece_size chunk_id disk = elim (Dict.lookup chunk_id disk) [
  | none ↦ none
  | some bytes ↦ some (pieces (suc (length bytes)) piece_size bytes)
]

unfoldable pub delete_chunk : String → Disk → Bool × Disk
delete_chunk chunk_id disk =
    if Dict.has_key chunk_id disk then (true, Dict.remove chunk_id disk) else (false, disk)

-- `unlink` raises where it `fails`, and is called where there is a file
unfoldable pub unlink_raises : Bool → String → Disk → Bool
unlink_raises fails chunk_id disk = fails && Dict.has_key chunk_id disk

unfoldable pub chunk_exists : String → Disk → Bool
chunk_exists chunk_id disk = Dict.has_key chunk_id disk

unfoldable pub get_chunk_size : String → Disk → Option ℕ
get_chunk_size chunk_id disk = elim (Dict.lookup chunk_id disk) [
  | none ↦ none
  | some bytes ↦ some (length bytes)
]

unfoldable pub list_all_chunks : Disk → List String
list_all_chunks disk = Dict.keys disk
