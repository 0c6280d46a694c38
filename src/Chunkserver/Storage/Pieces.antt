-- ===== src/Chunkserver/Storage/Pieces.antt =====
-- The stream of pieces that `read_chunk_streaming` yields.
use redcloud_files.Base.{
  ℕ, zero, suc, ◌≤◌, ◌<◌, String, some, List, [], ◌∷◌, ◌++◌, ◌≡◌, refl, ap, ◌∙◌, arith, length,
  take, All,
}
use redcloud_files.Base.Dict
use redcloud_files.Chunkserver.Storage.{Bytes, Disk, drop, pieces, read_chunk_streaming}

abbrev pub concat : List Bytes → Bytes
concat [] = []
concat (piece ∷ rest) = piece ++ concat rest

take-drop : (n : ℕ) (xs : Bytes) → take n xs ++ drop n xs ≡ xs
unfolding take drop
take-drop zero xs = refl
take-drop (suc n) [] = refl
take-drop (suc n) (x ∷ xs) = ap (λ r. x ∷ r) (take-drop n xs)

length-take : (n : ℕ) (xs : Bytes) → length (take n xs) ≤ n
unfolding take
length-take zero xs = omega arith
length-take (suc n) [] = omega arith
length-take (suc n) (x ∷ xs) = omega (arith, length-take n xs)

length-drop : (n : ℕ) (xs : Bytes) → length (drop n xs) ≤ length xs
unfolding drop
length-drop zero xs = omega arith
length-drop (suc n) [] = omega arith
length-drop (suc n) (x ∷ xs) = omega (arith, length-drop n xs)

-- a piece is not empty and has at most `piece_size` bytes
abbrev pub IsPiece : ℕ → Bytes → Type 0
IsPiece piece_size piece = (0 < length piece) × (length piece ≤ piece_size)

pub pieces-whole :
    (fuel n : ℕ) (bytes : Bytes)
    → length bytes < fuel
    → (concat (pieces fuel (suc n) bytes) ≡ bytes)
      × All (IsPiece (suc n)) (pieces fuel (suc n) bytes)
unfolding pieces take drop
pieces-whole zero n bytes h = absurd (omega arith)
pieces-whole (suc fuel) n [] h = (refl, tt)
pieces-whole (suc fuel) n (x ∷ xs) h =
    let rest = pieces-whole fuel n (drop n xs) (omega (arith, length-drop n xs)) in
    (
      ap (λ r. x ∷ r) (ap (λ r. take n xs ++ r) rest.0 ∙ take-drop n xs),
      ((omega arith, omega (arith, length-take n xs)), rest.1),
    )

-- With a piece size of at least one, the stream of a file that is there ends, its pieces are not
-- empty and no longer than the size, and together they are the file.
pub read_chunk_streaming_whole :
    (piece_size : ℕ) (chunk_id : String) (disk : Disk) (bytes : Bytes)
    → 0 < piece_size
    → Dict.lookup chunk_id disk ≡ some bytes
    → (parts : List Bytes) × (read_chunk_streaming piece_size chunk_id disk ≡ some parts)
      × (concat parts ≡ bytes)
      × All (IsPiece piece_size) parts
unfolding read_chunk_streaming
read_chunk_streaming_whole zero chunk_id disk bytes h e = absurd (omega arith)
read_chunk_streaming_whole (suc n) chunk_id disk bytes h e =
    let whole = pieces-whole (suc (length bytes)) n bytes (omega arith) in
    (pieces (suc (length bytes)) (suc n) bytes, ground (arith, e), whole.0, whole.1)
