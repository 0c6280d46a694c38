-- ===== src/Chunkserver/Checksum.antt =====
-- chunkserver/checksum_validator.py. A hasher of `hashlib` is the bytes it was given so far, and
-- `sha256` is the hex digest of all of them.
use redcloud_files.Base.{String, Bool, true, false, Option, none, some, [], ◌++◌, str_eq}
use redcloud_files.Chunkserver.Storage.{Bytes}

pub record IncrementalChecksumCalculator : Type 0 where
  pub hashed : Bytes
  pub finalized : Bool

abbrev pub new_calculator : IncrementalChecksumCalculator
new_calculator = record { hashed = []; finalized = false }

-- none stands for the ValueError of an update after the end
unfoldable pub extend : Bool → Bytes → Bytes → Option IncrementalChecksumCalculator
extend true bytes hashed = none
extend false bytes hashed = some (record { hashed = hashed ++ bytes; finalized = false })

unfoldable pub update : Bytes → IncrementalChecksumCalculator → Option IncrementalChecksumCalculator
update bytes self = extend self.finalized bytes self.hashed

unfoldable pub finalize :
    (Bytes → String) → IncrementalChecksumCalculator → String × IncrementalChecksumCalculator
finalize sha256 self = (sha256 self.hashed, record self { finalized = true })

unfoldable pub reset : IncrementalChecksumCalculator → IncrementalChecksumCalculator
reset self = new_calculator

unfoldable pub compute_checksum : (Bytes → String) → Bytes → String
compute_checksum sha256 bytes = sha256 bytes

unfoldable pub verify_checksum : (Bytes → String) → Bytes → String → Bool
verify_checksum sha256 bytes expected = str_eq (compute_checksum sha256 bytes) expected
