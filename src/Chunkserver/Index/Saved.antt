-- ===== src/Chunkserver/Index/Saved.antt =====
-- What the index file gives back, and what pruning leaves.
use redcloud_files.Base.{
  ℕ, String, Bool, true, false, Option, none, some, List, [], ◌∷◌, ◌++◌, ◌≡◌, refl, ap, arith,
  eq_iff, eq_comm, mem, if◌then◌else◌,
}
use redcloud_files.Base.Dict
use redcloud_files.Base.Dict.{Dict, IsDict}
use redcloud_files.Chunkserver.Index.{
  ChunkIndex, ChunkIndexEntry, TombstoneEntry, prune_old_tombstones, to_remove, remove_all, is_old,
  get_tombstone,
}
use redcloud_files.Chunkserver.Index.Document.{
  entry_to_json, tombstone_to_json, field_count, arguments, expects, entry_from_json,
  tombstone_from_json, items_to_json, document, save_to_disk, load_items, load_section, loaded,
  or_empty, load_tombstones, load_object, load_document, load_decoded, load_from_disk,
}
use redcloud_files.Protocol.Json.{Json, object, look_up, get, as_str, as_int, as_nat}

-- no key of the first is a key of the second
abbrev Apart {ℓ} : {V : Type ℓ} → Dict V → Dict V → Type 0
Apart [] d = Unit
Apart ((k, v) ∷ rest) d = (Dict.has_key k d ≡ false) × Apart rest d

module _ {ℓ} {V : Type ℓ} where
  insert_new :
      (k : String) (v : V) (d : Dict V)
      → Dict.has_key k d ≡ false
      → Dict.insert k v d ≡ d ++ (k, v) ∷ []
  unfolding Dict.insert Dict.has_key
  insert_new k v [] h = refl
  insert_new k v ((j, w) ∷ d) h = ground (arith, insert_new k v d)

  Apart-insert :
      (k : String) (v : V) (rest d : Dict V)
      → Dict.has_key k rest ≡ false
      → Apart rest d
      → Apart rest (Dict.insert k v d)
  unfolding Dict.has_key
  Apart-insert k v [] d h a = tt
  Apart-insert k v ((j, w) ∷ rest) d h a =
      ground (arith, Dict.has_key-insert k j v d, eq_iff j k, eq_iff k j, Apart-insert k v rest d)

  append_one : (xs ys : Dict V) (x : String × V) → (xs ++ x ∷ []) ++ ys ≡ xs ++ x ∷ ys
  append_one [] ys x = refl
  append_one (y ∷ xs) ys x = ap (λ r. y ∷ r) (append_one xs ys x)

  append_nil : (xs : Dict V) → xs ++ [] ≡ xs
  append_nil [] = refl
  append_nil (y ∷ xs) = ap (λ r. y ∷ r) (append_nil xs)

  Apart-nil : (rest : Dict V) → Apart rest []
  unfolding Dict.has_key
  Apart-nil [] = tt
  Apart-nil (kv ∷ rest) = (refl, Apart-nil rest)

-- loading the items of a dictionary adds them at the end, in their order
module _ {V : Type 0} (to_json : V → Json) (from_json : Json → Option V) where
  load_items-append :
      ((v : V) → from_json (to_json v) ≡ some v)
      → (rest d : Dict V) → IsDict rest
      → Apart rest d
      → load_items from_json (items_to_json to_json rest) d ≡ (true, d ++ rest)
  unfolding load_items items_to_json
  load_items-append back [] d h a = rw (append_nil d) refl
  load_items-append back ((k, v) ∷ rest) d h a =
      let later =
        load_items-append back rest (Dict.insert k v d) h.1 (Apart-insert k v rest d h.0 a.1) in
      rw (back v, later, insert_new k v d a.0, append_one d rest (k, v)) refl

  load_section-items :
      ((v : V) → from_json (to_json v) ≡ some v)
      → (d : Dict V) → IsDict d
      → load_section from_json (object (items_to_json to_json d)) ≡ (true, d)
  unfolding load_section
  load_section-items back d h = load_items-append back d [] h (Apart-nil d)

entry_from_json-entry_to_json : (e : ChunkIndexEntry) → entry_from_json (entry_to_json e) ≡ some e
unfolding entry_from_json entry_to_json expects arguments field_count get look_up as_str as_int
    as_nat
entry_from_json-entry_to_json e = refl

tombstone_from_json-tombstone_to_json :
    (t : TombstoneEntry) → tombstone_from_json (tombstone_to_json t) ≡ some t
unfolding tombstone_from_json tombstone_to_json expects arguments field_count get look_up as_str
tombstone_from_json-tombstone_to_json t = refl

-- Loading what save_to_disk wrote returns True and gives the same index, entries and tombstones in the
-- same order, whatever was in memory before, if the two dictionaries have no key twice and json.load
-- gives back the document that json.dump wrote.
pub load_from_disk-save_to_disk :
    {Text : Type 0} (encode : Json → Text) (decode : Text → Option Json) (self before : ChunkIndex)
    → decode (encode (document self)) ≡ some (document self)
    → IsDict self.index
    → IsDict self.tombstones
    → load_from_disk decode (some (save_to_disk encode self)) before ≡ (loaded, self)
unfolding load_from_disk save_to_disk load_decoded load_document load_object load_tombstones
    or_empty document look_up
load_from_disk-save_to_disk encode decode self before json hi ht =
    let chunks =
      load_section-items entry_to_json entry_from_json entry_from_json-entry_to_json self.index
        hi in
    let tombstones =
      load_section-items tombstone_to_json tombstone_from_json tombstone_from_json-tombstone_to_json
        self.tombstones ht in
    rw (json, chunks, tombstones) refl

lookup-remove_all :
    (ks : List String) (j : String) (d : Dict TombstoneEntry)
    → Dict.lookup j (remove_all ks d) ≡ (if mem j ks then none else Dict.lookup j d)
unfolding remove_all mem
lookup-remove_all [] j d = refl
lookup-remove_all (k ∷ ks) j d =
    ground (arith, lookup-remove_all ks j (Dict.remove k d), Dict.lookup-remove k j d, eq_comm j k)

abbrev pub old_at : (TombstoneEntry → Bool) → Option TombstoneEntry → Bool
old_at old none = false
old_at old (some t) = old t

module _ (age_days : String → Option ℕ) (max_age_days : ℕ) where
  mem-to_remove :
      (d : Dict TombstoneEntry) (j : String)
      → IsDict d
      → mem j (to_remove age_days max_age_days d)
        ≡ old_at (is_old age_days max_age_days) (Dict.lookup j d)
  unfolding to_remove mem Dict.lookup
  mem-to_remove [] j h = refl
  mem-to_remove ((k, w) ∷ d) j h =
      ground (arith, mem-to_remove d j h.1, eq_iff j k, eq_iff k j, Dict.lookup-none k d h.0)

-- Pruning drops exactly the tombstones that are too old, and leaves the index and every other
-- tombstone, if no chunk id has two tombstones.
pub prune_old_tombstones-get_tombstone :
    (age_days : String → Option ℕ) (max_age_days : ℕ) (chunk_id : String) (self : ChunkIndex)
    → IsDict self.tombstones
    → (get_tombstone chunk_id (prune_old_tombstones age_days max_age_days self).1 ≡ (
        if old_at (is_old age_days max_age_days) (get_tombstone chunk_id self)
        then none
        else get_tombstone chunk_id self))
      × ((prune_old_tombstones age_days max_age_days self).1.index ≡ self.index)
unfolding prune_old_tombstones get_tombstone
prune_old_tombstones-get_tombstone age_days max_age_days chunk_id self h = ground (
  arith,
  lookup-remove_all (to_remove age_days max_age_days self.tombstones) chunk_id self.tombstones,
  mem-to_remove age_days max_age_days self.tombstones chunk_id h,
)
