-- ===== src/Replication/Files/Winner.antt =====
-- The winner of concurrent file creations does not depend on the order in which a controller finds
-- them in its log.
use mathlib.Core.List.{Perm, Mem}
use redcloud_files.Base.{
  some, List, [], false, ◌≡◌, ◌≢◌, arith, str_lt_asymm, pair_lt_negtrans, pair_lt-tied,
}
use redcloud_files.Base.Sorted.{IsOrder, minima_agree}
use redcloud_files.Replication.Operation.{Operation}
use redcloud_files.Replication.Files.{
  file_key_lt, resolve_concurrent_file_creation, payload_file_id,
}

file_key_order : IsOrder file_key_lt
file_key_order = record {
  negtrans = λ x y z.
      pair_lt_negtrans x.timestamp_ms (payload_file_id x.payload) y.timestamp_ms
        (payload_file_id y.payload) z.timestamp_ms (payload_file_id z.payload);
  asymm =
      λ x y h. ground (arith, str_lt_asymm (payload_file_id x.payload) (payload_file_id y.payload));
}

-- Two controllers that see the same operations, in any order and at least one, each find a winner
-- among them; it is the earliest, that is no operation comes before the first winner by timestamp and
-- then file id, and the two winners agree in both.
pub resolve_concurrent_file_creation_agrees :
    (xs ys : List Operation)
    → xs ≢ []
    → Perm xs ys
    → (v w : Operation) × (resolve_concurrent_file_creation xs ≡ some v)
      × (resolve_concurrent_file_creation ys ≡ some w)
      × Mem v xs
      × ((o : Operation) → Mem o xs → file_key_lt o v ≡ false)
      × (v.timestamp_ms ≡ w.timestamp_ms)
      × (payload_file_id v.payload ≡ payload_file_id w.payload)
unfolding resolve_concurrent_file_creation
resolve_concurrent_file_creation_agrees xs ys ne p =
    let (v, w, lv, lw, vw, wv) = minima_agree file_key_lt file_key_order xs ys ne p in
    let tied =
      pair_lt-tied v.timestamp_ms (payload_file_id v.payload) w.timestamp_ms
        (payload_file_id w.payload) vw wv in
    (v, w, lv.is_first, lw.is_first, lv.member, lv.none_smaller, tied.0, tied.1)
