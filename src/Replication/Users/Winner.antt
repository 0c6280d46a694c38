-- ===== src/Replication/Users/Winner.antt =====
-- The winner of concurrent user creations does not depend on the order in which a controller finds
-- them in its log.
use mathlib.Core.List.{Perm, Mem}
use redcloud_files.Base.{
  some, List, [], false, ◌≡◌, ◌≢◌, arith, str_lt_asymm, pair_lt_negtrans, pair_lt-tied,
}
use redcloud_files.Base.Sorted.{IsOrder, minima_agree}
use redcloud_files.Replication.Operation.{Operation}
use redcloud_files.Replication.Users.{user_key_lt, resolve_concurrent_user_creation}

user_key_order : IsOrder user_key_lt
user_key_order = record {
  negtrans = λ x y z.
      pair_lt_negtrans x.timestamp_ms (x.user_id) y.timestamp_ms (y.user_id) z.timestamp_ms
        (z.user_id);
  asymm = λ x y h. ground (arith, str_lt_asymm (x.user_id) (y.user_id));
}

-- Two controllers that see the same operations, in any order and at least one, each find a winner
-- among them; no operation comes before the first winner by timestamp and then user id, and the two
-- winners agree in both.
pub resolve_concurrent_user_creation_agrees :
    (xs ys : List Operation)
    → xs ≢ []
    → Perm xs ys
    → (v w : Operation) × (resolve_concurrent_user_creation xs ≡ some v)
      × (resolve_concurrent_user_creation ys ≡ some w)
      × Mem v xs
      × ((o : Operation) → Mem o xs → user_key_lt o v ≡ false)
      × (v.timestamp_ms ≡ w.timestamp_ms)
      × (v.user_id ≡ w.user_id)
unfolding resolve_concurrent_user_creation
resolve_concurrent_user_creation_agrees xs ys ne p =
    let (v, w, lv, lw, vw, wv) = minima_agree user_key_lt user_key_order xs ys ne p in
    let tied = pair_lt-tied v.timestamp_ms (v.user_id) w.timestamp_ms (w.user_id) vw wv in
    (v, w, lv.is_first, lw.is_first, lv.member, lv.none_smaller, tied.0, tied.1)
