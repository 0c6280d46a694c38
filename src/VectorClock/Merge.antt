-- ===== src/VectorClock/Merge.antt =====
-- What `increment` and `merge` make of the entries, and that they keep clocks free of zeros.
use redcloud_files.Base.{
  ℕ, ◌+◌, ◌<◌, max, String, true, [], ◌∷◌, ◌≡◌, refl, arith, if◌then◌else◌, eq_iff, str_eq,
}
use redcloud_files.Base.Dict
use redcloud_files.Base.Dict.{Dict, IsDict}
use redcloud_files.VectorClock.{VectorClock, at, increment, merge_items, merge, happens_before}
use redcloud_files.VectorClock.Order.{
  IsPositive, IsClock, Below, at-cons, at-absent, happens_before_iff, happens_before_strict,
}

pub at-insert :
    (i k : String) (seq : ℕ) (d : Dict ℕ)
    → at (Dict.insert i seq d) k ≡ (if str_eq i k then seq else at d k)
unfolding at
at-insert i k seq d = ground (arith, Dict.lookup-insert i k seq d)

-- Each entry of the merge is the greater of the two.
pub at-merge_items :
    (a b : Dict ℕ) (k : String) → IsDict b → at (merge_items a b) k ≡ max (at a k) (at b k)
unfolding merge_items Dict.has_key
at-merge_items a [] k d = omega (arith, at-absent k [] refl)
at-merge_items a ((i, seq) ∷ rest) k d = ground (
  arith,
  at-merge_items (Dict.insert i (max (at a i) seq) a) rest k d.1,
  at-insert i k (max (at a i) seq) a,
  at-cons i k seq rest,
  at-absent i rest d.0,
  eq_iff i k,
)

insert-IsPositive :
    (i : String) (seq : ℕ) (d : Dict ℕ) → 0 < seq → IsPositive d → IsPositive (Dict.insert i seq d)
unfolding Dict.insert
insert-IsPositive i seq [] h p = (h, tt)
insert-IsPositive i seq ((k, v) ∷ d) h p = ground (arith, insert-IsPositive i seq d h p.1)

merge_items-IsClock :
    (a b : Dict ℕ)
    → IsDict a
    → IsPositive a
    → IsPositive b
    → IsDict (merge_items a b) × IsPositive (merge_items a b)
unfolding merge_items
merge_items-IsClock a [] d p q = (d, p)
merge_items-IsClock a ((i, seq) ∷ rest) d p q =
    merge_items-IsClock (Dict.insert i (max (at a i) seq) a) rest (Dict.insert-IsDict i _ a d)
      (insert-IsPositive i _ a (omega arith) p) q.1

-- Clocks stay well formed: distinct controllers and no zero entry.
pub operations-IsClock :
    (a b : VectorClock) (controller_id : String)
    → IsClock a
    → IsClock b
    → IsClock (increment a controller_id) × IsClock (merge a b)
unfolding increment merge
operations-IsClock a b controller_id ca cb =
    let m = merge_items-IsClock a.clocks b.clocks ca.distinct ca.positive cb.positive in
    (
      record {
        distinct = Dict.insert-IsDict controller_id _ a.clocks ca.distinct;
        positive = insert-IsPositive controller_id _ a.clocks (omega arith) ca.positive;
      },
      record { distinct = m.0; positive = m.1 },
    )

-- The merge is the least upper bound of the two clocks in the pointwise order.
pub merge_least :
    (a b c : VectorClock)
    → IsClock b
    → Below a.clocks (merge a b).clocks
      × Below b.clocks (merge a b).clocks
      × (Below a.clocks c.clocks → Below b.clocks c.clocks → Below (merge a b).clocks c.clocks)
unfolding merge
merge_least a b c cb = (
  λ k. omega (arith, at-merge_items a.clocks b.clocks k cb.distinct),
  λ k. omega (arith, at-merge_items a.clocks b.clocks k cb.distinct),
  λ h g k. omega (arith, at-merge_items a.clocks b.clocks k cb.distinct, h k, g k),
)

-- An incremented clock comes strictly after the clock that it was made from, and after every clock
-- that precedes that one.
pub happens_before-increment :
    (a b : VectorClock) (controller_id : String)
    → IsClock a
    → IsClock b
    → (happens_before a (increment a controller_id) ≡ true)
      × (happens_before b a ≡ true → happens_before b (increment a controller_id) ≡ true)
unfolding increment
happens_before-increment a b controller_id ca cb =
    let ci = (operations-IsClock a a controller_id ca ca).0 in
    let later = (happens_before_iff a (increment a controller_id) ca ci).1 (
      λ k. ground (
        arith,
        at-insert controller_id k (at a.clocks controller_id + 1) a.clocks,
        eq_iff controller_id k,
      ),
      λ s. ground (
        arith,
        s controller_id,
        eq_iff controller_id controller_id,
        at-insert controller_id controller_id (at a.clocks controller_id + 1) a.clocks,
      ),
    ) in
    (later, λ h. (happens_before_strict b a (increment a controller_id) cb ca ci).2 h later)
