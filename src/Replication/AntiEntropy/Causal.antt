-- ===== src/Replication/AntiEntropy/Causal.antt =====
-- The order in which anti-entropy applies operations respects `happens_before`.
use mathlib.Core.List.{Perm}
use redcloud_files.Base.{
  ℕ, ◌+◌, ◌≤◌, String, true, false, List, [], ◌∷◌, ◌≡◌, refl, arith, if◌then◌else◌, eq_iff, eq_refl,
  str_eq, All, Bool-cases, inl, inr, pair_lt_negtrans, str_lt_asymm, sort_by,
}
use redcloud_files.Base.Dict
use redcloud_files.Base.Dict.{Dict, IsDict}
use redcloud_files.Base.Sorted.{IsOrder, IsSorted, sort_by-IsSorted, sort_by-perm, All-sort_by}
use redcloud_files.VectorClock.{VectorClock, at, happens_before}
use redcloud_files.VectorClock.Order.{Below, Same, IsClock, at-cons, at-absent, happens_before_iff}
use redcloud_files.Replication.Operation.{Operation}
use redcloud_files.Replication.AntiEntropy.{
  get_total_clock_value, causal_key_lt, sort_operations_by_causality,
}

at-remove :
    (i k : String) (d : Dict ℕ) → at (Dict.remove i d) k ≡ (if str_eq i k then 0 else at d k)
unfolding at
at-remove i k d = ground (arith, Dict.lookup-remove i k d)

remove_absent : (i : String) (d : Dict ℕ) → Dict.has_key i d ≡ false → Dict.remove i d ≡ d
unfolding Dict.remove Dict.has_key
remove_absent i [] h = refl
remove_absent i ((j, v) ∷ d) h = ground (arith, remove_absent i d)

total-remove :
    (i : String) (d : Dict ℕ)
    → IsDict d
    → get_total_clock_value d ≡ at d i + get_total_clock_value (Dict.remove i d)
unfolding get_total_clock_value Dict.remove Dict.has_key
total-remove i [] h = ground (arith, at-absent i [] refl)
total-remove i ((j, v) ∷ d) h =
    ground (arith, at-cons j i v d, eq_iff j i, total-remove i d h.1, remove_absent i d)

at-total : (d : Dict ℕ) (k : String) → IsDict d → at d k ≤ get_total_clock_value d
at-total d k h = omega (arith, total-remove k d h)

-- a greater clock has a greater total
total-Below :
    (a b : Dict ℕ)
    → IsDict a
    → IsDict b
    → Below a b
    → (get_total_clock_value a ≤ get_total_clock_value b)
      × (get_total_clock_value a ≡ get_total_clock_value b → Same a b)
unfolding get_total_clock_value Dict.has_key
total-Below [] b da db h =
    (omega arith, λ e k. ground (arith, h k, at-total b k db, at-absent k [] refl))
total-Below ((i, v) ∷ rest) b da db h =
    let less : Below rest (Dict.remove i b) = (λ k.
      ground
        (arith, h k, at-cons i k v rest, at-remove i k b, eq_iff i k, at-absent i rest da.0)) in
    let below = total-Below rest (Dict.remove i b) da.1 (Dict.remove-IsDict i b db) less in
    let head : v ≤ at b i = ground (arith, h i, at-cons i i v rest, eq_refl i) in
    (
      omega (arith, total-remove i b db, head, below.0),
      λ e k. ground (
        arith,
        at-cons i k v rest,
        at-remove i k b,
        eq_iff i k,
        below.1 (omega (arith, total-remove i b db, head, below.0, e)) k,
        total-remove i b db,
        head,
        below.0,
      ),
    )

causal_order : IsOrder causal_key_lt
causal_order = record {
  negtrans = λ x y z. ground (
    arith,
    pair_lt_negtrans x.timestamp_ms x.operation_id y.timestamp_ms y.operation_id z.timestamp_ms
        z.operation_id,
  );
  asymm = λ x y h. ground (arith, str_lt_asymm x.operation_id y.operation_id);
}

abbrev pub clock_of : Operation → VectorClock
clock_of op = record { clocks = op.vector_clock }

precedes-causal_key_lt :
    (a b : Operation)
    → IsClock (clock_of a)
    → IsClock (clock_of b)
    → happens_before (clock_of a) (clock_of b) ≡ true
    → causal_key_lt a b ≡ true
precedes-causal_key_lt a b ca cb h =
    let (below, differ) = (happens_before_iff (clock_of a) (clock_of b) ca cb).0 h in
    let total = total-Below a.vector_clock b.vector_clock ca.distinct cb.distinct below in
    ground (arith, total.0, total.1, differ)

-- no operation stands before one that happens before it
abbrev pub IsCausal : List Operation → Type 0
IsCausal [] = Unit
IsCausal (x ∷ xs) = All (λ y. happens_before (clock_of y) (clock_of x) ≡ false) xs × IsCausal xs

later_causal :
    (x : Operation) (ys : List Operation)
    → IsClock (clock_of x)
    → All (λ y. IsClock (clock_of y)) ys
    → All (λ y. causal_key_lt y x ≡ false) ys
    → All (λ y. happens_before (clock_of y) (clock_of x) ≡ false) ys
later_causal x [] cx cys h = tt
later_causal x (y ∷ ys) cx cys h = (
  elim (Bool-cases (happens_before (clock_of y) (clock_of x))) [
    | inl e ↦ absurd (ground (arith, precedes-causal_key_lt y x cys.0 cx e, h.0))
    | inr e ↦ e
  ],
  later_causal x ys cx cys.1 h.1,
)

IsSorted-IsCausal :
    (xs : List Operation)
    → All (λ y. IsClock (clock_of y)) xs
    → IsSorted causal_key_lt xs
    → IsCausal xs
IsSorted-IsCausal [] c s = tt
IsSorted-IsCausal (x ∷ xs) c s = (later_causal x xs c.0 c.1 s.0, IsSorted-IsCausal xs c.1 s.1)

-- The sorted list has the same operations, and none of them stands before one that happens before it,
-- on clocks with no entry twice and none zero.
pub sort_operations_by_causality-IsCausal :
    (operations : List Operation)
    → All (λ o. IsClock (clock_of o)) operations
    → Perm (sort_operations_by_causality operations) operations
      × IsCausal (sort_operations_by_causality operations)
unfolding sort_operations_by_causality
sort_operations_by_causality-IsCausal operations h = (
  sort_by-perm causal_key_lt operations,
  IsSorted-IsCausal (sort_by causal_key_lt operations)
      (All-sort_by causal_key_lt causal_order _ operations h)
      (sort_by-IsSorted causal_key_lt causal_order operations),
)
