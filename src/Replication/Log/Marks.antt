-- ===== src/Replication/Log/Marks.antt =====
-- What a lookup in the log finds after an operation is stored or marked.
use redcloud_files.Base.{
  String, Bool, true, Option, some, none, List, [], ◌∷◌, ◌++◌, ◌≡◌, refl, arith, eq_iff, str_eq,
  if◌then◌else◌, find, update,
}
use redcloud_files.Replication.Operation.{Operation}
use redcloud_files.Replication.Log.{has_id, set_applied}

abbrev marked : Bool → Option Operation → Option Operation
marked b none = none
marked b (some op) = some (if b then set_applied op else op)

pub find-update :
    (i j : String) (ops : List Operation)
    → find (has_id j) (update (has_id i) set_applied ops)
      ≡ marked (str_eq i j) (find (has_id j) ops)
unfolding find update set_applied
find-update i j [] = refl
find-update i j (op ∷ ops) =
    ground
      (arith, find-update i j ops, eq_iff op.operation_id i, eq_iff op.operation_id j, eq_iff i j)

pub find-snoc {ℓ} :
    {A : Type ℓ} (p : A → Bool) (xs : List A) (x : A)
    → p x ≡ true
    → find p xs ≡ none
    → find p (xs ++ x ∷ []) ≡ some x
unfolding find
find-snoc p [] x h e = rw h
find-snoc p (y ∷ ys) x h e = ground (arith, find-snoc p ys x h)

pub find-append {ℓ} :
    {A : Type ℓ} (p : A → Bool) (xs ys : List A) {x : A}
    → find p xs ≡ some x
    → find p (xs ++ ys) ≡ some x
unfolding find
find-append p [] ys e = cc
find-append p (y ∷ xs) ys {x} e = ground (arith, find-append p xs ys {x = x})
