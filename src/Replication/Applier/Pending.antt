-- ===== src/Replication/Applier/Pending.antt =====
-- What a retry takes out of the waiting operations, and what it leaves.
use redcloud_files.Base.{String, some, List, [], ◌∷◌, ◌≡◌, arith, All, Option-cases, inl, inr}
use redcloud_files.Base.Dict
use redcloud_files.Base.Dict.{Dict}
use redcloud_files.Replication.Operation.{Operation}
use redcloud_files.Replication.Applier.{pop_waiting}

abbrev pub AllWaiting : (Operation → Type 0) → Dict Operation → Type 0
AllWaiting Q d = (id : String) (op : Operation) → Dict.lookup id d ≡ some op → Q op

pub pop_waiting-All :
    {Q : Operation → Type 0} (ids : List String) (d : Dict Operation)
    → AllWaiting Q d
    → All Q (pop_waiting ids d).0 × AllWaiting Q (pop_waiting ids d).1
unfolding pop_waiting
pop_waiting-All [] d h = (tt, h)
pop_waiting-All {Q} (i ∷ ids) d h =
    let rest =
      pop_waiting-All {Q = Q} ids (Dict.remove i d)
        (λ id op e. h id op (ground (arith, Dict.lookup-remove i id d))) in
    elim (Option-cases (Dict.lookup i d)) [
      | inl e ↦ rw e rest
      | inr (op, e) ↦ rw e ((h i op e, rest.0), rest.1)
    ]
