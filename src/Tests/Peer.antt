-- ===== src/Tests/Peer.antt =====
-- A controller and a peer that has an operation more.
use mathlib.Core.List.{Perm}
use redcloud_files.Base.{[], ◌∷◌, refl, exists}
use redcloud_files.Replication.Database.{Db, empty}
use redcloud_files.Replication.AntiEntropy.{sort_operations_by_causality, anti_entropy_round}
use redcloud_files.Replication.AntiEntropy.Causal.{IsCausal, sort_operations_by_causality-IsCausal}
use redcloud_files.Replication.AntiEntropy.Converges.{IsLogged, anti_entropy_round-IsLogged}
use redcloud_files.Tests.Controller.{
  env, node, creation, later, labelling, creation-IsClock, later-IsClock,
}

abbrev peer : Db
peer = record empty { operations = creation ∷ labelling ∷ [] }

anti_entropy_round-IsLogged_example : IsLogged "o3" (anti_entropy_round env peer node).1.db
unfolding exists
anti_entropy_round-IsLogged_example = anti_entropy_round-IsLogged env peer node "o3" refl

sort_operations_by_causality-IsCausal_example :
    Perm (sort_operations_by_causality (later ∷ creation ∷ [])) (later ∷ creation ∷ [])
    × IsCausal (sort_operations_by_causality (later ∷ creation ∷ []))
sort_operations_by_causality-IsCausal_example =
    sort_operations_by_causality-IsCausal (later ∷ creation ∷ [])
      (later-IsClock, (creation-IsClock, tt))
