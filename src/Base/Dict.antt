-- ===== src/Base/Dict.antt =====
-- Python's `dict` with text keys: an association list in insertion order.
use redcloud_files.Base.Tests.{if◌then◌else◌}
use redcloud_files.Base.Texts.{str_eq, eq_iff}
use Prim.Native.String.{String}
use mathlib.Core.Path.{◌≡◌, refl}
use mathlib.Core.Bool.{Bool, true, false, ◌||◌}
use mathlib.Core.Option.{Option, none, some}
use mathlib.Core.List.{List, [], ◌∷◌}
use native.Mathlib.Omega.{arith}

abbrev pub Dict {ℓ} : Type ℓ → Type ℓ
Dict V = List (String × V)

module _ {ℓ} {V : Type ℓ} where
  -- `d.get(k)`
  unfoldable pub lookup : String → Dict V → Option V
  lookup k [] = none
  lookup k ((j, v) ∷ d) = if str_eq j k then some v else lookup k d

  -- `k in d`
  unfoldable pub has_key : String → Dict V → Bool
  has_key k [] = false
  has_key k ((j, v) ∷ d) = str_eq j k || has_key k d

  -- `d[k] = v`: an old key keeps its place
  unfoldable pub insert : String → V → Dict V → Dict V
  insert k v [] = (k, v) ∷ []
  insert k v ((j, w) ∷ d) = if str_eq j k then (j, v) ∷ d else (j, w) ∷ insert k v d

  -- `d.pop(k, None)`, without the value
  unfoldable pub remove : String → Dict V → Dict V
  remove k [] = []
  remove k ((j, w) ∷ d) = let rest = remove k d in if str_eq j k then rest else (j, w) ∷ rest

  -- `list(d.keys())`
  unfoldable pub keys : Dict V → List String
  keys [] = []
  keys ((j, w) ∷ d) = j ∷ keys d

  -- `list(d.values())`
  unfoldable pub values : Dict V → List V
  values [] = []
  values ((j, w) ∷ d) = w ∷ values d

  -- no key stands twice, which a `dict` guarantees
  abbrev pub IsDict : Dict V → Type 0
  IsDict [] = Unit
  IsDict ((k, v) ∷ d) = (has_key k d ≡ false) × IsDict d

  pub lookup-insert :
      (k j : String) (v : V) (d : Dict V)
      → lookup j (insert k v d) ≡ (if str_eq k j then some v else lookup j d)
  unfolding lookup insert
  lookup-insert k j v [] = refl
  lookup-insert k j v ((i, w) ∷ d) =
      ground (arith, eq_iff k j, eq_iff i k, eq_iff i j, lookup-insert k j v d)

  pub lookup-remove :
      (k j : String) (d : Dict V)
      → lookup j (remove k d) ≡ (if str_eq k j then none else lookup j d)
  unfolding lookup remove
  lookup-remove k j [] = ground arith
  lookup-remove k j ((i, w) ∷ d) =
      ground (arith, eq_iff k j, eq_iff i k, eq_iff i j, lookup-remove k j d)

  pub has_key-insert :
      (k j : String) (v : V) (d : Dict V) → has_key j (insert k v d) ≡ (str_eq k j || has_key j d)
  unfolding has_key insert
  has_key-insert k j v [] = refl
  has_key-insert k j v ((i, w) ∷ d) =
      ground (arith, eq_iff k j, eq_iff i k, eq_iff i j, has_key-insert k j v d)

  pub has_key-remove :
      (k j : String) (d : Dict V)
      → has_key j (remove k d) ≡ (if str_eq k j then false else has_key j d)
  unfolding has_key remove
  has_key-remove k j [] = ground arith
  has_key-remove k j ((i, w) ∷ d) =
      ground (arith, eq_iff k j, eq_iff i k, eq_iff i j, has_key-remove k j d)

  pub insert-IsDict : (k : String) (v : V) (d : Dict V) → IsDict d → IsDict (insert k v d)
  unfolding insert has_key
  insert-IsDict k v [] h = (refl, tt)
  insert-IsDict k v ((i, w) ∷ d) h =
      ground (arith, eq_iff i k, eq_iff k i, has_key-insert k i v d, insert-IsDict k v d h.1)

  pub remove-IsDict : (k : String) (d : Dict V) → IsDict d → IsDict (remove k d)
  unfolding remove
  remove-IsDict k [] h = tt
  remove-IsDict k ((i, w) ∷ d) h = ground (arith, has_key-remove k i d, remove-IsDict k d h.1)

  pub lookup-none : (k : String) (d : Dict V) → has_key k d ≡ false → lookup k d ≡ none
  unfolding lookup has_key
  lookup-none k [] h = refl
  lookup-none k ((i, w) ∷ d) h = ground (arith, lookup-none k d)

  pub has_key-lookup : (k : String) (d : Dict V) {v : V} → lookup k d ≡ some v → has_key k d ≡ true
  unfolding lookup has_key
  has_key-lookup k [] h = cc
  has_key-lookup k ((i, w) ∷ d) {v} h = ground (arith, has_key-lookup k d {v = v})
