-- ===== src/Base/Sets.antt =====
-- Python's `set` of texts, as a list with no element twice.
use Prim.Native.String.{String}
use mathlib.Core.Path.{◌≡◌, refl, ap}
use mathlib.Core.Bool.{Bool, not, ◌&&◌}
use mathlib.Core.List.{List, [], ◌∷◌}
use native.Mathlib.Omega.{arith}
use redcloud_files.Base.Tests.{if◌then◌else◌}
use redcloud_files.Base.Lists.{select}
use redcloud_files.Base.Texts.{eq_iff, eq_comm, mem}
use redcloud_files.Base.Dict
use redcloud_files.Base.Dict.{Dict}

-- `set(xs)`, as a list with no element twice
unfoldable pub set_of : List String → List String
set_of [] = []
set_of (x ∷ xs) = let rest = set_of xs in if mem x rest then rest else x ∷ rest

-- `xs - ys` of two sets
unfoldable pub difference : List String → List String → List String
difference xs ys = select (λ x. not (mem x ys)) xs

pub mem-select :
    (p : String → Bool) (x : String) (xs : List String) → mem x (select p xs) ≡ (mem x xs && p x)
unfolding mem select
mem-select p x [] = refl
mem-select p x (y ∷ ys) = ground (arith, mem-select p x ys, eq_iff x y, ap p)

pub mem-set_of : (x : String) (xs : List String) → mem x (set_of xs) ≡ mem x xs
unfolding mem set_of
mem-set_of x [] = refl
mem-set_of x (y ∷ ys) = ground (arith, mem-set_of x ys, eq_iff x y, mem-set_of y ys)

pub mem-keys : {V : Type 0} (x : String) (d : Dict V) → mem x (Dict.keys d) ≡ Dict.has_key x d
unfolding mem Dict.keys Dict.has_key
mem-keys x [] = refl
mem-keys x ((k, v) ∷ d) = ground (arith, mem-keys x d, eq_comm x k)

pub mem-difference :
    (x : String) (xs ys : List String) → mem x (difference xs ys) ≡ (mem x xs && not (mem x ys))
unfolding difference
mem-difference x xs ys = mem-select (λ y. not (mem y ys)) x xs
