-- ===== src/Base/Lists.antt =====
-- Lists: lengths, list comprehensions over Boolean tests, and predicates on every element.
use Prim.Native.Nat.{ℕ, zero, suc}
use mathlib.Core.Path.{◌≡◌, refl}
use mathlib.Core.Bool.{Bool, true, false, ◌||◌}
use mathlib.Core.Option.{Option, none, some}
use mathlib.Core.List.{List, [], ◌∷◌, ◌++◌}
use native.Mathlib.Omega.{arith}
use redcloud_files.Base.Tests.{if◌then◌else◌}

module _ {ℓ} {A : Type ℓ} where
  abbrev pub length : List A → ℕ
  length [] = 0
  length (x ∷ xs) = suc (length xs)

  -- `xs[0]`
  abbrev pub first : List A → Option A
  first [] = none
  first (x ∷ xs) = some x

  -- `xs[:n]`, and LIMIT n
  unfoldable pub take : ℕ → List A → List A
  take zero xs = []
  take (suc n) [] = []
  take (suc n) (x ∷ xs) = x ∷ take n xs

  -- `[x for x in xs if p(x)]`, and the rows that a WHERE clause selects
  unfoldable pub select : (A → Bool) → List A → List A
  select p [] = []
  select p (x ∷ xs) = let rest = select p xs in if p x then x ∷ rest else rest

  -- the first match: `fetchone()` after a SELECT
  unfoldable pub find : (A → Bool) → List A → Option A
  find p [] = none
  find p (x ∷ xs) = if p x then some x else find p xs

  -- `any(p(x) for x in xs)`
  unfoldable pub exists : (A → Bool) → List A → Bool
  exists p [] = false
  exists p (x ∷ xs) = p x || exists p xs

  -- the rows that stay after a DELETE with the WHERE clause `p`
  unfoldable pub delete : (A → Bool) → List A → List A
  delete p [] = []
  delete p (x ∷ xs) = let rest = delete p xs in if p x then rest else x ∷ rest

  -- an UPDATE with the WHERE clause `p`
  unfoldable pub update : (A → Bool) → (A → A) → List A → List A
  update p f [] = []
  update p f (x ∷ xs) = (if p x then f x else x) ∷ update p f xs

module _ {ℓ κ} {A : Type ℓ} where
  abbrev pub All : (A → Type κ) → List A → Type κ
  All P [] = Unit
  All P (x ∷ xs) = P x × All P xs

  pub All-append : (P : A → Type κ) (xs ys : List A) → All P xs → All P ys → All P (xs ++ ys)
  All-append P [] ys first rest = rest
  All-append P (x ∷ xs) ys first rest = (first.0, All-append P xs ys first.1 rest)

module _ {ℓ} {A : Type ℓ} where
  pub exists-append :
      (p : A → Bool) (xs ys : List A) → exists p (xs ++ ys) ≡ (exists p xs || exists p ys)
  unfolding exists
  exists-append p [] ys = refl
  exists-append p (x ∷ xs) ys = ground (arith, exists-append p xs ys)

  pub find-exists :
      (p : A → Bool) (xs : List A) {x : A}
      → find p xs ≡ some x
      → (p x ≡ true) × (exists p xs ≡ true)
  unfolding find exists
  find-exists p [] h = cc
  find-exists p (y ∷ ys) {x} h = ground (arith, find-exists p ys {x = x})

  pub find-none : (p : A → Bool) (xs : List A) → find p xs ≡ none → exists p xs ≡ false
  unfolding find exists
  find-none p [] h = refl
  find-none p (y ∷ ys) h = ground (arith, find-none p ys)

  pub update-none :
      (p : A → Bool) (f : A → A) (xs : List A) → exists p xs ≡ false → update p f xs ≡ xs
  unfolding update exists
  update-none p f [] h = refl
  update-none p f (y ∷ ys) h = ground (arith, update-none p f ys)

  pub exists-delete :
      (p q : A → Bool) (xs : List A) → exists p xs ≡ false → exists p (delete q xs) ≡ false
  unfolding delete exists
  exists-delete p q [] h = refl
  exists-delete p q (y ∷ ys) h = ground (arith, exists-delete p q ys)

  pub All-delete : (P : A → Type 0) (q : A → Bool) (xs : List A) → All P xs → All P (delete q xs)
  unfolding delete
  All-delete P q [] h = tt
  All-delete P q (y ∷ ys) h = ground (arith, All-delete P q ys)

  pub All-map : {P Q : A → Type 0} (xs : List A) → ((x : A) → P x → Q x) → All P xs → All Q xs
  All-map [] f h = tt
  All-map (x ∷ xs) f h = (f x h.0, All-map xs f h.1)

module _ {ℓ} {A : Type ℓ} where
  pub delete-append :
      (q : A → Bool) (xs ys : List A) → delete q (xs ++ ys) ≡ delete q xs ++ delete q ys
  unfolding delete
  delete-append q [] ys = refl
  delete-append q (x ∷ xs) ys = ground (arith, delete-append q xs ys)

  pub exists_none : (p : A → Bool) (xs : List A) → exists p xs ≡ false → find p xs ≡ none
  unfolding exists find
  exists_none p [] h = refl
  exists_none p (x ∷ xs) h = ground (arith, exists_none p xs)

  -- fewer rows match a stronger test
  pub exists_weaken :
      (p q : A → Bool) (xs : List A)
      → ((x : A) → p x ≡ true → q x ≡ true)
      → exists q xs ≡ false
      → exists p xs ≡ false
  unfolding exists
  exists_weaken p q [] k h = refl
  exists_weaken p q (x ∷ xs) k h = ground (arith, k x, exists_weaken p q xs k)
