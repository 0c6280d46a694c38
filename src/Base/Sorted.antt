-- ===== src/Base/Sorted.antt =====
-- `sort_by` sorts: its result has the same elements, in an order in which none is smaller than one
-- before it.
use mathlib.Core.Path.{◌≡◌, refl}
use mathlib.Core.Bool.{Bool, true, false}
use mathlib.Core.Option.{some}
use mathlib.Core.List.{List, [], ◌∷◌, Perm, Mem, mem-cons_self, mem-cons, not-mem-nil}
use mathlib.Core.List.Perm
use mathlib.Core.Logic.Or
use mathlib.Core.Logic.{inl, inr, ◌≢◌}
use redcloud_files.Base.Tests.{Bool-cases}
use redcloud_files.Base.Lists.{All, All-map, first}
use redcloud_files.Base.Sorting.{insert_sorted, sort_by}

module _ {ℓ} {A : Type ℓ} (lt : A → A → Bool) where
  insert_sorted-perm : (x : A) (ys : List A) → Perm (insert_sorted lt x ys) (x ∷ ys)
  unfolding insert_sorted
  insert_sorted-perm x [] = Perm.refl (x ∷ [])
  insert_sorted-perm x (y ∷ ys) = elim (Bool-cases (lt y x)) [
    | inl e ↦ rw e (Perm.trans (Perm.cons y (insert_sorted-perm x ys)) (Perm.swap x y ys))
    | inr e ↦ rw e (Perm.refl (x ∷ y ∷ ys))
  ]

  pub sort_by-perm : (xs : List A) → Perm (sort_by lt xs) xs
  unfolding sort_by
  sort_by-perm [] = Perm.refl []
  sort_by-perm (x ∷ xs) =
      Perm.trans (insert_sorted-perm x (sort_by lt xs)) (Perm.cons x (sort_by-perm xs))

  abbrev pub IsSorted : List A → Type 0
  IsSorted [] = Unit
  IsSorted (x ∷ xs) = All (λ y. lt y x ≡ false) xs × IsSorted xs

  -- what the order must satisfy: "not greater" is transitive, and "smaller" is asymmetric
  pub record IsOrder : Type ℓ where
    pub negtrans : (x y z : A) → lt y x ≡ false → lt z y ≡ false → lt z x ≡ false
    pub asymm : (x y : A) → lt x y ≡ true → lt y x ≡ false

  module _ (order : IsOrder) where
    All-insert :
        (P : A → Type 0) (x : A) (ys : List A) → P x → All P ys → All P (insert_sorted lt x ys)
    unfolding insert_sorted
    All-insert P x [] px h = (px, tt)
    All-insert P x (y ∷ ys) px h = elim (Bool-cases (lt y x)) [
      | inl e ↦ rw e (h.0, All-insert P x ys px h.1)
      | inr e ↦ rw e (px, h)
    ]

    insert_sorted-IsSorted : (x : A) (ys : List A) → IsSorted ys → IsSorted (insert_sorted lt x ys)
    unfolding insert_sorted
    insert_sorted-IsSorted x [] h = (tt, tt)
    insert_sorted-IsSorted x (y ∷ ys) h = elim (Bool-cases (lt y x)) [
      | inl e ↦ rw e (
        All-insert (λ z. lt z y ≡ false) x ys (order.asymm y x e) h.0,
        insert_sorted-IsSorted x ys h.1,
      )
      | inr e ↦ rw e ((e, All-map ys (λ z g. order.negtrans x y z e g) h.0), h)
    ]

    pub All-sort_by : (P : A → Type 0) (xs : List A) → All P xs → All P (sort_by lt xs)
    unfolding sort_by
    All-sort_by P [] h = tt
    All-sort_by P (x ∷ xs) h = All-insert P x (sort_by lt xs) h.0 (All-sort_by P xs h.1)

    pub sort_by-IsSorted : (xs : List A) → IsSorted (sort_by lt xs)
    unfolding sort_by
    sort_by-IsSorted [] = tt
    sort_by-IsSorted (x ∷ xs) = insert_sorted-IsSorted x (sort_by lt xs) (sort_by-IsSorted xs)

All-mem {ℓ} :
    {A : Type ℓ} (f : A → Bool) (x : A) (xs : List A)
    → All (λ y. f y ≡ false) xs
    → Mem x xs
    → f x ≡ false
All-mem f x [] h m = absurd (not-mem-nil m)
All-mem f x (y ∷ ys) h m = Or.elim (hlevel) (mem-cons.0 m) (λ e. rw e h.0) (All-mem f x ys h.1)

module _ {ℓ} {A : Type ℓ} (lt : A → A → Bool) (order : IsOrder lt) where
  least :
      (w : A) (xs ys : List A)
      → lt w w ≡ false
      → IsSorted lt ys
      → first ys ≡ some w
      → Perm ys xs
      → Mem w xs × ((o : A) → Mem o xs → lt o w ≡ false)
  least w xs [] r h e p = cc
  least w xs (y ∷ ys) r h e p =
      let same : y ≡ w = cc in
      (
        Perm.subset p w (rw same mem-cons_self),
        λ o m.
            All-mem (λ z. lt z w) o (y ∷ ys) (rw same (r, rw same at h.0))
              (Perm.subset (Perm.symm p) o m),
      )

  -- the first of the sorted list is one of the elements, and none is smaller
  pub first-sort_by :
      (xs : List A) (w : A)
      → first (sort_by lt xs) ≡ some w
      → Mem w xs × ((o : A) → Mem o xs → lt o w ≡ false)
  first-sort_by xs w e =
      least w xs (sort_by lt xs) (irrefl w) (sort_by-IsSorted lt order xs) e (sort_by-perm lt xs)
    where
      irrefl : (w : A) → lt w w ≡ false
      irrefl w = elim (Bool-cases (lt w w)) [ inl e ↦ order.asymm w w e | inr e ↦ e ]

module _ {ℓ} {A : Type ℓ} (lt : A → A → Bool) where
  insert_sorted-some : (x : A) (ys : List A) → (w : A) × (first (insert_sorted lt x ys) ≡ some w)
  unfolding insert_sorted
  insert_sorted-some x [] = (x, refl)
  insert_sorted-some x (y ∷ ys) = elim (Bool-cases (lt y x)) [
    | inl e ↦ (y, rw e)
    | inr e ↦ (x, rw e)
  ]

  pub first-some : (x : A) (xs : List A) → (w : A) × (first (sort_by lt (x ∷ xs)) ≡ some w)
  unfolding sort_by
  first-some x xs = insert_sorted-some x (sort_by lt xs)

module _ {ℓ} {A : Type ℓ} (lt : A → A → Bool) (order : IsOrder lt) where
  -- `v` is an element that none is smaller than
  pub record IsLeast (v : A) (xs : List A) : Type ℓ where
    pub is_first : first (sort_by lt xs) ≡ some v
    pub member : Mem v xs
    pub none_smaller : (o : A) → Mem o xs → lt o v ≡ false

  pub some-IsLeast : (x : A) (xs : List A) → (v : A) × IsLeast v (x ∷ xs)
  some-IsLeast x xs =
      let (v, e) = first-some lt x xs in
      let (m, l) = first-sort_by lt order (x ∷ xs) v e in
      (v, record { is_first = e; member = m; none_smaller = l })

  -- the first elements of two sorted permutations are not told apart by the order
  pub minima_agree :
      (xs ys : List A)
      → xs ≢ []
      → Perm xs ys
      → (v w : A) × IsLeast v xs × IsLeast w ys × (lt v w ≡ false) × (lt w v ≡ false)
  minima_agree [] ys ne p = absurd (ne refl)
  minima_agree (x ∷ xs) [] ne p = absurd (not-mem-nil (Perm.subset p x mem-cons_self))
  minima_agree (x ∷ xs) (y ∷ ys) ne p =
      let (v, lv) = some-IsLeast x xs in
      let (w, lw) = some-IsLeast y ys in
      (
        v,
        w,
        lv,
        lw,
        lw.none_smaller v (Perm.subset p v lv.member),
        lv.none_smaller w (Perm.subset (Perm.symm p) w lw.member),
      )
