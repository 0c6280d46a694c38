-- ===== src/VectorClock/Order.antt =====
-- What `happens_before` decides, and that it is a strict order on the clocks that the program makes.
use redcloud_files.Base.{
  ℕ, ◌≤◌, ◌<◌, String, some, Bool, true, false, [], ◌∷◌, ◌≡◌, refl, sym, ◌↔◌, ◌⊎◌, inr, arith,
  if◌then◌else◌, eq_iff, str_eq,
}
use redcloud_files.Base.Dict
use redcloud_files.Base.Dict.{Dict, IsDict}
use redcloud_files.VectorClock.{
  VectorClock, at, holds, included, equal, none_greater, happens_before, is_concurrent,
}

-- no entry is zero: `increment` never leaves one, and `merge` takes none from clocks without
abbrev pub IsPositive : Dict ℕ → Type 0
IsPositive [] = Unit
IsPositive ((k, seq) ∷ rest) = (0 < seq) × IsPositive rest

pub record IsClock (c : VectorClock) : Type 0 where
  pub distinct : IsDict c.clocks
  pub positive : IsPositive c.clocks

-- the pointwise order, in which an absent entry counts as zero
abbrev pub Below : Dict ℕ → Dict ℕ → Type 0
Below a b = (k : String) → at a k ≤ at b k

abbrev pub Same : Dict ℕ → Dict ℕ → Type 0
Same a b = (k : String) → at a k ≡ at b k

pub at-cons :
    (i k : String) (seq : ℕ) (rest : Dict ℕ)
    → at ((i, seq) ∷ rest) k ≡ (if str_eq i k then seq else at rest k)
unfolding at Dict.lookup
at-cons i k seq rest = ground arith

pub at-absent : (k : String) (d : Dict ℕ) → Dict.has_key k d ≡ false → at d k ≡ 0
unfolding at
at-absent k d h = ground (arith, Dict.lookup-none k d h)

none_greater-Below : (a b : Dict ℕ) → none_greater a b ≡ true → Below a b
unfolding none_greater
none_greater-Below [] b h k = unfold at Dict.lookup in omega arith
none_greater-Below ((i, seq) ∷ rest) b h k =
    ground (arith, at-cons i k seq rest, eq_iff i k, none_greater-Below rest b (ground arith) k)

Below-tail :
    (i : String) (seq : ℕ) (rest b : Dict ℕ)
    → Dict.has_key i rest ≡ false
    → Below ((i, seq) ∷ rest) b
    → (seq ≤ at b i) × Below rest b
Below-tail i seq rest b fresh h = (
  ground (arith, h i, at-cons i i seq rest, eq_iff i i),
  λ k. ground (arith, h k, at-cons i k seq rest, eq_iff i k, at-absent i rest fresh),
)

Below-none_greater : (a b : Dict ℕ) → IsDict a → Below a b → none_greater a b ≡ true
unfolding none_greater
Below-none_greater [] b d h = refl
Below-none_greater ((i, seq) ∷ rest) b d h =
    let t = Below-tail i seq rest b d.0 h in ground (arith, t.0, Below-none_greater rest b d.1 t.1)

-- an entry that is there is what `at` reads
lookup-at : (k : String) (d : Dict ℕ) → 0 < at d k → Dict.lookup k d ≡ some (at d k)
unfolding at
lookup-at k d h = ground arith

holds-at : (d : Dict ℕ) (k : String) (seq : ℕ) → holds (Dict.lookup k d) seq ≡ true → at d k ≡ seq
unfolding at holds
holds-at d k seq h = ground arith

included-at : (a b : Dict ℕ) (k : String) → included a b ≡ true → (at a k ≡ at b k) ⊎ (at a k ≡ 0)
unfolding included Dict.has_key
included-at [] b k h = inr (at-absent k [] refl)
included-at ((i, seq) ∷ rest) b k h =
    ground (
      arith,
      at-cons i k seq rest,
      eq_iff i k,
      holds-at b i seq,
      included-at rest b k (ground arith),
    )

equal-Same : (a b : Dict ℕ) → equal a b ≡ true → Same a b
unfolding equal
equal-Same a b h k = ground (arith, included-at a b k, included-at b a k)

included_of_agree :
    (a b : Dict ℕ)
    → IsDict a
    → IsPositive a
    → ((k : String) → 0 < at a k → at b k ≡ at a k)
    → included a b ≡ true
unfolding included holds
included_of_agree [] b d p h = refl
included_of_agree ((i, seq) ∷ rest) b d p h = ground (
  arith,
  h i,
  at-cons i i seq rest,
  eq_iff i i,
  lookup-at i b,
  included_of_agree rest b d.1 p.1
      (λ k q. ground (arith, h k, at-cons i k seq rest, eq_iff i k, at-absent i rest d.0)),
)

Same-equal :
    (a b : VectorClock)
    → IsClock a
    → IsClock b
    → Same a.clocks b.clocks
    → equal a.clocks b.clocks ≡ true
unfolding equal
Same-equal a b ca cb h = ground (
  arith,
  included_of_agree a.clocks b.clocks ca.distinct ca.positive (λ k _. sym (h k)),
  included_of_agree b.clocks a.clocks cb.distinct cb.positive (λ k _. h k),
)

-- On two clocks with no controller twice and no zero entry, `happens_before` answers True exactly when
-- every entry is at most the other's, an absent entry counting as zero, and some entry differs.
pub happens_before_iff :
    (a b : VectorClock)
    → IsClock a
    → IsClock b
    → (happens_before a b ≡ true) ↔ (Below a.clocks b.clocks × (¬ Same a.clocks b.clocks))
unfolding happens_before
happens_before_iff a b ca cb = (
  λ h. (
    none_greater-Below a.clocks b.clocks (ground arith),
    λ s. ground (arith, Same-equal a b ca cb s),
  ),
  λ h. ground (
    arith,
    h.1,
    λ (e : equal a.clocks b.clocks ≡ true). h.1 (equal-Same a.clocks b.clocks e),
    Below-none_greater a.clocks b.clocks ca.distinct h.0,
  ),
)

false_of : (b : Bool) → (b ≡ true → ⊥) → b ≡ false
false_of true h = absurd (h refl)
false_of false h = refl

-- On clocks with no zero entry `happens_before` is irreflexive, asymmetric and transitive.
pub happens_before_strict :
    (a b c : VectorClock)
    → IsClock a
    → IsClock b
    → IsClock c
    → (happens_before a a ≡ false)
      × (happens_before a b ≡ true → happens_before b a ≡ false)
      × (happens_before a b ≡ true → happens_before b c ≡ true → happens_before a c ≡ true)
happens_before_strict a b c ca cb cc' = (
  false_of _ (λ e. ((happens_before_iff a a ca ca).0 e).1 (λ k. refl)),
  λ e. false_of _ λ f.
      let (ab, differ) = (happens_before_iff a b ca cb).0 e in
      let (ba, _) = (happens_before_iff b a cb ca).0 f in differ (λ k. omega (arith, ab k, ba k)),
  λ e f.
      let (ab, differ) = (happens_before_iff a b ca cb).0 e in
      let (bc, _) = (happens_before_iff b c cb cc').0 f in
      (happens_before_iff a c ca cc').1
        (λ k. omega (arith, ab k, bc k), λ s. differ (λ k. omega (arith, ab k, bc k, s k))),
)

-- Of two clocks, exactly one of these holds: the first precedes, the second does, neither does.
pub concurrent_trichotomy :
    (a b : VectorClock)
    → IsClock a
    → IsClock b
    → ((happens_before a b ≡ true) × (happens_before b a ≡ false) × (is_concurrent a b ≡ false))
      ⊎ ((happens_before a b ≡ false) × (happens_before b a ≡ true) × (is_concurrent a b ≡ false))
      ⊎ ((happens_before a b ≡ false) × (happens_before b a ≡ false) × (is_concurrent a b ≡ true))
unfolding is_concurrent
concurrent_trichotomy a b ca cb = ground (arith, (happens_before_strict a b a ca cb ca).1)
