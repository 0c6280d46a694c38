-- ===== src/Replication/Users/KeyUpdates.antt =====
-- Of two updates of a user's API key, one wins whichever arrives first.
use redcloud_files.Base.{
  String, true, false, not, ◌≡◌, ◌≢◌, arith, str_lt, str_lt_asymm, eq_of_not-str_lt,
}
use redcloud_files.VectorClock.{happens_before}
use redcloud_files.VectorClock.Order.{IsClock, happens_before_strict}
use redcloud_files.Replication.Operation.{Operation}
use redcloud_files.Replication.Users.{clock, should_apply}

str_lt-flip : (s t : String) → s ≢ t → str_lt s t ≡ not (str_lt t s)
str_lt-flip s t ne = ground (
  arith,
  str_lt,
  str_lt_asymm s t,
  str_lt_asymm t s,
  λ (g : str_lt s t ≡ false). eq_of_not-str_lt s t g,
)

-- Of two updates with different ids and well-formed clocks exactly one replaces the other, and one
-- that the other precedes causally always does.
pub should_apply-flip :
    (a b : Operation)
    → IsClock (clock a)
    → IsClock (clock b)
    → a.operation_id ≢ b.operation_id
    → (should_apply a b ≡ not (should_apply b a))
      × (happens_before (clock b) (clock a) ≡ true → should_apply a b ≡ true)
unfolding should_apply
should_apply-flip a b ca cb ne =
    let strict = happens_before_strict (clock a) (clock b) (clock a) ca cb ca in
    let strict' = happens_before_strict (clock b) (clock a) (clock b) cb ca cb in
    (
      ground (arith, strict.1, strict'.1, str_lt-flip a.operation_id b.operation_id ne),
      ground (arith, strict'.1),
    )
