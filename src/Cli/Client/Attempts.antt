-- ===== src/Cli/Client/Attempts.antt =====
-- What _request_with_retry does with the outcomes of its requests.
use redcloud_files.Base.{
  ℕ, zero, suc, ◌+◌, ◌*◌, ◌≤◌, ◌<◌, Bool, true, false, List, [], ◌∷◌, ◌≡◌, refl, ap, sym, ◌∙◌, ◌⊎◌,
  inl, inr, arith, Bool-cases,
}
use redcloud_files.Http.{Response}
use redcloud_files.Cli.Client.{
  Outcome, responds, connect_error, timeout_exception, other_exception, Reply, returned, raised,
  is_retried, reply, Tried, power, RetryConfig, slept, after_outcome, attempts_from,
  request_with_retry,
}

-- the delays backoff ** attempt, backoff ** (attempt + 1), …
abbrev pub powers : ℕ → ℕ → ℕ → List ℕ
powers backoff attempt zero = []
powers backoff attempt (suc n) = power backoff attempt ∷ powers backoff (suc attempt) n

abbrev pub sum : List ℕ → ℕ
sum [] = 0
sum (x ∷ xs) = x + sum xs

response_of : (total : ℕ) (o : Outcome) {r : Response} → reply total o ≡ returned r → o ≡ responds r
unfolding reply
response_of total (responds response) h =
    ap (λ (x : Reply). elim x [ returned q ↦ responds q | raised e ↦ responds response ]) h
response_of total connect_error h = absurd (cc)
response_of total timeout_exception h = absurd (cc)
response_of total other_exception h = absurd (cc)

module _ {S : Type 0} (is_again : Outcome → Bool) (send : S → Outcome × S) where
  -- what is left when a number of requests have been sent
  abbrev pub after_requests : ℕ → S → S
  after_requests zero s = s
  after_requests (suc k) s = after_requests k (send s).1

  pub after_requests-suc :
      (k : ℕ) (s : S) → after_requests (suc k) s ≡ (send (after_requests k s)).1
  after_requests-suc zero s = refl
  after_requests-suc (suc k) s = after_requests-suc k (send s).1

  abbrev pub outcome : ℕ → S → Outcome
  outcome k s = (send (after_requests k s)).0

  -- the first so many outcomes are of the kind that is tried again
  abbrev pub AllRetried : ℕ → S → Type 0
  AllRetried zero s = Unit
  AllRetried (suc n) s = (is_again (send s).0 ≡ true) × AllRetried n (send s).1

  pub record Tries (backoff total attempt left : ℕ) (s : S) (t : Tried S) : Type 0 where
    pub retries : ℕ
    pub enough : retries ≤ left
    pub retried : AllRetried retries s
    pub last : (retries ≡ left) ⊎ (is_again (outcome retries s) ≡ false)
    pub replied : t.result ≡ reply total (outcome retries s)
    pub sent : t.state ≡ after_requests (suc retries) s
    pub waited : t.delays ≡ powers backoff attempt retries

  pub attempts_from-Tries :
      (backoff total attempt left : ℕ) (s : S)
      → Tries backoff total attempt left s
          (attempts_from is_again backoff total send attempt left s)
  unfolding attempts_from after_outcome slept
  attempts_from-Tries backoff total attempt zero s = record {
    retries = 0;
    enough = omega arith;
    retried = tt;
    last = inl refl;
    replied = refl;
    sent = refl;
    waited = refl;
  }
  attempts_from-Tries backoff total attempt (suc left) s = elim (Bool-cases (is_again (send s).0)) [
    | inl again ↦
        let rest = attempts_from-Tries backoff total (suc attempt) left (send s).1 in
        let few : rest.retries ≤ left = rest.enough in
        record {
          retries = suc rest.retries;
          enough = omega arith;
          retried = (again, rest.retried);
          last = elim rest.last [ inl e ↦ inl (ap suc e) | inr final ↦ inr final ];
          replied = rw again rest.replied;
          sent = rw again rest.sent;
          waited = rw again (ap (λ delays. power backoff attempt ∷ delays) rest.waited);
        }
    | inr final ↦ record {
      retries = 0;
      enough = omega arith;
      retried = tt;
      last = inr final;
      replied = rw final refl;
      sent = rw final refl;
      waited = rw final refl;
    }
  ]

  -- the last request, of a series that ended with a response
  pub last_attempt :
      (backoff total attempt left : ℕ) (s : S) {r : Response}
      → (attempts_from is_again backoff total send attempt left s).result ≡ returned r
      → (retries : ℕ) × (retries ≤ left)
        × AllRetried retries s
        × (send (after_requests retries s)
            ≡ (responds r, (attempts_from is_again backoff total send attempt left s).state))
  last_attempt backoff total attempt left s {r} h =
      let tries = attempts_from-Tries backoff total attempt left s in
      let answered = response_of total (outcome tries.retries s) {r = r} (sym tries.replied ∙ h) in
      (
        tries.retries,
        tries.enough,
        tries.retried,
        ap (λ o. (o, (send (after_requests tries.retries s)).1)) answered
            ∙ ap (λ next. (responds r, next))
                (sym (tries.sent ∙ after_requests-suc tries.retries s)),
      )

-- A request is sent again, at most max_retries times and after delays of the powers of the multiplier,
-- exactly while its outcome is one that is retried; the reply is that of the last outcome.
pub request_with_retry-Tries :
    {S : Type 0} (send : S → Outcome × S) (config : RetryConfig) (s : S)
    → Tries is_retried send config.retry_backoff_multiplier
        (suc config.max_retries)
        0
        config.max_retries
        s
        (request_with_retry config send s)
unfolding request_with_retry
request_with_retry-Tries send config s =
    attempts_from-Tries is_retried send config.retry_backoff_multiplier (suc config.max_retries) 0
      config.max_retries s

times_mono : (b m n : ℕ) → m ≤ n → b * m ≤ b * n
times_mono zero m n h = omega arith
times_mono (suc b) m n h = let rest = times_mono b m n h in omega arith

doubled : (b p : ℕ) → 2 ≤ b → p + p ≤ b * p
doubled zero p h = absurd (omega arith)
doubled (suc zero) p h = absurd (omega arith)
doubled (suc (suc b)) p h = omega arith

power-pos : (backoff n : ℕ) → 1 ≤ backoff → 1 ≤ power backoff n
unfolding power
power-pos backoff zero b = omega arith
power-pos backoff (suc n) b =
    let rest = power-pos backoff n b in
    let step = times_mono backoff 1 (power backoff n) rest in omega arith

power_monotone : (backoff n m : ℕ) → 1 ≤ backoff → n ≤ m → power backoff n ≤ power backoff m
unfolding power
power_monotone backoff zero m b h = power-pos backoff m b
power_monotone backoff (suc n) zero b h = absurd (omega arith)
power_monotone backoff (suc n) (suc m) b h =
    times_mono backoff _ _ (power_monotone backoff n m b (omega arith))

powers-sum :
    (backoff attempt n : ℕ)
    → 2 ≤ backoff
    → sum (powers backoff attempt n) + power backoff attempt ≤ power backoff (attempt + n)
unfolding power
powers-sum backoff attempt zero b =
    let e : attempt + 0 ≡ attempt = omega arith in rw e (omega arith)
powers-sum backoff attempt (suc n) b =
    let rest : sum (powers backoff (suc attempt) n) + backoff * power backoff attempt
        ≤ power backoff (suc attempt + n) =
      powers-sum backoff (suc attempt) n b in
    let twice = doubled backoff (power backoff attempt) b in
    let e : attempt + suc n ≡ suc attempt + n = omega arith in rw e (omega arith)

-- With a multiplier of at least two the delays of a request are together less than the multiplier
-- to the power of max_retries.
pub request_with_retry_waits :
    {S : Type 0} (send : S → Outcome × S) (config : RetryConfig) (s : S)
    → 2 ≤ config.retry_backoff_multiplier
    → sum (request_with_retry config send s).delays
      < power config.retry_backoff_multiplier config.max_retries
unfolding power
request_with_retry_waits send config s b =
    let tries = request_with_retry-Tries send config s in
    let total : sum (powers config.retry_backoff_multiplier 0 tries.retries) + 1
        ≤ power config.retry_backoff_multiplier tries.retries =
      (let e : 0 + tries.retries ≡ tries.retries = omega arith in
        rw e at (powers-sum config.retry_backoff_multiplier 0 tries.retries b)) in
    let few =
      power_monotone config.retry_backoff_multiplier tries.retries config.max_retries (omega arith)
        tries.enough in
    rw tries.waited (omega arith)
