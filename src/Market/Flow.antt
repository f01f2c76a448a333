-- ===== src/Market/Flow.antt =====
-- The control flow of `process_log`: a step goes on with a value, returns early with a code, or
-- panics; the state of the job is threaded through.
use oyster_monorepo.Base.{ℕ, Bool, true, false, Option, none, some, get_elem?}
use oyster_monorepo.Chain.{Log}
use oyster_monorepo.Market.State.{JobState, schedule_termination}

-- The codes that `process_log` returns: 0, -1, -2 and -3.
pub data ReturnCode : Type 0 where
  success recoverable unrecoverable not_allowed : ReturnCode

pub data Flow (A : Type 0) : Type 0 where
  next : A → JobState → Flow A
  exit : ReturnCode → JobState → Flow A
  panic : Flow A

abbrev pub J : Type 0 → Type 0
J A = JobState → Flow A

infixl 5 ◌>>=◌ ◌>>◌
abbrev pub ◌>>=◌ : {A B : Type 0} → J A → (A → J B) → J B
◌>>=◌ m f s = elim (m s) [ next a s' ↦ f a s' | exit e s' ↦ exit e s' | panic ↦ panic ]

abbrev pub ◌>>◌ : {A B : Type 0} → J A → J B → J B
m >> k = m >>= λ _. k

module _ {A : Type 0} where
  abbrev pub pure : A → J A
  pure a s = next a s

  abbrev pub return_with : ReturnCode → J A
  return_with e s = exit e s

  abbrev pub crash : J A
  crash s = panic

  -- `let Some(x) = o else { return e };`, also for `Ok`.
  abbrev pub let_some : Option A → ReturnCode → J A
  let_some none e s = exit e s
  let_some (some a) e s = next a s

  -- The same with `self.schedule_termination(0)` before the return, as the metadata update does it.
  abbrev pub or_terminate : ℕ → Option A → J A
  or_terminate now none s = exit ReturnCode.unrecoverable (schedule_termination now 0 s)
  or_terminate now (some a) s = next a s

  -- A panic where there is no value.
  abbrev pub unwrap : Option A → J A
  unwrap none s = panic
  unwrap (some a) s = next a s

abbrev pub modify : (JobState → JobState) → J (Unit {0})
modify f s = next tt (f s)

abbrev pub get : {A : Type 0} → (JobState → A) → J A
get f s = next (f s) s

-- `if b { return e }`
abbrev pub return_if : Bool → ReturnCode → J (Unit {0})
return_if true e s = exit e s
return_if false e s = next tt s

-- `if b { self.schedule_termination(0); return -2 }`
abbrev pub refuse_if : ℕ → Bool → J (Unit {0})
refuse_if now true s = exit ReturnCode.unrecoverable (schedule_termination now 0 s)
refuse_if now false s = next tt s

-- `log.topics()[n]`
abbrev pub topic : ℕ → Log → J ℕ
topic n log = unwrap (get_elem? log.topics n)
