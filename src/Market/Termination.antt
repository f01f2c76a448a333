-- ===== src/Market/Termination.antt =====
-- How a job's task ends, and what the provider has told of its instance.
use oyster_monorepo.Base.{
  ℕ, String, ◌≡◌, ◌⊎◌, ◌∙◌, refl, Bool, true, false, not, ◌||◌, Option, none, some, List, [], ◌∷◌,
  arith, if◌then◌else◌, str_eq, Bool-cases, inl, inr,
}
use oyster_monorepo.Chain.{Log, Codec}
use oyster_monorepo.Market.State.{JobState, RegionalRates, GbRateCard}
use oyster_monorepo.Market.Flow.{ReturnCode, success, recoverable, unrecoverable, not_allowed}
use oyster_monorepo.Market.Metadata.{Serde}
use oyster_monorepo.Market.Infra.{
  InfraProvider, change_infra, change_infra_impl, with_instance, terminated, terminate_mode,
  reschedule,
}
use oyster_monorepo.Market.Machine.{
  Moment, Wake, log_arrived, heartbeat, insolvency, infra_change, is_enabled, Turn, running, exited,
  panicked, after_change, take_turn, job_manager_once,
}

module _ {S : Type 0} (infra : InfraProvider S) where
  -- In a state in which the job's instance is to be down, the provider has told of it, by the job and its
  -- region, that there is none or that it is going down, and nothing was done since, or it has taken
  -- the instance down that it had told of.
  abbrev pub IsConfirmed : JobState → S → Type 0
  IsConfirmed s w =
      (w₀ : S) × (w₁ : S) × (exist : Bool) × (instance_id : String) × (state : String)
      × (s.infra_state ≡ false)
      × (infra.get_job_instance s.job_id s.region w₀ ≡ (some (exist, instance_id, state), w₁))
      × ((((not exist || (str_eq state "shutting-down" || str_eq state "terminated")) ≡ true)
            × (w ≡ w₁))
          ⊎ (infra.spin_down instance_id s.job_id s.region w₁ ≡ (true, w)))

  abbrev IsDown : Bool × JobState × S → Type 0
  IsDown (done, s, w) = done ≡ true → IsConfirmed s w

  terminated-IsDown :
      (exist : Bool) (instance_id state : String) (s : JobState) (w w' : S) (t : Bool × S)
      → s.infra_state ≡ false
      → infra.get_job_instance s.job_id s.region w ≡ (some (exist, instance_id, state), w')
      → infra.spin_down instance_id s.job_id s.region w' ≡ t
      → IsDown (terminated infra s t)
  terminated-IsDown exist instance_id state s w w' (r, w'') off h e d =
      (w, w', exist, instance_id, state, off, h, inr (rw d at e))

  terminate_mode-IsDown :
      (exist : Bool) (instance_id state : String) (s : JobState) (w w' : S)
      → s.infra_state ≡ false
      → infra.get_job_instance s.job_id s.region w ≡ (some (exist, instance_id, state), w')
      → IsDown (terminate_mode infra exist instance_id state s w')
  terminate_mode-IsDown exist instance_id state s w w' off h =
      let over = not exist || (str_eq state "shutting-down" || str_eq state "terminated") in
      elim (Bool-cases over) [
        | inl e ↦ rw e (λ d. (w, w', exist, instance_id, state, off, h, inl (e, refl)))
        | inr e ↦ rw e (
            terminated-IsDown exist instance_id state s w w'
              (infra.spin_down instance_id s.job_id s.region w') off h refl)
      ]

  second :
      (b : Bool) (x y : Bool × JobState × S) → b ≡ false → IsDown y → IsDown (if b then x else y)
  second true x y e h = absurd (ground arith)
  second false x y e h = h

  answered :
      (s : JobState) (w : S) (o : Option (Bool × String × String) × S)
      → s.infra_state ≡ false
      → infra.get_job_instance s.job_id s.region w ≡ o
      → IsDown (with_instance infra s o)
  answered s w (none, w') off h = λ d. absurd (ground arith)
  answered s w (some (exist, instance_id, state), w') off h =
      second s.infra_state _ _ off (terminate_mode-IsDown exist instance_id state s w w' off h)

  rescheduled : (now : ℕ) (t : Bool × JobState × S) → IsDown t → IsDown (reschedule infra now t)
  rescheduled now (true, s, w) h = h
  rescheduled now (false, s, w) h = λ d. absurd (ground arith)

  -- A termination that reports success is one that the provider has confirmed.
  change_infra_terminates :
      (now : ℕ) (s : JobState) (w : S) → s.infra_state ≡ false → IsDown (change_infra infra now s w)
  unfolding change_infra
  change_infra_terminates now s w off =
      rescheduled now (change_infra_impl infra s w)
        (answered s w (infra.get_job_instance s.job_id s.region w) off refl)

  change_infra-infra_state :
      (now : ℕ) (s : JobState) (w : S) → (change_infra infra now s w).1.infra_state ≡ s.infra_state
  unfolding change_infra
  change_infra-infra_state now s w = ground arith

  after_change_lem :
      (t : Bool × JobState × S) (e : ReturnCode) {s' : JobState} {w' : S}
      → after_change t ≡ exited e s' w'
      → IsDown t
      → (t.1.infra_state ≡ false) × (e ≡ success) × IsConfirmed s' w'
  after_change_lem (done, s, w) e {s'} {w'} h down =
      let off : s.infra_state ≡ false = ground arith in
      let d : done ≡ true = ground arith in
      let p : s' ≡ s = ground arith in
      let q : w' ≡ w = ground arith in
      let i : e ≡ success = ground arith in (off, i, rw (p, q) (down d))

  no_change :
      (t : Bool × JobState × S) (e : ReturnCode) {s' : JobState} {w' : S}
      → t.1.infra_state ≡ true
      → after_change t ≡ exited e s' w'
      → ⊥
  no_change t e on h = ground arith

  change_infra_exit :
      (now : ℕ) (s : JobState) (w : S) (e : ReturnCode) {s' : JobState} {w' : S}
      → after_change (change_infra infra now s w) ≡ exited e s' w'
      → (e ≡ success) × IsConfirmed s' w'
  change_infra_exit now s w e h = elim (Bool-cases s.infra_state) [
    | inl on ↦
        absurd (no_change (change_infra infra now s w) e (change_infra-infra_state now s w ∙ on) h)
    | inr off ↦
        let (down, i, confirmed) =
          after_change_lem (change_infra infra now s w) e h (change_infra_terminates now s w off) in
        (i, confirmed)
  ]

  module _ {Value : Type 0} (c : Codec) (j : Serde Value) (rates : List RegionalRates)
      (gb_rates : List GbRateCard) (whitelist blacklist : List String) where
    -- How a turn may end the loop.
    abbrev pub EndsWell : ReturnCode → JobState → S → Type 0
    EndsWell success s w = IsConfirmed s w
    EndsWell recoverable s w = Unit {0}
    EndsWell unrecoverable s w = Unit {0}
    EndsWell not_allowed s w = ⊥

    by_log :
        (now : ℕ) (log : Option Log) (s : JobState) (w : S) (e : ReturnCode) {s' : JobState}
        {w' : S}
        → take_turn c j infra rates gb_rates whitelist blacklist now (log_arrived log) s w
          ≡ exited e s' w'
        → (e ≡ recoverable) ⊎ (e ≡ unrecoverable)
    unfolding take_turn
    by_log now log s w success h = absurd (ground arith)
    by_log now log s w recoverable h = inl refl
    by_log now log s w unrecoverable h = inr refl
    by_log now log s w not_allowed h = absurd (ground arith)

    take_turn-EndsWell :
        (now : ℕ) (wake : Wake) (s : JobState) (w : S) (e : ReturnCode) {s' : JobState} {w' : S}
        → take_turn c j infra rates gb_rates whitelist blacklist now wake s w ≡ exited e s' w'
        → EndsWell e s' w'
    unfolding take_turn
    take_turn-EndsWell now (log_arrived log) s w e h = elim (by_log now log s w e h) [
      | inl r ↦ rw r tt
      | inr u ↦ rw u tt
    ]
    take_turn-EndsWell now heartbeat s w e h = absurd (ground arith)
    take_turn-EndsWell now insolvency s w e h = absurd (ground arith)
    take_turn-EndsWell now infra_change s w e h =
        let (p, confirmed) = change_infra_exit now s w e h in rw p confirmed

    ends :
        (wakes : List (Moment × Wake)) (s : JobState) (w : S) (b : Bool) (t : Turn S)
        (e : ReturnCode) {s' : JobState} {w' : S}
        → (t ≡ exited e s' w' → EndsWell e s' w')
        → ((s₁ : JobState) (w₁ : S)
            → job_manager_once c j infra rates gb_rates whitelist blacklist wakes s₁ w₁
              ≡ exited e s' w'
            → EndsWell e s' w')
        → (if b
            then elim t as (λ x. Turn S) [
              | running s₁ w₁ ↦
                  job_manager_once c j infra rates gb_rates whitelist blacklist wakes s₁ w₁
              | exited e₁ s₁ w₁ ↦ exited e₁ s₁ w₁
              | panicked w₁ ↦ panicked w₁
            ]
            else job_manager_once c j infra rates gb_rates whitelist blacklist wakes s w)
          ≡ exited e s' w'
        → EndsWell e s' w'
    ends wakes s w true (running s₁ w₁) e now later h = later s₁ w₁ h
    ends wakes s w true (exited e₁ s₁ w₁) e now later h = now h
    ends wakes s w true (panicked w₁) e now later h = absurd (ground arith)
    ends wakes s w false t e now later h = later s w h

    pub job_manager_once-EndsWell :
        (wakes : List (Moment × Wake)) (s : JobState) (w : S) (e : ReturnCode) {s' : JobState}
        {w' : S}
        → job_manager_once c j infra rates gb_rates whitelist blacklist wakes s w ≡ exited e s' w'
        → EndsWell e s' w'
    unfolding job_manager_once
    job_manager_once-EndsWell [] s w e h = absurd (ground arith)
    job_manager_once-EndsWell ((at, wake) ∷ wakes) s w e h =
        ends wakes s w (is_enabled at s wake)
          (take_turn c j infra rates gb_rates whitelist blacklist at.now wake s w) e
          (take_turn-EndsWell at.now wake s w e) (λ s₁ w₁. job_manager_once-EndsWell wakes s₁ w₁ e)
          h
