-- ===== src/Market/Funds.antt =====
-- The solvency of a job: the time that its balance still pays for, and how its logs move the balance.
use oyster_monorepo.Base.{
  ℕ, ◌+◌, ◌-◌, ◌*◌, ◌/◌, ◌^◌, ◌≤◌, ◌<◌, ◌≡◌, ◌≢◌, refl, true, false, some, arith, ◌==◌, Bool-cases,
  inl, inr,
}
use oyster_monorepo.Base.Words.{u64_max, mul_u256, saturating_to_u64, sub_u256-add_u256}
use native.Mathlib.Nat.{mul-le-mul_right, div-add-mod', mod-eq_of_lt, min-le_left}
use oyster_monorepo.Chain.{Log, Codec}
use oyster_monorepo.Market.State.{JobState, from_secs, insolvency_duration, schedule_termination}
use oyster_monorepo.Market.Flow.{next, ◌>>◌}
use oyster_monorepo.Market.Machine.{Moment, insolvency, is_enabled}
use oyster_monorepo.Market.Logs.{
  process_deposited, process_withdrew, process_revise_rate_initiated, process_revise_rate_cancelled,
  process_revise_rate_finalized, revise_rate,
}

-- `cap` seconds are at most what `funds` pay for at `rate`.
paid_lem : (funds rate cap : ℕ) → cap ≤ funds / rate → cap * rate ≤ funds
paid_lem funds rate cap h = omega (arith, mul-le-mul_right rate h, div-add-mod' funds rate)

scale :
    (t l q rate funds : ℕ)
    → t ≡ l + from_secs q
    → q * rate ≤ funds
    → t * rate ≤ l * rate + from_secs funds
scale t l q rate funds e h = rw e (omega (arith, h))

wait_end :
    (now last q d : ℕ)
    → d ≡ from_secs (q - 300) - (now - last)
    → last ≤ now
    → 0 < d
    → now + d + from_secs 300 ≡ last + from_secs q
wait_end now last q d e past waits = omega arith

-- The time that is waited for before a job is taken for insolvent: where there is such a time, the
-- last settlement is past, and the scaled balance fits a U256, the whole time from the last
-- settlement to the end of the wait, with the margin of 300 seconds added, is paid for by the
-- balance.
pub insolvency_duration_paid :
    (now_timestamp : ℕ) (s : JobState)
    → s.balance * 10 ^ 12 < 2 ^ 256
    → s.last_settled ≤ now_timestamp
    → 0 < insolvency_duration now_timestamp s
    → (now_timestamp + insolvency_duration now_timestamp s + from_secs 300) * s.rate
      ≤ s.last_settled * s.rate + from_secs (s.balance * 10 ^ 12)
unfolding insolvency_duration mul_u256 saturating_to_u64
insolvency_duration_paid now_timestamp s fits past waits = elim (Bool-cases (s.rate == 0)) [
  | inl zero_rate ↦ absurd (ground arith)
  | inr has_rate ↦
      let q = saturating_to_u64 (mul_u256 s.balance (10 ^ 12) / s.rate) in
      let e : insolvency_duration now_timestamp s
          ≡ from_secs (q - 300) - (now_timestamp - s.last_settled) =
        rw (has_rate, insolvency_duration) in
      scale _ s.last_settled q s.rate (s.balance * 10 ^ 12)
        (wait_end now_timestamp s.last_settled q (insolvency_duration now_timestamp s) e past waits)
        (paid_lem (s.balance * 10 ^ 12) s.rate q (rw (mod-eq_of_lt fits) (min-le_left _ _)))
]

-- A job with no rate is insolvent at once.
insolvency_duration_zero :
    (now_timestamp : ℕ) (s : JobState) → s.rate ≡ 0 → insolvency_duration now_timestamp s ≡ 0
unfolding insolvency_duration
insolvency_duration_zero now_timestamp s h = ground arith

due :
    (q d spent start now : ℕ)
    → d ≡ from_secs (q - 300) - spent
    → start + d ≤ now
    → from_secs q ≤ spent + (now - start) + from_secs 300
due q d spent start now e h = omega arith

seconds_lem : (q : ℕ) → q ≤ u64_max → saturating_to_u64 q ≡ q
unfolding saturating_to_u64
seconds_lem q h = ground arith

insolvency_duration_exact :
    (now_timestamp : ℕ) (s : JobState)
    → s.balance * 10 ^ 12 < 2 ^ 256
    → s.balance * 10 ^ 12 / s.rate ≤ u64_max
    → (s.rate == 0) ≡ false
    → insolvency_duration now_timestamp s
      ≡ from_secs (s.balance * 10 ^ 12 / s.rate - 300) - (now_timestamp - s.last_settled)
unfolding insolvency_duration mul_u256
insolvency_duration_exact now_timestamp s fits small has_rate =
    rw
      (
        has_rate,
        insolvency_duration,
        mod-eq_of_lt fits,
        seconds_lem (s.balance * 10 ^ 12 / s.rate) small,
      )
      refl

wait_over :
    (at : Moment) (s : JobState)
    → is_enabled at s insolvency ≡ true
    → at.start + insolvency_duration at.timestamp s ≤ at.now
unfolding is_enabled
wait_over at s on = ground arith

-- A job with a rate, whose scaled balance fits a U256, is not taken for insolvent too early: when
-- the branch of the insolvency is taken, the time that the balance pays for from the last
-- settlement, in seconds that a u64 holds, is over but for 300 seconds at most, on the clock that
-- goes on from the timestamp of the turn's start.
pub insolvency_not_early :
    (at : Moment) (s : JobState)
    → s.balance * 10 ^ 12 < 2 ^ 256
    → s.balance * 10 ^ 12 / s.rate ≤ u64_max
    → s.rate ≢ 0
    → is_enabled at s insolvency ≡ true
    → from_secs (s.balance * 10 ^ 12 / s.rate)
      ≤ (at.timestamp - s.last_settled) + (at.now - at.start) + from_secs 300
insolvency_not_early at s fits small has_rate on =
    let q = s.balance * 10 ^ 12 / s.rate in
    let waits = wait_over at s on in
    let d = insolvency_duration_exact at.timestamp s fits small (ground arith) in
    due q (insolvency_duration at.timestamp s) (at.timestamp - s.last_settled) at.start at.now d
      waits

-- Where balance and amount are U256s, a deposit followed by the withdrawal of the same amount
-- leaves the state as it was.
pub withdrew-deposited :
    (c : Codec) (deposit withdrawal : Log) (s : JobState) (amount : ℕ)
    → c.decode_u256 deposit.payload ≡ some amount
    → c.decode_u256 withdrawal.payload ≡ some amount
    → s.balance < 2 ^ 256
    → amount < 2 ^ 256
    → (process_deposited c deposit >> process_withdrew c withdrawal) s ≡ next tt s
unfolding process_deposited process_withdrew
withdrew-deposited c deposit withdrawal s amount d w hs ha =
    ground (arith, sub_u256-add_u256 s.balance amount hs ha)

-- For logs that can be read and give the same rate: a revision of the rate that is cancelled leaves
-- the rate of the last agreement, and one that is finalized makes the new rate that agreement.
pub cancelled-initiated :
    (c : Codec) (now : ℕ) (initiated finalized : Log) (s : JobState) (rate : ℕ)
    → c.decode_u256 initiated.payload ≡ some rate
    → c.decode_u256 finalized.payload ≡ some rate
    → let t = revise_rate c now rate s in
      ((process_revise_rate_initiated c now initiated >> process_revise_rate_cancelled c) s
        ≡ next tt (record t { rate = s.rate }))
      × ((process_revise_rate_initiated c now initiated
              >> process_revise_rate_finalized c finalized)
            s
          ≡ next tt (record t { original_rate = rate }))
unfolding process_revise_rate_initiated process_revise_rate_cancelled process_revise_rate_finalized
    schedule_termination
cancelled-initiated c now initiated finalized s rate i f = ground arith
