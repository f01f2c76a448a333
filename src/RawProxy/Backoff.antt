-- ===== src/RawProxy/Backoff.antt =====
-- `run_with_backoff` of lib.rs, over the results of the function that it runs.
use oyster_monorepo.Base.{
  ℕ, zero, suc, ◌*◌, ◌^◌, ◌≤◌, ◌≡◌, refl, Option, none, some, List, [], ◌∷◌, arith, ltb,
  if◌then◌else◌,
}
use Prim.Native.Nat.{min}
use native.Mathlib.Nat.{min-eq_left, pow-suc, one-le-pow}

-- `(backoff * 2).clamp(1, max_backoff)`; it panics where the limits are the wrong way round.
unfoldable pub next_wait : ℕ → ℕ → Option ℕ
next_wait max_backoff backoff =
    let doubled = backoff * 2 in
    if ltb max_backoff 1
    then none
    else if ltb doubled 1
    then some 1
    else if ltb max_backoff doubled
    then some max_backoff
    else some doubled

-- What has been made of the attempts: a value, a panic, or a wait for the next of them.
pub data Run (R : Type 0) : Type 0 where
  returned : R → Run R
  trying panicked : Run R

-- The waits of so many failures from the `k`-th on: powers of two, up to the limit.
abbrev pub powers : ℕ → ℕ → ℕ → List ℕ
powers max_backoff k zero = []
powers max_backoff k (suc n) = min (2 ^ k) max_backoff ∷ powers max_backoff (suc k) n

next_wait_lem :
    (max_backoff k : ℕ)
    → 1 ≤ max_backoff
    → next_wait max_backoff (min (2 ^ k) max_backoff) ≡ some (min (2 ^ suc k) max_backoff)
unfolding next_wait
next_wait_lem max_backoff k h = ground (arith, pow-suc 2 k, one-le-pow k 2 (omega arith))

module _ {R : Type 0} where
  -- The results that come, with the seconds slept.
  unfoldable pub run_from : ℕ → ℕ → List (Option R) → List ℕ × Run R
  run_from max_backoff backoff [] = ([], trying)
  run_from max_backoff backoff (some r ∷ rest) = ([], returned r)
  run_from max_backoff backoff (none ∷ rest) = elim (next_wait max_backoff backoff) [
    | none ↦ (backoff ∷ [], panicked)
    | some next ↦ let (sleeps, r) = run_from max_backoff next rest in (backoff ∷ sleeps, r)
  ]

  unfoldable pub run_with_backoff : ℕ → List (Option R) → List ℕ × Run R
  run_with_backoff max_backoff results = run_from max_backoff 1 results

  -- So many failures, and then a success.
  abbrev pub failing : ℕ → R → List (Option R) → List (Option R)
  failing zero r rest = some r ∷ rest
  failing (suc n) r rest = none ∷ failing n r rest

  run_from_lem :
      (max_backoff k n : ℕ) (r : R) (rest : List (Option R))
      → 1 ≤ max_backoff
      → run_from max_backoff (min (2 ^ k) max_backoff) (failing n r rest)
        ≡ (powers max_backoff k n, returned r)
  unfolding run_from
  run_from_lem max_backoff k zero r rest h = refl
  run_from_lem max_backoff k (suc n) r rest h =
      ground (arith, next_wait_lem max_backoff k h, run_from_lem max_backoff (suc k) n r rest h)

  -- With a limit of at least a second, the value of the first success is returned, and before it the
  -- waits after the failures are 1, 2, 4 and so on seconds, each at most the limit.
  pub run_with_backoff_lem :
      (max_backoff n : ℕ) (r : R) (rest : List (Option R))
      → 1 ≤ max_backoff
      → run_with_backoff max_backoff (failing n r rest) ≡ (powers max_backoff 0 n, returned r)
  unfolding run_with_backoff
  run_with_backoff_lem max_backoff n r rest h =
      let e : min (2 ^ 0) max_backoff ≡ 1 = min-eq_left h in
      rw e at (run_from_lem max_backoff 0 n r rest h)
