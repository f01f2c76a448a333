-- ===== src/Executor/Cgroups.antt =====
-- The free cgroups (cgroups.rs) and the jobs that hold one: `execute_job` of job_handler.rs reserves a
-- cgroup for each job it runs, and releases it however the job ends.
use oyster_monorepo.Base.{
  ℕ, suc, ◌+◌, ◌∙◌, ◌≤◌, ◌≡◌, refl, ap, Option, none, some, List, [], ◌∷◌, ◌++◌, map, arith, ◌==◌,
  if◌then◌else◌,
}

-- The names of cgroups are numbers.
pub record Cgroups : Type 0 where
  pub free : List ℕ

-- The last element, and the others.
abbrev pub split_last : ℕ → List ℕ → ℕ × List ℕ
split_last x [] = (x, [])
split_last x (y ∷ ys) = let rest = split_last y ys in (rest.0, x ∷ rest.1)

-- `Vec::swap_remove(0)` after the first element `x`: the last takes its place.
abbrev pub fill_first : List ℕ → List ℕ
fill_first [] = []
fill_first (y ∷ ys) = (split_last y ys).0 ∷ (split_last y ys).1

unfoldable pub reserve : Cgroups → Option (ℕ × Cgroups)
reserve c = elim c.free [ [] ↦ none | x ∷ rest ↦ some (x, record { free = fill_first rest }) ]

unfoldable pub release : Cgroups → ℕ → Cgroups
release c cgroup = record { free = c.free ++ cgroup ∷ [] }

-- The cgroups and the jobs that run, each with the cgroup it holds.
pub record Pool : Type 0 where
  pub cgroups : Cgroups
  pub running : List (ℕ × ℕ)

-- A job reserves a cgroup, or a job ends, by its own or at its timeout, and its cgroup is released.
pub data Step : Pool → Pool → Type 0 where
  starts :
      (p : Pool) (job cgroup : ℕ) (rest : Cgroups)
      → reserve p.cgroups ≡ some (cgroup, rest)
      → Step p (record { cgroups = rest; running = (job, cgroup) ∷ p.running })
  ends :
      (c : Cgroups) (before after : List (ℕ × ℕ)) (job cgroup : ℕ)
      → Step
          (record { cgroups = c; running = before ++ (job, cgroup) ∷ after })
          (record { cgroups = release c cgroup; running = before ++ after })

pub data Steps : Pool → Pool → Type 0 where
  here : (p : Pool) → Steps p p
  onward : (p q r : Pool) → Steps p q → Step q r → Steps p r

-- How often a cgroup is in a list.
unfoldable pub count : ℕ → List ℕ → ℕ
count c [] = 0
count c (x ∷ xs) = let rest = count c xs in if x == c then suc rest else rest

abbrev pub held : List (ℕ × ℕ) → List ℕ
held running = map (λ r. r.1) running

-- How often a cgroup is free or held.
abbrev pub places : ℕ → Pool → ℕ
places c p = count c p.cgroups.free + count c (held p.running)

pub count-append : (c : ℕ) (xs ys : List ℕ) → count c (xs ++ ys) ≡ count c xs + count c ys
unfolding count
count-append c [] ys = omega arith
count-append c (x ∷ xs) ys = ground (arith, count-append c xs ys)

count-split_last :
    (c x : ℕ) (ys : List ℕ) → count c ((split_last x ys).0 ∷ (split_last x ys).1) ≡ count c (x ∷ ys)
unfolding count
count-split_last c x [] = refl
count-split_last c x (y ∷ ys) = ground (arith, count-split_last c y ys)

count-fill_first : (c : ℕ) (rest : List ℕ) → count c (fill_first rest) ≡ count c rest
count-fill_first c [] = refl
count-fill_first c (y ∷ ys) = count-split_last c y ys

held-append : (before after : List (ℕ × ℕ)) → held (before ++ after) ≡ held before ++ held after
held-append [] after = refl
held-append (x ∷ before) after = ap (λ xs. x.1 ∷ xs) (held-append before after)

count-held :
    (c : ℕ) (before after : List (ℕ × ℕ))
    → count c (held (before ++ after)) ≡ count c (held before) + count c (held after)
count-held c before after =
    ap (count c) (held-append before after) ∙ count-append c (held before) (held after)

reserved-count :
    (c cgroup : ℕ) (free : List ℕ) (rest : Cgroups)
    → reserve (record { free = free }) ≡ some (cgroup, rest)
    → count c free ≡ count c (cgroup ∷ rest.free)
unfolding reserve count
reserved-count c cgroup [] rest h = ground arith
reserved-count c cgroup (x ∷ xs) rest h = ground (arith, count-fill_first c xs)

count-reserve :
    (c cgroup : ℕ) (s rest : Cgroups)
    → reserve s ≡ some (cgroup, rest)
    → count c s.free ≡ count c (cgroup ∷ rest.free)
unfolding reserve
count-reserve c cgroup s rest h = ground (arith, reserved-count c cgroup s.free rest h)

count-release :
    (c cgroup : ℕ) (s : Cgroups) → count c (release s cgroup).free ≡ count c (cgroup ∷ s.free)
unfolding release count
count-release c cgroup s = ground (arith, count-append c s.free (cgroup ∷ []))

places-Step : (c : ℕ) (p q : Pool) → Step p q → places c q ≡ places c p
unfolding count
places-Step c a b (starts p job cgroup rest h) =
    ground (arith, count-reserve c cgroup p.cgroups rest h)
places-Step c a b (ends s before after job cgroup) = ground (
  arith,
  count-release c cgroup s,
  count-held c before after,
  count-held c before ((job, cgroup) ∷ after),
)

-- Whatever jobs start and end, each cgroup stays as often free or held as it was.
pub places-Steps : (c : ℕ) (p q : Pool) → Steps p q → places c q ≡ places c p
places-Steps c p q (here r) = refl
places-Steps c p q (onward a r b h k) = places-Step c r b k ∙ places-Steps c a r h

-- The pool at the start: all cgroups are free.
abbrev pub fresh : List ℕ → Pool
fresh names = record { cgroups = record { free = names }; running = [] }

-- Where the names of the cgroups are distinct: whatever jobs have started and ended since, the cgroup of
-- a running job is one of them, no other running job holds it, and it is not free.
pub cgroups_exclusive :
    (names : List ℕ) (q : Pool)
    → ((c : ℕ) → count c names ≤ 1)
    → Steps (fresh names) q
    → (before after : List (ℕ × ℕ)) (job cgroup : ℕ) → q.running ≡ before ++ (job, cgroup) ∷ after
    → (count cgroup names ≡ 1)
      × (count cgroup (held (before ++ after)) ≡ 0)
      × (count cgroup q.cgroups.free ≡ 0)
unfolding count
cgroups_exclusive names q distinct h before after job cgroup e = ground (
  arith,
  distinct cgroup,
  places-Steps cgroup (fresh names) q h,
  count-held cgroup before after,
  count-held cgroup before ((job, cgroup) ∷ after),
  ap (λ r. count cgroup (held r)) e,
)
