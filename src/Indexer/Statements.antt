-- ===== src/Indexer/Statements.antt =====
-- What the handlers' statements do to a database with unique keys.
use oyster_monorepo.Base.{
  String, ◌≡◌, refl, Bool, false, Option, none, some, inl, inr, ◌∷◌, arith, ◌==◌, if◌then◌else◌,
  sym, ◌∙◌, str_eq, eq_iff, eq_refl, str_eq_cases,
}
use oyster_monorepo.Indexer.Table.{
  lookup, insert, update_where, IsKeyed, lookup-update_where, update_where_count, update_where_none,
}
use oyster_monorepo.Indexer.Db.{
  Provider, Job, Transaction, Db, Error, Outcome, ok, err, panic, M, has_key, insert_job,
  insert_transaction, could_not_find_job, ensure, update_jobs, update_providers, ◌>>=◌, ◌>>◌,
}
use oyster_monorepo.Indexer.Jobs.{is_open, update_open_job}

-- The database with `f` applied to job `id`, if it is open.
abbrev pub with_job : String → (Job → Job) → Db → Db
with_job id f db = record db { jobs = (update_where id is_open f db.jobs).1 }

abbrev pub open_result : String → (Job → Job) → Db → Option Job → Outcome (Unit {0}) × Db
open_result id f db none = (err could_not_find_job, db)
open_result id f db (some j) =
    if j.is_closed then (err could_not_find_job, db) else (ok tt, with_job id f db)

-- Where each job has one row, an update of an open job succeeds exactly where the job is there and
-- open; else nothing changes.
update_open_job_lem :
    (id : String) (f : Job → Job) (db : Db)
    → IsKeyed db.jobs
    → update_open_job id f db ≡ open_result id f db (lookup id db.jobs)
unfolding update_open_job update_jobs
update_open_job_lem id f db h =
    ground
      (arith, update_where_count id is_open f db.jobs h, update_where_none id is_open f db.jobs)

-- The same for the providers, where `p` tells which may be updated.
abbrev pub with_provider : String → (Provider → Bool) → (Provider → Provider) → Db → Db
with_provider id p f db = record db { providers = (update_where id p f db.providers).1 }

abbrev pub provider_result :
    Error
    → String
    → (Provider → Bool)
    → (Provider → Provider)
    → Db
    → Option Provider
    → Outcome (Unit {0}) × Db
provider_result e id p f db none = (err e, db)
provider_result e id p f db (some v) = if p v then (ok tt, with_provider id p f db) else (err e, db)

pub update_providers_lem :
    (e : Error) (id : String) (p : Provider → Bool) (f : Provider → Provider) (db : Db)
    → IsKeyed db.providers
    → (update_providers id p f >>= λ count. ensure (count == 1) e) db
      ≡ provider_result e id p f db (lookup id db.providers)
unfolding update_providers
update_providers_lem e id p f db h =
    ground (arith, update_where_count id p f db.providers h, update_where_none id p f db.providers)

-- A job that is found and open.
abbrev pub IsOpenJob : String → Db → Job → Type 0
IsOpenJob id db j = (lookup id db.jobs ≡ some j) × (j.is_closed ≡ false)

open_result_ok :
    (id : String) (f : Job → Job) (db : Db) (o : Option Job) {db' : Db}
    → open_result id f db o ≡ (ok tt, db')
    → (j : Job) × (o ≡ some j) × (j.is_closed ≡ false) × (db' ≡ with_job id f db)
open_result_ok id f db none h = absurd (ground arith)
open_result_ok id f db (some j) h = (j, ground arith, ground arith, ground arith)

-- Inversion of a successful update.
pub update_open_job_ok :
    (id : String) (f : Job → Job) (db : Db) {db' : Db}
    → IsKeyed db.jobs
    → update_open_job id f db ≡ (ok tt, db')
    → (j : Job) × (lookup id db.jobs ≡ some j) × (j.is_closed ≡ false) × (db' ≡ with_job id f db)
update_open_job_ok id f db k h =
    open_result_ok id f db (lookup id db.jobs) (sym (update_open_job_lem id f db k) ∙ h)

-- What the jobs are after a successful update.
pub lookup-with_job :
    (id i : String) (f : Job → Job) (db : Db) {j : Job}
    → lookup id db.jobs ≡ some j
    → j.is_closed ≡ false
    → lookup i (with_job id f db).jobs ≡ (if str_eq id i then some (f j) else lookup i db.jobs)
lookup-with_job id i f db e o =
    rw (lookup-update_where id i is_open f db.jobs) (elim (str_eq_cases id i) [
      | inl p ↦ rw (← p, e, o, eq_refl) refl
      | inr (n, d) ↦ ground (arith, eq_iff i id)
    ])

bind_ok :
    {A B : Type 0} (r : Outcome A × Db) (k : A → M B) {b : B} {db' : Db}
    → (elim r.0 [ ok a ↦ k a r.1 | err e ↦ (err e, r.1) | panic ↦ (panic, r.1) ]) ≡ (ok b, db')
    → (a : A) × (d : Db) × (r ≡ (ok a, d)) × (k a d ≡ (ok b, db'))
bind_ok (ok a, d) k h = (a, d, refl, h)
bind_ok (err e, d) k h = absurd (ground arith)
bind_ok (panic, d) k h = absurd (ground arith)

-- Inversion of a sequence that succeeds.
pub >>-ok :
    {A B : Type 0} (m : M A) (k : M B) (db : Db) {b : B} {db' : Db}
    → (m >> k) db ≡ (ok b, db')
    → (a : A) × (d : Db) × (m db ≡ (ok a, d)) × (k d ≡ (ok b, db'))
>>-ok m k db h = bind_ok (m db) (λ a. k) h

-- Inversion of a successful insertion.
pub insert_transaction_ok :
    (x : Transaction) (db : Db) {db' : Db}
    → insert_transaction x db ≡ (ok tt, db')
    → (has_key x db.transactions ≡ false) × (db' ≡ record db { transactions = x ∷ db.transactions })
unfolding insert_transaction
insert_transaction_ok x db h = ground arith

pub insert_job_ok :
    (id : String) (j : Job) (db : Db) {db' : Db}
    → insert_job id j db ≡ (ok tt, db')
    → (lookup id db.jobs ≡ none) × (db' ≡ record db { jobs = (id, j) ∷ db.jobs })
unfolding insert_job insert
insert_job_ok id j db h = ground arith
