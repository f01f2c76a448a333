-- ===== src/Indexer/Validity.antt =====
-- The constraints of the schema hold of the database after every log, and so after every range.
use oyster_monorepo.Base.{
  String, ◌≡◌, ◌≢◌, Bool, true, false, not, none, inl, inr, List, [], ◌∷◌, arith, Option-cases, All,
}
use oyster_monorepo.Chain.{Log, Codec}
use oyster_monorepo.Indexer.Table.{
  Table, lookup, update_where, insert, delete, IsKeyed, lookup-update_where, update_where-IsKeyed,
  lookup-insert, insert-IsKeyed, delete-IsKeyed,
}
use oyster_monorepo.Indexer.Db.{
  Provider, Job, ReviseRateRequest, Transaction, Db, Outcome, ok, err, panic, M, has_key,
  update_jobs, update_providers, insert_job, insert_transaction,
}
use oyster_monorepo.Indexer.Providers.{upsert_provider}
use oyster_monorepo.Indexer.Jobs.{is_open, settle, update_open_job}
use oyster_monorepo.Indexer.Locks.{insert_request, delete_request}
use oyster_monorepo.Indexer.Message.{Message, set_column, moved, apply}
use oyster_monorepo.Indexer.Dispatch.{handle_log, handle_logs}
use oyster_monorepo.Indexer.Parse.{parse}
use oyster_monorepo.Indexer.Parsing.{run_parsed, handle_log-parse}

-- PRIMARY KEY (block, idx)
abbrev pub IsUnique : List Transaction → Type 0
IsUnique [] = Unit
IsUnique (x ∷ xs) = (has_key x xs ≡ false) × IsUnique xs

-- REFERENCES jobs (id)
abbrev pub RefersTo : Table Job → Transaction → Type 0
RefersTo jobs x = lookup x.job jobs ≢ none

abbrev pub RequestRefersTo : Table Job → String × ReviseRateRequest → Type 0
RequestRefersTo jobs (id, r) = lookup id jobs ≢ none

-- The primary keys and the foreign keys of the schema.
pub record IsValid (db : Db) : Type 0 where
  pub providers_keyed : IsKeyed db.providers
  pub jobs_keyed : IsKeyed db.jobs
  pub requests_keyed : IsKeyed db.revise_rate_requests
  pub transactions_keyed : IsUnique db.transactions
  pub transactions_refer : All (RefersTo db.jobs) db.transactions
  pub requests_refer : All (RequestRefersTo db.jobs) db.revise_rate_requests

All-mono :
    {A : Type 0} {P Q : A → Type 0} (xs : List A) → ((x : A) → P x → Q x) → All P xs → All Q xs
All-mono [] h a = tt
All-mono (x ∷ xs) h a = (h x a.0, All-mono xs h a.1)

-- No job goes away.
abbrev Keeps : Table Job → Table Job → Type 0
Keeps jobs jobs' = (id : String) → lookup id jobs ≢ none → lookup id jobs' ≢ none

with_jobs-IsValid :
    (db : Db) (jobs : Table Job)
    → Keeps db.jobs jobs
    → IsKeyed jobs
    → IsValid db
    → IsValid (record db { jobs = jobs })
with_jobs-IsValid db jobs keeps keyed v = record {
  providers_keyed = v.providers_keyed;
  jobs_keyed = keyed;
  requests_keyed = v.requests_keyed;
  transactions_keyed = v.transactions_keyed;
  transactions_refer = All-mono db.transactions (λ x. keeps x.job) v.transactions_refer;
  requests_refer = All-mono db.revise_rate_requests (λ r. keeps r.0) v.requests_refer;
}

delete-All :
    (P : String × ReviseRateRequest → Type 0) (id : String) (t : Table ReviseRateRequest)
    → All P t
    → All P (delete id t)
unfolding delete
delete-All P id [] h = tt
delete-All P id ((j, r) ∷ t) h = ground (arith, delete-All P id t h.1)

-- An action keeps the constraints, however it ends.
abbrev Preserves : {A : Type 0} → M A → Type 0
Preserves m = (db : Db) → IsValid db → IsValid (m db).1

update_jobs-Preserves :
    (id : String) (p : Job → Bool) (f : Job → Job) → Preserves (update_jobs id p f)
unfolding update_jobs
update_jobs-Preserves id p f db v =
    with_jobs-IsValid db (update_where id p f db.jobs).1
      (λ j. ground (arith, lookup-update_where id j p f db.jobs))
      (update_where-IsKeyed id p f db.jobs v.jobs_keyed) v

insert_job-Preserves : (id : String) (j : Job) → Preserves (insert_job id j)
unfolding insert_job
insert_job-Preserves id j db v = elim (Option-cases (insert id j db.jobs)) [
  | inl e ↦ rw (e, insert_job) v
  | inr (t, e) ↦
      rw (e, insert_job)
        (with_jobs-IsValid db t (λ i. ground (arith, lookup-insert id i j db.jobs e))
          (insert-IsKeyed id j db.jobs e v.jobs_keyed) v)
]

insert_transaction-Preserves : (x : Transaction) → Preserves (insert_transaction x)
unfolding insert_transaction
insert_transaction-Preserves x db v = ground arith

update_providers-Preserves :
    (id : String) (p : Provider → Bool) (f : Provider → Provider)
    → Preserves (update_providers id p f)
unfolding update_providers
update_providers-Preserves id p f db v =
    ground (arith, update_where-IsKeyed id p f db.providers v.providers_keyed)

upsert_provider-Preserves : (id cp : String) → Preserves (upsert_provider id cp)
unfolding upsert_provider
upsert_provider-Preserves id cp db v = ground (
  arith,
  update_providers-Preserves id (λ p. not p.is_active) (λ p. record p { is_active = true; cp = cp })
      db v,
)

insert_request-Preserves : (id : String) (r : ReviseRateRequest) → Preserves (insert_request id r)
unfolding insert_request insert
insert_request-Preserves id r db v = ground arith

delete_request-Preserves : (id : String) → Preserves (delete_request id)
unfolding delete_request
delete_request-Preserves id db v = ground (
  arith,
  delete-IsKeyed id db.revise_rate_requests v.requests_keyed,
  delete-All (RequestRefersTo db.jobs) id db.revise_rate_requests v.requests_refer,
)

update_open_job-Preserves : (id : String) (f : Job → Job) → Preserves (update_open_job id f)
unfolding update_open_job
update_open_job-Preserves id f db v = ground (arith, update_jobs-Preserves id is_open f db v)

-- A message keeps the constraints, also where it is refused half way.
apply-Preserves : (m : Message) → Preserves (apply m)
unfolding apply
apply-Preserves Message.nothing db v = v
apply-Preserves (Message.add_provider id cp) db v =
    ground (arith, upsert_provider-Preserves id cp db v)
apply-Preserves (Message.remove_provider id) db v = ground (
  arith,
  update_providers-Preserves id (λ p. p.is_active) (λ p. record p { is_active = false }) db v,
)
apply-Preserves (Message.update_provider id cp) db v =
    ground
      (arith, update_providers-Preserves id (λ p. p.is_active) (λ p. record p { cp = cp }) db v)
apply-Preserves (Message.open_job id j x) db v =
    ground
      (arith, insert_job-Preserves id j db v, insert_transaction-Preserves x (insert_job id j db).1)
apply-Preserves (Message.update_job id col) db v =
    update_open_job-Preserves id (set_column col) db v
apply-Preserves (Message.settle_job id amount secs) db v =
    update_open_job-Preserves id (settle amount secs) db v
apply-Preserves (Message.move_funds id x) db v = ground (
  arith,
  update_open_job-Preserves id (moved x) db v,
  insert_transaction-Preserves x (update_open_job id (moved x) db).1,
)
apply-Preserves (Message.create_lock id r) db v = ground (arith, insert_request-Preserves id r db v)
apply-Preserves (Message.delete_lock id) db v = delete_request-Preserves id db v

run_parsed-Preserves : (o : Outcome Message) → Preserves (run_parsed o)
run_parsed-Preserves (ok m) db v = apply-Preserves m db v
run_parsed-Preserves (err e) db v = v
run_parsed-Preserves panic db v = v

-- From a database that satisfies the schema, handling any log, with any outcome, keeps its primary and
-- foreign keys.
pub handle_log-IsValid :
    (c : Codec) (log : Log) (db : Db) → IsValid db → IsValid (handle_log c log db).1
handle_log-IsValid c log db v =
    rw (handle_log-parse c log db) (run_parsed-Preserves (parse c log) db v)

pub handle_logs-IsValid :
    (c : Codec) (logs : List Log) (db : Db) → IsValid db → IsValid (handle_logs c logs db).1
unfolding handle_logs
handle_logs-IsValid c [] db v = v
handle_logs-IsValid c (log ∷ logs) db v =
    ground
      (arith, handle_log-IsValid c log db v, handle_logs-IsValid c logs (handle_log c log db).1)
