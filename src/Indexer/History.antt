-- ===== src/Indexer/History.antt =====
-- What no log can undo: jobs stay, keep their parties and their start, and freeze when closed; the
-- transactions are only added to.
use oyster_monorepo.Base.{
  String, ◌≡◌, refl, true, Option, none, some, List, [], ◌∷◌, ◌++◌, arith, eq_iff, Option-cases,
  Bool-cases, inl, inr,
}
use mathlib.Core.List.{append_assoc}
use oyster_monorepo.Chain.{Log, Codec}
use oyster_monorepo.Indexer.Table.{lookup, insert, lookup_updated, lookup-update_where}
use oyster_monorepo.Indexer.Db.{
  Job, Transaction, has_key, Db, Outcome, ok, err, panic, M, update_jobs, insert_job,
  insert_transaction, update_providers, ◌>>◌,
}
use oyster_monorepo.Indexer.Providers.{upsert_provider}
use oyster_monorepo.Indexer.Jobs.{is_open, settle, update_open_job}
use oyster_monorepo.Indexer.Locks.{insert_request, delete_request}
use oyster_monorepo.Indexer.Message.{Message, Column, set_column, moved, apply}
use oyster_monorepo.Indexer.Dispatch.{handle_log, handle_logs}
use oyster_monorepo.Indexer.Parse.{parse}
use oyster_monorepo.Indexer.Parsing.{run_parsed, handle_log-parse}
use oyster_monorepo.Indexer.Balances.{IsProviders}

-- A later row of the same job: the parties and the start stay, and a closed job stays as it is.
abbrev pub Evolves : Option Job → Option Job → Type 0
Evolves none o = Unit {0}
Evolves (some j) none = ⊥
Evolves (some j) (some j') =
    (j'.owner ≡ j.owner)
    × (j'.provider ≡ j.provider)
    × (j'.created ≡ j.created)
    × (j.is_closed ≡ true → j' ≡ j)

Evolves-refl : (o : Option Job) → Evolves o o
Evolves-refl none = tt
Evolves-refl (some j) = (refl, refl, refl, λ e. refl)

Evolves-trans : (o p q : Option Job) → Evolves o p → Evolves p q → Evolves o q
Evolves-trans none p q h k = tt
Evolves-trans (some i) none q h k = absurd h
Evolves-trans (some i) (some j) none h k = k
Evolves-trans (some i) (some j) (some l) h k = ground arith

-- `ys` is `xs` with newer rows before it.
abbrev pub Extends : List Transaction → List Transaction → Type 0
Extends xs ys = (zs : List Transaction) × (ys ≡ zs ++ xs)

-- A step from one database to the next, seen from job `id`.
pub record IsHistory (id : String) (db db' : Db) : Type 0 where
  pub evolves : Evolves (lookup id db.jobs) (lookup id db'.jobs)
  pub extends : Extends db.transactions db'.transactions

abbrev KeepsParties : (Job → Job) → Type 0
KeepsParties f =
    (j : Job)
    → ((f j).owner ≡ j.owner) × ((f j).provider ≡ j.provider) × ((f j).created ≡ j.created)

set_column-KeepsParties : (col : Column) → KeepsParties (set_column col)
set_column-KeepsParties Column.closed j = (refl, refl, refl)
set_column-KeepsParties (Column.rate r) j = (refl, refl, refl)
set_column-KeepsParties (Column.metadata m) j = (refl, refl, refl)

moved-KeepsParties : (x : Transaction) → KeepsParties (moved x)
moved-KeepsParties x j = ground arith

module _ (id : String) where
  pub same :
      (db db' : Db) → db'.jobs ≡ db.jobs → db'.transactions ≡ db.transactions → IsHistory id db db'
  same db db' e f = record { evolves = rw e (Evolves-refl (lookup id db.jobs)); extends = ([], f) }

  pub IsHistory-trans : (a b d : Db) → IsHistory id a b → IsHistory id b d → IsHistory id a d
  IsHistory-trans a b d h k = record {
    evolves = Evolves-trans _ _ _ h.evolves k.evolves;
    extends = (k.extends.0 ++ h.extends.0, rw (k.extends.1, h.extends.1, append_assoc));
  }

  updated-Evolves :
      (i : String) (f : Job → Job) (o : Option Job)
      → KeepsParties f
      → Evolves o (lookup_updated i is_open f id o)
  updated-Evolves i f none k = tt
  updated-Evolves i f (some j) k = ground (arith, k j)

  update_open_job-IsHistory :
      (i : String) (f : Job → Job) (db : Db)
      → KeepsParties f
      → IsHistory id db (update_open_job i f db).1
  unfolding update_open_job update_jobs
  update_open_job-IsHistory i f db k = record {
    evolves =
        rw (lookup-update_where i id is_open f db.jobs) (updated-Evolves i f (lookup id db.jobs) k);
    extends = ([], refl);
  }

  insert_job-IsHistory : (i : String) (j : Job) (db : Db) → IsHistory id db (insert_job i j db).1
  unfolding insert_job insert
  insert_job-IsHistory i j db = record {
    evolves = ground (arith, eq_iff i id, Evolves-refl (lookup id db.jobs));
    extends = ground (arith, same db db refl refl);
  }

  insert_transaction-IsHistory :
      (x : Transaction) (db : Db) → IsHistory id db (insert_transaction x db).1
  unfolding insert_transaction
  insert_transaction-IsHistory x db = elim (Bool-cases (has_key x db.transactions)) [
    | inl e ↦ rw (e, insert_transaction) (same db db refl refl)
    | inr e ↦ elim (Option-cases (lookup x.job db.jobs)) [
      | inl n ↦ rw (e, n, insert_transaction) (same db db refl refl)
      | inr (j, n) ↦
          rw (e, n, insert_transaction)
            (record { evolves = Evolves-refl (lookup id db.jobs); extends = (x ∷ [], refl) })
    ]
  ]

  then-IsHistory :
      {A B : Type 0} (m : M A) (k : M B) (db : Db)
      → IsHistory id db (m db).1
      → ((d : Db) → IsHistory id d (k d).1)
      → IsHistory id db ((m >> k) db).1
  then-IsHistory {A} {B} m k db h g = go (m db) h
    where
      go :
          (r : Outcome A × Db)
          → IsHistory id db r.1
          → IsHistory id db
              (elim r.0 as (λ o. Outcome B × Db) [
                | ok a ↦ k r.1
                | err e ↦ (err e, r.1)
                | panic ↦ (panic, r.1)
              ]).1
      go (ok a, d) h = IsHistory-trans db d (k d).1 h (g d)
      go (err e, d) h = h
      go (panic, d) h = h

  elsewhere :
      (m : Message) (db : Db)
      → IsProviders m
      → ((apply m db).1.jobs ≡ db.jobs) × ((apply m db).1.transactions ≡ db.transactions)
  unfolding apply upsert_provider update_providers insert_request delete_request insert
  elsewhere (Message.add_provider i cp) db p = ground arith
  elsewhere (Message.remove_provider i) db p = ground arith
  elsewhere (Message.update_provider i cp) db p = ground arith
  elsewhere (Message.create_lock i r) db p = ground arith
  elsewhere (Message.delete_lock i) db p = ground arith
  elsewhere Message.nothing db p = ground arith
  elsewhere _ db p = absurd p

  apply-IsHistory : (m : Message) (db : Db) → IsHistory id db (apply m db).1
  unfolding apply
  apply-IsHistory (Message.open_job i j x) db =
      then-IsHistory (insert_job i j) (insert_transaction x) db (insert_job-IsHistory i j db)
        (insert_transaction-IsHistory x)
  apply-IsHistory (Message.update_job i col) db =
      update_open_job-IsHistory i (set_column col) db (set_column-KeepsParties col)
  apply-IsHistory (Message.settle_job i amount secs) db =
      update_open_job-IsHistory i (settle amount secs) db (λ j. (refl, refl, refl))
  apply-IsHistory (Message.move_funds i x) db =
      then-IsHistory (update_open_job i (moved x)) (insert_transaction x) db
        (update_open_job-IsHistory i (moved x) db (moved-KeepsParties x))
        (insert_transaction-IsHistory x)
  apply-IsHistory m db = let (a, b) = elsewhere m db tt in same db (apply m db).1 a b

  run_parsed-IsHistory : (o : Outcome Message) (db : Db) → IsHistory id db (run_parsed o db).1
  run_parsed-IsHistory (ok m) db = apply-IsHistory m db
  run_parsed-IsHistory (err e) db = same db db refl refl
  run_parsed-IsHistory panic db = same db db refl refl

  pub handle_log-IsHistory :
      (c : Codec) (log : Log) (db : Db) → IsHistory id db (handle_log c log db).1
  handle_log-IsHistory c log db =
      rw (handle_log-parse c log db) (run_parsed-IsHistory (parse c log) db)

  -- Whatever logs are handled, and however the last of them ends: job `id` stays with its owner, its
  -- provider and its time of creation, does not change at all once it is closed, and no row of
  -- `transactions` is changed or lost.
  pub handle_logs-IsHistory :
      (c : Codec) (logs : List Log) (db : Db) → IsHistory id db (handle_logs c logs db).1
  unfolding handle_logs
  handle_logs-IsHistory c [] db = same db db refl refl
  handle_logs-IsHistory c (log ∷ logs) db =
      then-IsHistory (handle_log c log) (handle_logs c logs) db (handle_log-IsHistory c log db)
        (handle_logs-IsHistory c logs)
