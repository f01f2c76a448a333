-- ===== src/Indexer/Balances.antt =====
-- The balances of the jobs against the deposits, withdrawals and settlements that the logs tell.
use oyster_monorepo.Base.{
  ℕ, String, ◌≡◌, refl, Bool, true, false, Option, none, some, List, [], ◌∷◌, arith, if◌then◌else◌,
  str_eq, eq_iff, str_eq_cases, inl, inr, eq_refl, Bool-cases,
}
use oyster_monorepo.Base.Int.{ℤ, pos, ◌+ℤ◌, ◌-ℤ◌, int_laws}
use oyster_monorepo.Indexer.Table.{Table, lookup}
use oyster_monorepo.Indexer.Db.{Job, Transaction, Db, ok, insert_job, insert_transaction}
use oyster_monorepo.Indexer.Jobs.{settle, update_open_job}
use oyster_monorepo.Indexer.Db.{update_providers}
use oyster_monorepo.Indexer.Providers.{upsert_provider}
use oyster_monorepo.Indexer.Locks.{insert_request, delete_request}
use oyster_monorepo.Indexer.Message.{Message, Column, set_column, moved, apply}
use oyster_monorepo.Indexer.Statements.{
  update_open_job_ok, lookup-with_job, >>-ok, insert_transaction_ok, insert_job_ok,
}
use oyster_monorepo.Indexer.Validity.{IsValid}

abbrev pub balance_of : Option Job → ℤ
balance_of none = pos 0
balance_of (some j) = j.balance

-- What a row of `transactions` adds to its job's funds.
abbrev pub signed : Transaction → ℤ
signed x = if x.is_deposit then pos x.amount else pos 0 -ℤ pos x.amount

-- The deposits of job `id` less its withdrawals.
abbrev pub net : String → List Transaction → ℤ
net id [] = pos 0
net id (x ∷ xs) = if str_eq x.job id then signed x +ℤ net id xs else net id xs

abbrev pub settled_by : Message → String → ℕ
settled_by (Message.settle_job i amount secs) id = if str_eq i id then amount else 0
settled_by _ id = 0

-- What parsing guarantees of a message: its row is of its job, and opening a job deposits.
abbrev pub IsConsistent : Message → Type 0
IsConsistent (Message.open_job id j x) =
    (x.job ≡ id) × (x.is_deposit ≡ true) × (j.balance ≡ pos x.amount)
IsConsistent (Message.move_funds id x) = x.job ≡ id
IsConsistent _ = Unit {0}

-- The change of job `id` by a message that was applied.
abbrev Accounts : String → ℕ → Db → Db → Type 0
Accounts id settled db db' =
    balance_of (lookup id db'.jobs) +ℤ pos settled +ℤ net id db.transactions
    ≡ balance_of (lookup id db.jobs) +ℤ net id db'.transactions

moved-signed :
    (x : Transaction) (j : Job) (n : ℤ)
    → (moved x j).balance +ℤ pos 0 +ℤ n ≡ j.balance +ℤ (signed x +ℤ n)
moved-signed x j n = elim (Bool-cases x.is_deposit) [
  | inl e ↦ rw e (omega int_laws)
  | inr e ↦ rw e (omega int_laws)
]

if_zero : (b : Bool) → ◌≡◌ {A = ℕ} (if b then 0 else 0) 0
if_zero true = refl
if_zero false = refl

settle-balance :
    (amount secs : ℕ) (j : Job) → (settle amount secs j).balance +ℤ pos amount ≡ j.balance
settle-balance amount secs j = omega int_laws

-- The messages that touch neither jobs nor transactions.
abbrev pub IsProviders : Message → Type 0
IsProviders (Message.open_job i j x) = ⊥
IsProviders (Message.update_job i col) = ⊥
IsProviders (Message.settle_job i amount secs) = ⊥
IsProviders (Message.move_funds i x) = ⊥
IsProviders _ = Unit {0}

set_column-balance : (col : Column) (j : Job) → (set_column col j).balance +ℤ pos 0 ≡ j.balance
set_column-balance Column.closed j = omega int_laws
set_column-balance (Column.rate r) j = omega int_laws
set_column-balance (Column.metadata m) j = omega int_laws

at_id :
    (i id : String) (jobs : Table Job) {o : Option Job}
    → i ≡ id
    → lookup i jobs ≡ o
    → lookup id jobs ≡ o
at_id i id jobs p h = rw (← p) h

module _ (id : String) (db : Db) (v : IsValid db) where
  same_Accounts : Accounts id 0 db db
  same_Accounts = omega int_laws

  update_open_job-Accounts :
      (i : String) (f : Job → Job) (amount : ℕ) {db' : Db}
      → ((j : Job) → (f j).balance +ℤ pos amount ≡ j.balance)
      → update_open_job i f db ≡ (ok tt, db')
      → Accounts id (if str_eq i id then amount else 0) db db'
  update_open_job-Accounts i f amount h e =
      let (j, found, open_, done) = update_open_job_ok i f db v.jobs_keyed e in
      rw done (
        rw (lookup-with_job i id f db found open_) (elim (str_eq_cases i id) [
          | inl p ↦ rw (← p, eq_refl i, found) (rw (h j))
          | inr (n, d) ↦ rw n (omega int_laws)
        ]))

  move_funds-Accounts :
      (x : Transaction) {db' : Db}
      → apply (Message.move_funds x.job x) db ≡ (ok tt, db')
      → Accounts id 0 db db'
  unfolding apply
  move_funds-Accounts x h =
      let (a, d, first, second) =
        >>-ok (update_open_job x.job (moved x)) (insert_transaction x) db h in
      let (fresh, done) = insert_transaction_ok x d second in
      let (j, found, open_, changed) = update_open_job_ok x.job (moved x) db v.jobs_keyed first in
      rw (done, changed)
        (rw (lookup-with_job x.job id (moved x) db found open_) (elim (str_eq_cases x.job id) [
          | inl p ↦
              rw ((eq_iff x.job id).1 p, at_id x.job id db.jobs p found)
                (moved-signed x j (net id db.transactions))
          | inr (n, d) ↦ rw n (omega int_laws)
        ]))

  open_job-Accounts :
      (i : String) (j : Job) (x : Transaction) {db' : Db}
      → IsConsistent (Message.open_job i j x)
      → apply (Message.open_job i j x) db ≡ (ok tt, db')
      → Accounts id 0 db db'
  unfolding apply
  open_job-Accounts i j x (own, deposits, funds) h =
      let (a, d, first, second) = >>-ok (insert_job i j) (insert_transaction x) db h in
      let (fresh, done) = insert_transaction_ok x d second in
      let (new, changed) = insert_job_ok i j db first in
      rw (done, changed)
        (elim (str_eq_cases i id) [
          | inl p ↦
              rw (own, (eq_iff i id).1 p, at_id i id db.jobs p new, deposits, funds)
                (omega int_laws)
          | inr (n, d) ↦ rw (own, n) (omega int_laws)
        ])

  unchanged-Accounts :
      (db' : Db) → db'.jobs ≡ db.jobs → db'.transactions ≡ db.transactions → Accounts id 0 db db'
  unchanged-Accounts db' e f = rw (e, f) same_Accounts

  providers-Accounts :
      (m : Message) {db' : Db}
      → IsProviders m
      → apply m db ≡ (ok tt, db')
      → (db'.jobs ≡ db.jobs) × (db'.transactions ≡ db.transactions)
  unfolding apply upsert_provider update_providers insert_request delete_request
  providers-Accounts (Message.add_provider i cp) p h = ground arith
  providers-Accounts (Message.remove_provider i) p h = ground arith
  providers-Accounts (Message.update_provider i cp) p h = ground arith
  providers-Accounts (Message.create_lock i r) p h = ground arith
  providers-Accounts (Message.delete_lock i) p h = ground arith
  providers-Accounts Message.nothing p h = ground arith
  providers-Accounts _ p h = absurd p

  -- A message that is applied moves the funds of each job as its transaction and its settlement say.
  pub apply-Accounts :
      (m : Message) {db' : Db}
      → IsConsistent m
      → apply m db ≡ (ok tt, db')
      → Accounts id (settled_by m id) db db'
  unfolding apply
  apply-Accounts (Message.open_job i j x) k h = open_job-Accounts i j x k h
  apply-Accounts (Message.update_job i col) k h =
      rw (if_zero (str_eq i id)) at
        (update_open_job-Accounts i (set_column col) 0 (set_column-balance col) h)
  apply-Accounts (Message.settle_job i amount secs) k h =
      update_open_job-Accounts i (settle amount secs) amount (settle-balance amount secs) h
  apply-Accounts (Message.move_funds i x) k h = move_funds-Accounts x (rw (← k) at h)
  apply-Accounts m {db'} k h = let (a, b) = providers-Accounts m tt h in unchanged-Accounts db' a b
