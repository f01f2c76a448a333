-- ===== src/Indexer/Db.antt =====
-- The database of the indexer (contracts/indexer/src/schema.rs and migrations), the ways in which a
-- handler can end, and the handlers' monad: a handler that fails leaves what it wrote so far, which
-- the transaction of the event loop then rolls back.
use oyster_monorepo.Base.{
  ℕ, String, ◌^◌, ◌%◌, Bool, false, ◌&&◌, ◌||◌, Option, none, some, List, [], ◌∷◌, ltb,
  if◌then◌else◌, get_elem?,
}
use oyster_monorepo.Base.Int.{ℤ, eqb_ℤ}
use oyster_monorepo.Chain.{Log}
use oyster_monorepo.Indexer.Table.{Table, lookup, update_where, insert}

pub record Provider : Type 0 where
  pub cp : String
  pub is_active : Bool

-- Times are seconds since the epoch; `rate` is only ever written from a U256.
pub record Job : Type 0 where
  pub metadata : String
  pub owner : String
  pub provider : String
  pub rate : ℕ
  pub balance : ℤ
  pub last_settled : ℕ
  pub created : ℕ
  pub is_closed : Bool

pub record ReviseRateRequest : Type 0 where
  pub value : ℕ
  pub updates_at : ℕ

-- The primary key is (block, idx).
pub record Transaction : Type 0 where
  pub block : ℤ
  pub idx : ℤ
  pub tx_hash : String
  pub job : String
  pub amount : ℕ
  pub is_deposit : Bool

pub record Db : Type 0 where
  pub providers : Table Provider
  pub jobs : Table Job
  pub revise_rate_requests : Table ReviseRateRequest
  pub transactions : List Transaction
  pub sync : List ℤ

-- The errors of `anyhow`, and the constraint violations that Postgres reports.
pub data Error : Type 0 where
  no_topic0 decode_failed no_block no_index no_tx_hash : Error
  could_not_find_job existing_provider bad_count no_request_or_closed_job : Error
  unique_violation foreign_key_violation : Error

pub data Outcome (A : Type 0) : Type 0 where
  ok : A → Outcome A
  err : Error → Outcome A
  panic : Outcome A

abbrev pub M : Type 0 → Type 0
M A = Db → Outcome A × Db

infixl 5 ◌>>=◌ ◌>>◌
abbrev pub ◌>>=◌ : {A B : Type 0} → M A → (A → M B) → M B
◌>>=◌ m f db =
    let (r, db') = m db in elim r [ ok a ↦ f a db' | err e ↦ (err e, db') | panic ↦ (panic, db') ]

abbrev pub ◌>>◌ : {A B : Type 0} → M A → M B → M B
m >> k = m >>= λ _. k

module _ {A : Type 0} where
  abbrev pub pure : A → M A
  pure a db = (ok a, db)

  -- `option.ok_or(e)?`
  abbrev pub ok_or : Option A → Error → M A
  ok_or none e db = (err e, db)
  ok_or (some a) e db = (ok a, db)

  -- `option.unwrap()`, and the index operator of a slice
  abbrev pub unwrap : Option A → M A
  unwrap none db = (panic, db)
  unwrap (some a) db = (ok a, db)

abbrev pub done : M (Unit {0})
done = pure tt

abbrev pub ensure : Bool → Error → M (Unit {0})
ensure b e db = (if b then ok tt else err e, db)

-- `log.topics()[n]`
abbrev pub topic : ℕ → Log → M ℕ
topic n log = unwrap (get_elem? log.topics n)

-- `UNIX_EPOCH + Duration::from_secs(t.into_limbs()[0])`: the low 64 bits, and a panic where the sum
-- is no `SystemTime`, whose seconds are an i64.
unfoldable pub unix_time : ℕ → M ℕ
unix_time t db = let secs = t % 2 ^ 64 in if ltb secs (2 ^ 63) then (ok secs, db) else (panic, db)

-- The statements. An UPDATE returns the number of rows that it changed.
unfoldable pub update_providers : String → (Provider → Bool) → (Provider → Provider) → M ℕ
update_providers k p f db =
    let (n, t) = update_where k p f db.providers in (ok n, record db { providers = t })

unfoldable pub update_jobs : String → (Job → Bool) → (Job → Job) → M ℕ
update_jobs k p f db = let (n, t) = update_where k p f db.jobs in (ok n, record db { jobs = t })

unfoldable pub insert_job : String → Job → M (Unit {0})
insert_job k j db = elim (insert k j db.jobs) [
  | none ↦ (err unique_violation, db)
  | some t ↦ (ok tt, record db { jobs = t })
]

abbrev pub same_key : Transaction → Transaction → Bool
same_key x y = eqb_ℤ x.block y.block && eqb_ℤ x.idx y.idx

abbrev pub has_key : Transaction → List Transaction → Bool
has_key x [] = false
has_key x (y ∷ ys) = same_key x y || has_key x ys

-- INSERT INTO transactions, with its primary key and its reference to jobs.
unfoldable pub insert_transaction : Transaction → M (Unit {0})
insert_transaction x db =
    if has_key x db.transactions then (err unique_violation, db) else elim (lookup x.job db.jobs) [
      | none ↦ (err foreign_key_violation, db)
      | some _ ↦ (ok tt, record db { transactions = x ∷ db.transactions })
    ]
