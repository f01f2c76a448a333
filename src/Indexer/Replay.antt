-- ===== src/Indexer/Replay.antt =====
-- The event loop keeps the database at a replay of its own rounds: of the logs that each of them gave
-- for its range, each range right after the one before it.
use oyster_monorepo.Base.{
  ℕ, ◌+◌, ◌^◌, ◌≤◌, ◌<◌, ◌≡◌, refl, some, List, [], ◌∷◌, arith, ltb, ◌==◌, Option, none,
  if◌then◌else◌, Option-cases, Bool-cases, All, inl, inr, ap, ◌∙◌,
}
use oyster_monorepo.Base.Int.{ℤ, as_i64, as_u64-as_i64}
use Prim.Native.Nat.{min}
use oyster_monorepo.Chain.{Log, Codec}
use oyster_monorepo.Indexer.Db.{
  Db, Outcome, ok, err, panic, update_jobs, insert_job, insert_transaction, update_providers, ◌>>◌,
}
use oyster_monorepo.Indexer.Providers.{upsert_provider}
use oyster_monorepo.Indexer.Jobs.{update_open_job}
use oyster_monorepo.Indexer.Locks.{insert_request, delete_request}
use oyster_monorepo.Indexer.Message.{Message, apply}
use oyster_monorepo.Indexer.Dispatch.{handle_log, handle_logs}
use oyster_monorepo.Indexer.Parse.{parse}
use oyster_monorepo.Indexer.Parsing.{run_parsed, handle_log-parse}
use oyster_monorepo.Indexer.EventLoop.{
  Round, Next, continue, stop, rpc_error, rpc_behind, transaction, set_sync, end_of_range, after,
  process_range, event_loop_round, event_loop_from, event_loop,
}

apply-sync : (m : Message) (db : Db) → (apply m db).1.sync ≡ db.sync
unfolding apply update_open_job update_jobs insert_job insert_transaction upsert_provider
    update_providers insert_request delete_request
apply-sync Message.nothing db = ground arith
apply-sync _ db = ground arith

run_parsed-sync : (o : Outcome Message) (db : Db) → (run_parsed o db).1.sync ≡ db.sync
run_parsed-sync (ok m) db = apply-sync m db
run_parsed-sync (err e) db = refl
run_parsed-sync panic db = refl

-- No handler touches `sync`.
handle_logs-sync :
    (c : Codec) (logs : List Log) (db : Db) → (handle_logs c logs db).1.sync ≡ db.sync
unfolding handle_logs
handle_logs-sync c [] db = refl
handle_logs-sync c (log ∷ logs) db = ground (
  arith,
  handle_log-parse c log db,
  run_parsed-sync (parse c log) db,
  handle_logs-sync c logs (handle_log c log db).1,
)

-- The database `d`, at block `b`, is a replay from `db`, at block `last`, of the rounds in the list, the
-- latest of them first. In each round the RPC's latest block is `b`, and nothing changes, or it is
-- further on, and the round gives the logs of the range that starts at the block after the last one
-- and ends `size` blocks on or at the latest block: all of them are handled, and none fails.
pub data Replay (c : Codec) (size : ℕ) (db : Db) (last : ℕ) : List Round → Db → ℕ → Type 0 where
  here : Replay c size db last [] db last
  idle :
      {past : List Round} {d : Db} {b : ℕ} (r : Round)
      → Replay c size db last past d b
      → r.latest_block ≡ some b
      → Replay c size db last (r ∷ past) d b
  range :
      {past : List Round} {d₁ d₂ d : Db} {b₁ b l : ℕ} (r : Round) (logs : List Log)
      → Replay c size db last past d₁ b₁
      → r.latest_block ≡ some l
      → b₁ < b
      → b ≡ min (b₁ + size) l
      → r.logs (b₁ + 1) b ≡ some logs
      → handle_logs c logs d₁ ≡ (ok tt, d₂)
      → d ≡ record d₂ { sync = as_i64 b ∷ [] }
      → Replay c size db last (r ∷ past) d b

-- The rounds of the first list, the latest of them first, and then those of the second.
abbrev pub onto : List Round → List Round → List Round
onto [] later = later
onto (r ∷ past) later = onto past (r ∷ later)

-- What the transaction of a range leaves, by the outcome of its logs.
abbrev pub commit_result : ℤ → Db → Outcome (Unit {0}) × Db → Outcome (Unit {0}) × Db
commit_result e db (ok a, d) = (ok tt, record d { sync = e ∷ [] })
commit_result e db (err x, d) = (err x, db)
commit_result e db (panic, d) = (panic, db)

-- Where `sync` has one row, all of a range is written, with the new block number, or nothing of it is.
pub transaction_lem :
    (c : Codec) (logs : List Log) (e x : ℤ) (db : Db)
    → db.sync ≡ x ∷ []
    → transaction (handle_logs c logs >> set_sync e) db ≡ commit_result e db (handle_logs c logs db)
unfolding transaction set_sync
transaction_lem c logs e x db row = ground (arith, handle_logs-sync c logs db)

-- The block numbers that a round's answer leads to fit a u64.
abbrev pub IsBounded : ℕ → Round → Type 0
IsBounded size r = (l : ℕ) → r.latest_block ≡ some l → l + 1 + size < 2 ^ 64

-- The loop's position: the only row of `sync` holds block `b`, and another range of blocks fits a u64.
abbrev pub IsAt : ℕ → ℕ → Db → Type 0
IsAt size b d = (d.sync ≡ as_i64 b ∷ []) × (b + 1 + size < 2 ^ 64)

-- How the loop leaves the database: at a replay of the first of its rounds, or, where it does not stop,
-- of all of them, and at the block that it goes on from.
abbrev pub Reaches : Codec → ℕ → Db → ℕ → List Round → Next × Db → Type 0
Reaches c size db₀ last₀ rounds (next, d) =
    (past : List Round) × (later : List Round) × (b : ℕ) × (onto past later ≡ rounds)
    × Replay c size db₀ last₀ past d b
    × IsAt size b d
    × ((l : ℕ) → next ≡ continue l → (l ≡ b) × (later ≡ []))

-- How one round leaves it, after those of `past`.
abbrev Goes : Codec → ℕ → Db → ℕ → List Round → Round → Next × Db → Type 0
Goes c size db₀ last₀ past r (continue l, d) =
    Replay c size db₀ last₀ (r ∷ past) d l × IsAt size l d
Goes c size db₀ last₀ past r (stop s, d) =
    (b : ℕ) × Replay c size db₀ last₀ past d b × IsAt size b d

module _ (c : Codec) (size : ℕ) (positive : 0 < size) where
  end_bounds :
      (last latest : ℕ)
      → last < latest
      → last + 1 + size < 2 ^ 64
      → let e = end_of_range (last + 1) size latest in
        (last < e) × (e ≡ min (last + size) latest) × (e ≤ latest)
  unfolding end_of_range
  end_bounds last latest h fits = omega arith

  module _ (db₀ : Db) (last₀ : ℕ) where
    committed :
        (past : List Round) (r : Round) (logs : List Log) (e last latest : ℕ) (db : Db)
        (o : Outcome (Unit {0}) × Db)
        → Replay c size db₀ last₀ past db last
        → r.latest_block ≡ some latest
        → last < e
        → e ≡ min (last + size) latest
        → e + 1 + size < 2 ^ 64
        → r.logs (last + 1) e ≡ some logs
        → IsAt size last db
        → handle_logs c logs db ≡ o
        → let t = commit_result (as_i64 e) db o in Goes c size db₀ last₀ past r (after t.0 e, t.1)
    committed past r logs e last latest db (ok a, d) before top lo hi fits fetched at done =
        (range r logs before top lo hi fetched done refl, (refl, fits))
    committed past r logs e last latest db (err y, d) before top lo hi fits fetched at done =
        (last, before, at)
    committed past r logs e last latest db (panic, d) before top lo hi fits fetched at done =
        (last, before, at)

    process_range-Goes :
        (past : List Round) (r : Round) (last latest : ℕ) (db : Db)
        → Replay c size db₀ last₀ past db last
        → r.latest_block ≡ some latest
        → last < latest
        → latest + 1 + size < 2 ^ 64
        → IsAt size last db
        → Goes c size db₀ last₀ past r (process_range c size r last latest db)
    unfolding process_range
    process_range-Goes past r last latest db before top new fits (row, room) =
        let e = end_of_range (last + 1) size latest in
        elim (Option-cases (r.logs (last + 1) e)) [
          | inl n ↦ rw (n, process_range) (last, before, (row, room))
          | inr (logs, f) ↦
              let (lo, hi, under) = end_bounds last latest new room in
              rw (f, process_range, transaction_lem c logs (as_i64 e) (as_i64 last) db row)
                (committed past r logs e last latest db (handle_logs c logs db) before top lo hi
                  (omega arith) f (row, room) refl)
        ]

    -- A round, by what the RPC answers for the latest block.
    abbrev round_of : Round → ℕ → Db → Option ℕ → Next × Db
    round_of r last db none = (stop rpc_error, db)
    round_of r last db (some latest) =
        if ltb latest last
        then (stop rpc_behind, db)
        else if latest == last
        then (continue last, db)
        else process_range c size r last latest db

    round_of-Goes :
        (past : List Round) (r : Round) (last : ℕ) (db : Db) (o : Option ℕ)
        → r.latest_block ≡ o
        → IsBounded size r
        → Replay c size db₀ last₀ past db last
        → IsAt size last db
        → Goes c size db₀ last₀ past r (round_of r last db o)
    round_of-Goes past r last db none f bounded before at = (last, before, at)
    round_of-Goes past r last db (some latest) f bounded before at =
        elim (Bool-cases (ltb latest last)) [
          | inl behind ↦ rw behind (last, before, at)
          | inr ahead ↦ rw ahead (elim (Bool-cases (latest == last)) [
            | inl same ↦
                let e : latest ≡ last = ground arith in rw same (idle r before (f ∙ ap some e), at)
            | inr new ↦ rw new (
                process_range-Goes past r last latest db before f (ground arith) (bounded latest f)
                  at)
          ])
        ]

    round-Goes :
        (past : List Round) (r : Round) (last : ℕ) (db : Db)
        → IsBounded size r
        → Replay c size db₀ last₀ past db last
        → IsAt size last db
        → Goes c size db₀ last₀ past r (event_loop_round c size r last db)
    unfolding event_loop_round
    round-Goes past r last db = round_of-Goes past r last db r.latest_block refl

    -- What the rest of the loop does after a round.
    loop_step :
        (past : List Round) (r : Round) (rs : List Round) (t : Next × Db)
        → Goes c size db₀ last₀ past r t
        → ((last : ℕ) (db : Db)
            → Replay c size db₀ last₀ (r ∷ past) db last
            → IsAt size last db
            → Reaches c size db₀ last₀ (onto (r ∷ past) rs) (event_loop_from c size rs last db))
        → Reaches c size db₀ last₀ (onto past (r ∷ rs)) (elim t.0 as (λ n. Next × Db) [
          | continue last' ↦ event_loop_from c size rs last' t.1
          | stop s ↦ (stop s, t.1)
        ])
    loop_step past r rs (continue l, d) (before, at) rest = rest l d before at
    loop_step past r rs (stop s, d) (b, before, at) rest =
        (past, r ∷ rs, b, refl, before, at, λ l p. absurd (ground arith))

    -- Over any rounds, after those of `past`.
    loop-Reaches :
        (past rs : List Round) (last : ℕ) (db : Db)
        → All (IsBounded size) rs
        → Replay c size db₀ last₀ past db last
        → IsAt size last db
        → Reaches c size db₀ last₀ (onto past rs) (event_loop_from c size rs last db)
    unfolding event_loop_from
    loop-Reaches past [] last db bounded before at =
        (past, [], last, refl, before, at, λ l p. (ground arith, refl))
    loop-Reaches past (r ∷ rs) last db bounded before at =
        loop_step past r rs (event_loop_round c size r last db)
          (round-Goes past r last db bounded.0 before at)
          (λ l d. loop-Reaches (r ∷ past) rs l d bounded.1)

event_loop-start :
    (c : Codec) (size : ℕ) (rs : List Round) (db : Db) (last : ℕ)
    → last < 2 ^ 64
    → db.sync ≡ as_i64 last ∷ []
    → event_loop c size rs db ≡ event_loop_from c size rs last db
unfolding event_loop
event_loop-start c size rs db last fits row = ground (arith, as_u64-as_i64 last)

-- Where `sync` holds one block, ranges are not empty, and the RPC's block numbers leave room for a
-- range in a u64: whatever the RPC answers, and however the loop ends, the database that is left is
-- a replay of the first rounds of the loop, in their order, each with the logs that this round gave for
-- exactly the blocks after the last one processed, up to the range's size or the RPC's latest block; and
-- where the loop does not stop, all of its rounds are replayed, and it goes on from the last block of
-- the replay. That block is the one that `sync` holds, in every case.
pub event_loop-Reaches :
    (c : Codec) (size : ℕ) (rs : List Round) (db : Db) (last : ℕ)
    → 0 < size
    → last + 1 + size < 2 ^ 64
    → All (IsBounded size) rs
    → db.sync ≡ as_i64 last ∷ []
    → Reaches c size db last rs (event_loop c size rs db)
event_loop-Reaches c size rs db last positive fits bounded row =
    rw (event_loop-start c size rs db last (omega arith) row)
      (loop-Reaches c size positive db last [] rs last db bounded here (row, fits))
