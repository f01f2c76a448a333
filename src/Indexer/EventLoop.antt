-- ===== src/Indexer/EventLoop.antt =====
-- The event loop (contracts/indexer/src/lib.rs). What the RPC answers is an argument: each round of
-- the loop is given a `Round`. `start_from` sets the block from which the loop goes on.
use oyster_monorepo.Base.{
  ℕ, ◌+◌, ◌-◌, ◌^◌, ◌%◌, Bool, Option, none, some, List, [], ◌∷◌, ltb, ◌==◌, if◌then◌else◌,
}
use oyster_monorepo.Base.Int.{ℤ, ltb_ℤ, as_i64, as_u64}
use oyster_monorepo.Chain.{Log, Codec}
use oyster_monorepo.Indexer.Db.{Db, Error, Outcome, ok, err, panic, unique_violation, M, ◌>>◌}
use oyster_monorepo.Indexer.Dispatch.{handle_logs}
use Prim.Native.Nat.{min}

-- The answers of a `LogsProvider` in one round; `none` is an error of the RPC.
pub record Round : Type 0 where
  pub latest_block : Option ℕ
  pub logs : ℕ → ℕ → Option (List Log)

pub data Stop : Type 0 where
  no_sync_row rpc_error rpc_behind panicked : Stop
  failed : Error → Stop

-- How a round ends: the loop goes on with `last_updated`, or `event_loop` returns.
pub data Next : Type 0 where
  continue : ℕ → Next
  stop : Stop → Next

-- `conn.transaction`: what a failed body wrote is rolled back, and what a panicking one wrote too,
-- since the connection is dropped.
unfoldable pub transaction : {A : Type 0} → M A → M A
transaction m db =
    let (r, db') = m db in elim r [ ok a ↦ (ok a, db') | err e ↦ (err e, db) | panic ↦ (panic, db) ]

-- UPDATE sync SET block, with no WHERE: two rows would get the same primary key.
unfoldable pub set_sync : ℤ → M (Unit {0})
set_sync b db = elim db.sync [
  | [] ↦ (ok tt, db)
  | x ∷ xs ↦ elim xs [
    | [] ↦ (ok tt, record db { sync = b ∷ [] })
    | _ ∷ _ ↦ (err unique_violation, db)
  ]
]

-- `std::cmp::min(start_block + range_size - 1, latest_block)`, on u64.
unfoldable pub end_of_range : ℕ → ℕ → ℕ → ℕ
end_of_range start_block range_size latest_block =
    min (((start_block + range_size) % 2 ^ 64 + 2 ^ 64 - 1) % 2 ^ 64) latest_block

abbrev pub after : Outcome (Unit {0}) → ℕ → Next
after (ok _) end_block = continue end_block
after (err e) end_block = stop (failed e)
after panic end_block = stop panicked

module _ (c : Codec) (range_size : ℕ) where
  -- Fetch and process the blocks after `last_updated`.
  unfoldable pub process_range : Round → ℕ → ℕ → Db → Next × Db
  process_range r last_updated latest_block db =
      let start_block = last_updated + 1 in
      let end_block = end_of_range start_block range_size latest_block in
      elim (r.logs start_block end_block) [
        | none ↦ (stop rpc_error, db)
        | some logs ↦
            let (res, db') = transaction (handle_logs c logs >> set_sync (as_i64 end_block)) db in
            (after res end_block, db')
      ]

  -- One round of the loop.
  unfoldable pub event_loop_round : Round → ℕ → Db → Next × Db
  unfolding process_range
  event_loop_round r last_updated db = elim r.latest_block [
    | none ↦ (stop rpc_error, db)
    | some latest_block ↦
        if ltb latest_block last_updated
        then (stop rpc_behind, db)
        else if latest_block == last_updated
        then (continue last_updated, db)
        else process_range r last_updated latest_block db
  ]

  -- The loop over the rounds that the RPC answers.
  unfoldable pub event_loop_from : List Round → ℕ → Db → Next × Db
  event_loop_from [] last_updated db = (continue last_updated, db)
  event_loop_from (r ∷ rs) last_updated db =
      let (next, db') = event_loop_round r last_updated db in
      elim next [ continue last' ↦ event_loop_from rs last' db' | stop s ↦ (stop s, db') ]

  unfoldable pub event_loop : List Round → Db → Next × Db
  event_loop rs db = elim db.sync [
    | [] ↦ (stop no_sync_row, db)
    | b ∷ _ ↦ event_loop_from rs (as_u64 b) db
  ]

-- `start as i64 - 1`
abbrev pub before_start : ℕ → ℤ
before_start start = as_i64 ((start + 2 ^ 64 - 1) % 2 ^ 64)

-- UPDATE sync SET block = start - 1 WHERE block < start - 1, on the only row of `sync`.
unfoldable pub start_from : ℕ → Db → Bool × Db
start_from start db = elim db.sync [
  | [] ↦ (Bool.false, db)
  | b ∷ _ ↦
      if ltb_ℤ b (before_start start)
      then (Bool.true, record db { sync = before_start start ∷ [] })
      else (Bool.false, db)
]
