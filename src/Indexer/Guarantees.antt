-- ===== src/Indexer/Guarantees.antt =====
-- What the event loop as a whole guarantees of the database, and where it starts.
use oyster_monorepo.Base.{
  ℕ, String, ◌+◌, ◌-◌, ◌^◌, ◌<◌, ◌≡◌, refl, ap, some, List, [], ◌∷◌, arith, All, ltb, if◌then◌else◌,
}
use oyster_monorepo.Base.Int.{ℤ, negsuc, as_i64, as_u64}
use oyster_monorepo.Chain.{Codec}
use oyster_monorepo.Indexer.Db.{Db}
use oyster_monorepo.Indexer.Validity.{IsValid, handle_logs-IsValid}
use oyster_monorepo.Indexer.History.{IsHistory, handle_logs-IsHistory, IsHistory-trans, same}
use oyster_monorepo.Indexer.EventLoop.{
  Round, stop, rpc_behind, event_loop, event_loop_from, event_loop_round, start_from,
}
use oyster_monorepo.Indexer.Replay.{Replay, here, idle, range, IsBounded, event_loop-Reaches}

with_sync-IsValid : (db : Db) (s : List ℤ) → IsValid db → IsValid (record db { sync = s })
with_sync-IsValid db s v = record {
  providers_keyed = v.providers_keyed;
  jobs_keyed = v.jobs_keyed;
  requests_keyed = v.requests_keyed;
  transactions_keyed = v.transactions_keyed;
  transactions_refer = v.transactions_refer;
  requests_refer = v.requests_refer;
}

Replay-IsValid :
    {c : Codec} {size : ℕ} {db : Db} {last : ℕ} {past : List Round} {d : Db} {b : ℕ}
    → Replay c size db last past d b
    → IsValid db
    → IsValid d
Replay-IsValid here v = v
Replay-IsValid (idle r before top) v = Replay-IsValid before v
Replay-IsValid {c} (range {d₁ = d₁} {d₂ = d₂} {b = b} r logs before top lo hi fetched done e) v =
    let w : IsValid d₂ =
      rw (ap (λ t. t.1) done) at (handle_logs-IsValid c logs d₁ (Replay-IsValid before v)) in
    rw e (with_sync-IsValid d₂ (as_i64 b ∷ []) w)

Replay-IsHistory :
    (id : String) {c : Codec} {size : ℕ} {db : Db} {last : ℕ} {past : List Round} {d : Db} {b : ℕ}
    → Replay c size db last past d b
    → IsHistory id db d
Replay-IsHistory id {db = db} here = same id db db refl refl
Replay-IsHistory id (idle r before top) = Replay-IsHistory id before
Replay-IsHistory id {c} {db = db}
      (range {d₁ = d₁} {d₂ = d₂} {d = d} r logs before top lo hi fetched done e) =
    let w : IsHistory id d₁ d₂ = rw (ap (λ t. t.1) done) at (handle_logs-IsHistory id c logs d₁) in
    IsHistory-trans id db d₁ d (Replay-IsHistory id before)
      (IsHistory-trans id d₁ d₂ d w (rw e (same id d₂ _ refl refl)))

module _ (c : Codec) (size : ℕ) (rs : List Round) (db : Db) (last : ℕ) where
  -- Where `sync` holds one block, ranges are not empty, and the RPC's block numbers leave room for a
  -- range in a u64: from a database that satisfies the schema, the schema's constraints hold of
  -- whatever the loop leaves, and it keeps the history of each job.
  pub event_loop_safe :
      (id : String)
      → 0 < size
      → last + 1 + size < 2 ^ 64
      → All (IsBounded size) rs
      → db.sync ≡ as_i64 last ∷ []
      → IsValid db
      → IsValid (event_loop c size rs db).1 × IsHistory id db (event_loop c size rs db).1
  event_loop_safe id positive fits bounded row v =
      let (past, later, b, e, replay, at, on) =
        event_loop-Reaches c size rs db last positive fits bounded row in
      (Replay-IsValid replay v, Replay-IsHistory id replay)

-- On a new database, where `sync` holds -1, starting from block 0 changes nothing, and the loop then
-- takes the -1 for the largest u64: whatever the RPC's latest block, it gives up at once.
pub start_from_zero_stops :
    (c : Codec) (size latest : ℕ) (r : Round) (rs : List Round) (db : Db)
    → db.sync ≡ negsuc 0 ∷ []
    → r.latest_block ≡ some latest
    → latest < 2 ^ 64 - 1
    → event_loop c size (r ∷ rs) (start_from 0 db).1 ≡ (stop rpc_behind, db)
unfolding event_loop event_loop_from event_loop_round start_from as_i64 as_u64
start_from_zero_stops c size latest r rs db row answer small = ground arith

-- With block numbers below 2 ^ 63 and `sync` at one of them: from any start but 0 the loop goes on
-- after the block before it, or after the last block processed where that is further on.
pub start_from_lem :
    (start last : ℕ) (db : Db)
    → 0 < start
    → start < 2 ^ 63
    → last < 2 ^ 63
    → db.sync ≡ as_i64 last ∷ []
    → (start_from start db).1.sync ≡ as_i64 (if ltb last (start - 1) then start - 1 else last) ∷ []
unfolding start_from as_i64
start_from_lem start last db pos_ small old row = ground arith
