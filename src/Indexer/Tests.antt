-- ===== src/Indexer/Tests.antt =====
-- Runs of the indexer on a small chain, and the theorems at inputs that meet their hypotheses.
use oyster_monorepo.Base.{
  ℕ, ◌≡◌, refl, sym, ◌∙◌, ap, true, false, none, if◌then◌else◌, some, List, [], ◌∷◌, arith, All,
}
use oyster_monorepo.Base.Int.{pos, negsuc, ◌+ℤ◌, ◌-ℤ◌, as_i64, as_u64}
use oyster_monorepo.Chain.{Log}
use oyster_monorepo.Chain.Samples.{codec}
use oyster_monorepo.Indexer.Table.{lookup, update_where, insert}
use oyster_monorepo.Indexer.Db.{
  Db, Outcome, has_key, ok, insert_job, insert_transaction, update_jobs, unix_time,
}
use oyster_monorepo.Indexer.Jobs.{
  new_job, transaction_row, update_open_job, handle_job_opened, handle_job_settled,
  handle_job_deposited,
}
use oyster_monorepo.Indexer.Providers.{upsert_provider, handle_provider_added}
use oyster_monorepo.Indexer.Locks.{insert_request, handle_lock_created}
use oyster_monorepo.Indexer.Dispatch.{Event, event_topic, dispatch, handle_log, handle_logs}
use oyster_monorepo.Indexer.EventLoop.{
  Round, stop, rpc_behind, transaction, set_sync, end_of_range, process_range, event_loop_round,
  event_loop_from, event_loop, start_from,
}
use oyster_monorepo.Indexer.Parse.{event_of}
use oyster_monorepo.Indexer.Dispatching.{IsCollisionFree}
use oyster_monorepo.Indexer.Validity.{IsValid}
use oyster_monorepo.Indexer.Balances.{balance_of, net}
use oyster_monorepo.Indexer.Accounting.{settled_total, handle_logs_accounts}
use oyster_monorepo.Indexer.History.{IsHistory, handle_logs-IsHistory}
use oyster_monorepo.Indexer.Replay.{IsBounded, Reaches, event_loop-Reaches}
use oyster_monorepo.Indexer.Outcomes.{opened_result, or_new, is_ok, handle_job_opened_lem}
use oyster_monorepo.Indexer.Guarantees.{event_loop_safe, start_from_zero_stops}

recognised : (e : Event) → event_of codec (event_topic codec e) ≡ some e
unfolding event_of
recognised Event.provider_added = refl
recognised _ = refl

codec-IsCollisionFree : IsCollisionFree codec
codec-IsCollisionFree e e' h =
    ground (arith, sym (recognised e) ∙ ap (event_of codec) h ∙ recognised e')

abbrev log_of : Event → ℕ → List ℕ → Log
log_of e idx payload = record {
  topics = event_topic codec e ∷ 1 ∷ 2 ∷ 3 ∷ [];
  payload = payload;
  block_number = some 7;
  log_index = some idx;
  transaction_hash = some 9;
}

abbrev empty : Db
empty = record {
  providers = [];
  jobs = [];
  revise_rate_requests = [];
  transactions = [];
  sync = negsuc 0 ∷ [];
}

empty-IsValid : IsValid empty
empty-IsValid = ground arith

-- A job is opened with 100, settled of 30, and given 5 more.
abbrev story : List Log
story =
    log_of Event.job_opened 0 (2 ∷ 100 ∷ 1000 ∷ [])
    ∷ log_of Event.job_settled 1 (30 ∷ 1010 ∷ [])
    ∷ log_of Event.job_deposited 2 (5 ∷ [])
    ∷ []

-- What the tests compute with.
told : List Log → Db → Outcome (Unit {0}) × Db
unfolding handle_logs handle_log dispatch handle_job_opened handle_job_settled handle_job_deposited
    handle_provider_added handle_lock_created update_open_job insert_job insert_transaction
    update_jobs update_where insert upsert_provider unix_time insert_request as_i64 as_u64 ◌+ℤ◌ ◌-ℤ◌
    event_loop event_loop_from event_loop_round process_range transaction set_sync end_of_range
    start_from
told logs = handle_logs codec logs

abbrev after_story : Db
after_story = record empty {
  jobs =
      (
        "0x01",
        record {
          metadata = "{}";
          owner = "0x02";
          provider = "0x03";
          rate = 2;
          balance = pos 75;
          last_settled = 1010;
          created = 1000;
          is_closed = false;
        },
      )
      ∷ [];
  transactions =
      record {
        block = pos 7;
        idx = pos 2;
        tx_hash = "0x03";
        job = "0x01";
        amount = 5;
        is_deposit = true;
      }
      ∷ record {
        block = pos 7;
        idx = pos 0;
        tx_hash = "0x03";
        job = "0x01";
        amount = 100;
        is_deposit = true;
      }
      ∷ [];
}

story-ok : handle_logs codec story empty ≡ (ok tt, after_story)
unfolding told
story-ok = refl

handle_logs_accounts_example :
    balance_of (lookup "0x01" after_story.jobs)
      +ℤ pos (settled_total codec "0x01" story)
      +ℤ net "0x01" []
    ≡ pos 0 +ℤ net "0x01" after_story.transactions
handle_logs_accounts_example =
    handle_logs_accounts codec codec-IsCollisionFree "0x01" story empty empty-IsValid story-ok

handle_logs-IsHistory_example : IsHistory "0x01" after_story (handle_logs codec story after_story).1
handle_logs-IsHistory_example = handle_logs-IsHistory "0x01" codec story after_story

-- A round that fetches the story, in blocks 5 to 8.
abbrev round : Round
round = record { latest_block = some 8; logs = λ a b. some story }

abbrev at_four : Db
at_four = record empty { sync = as_i64 4 ∷ [] }

round-IsBounded : All (IsBounded 4) (round ∷ [])
round-IsBounded = (λ l e. ground arith, tt)

event_loop-Reaches_example :
    Reaches codec 4 at_four 4 (round ∷ []) (event_loop codec 4 (round ∷ []) at_four)
event_loop-Reaches_example =
    event_loop-Reaches codec 4 (round ∷ []) at_four 4 (omega arith) (omega arith) round-IsBounded
      refl

event_loop-run :
    (event_loop codec 4 (round ∷ []) at_four).1 ≡ record after_story { sync = pos 8 ∷ [] }
unfolding told
event_loop-run = refl

event_loop_safe_example :
    let d = (event_loop codec 4 (round ∷ []) at_four).1 in IsValid d × IsHistory "0x01" at_four d
event_loop_safe_example =
    event_loop_safe codec 4 (round ∷ []) at_four 4 "0x01" (omega arith) (omega arith)
      round-IsBounded refl (ground arith)

start_from_zero_stops_example :
    event_loop codec 4 (round ∷ []) (start_from 0 empty).1 ≡ (stop rpc_behind, empty)
start_from_zero_stops_example =
    start_from_zero_stops codec 4 8 round [] empty refl refl (omega arith)

-- The first log of the story, of a provider that is not in the table.
handle_job_opened_lem_example :
    let log = log_of Event.job_opened 0 (2 ∷ 100 ∷ 1000 ∷ []) in
    let (o, d) = handle_job_opened codec log empty in
    let new = new_job "{}" "0x02" "0x03" 2 100 1000 in
    let row = transaction_row (7, 0, "0x03") "0x01" 100 true in
    (o ≡ opened_result (lookup "0x01" empty.jobs) (has_key row []))
    × (lookup "0x01" d.jobs ≡ some (or_new none new))
    × (d.transactions ≡ (if is_ok o then row ∷ [] else []))
    × (lookup "0x09" d.jobs ≡ lookup "0x09" empty.jobs)
    × (d.providers ≡ empty.providers)
unfolding told
handle_job_opened_lem_example =
    handle_job_opened_lem codec (log_of Event.job_opened 0 (2 ∷ 100 ∷ 1000 ∷ [])) empty 1 2 3 2 100
      1000 7 0 9 "{}" "0x09" refl refl refl refl (omega arith) refl refl refl refl
