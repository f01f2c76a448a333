-- ===== src/Indexer/Parsing.antt =====
-- Each handler parses its log and then applies the message.
use oyster_monorepo.Base.{
  ℕ, ◌≡◌, refl, Bool, true, false, Option, some, arith, ◌==◌, if◌then◌else◌, get_elem?,
  Option-cases, inl, inr,
}
use oyster_monorepo.Chain.{Log, Codec}
use oyster_monorepo.Indexer.Db.{Db, Outcome, ok, err, panic, M, unix_time}
use oyster_monorepo.Indexer.Providers.{
  handle_provider_added, handle_provider_removed, handle_provider_updated_with_cp,
}
use oyster_monorepo.Indexer.Jobs.{
  handle_job_opened, handle_job_settled, handle_job_closed, handle_job_deposited,
  handle_job_withdrew, handle_job_revise_rate_initiated, handle_job_revise_rate_cancelled,
  handle_job_revise_rate_finalized, handle_job_metadata_updated,
}
use oyster_monorepo.Indexer.Locks.{handle_lock_created, handle_lock_deleted}
use oyster_monorepo.Indexer.Dispatch.{Event, handle_log, dispatch, event_topic}
use oyster_monorepo.Indexer.Message.{Message, apply}
use oyster_monorepo.Indexer.Parse.{parse_event, parse_known, parse, event_of}

-- What a parsed log does to the database.
abbrev pub run_parsed : Outcome Message → M (Unit {0})
run_parsed (ok m) db = apply m db
run_parsed (err e) db = (err e, db)
run_parsed panic db = (panic, db)

module _ (c : Codec) (log : Log) (db : Db) where
  handle_provider_added-parse :
      handle_provider_added c log db ≡ run_parsed (parse_event c Event.provider_added log) db
  unfolding handle_provider_added parse_event apply
  handle_provider_added-parse = ground arith

  handle_provider_removed-parse :
      handle_provider_removed c log db ≡ run_parsed (parse_event c Event.provider_removed log) db
  unfolding handle_provider_removed parse_event apply
  handle_provider_removed-parse = ground arith

  handle_provider_updated_with_cp-parse :
      handle_provider_updated_with_cp c log db
      ≡ run_parsed (parse_event c Event.provider_updated_with_cp log) db
  unfolding handle_provider_updated_with_cp parse_event apply
  handle_provider_updated_with_cp-parse = ground arith

  handle_job_opened-parse :
      handle_job_opened c log db ≡ run_parsed (parse_event c Event.job_opened log) db
  unfolding handle_job_opened parse_event apply unix_time
  handle_job_opened-parse = ground arith

  handle_job_settled-parse :
      handle_job_settled c log db ≡ run_parsed (parse_event c Event.job_settled log) db
  unfolding handle_job_settled parse_event apply unix_time
  handle_job_settled-parse = ground arith

  handle_job_closed-parse :
      handle_job_closed c log db ≡ run_parsed (parse_event c Event.job_closed log) db
  unfolding handle_job_closed parse_event apply
  handle_job_closed-parse = ground arith

  handle_job_deposited-parse :
      handle_job_deposited c log db ≡ run_parsed (parse_event c Event.job_deposited log) db
  unfolding handle_job_deposited parse_event apply
  handle_job_deposited-parse = ground arith

  handle_job_withdrew-parse :
      handle_job_withdrew c log db ≡ run_parsed (parse_event c Event.job_withdrew log) db
  unfolding handle_job_withdrew parse_event apply
  handle_job_withdrew-parse = ground arith

  handle_job_revise_rate_finalized-parse :
      handle_job_revise_rate_finalized c log db
      ≡ run_parsed (parse_event c Event.job_revise_rate_finalized log) db
  unfolding handle_job_revise_rate_finalized parse_event apply
  handle_job_revise_rate_finalized-parse = ground arith

  handle_job_metadata_updated-parse :
      handle_job_metadata_updated c log db
      ≡ run_parsed (parse_event c Event.job_metadata_updated log) db
  unfolding handle_job_metadata_updated parse_event apply
  handle_job_metadata_updated-parse = ground arith

  handle_lock_created-parse :
      handle_lock_created c log db ≡ run_parsed (parse_event c Event.lock_created log) db
  unfolding handle_lock_created parse_event apply unix_time
  handle_lock_created-parse = ground arith

  handle_lock_deleted-parse :
      handle_lock_deleted c log db ≡ run_parsed (parse_event c Event.lock_deleted log) db
  unfolding handle_lock_deleted parse_event apply
  handle_lock_deleted-parse = ground arith

  -- One test of the chain.
  branch :
      (b : Bool) (x y : M (Unit {0})) (e : Event) (o : Option Event)
      → x db ≡ run_parsed (parse_event c e log) db
      → y db ≡ run_parsed (parse_known c o log) db
      → (if b then x else y) db ≡ run_parsed (parse_known c (if b then some e else o) log) db
  branch true x y e o p q = p
  branch false x y e o p q = q

  dispatch-parse : (t : ℕ) → dispatch c t log db ≡ run_parsed (parse_known c (event_of c t) log) db
  unfolding dispatch event_of handle_job_revise_rate_initiated handle_job_revise_rate_cancelled
      parse_event apply
  dispatch-parse t =
      branch (t == event_topic c Event.provider_added) _ _ _ _ handle_provider_added-parse (
        branch (t == event_topic c Event.provider_removed) _ _ _ _ handle_provider_removed-parse (
          branch (t == event_topic c Event.provider_updated_with_cp) _ _ _ _
            handle_provider_updated_with_cp-parse
            (branch (t == event_topic c Event.job_opened) _ _ _ _ handle_job_opened-parse (
              branch (t == event_topic c Event.job_settled) _ _ _ _ handle_job_settled-parse (
                branch (t == event_topic c Event.job_closed) _ _ _ _ handle_job_closed-parse (
                  branch (t == event_topic c Event.job_deposited) _ _ _ _ handle_job_deposited-parse
                    (branch (t == event_topic c Event.job_withdrew) _ _ _ _
                      handle_job_withdrew-parse
                      (branch (t == event_topic c Event.job_revise_rate_initiated) _ _ _ _ refl (
                        branch (t == event_topic c Event.job_revise_rate_cancelled) _ _ _ _ refl (
                          branch (t == event_topic c Event.job_revise_rate_finalized) _ _ _ _
                            handle_job_revise_rate_finalized-parse
                            (branch (t == event_topic c Event.job_metadata_updated) _ _ _ _
                              handle_job_metadata_updated-parse
                              (branch (t == event_topic c Event.lock_created) _ _ _ _
                                handle_lock_created-parse
                                (branch (t == event_topic c Event.lock_deleted) _ _ _ _
                                  handle_lock_deleted-parse (refl))))))))))))))

  -- Handling a log is parsing it and applying its message.
  pub handle_log-parse : handle_log c log db ≡ run_parsed (parse c log) db
  unfolding handle_log parse
  handle_log-parse = elim (Option-cases (get_elem? log.topics 0)) [
    | inl e ↦ rw (e, handle_log, parse)
    | inr (t, e) ↦ rw (e, handle_log, parse) (dispatch-parse t)
  ]
