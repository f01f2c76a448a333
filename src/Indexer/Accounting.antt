-- ===== src/Indexer/Accounting.antt =====
-- The books of a whole history of logs: what the jobs hold against what the logs moved.
use oyster_monorepo.Base.{
  ℕ, ◌+◌, String, ◌≡◌, ◌≢◌, refl, sym, ◌∙◌, true, false, Option, none, some, List, [], ◌∷◌, arith,
  ◌==◌, if◌then◌else◌, str_eq, get_elem?, Option-cases, Bool-cases, ==_iff, inl, inr, ap,
}
use oyster_monorepo.Base.Int.{ℤ, pos, pos_part, neg_part, ◌+ℤ◌, int_laws}
use oyster_monorepo.Chain.{Log, Codec}
use oyster_monorepo.Indexer.Table.{lookup}
use oyster_monorepo.Indexer.Db.{Db, Outcome, ok, err, panic}
use oyster_monorepo.Indexer.Dispatch.{Event, event_topic, handle_log, handle_logs}
use oyster_monorepo.Indexer.Message.{Message, apply}
use oyster_monorepo.Indexer.Parse.{parse_event, parse_known, parse, event_of}
use oyster_monorepo.Indexer.Parsing.{run_parsed, handle_log-parse}
use oyster_monorepo.Indexer.Dispatching.{IsCollisionFree, event_of-topic, event_of_sound}
use oyster_monorepo.Indexer.Statements.{>>-ok}
use oyster_monorepo.Indexer.Validity.{IsValid, handle_log-IsValid}
use oyster_monorepo.Indexer.Balances.{balance_of, net, settled_by, IsConsistent, apply-Accounts}

-- The amount of a JobSettled log's data.
abbrev pub first_or_zero : Option (ℕ × ℕ) → ℕ
first_or_zero none = 0
first_or_zero (some (amount, time)) = amount

module _ (c : Codec) (id : String) where
  abbrev of_job : Log → Option ℕ → ℕ
  of_job log none = 0
  of_job log (some w) =
      if str_eq (c.encode_hex_with_prefix w) id
      then first_or_zero (c.decode_u256_pair log.payload)
      else 0

  abbrev of_topic : Log → Option ℕ → ℕ
  of_topic log none = 0
  of_topic log (some t) =
      if t == event_topic c Event.job_settled then of_job log (get_elem? log.topics 1) else 0

  -- What a log settles of job `id`: the amount of a JobSettled log of that job.
  abbrev pub settled_amount : Log → ℕ
  settled_amount log = of_topic log (get_elem? log.topics 0)

  abbrev pub settled_total : List Log → ℕ
  settled_total [] = 0
  settled_total (log ∷ logs) = settled_amount log + settled_total logs

abbrev SatisfiedBy : (Message → Type 0) → Outcome Message → Type 0
SatisfiedBy P (ok m) = P m
SatisfiedBy P (err e) = Unit {0}
SatisfiedBy P panic = Unit {0}

parse_event-IsConsistent :
    (c : Codec) (log : Log) (e : Event) → SatisfiedBy IsConsistent (parse_event c e log)
unfolding parse_event
parse_event-IsConsistent c log Event.provider_added = ground arith
parse_event-IsConsistent c log _ = ground arith

-- Only a JobSettled log settles, and what it settles is its amount.
parse_event-settled :
    (c : Codec) (log : Log) (id : String)
    → SatisfiedBy
        (λ m. settled_by m id ≡ of_job c id log (get_elem? log.topics 1))
        (parse_event c Event.job_settled log)
unfolding parse_event
parse_event-settled c log id = ground arith

parse_event-unsettled :
    (c : Codec) (log : Log) (id : String) (e : Event)
    → e ≢ Event.job_settled
    → SatisfiedBy (λ m. settled_by m id ≡ 0) (parse_event c e log)
unfolding parse_event
parse_event-unsettled c log id Event.job_settled n = absurd (n refl)
parse_event-unsettled c log id _ n = ground arith

satisfied :
    (P : Message → Type 0) {o : Outcome Message} {m : Message} → SatisfiedBy P o → o ≡ ok m → P m
satisfied P h e = rw e at h

Event-discrete : Discrete Event
Event-discrete = hlevel

module _ (c : Codec) (free : IsCollisionFree c) (log : Log) (id : String) where
  other_topic :
      (t : ℕ)
      → event_of c t ≢ some Event.job_settled
      → (t == event_topic c Event.job_settled) ≡ false
  other_topic t n = elim (Bool-cases (t == event_topic c Event.job_settled)) [
    | inl e ↦ absurd (
        n (
          rw ((==_iff t (event_topic c Event.job_settled)).0 e)
            (event_of-topic c free Event.job_settled)))
    | inr e ↦ e
  ]

  settled_topic :
      (t : ℕ)
      → event_of c t ≡ some Event.job_settled
      → (t == event_topic c Event.job_settled) ≡ true
  settled_topic t e =
      (==_iff t (event_topic c Event.job_settled)).1 (event_of_sound c t Event.job_settled e)

  known-settled :
      (t : ℕ) (o : Option Event) {m : Message}
      → event_of c t ≡ o
      → parse_known c o log ≡ ok m
      → settled_by m id ≡ of_topic c id log (some t)
  known-settled t none e h =
      rw (other_topic t (λ p. cc))
        (satisfied (λ m. settled_by m id ≡ 0) {o = parse_known c none log} refl h)
  known-settled t (some v) e h = elim (Event-discrete v Event.job_settled) [
    | yes p ↦ rw (settled_topic t (cc)) (
        satisfied (λ m. settled_by m id ≡ of_job c id log (get_elem? log.topics 1))
          (parse_event-settled c log id) (rw p at h))
    | no n ↦
        rw (other_topic t (λ p. n (ground arith)))
          (satisfied (λ m. settled_by m id ≡ 0) (parse_event-unsettled c log id v n) h)
  ]

  parse-settled : {m : Message} → parse c log ≡ ok m → settled_by m id ≡ settled_amount c id log
  unfolding parse
  parse-settled h = elim (Option-cases (get_elem? log.topics 0)) [
    | inl e ↦ absurd (ground arith)
    | inr (t, e) ↦ rw e (known-settled t (event_of c t) refl (rw e at h))
  ]

known-IsConsistent :
    (c : Codec) (log : Log) (o : Option Event) → SatisfiedBy IsConsistent (parse_known c o log)
known-IsConsistent c log none = tt
known-IsConsistent c log (some e) = parse_event-IsConsistent c log e

parse-IsConsistent : (c : Codec) (log : Log) {m : Message} → parse c log ≡ ok m → IsConsistent m
unfolding parse
parse-IsConsistent c log h = elim (Option-cases (get_elem? log.topics 0)) [
  | inl e ↦ absurd (ground arith)
  | inr (t, e) ↦ satisfied IsConsistent (known-IsConsistent c log (event_of c t)) (rw e at h)
]

run_parsed_ok :
    (o : Outcome Message) (db : Db) {db' : Db}
    → run_parsed o db ≡ (ok tt, db')
    → (m : Message) × (o ≡ ok m) × (apply m db ≡ (ok tt, db'))
run_parsed_ok (ok m) db h = (m, refl, h)
run_parsed_ok (err e) db h = absurd (ground arith)
run_parsed_ok panic db h = absurd (ground arith)

-- A log that is handled is a message that is applied.
pub handle_log_ok :
    (c : Codec) (log : Log) (db : Db) {db' : Db}
    → handle_log c log db ≡ (ok tt, db')
    → (m : Message) × (parse c log ≡ ok m) × (apply m db ≡ (ok tt, db'))
handle_log_ok c log db h = run_parsed_ok (parse c log) db (sym (handle_log-parse c log db) ∙ h)

chain :
    (x x' x'' n n' n'' : ℤ) (s t : ℕ)
    → x' +ℤ pos s +ℤ n ≡ x +ℤ n'
    → x'' +ℤ pos t +ℤ n' ≡ x' +ℤ n''
    → x'' +ℤ pos (s + t) +ℤ n ≡ x +ℤ n''
chain x x' x'' n n' n'' s t h k =
    omega (int_laws, ap pos_part h, ap neg_part h, ap pos_part k, ap neg_part k)

module _ (c : Codec) (free : IsCollisionFree c) (id : String) where
  -- One log.
  pub handle_log_accounts :
      (log : Log) (db : Db) {db' : Db}
      → IsValid db
      → handle_log c log db ≡ (ok tt, db')
      → balance_of (lookup id db'.jobs) +ℤ pos (settled_amount c id log) +ℤ net id db.transactions
        ≡ balance_of (lookup id db.jobs) +ℤ net id db'.transactions
  handle_log_accounts log db v h =
      let (m, parsed, applied) = handle_log_ok c log db h in
      rw (← parse-settled c free log id parsed)
        (apply-Accounts id db v m (parse-IsConsistent c log parsed) applied)

  -- Where keccak does not collide on the signatures: over any logs that are handled without an error,
  -- from a database that satisfies the schema, what job `id` holds, together with all that was
  -- settled of it, changes as its deposits less its withdrawals do.
  pub handle_logs_accounts :
      (logs : List Log) (db : Db) {db' : Db}
      → IsValid db
      → handle_logs c logs db ≡ (ok tt, db')
      → balance_of (lookup id db'.jobs) +ℤ pos (settled_total c id logs) +ℤ net id db.transactions
        ≡ balance_of (lookup id db.jobs) +ℤ net id db'.transactions
  unfolding handle_logs
  handle_logs_accounts [] db v h = rw (← ap (λ r. r.1) h) (omega int_laws)
  handle_logs_accounts (log ∷ logs) db v h =
      let (a, d, first, rest) = >>-ok (handle_log c log) (handle_logs c logs) db h in
      let w : IsValid d = rw (ap (λ r. r.1) first) at (handle_log-IsValid c log db v) in
      chain _ _ _ _ _ _ _ _ (handle_log_accounts log db v first)
        (handle_logs_accounts logs d w rest)
