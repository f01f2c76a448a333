-- ===== src/Executor/Sender.antt =====
-- `send_execution_output` of event_handler.rs and `estimate_gas_and_price` of utils.rs. What the RPC
-- answers and what the clock says are arguments, one for each turn of a loop.
use oyster_monorepo.Base.{
  ℕ, ◌+◌, Bool, true, false, Option, none, some, List, [], ◌∷◌, ◌++◌, ltb, ◌==◌, if◌then◌else◌,
}
use oyster_monorepo.Executor.State.{
  JobsTxnMetadata, PendingTxnData, checked, raise_limit, raise_price,
}
use oyster_monorepo.Executor.SendError.{
  JobsTxnSendError, nonce_too_low, nonce_too_high, out_of_gas, gas_too_high, gas_price_low,
  contract_execution, network_connectivity, other_retryable, parse_send_error,
}

-- An answer of the RPC: a value, or an error with its text in small letters.
pub data Reply (A : Type 0) : Type 0 where
  accepted : A → Reply A
  rejected : List ℕ → Reply A

-- The first loop: the price, zero where there is none under the deadline.
unfoldable pub get_gas_price : ℕ → List (ℕ × Reply ℕ) → ℕ
get_gas_price deadline [] = 0
get_gas_price deadline ((now, rejected error) ∷ rest) =
    let later = get_gas_price deadline rest in if ltb now deadline then later else 0
get_gas_price deadline ((now, accepted price) ∷ rest) = if ltb now deadline then price else 0

-- The second loop.
unfoldable pub estimate_gas : ℕ → List (ℕ × Reply ℕ) → Option ℕ
estimate_gas deadline [] = none
estimate_gas deadline ((now, accepted gas) ∷ rest) = if ltb now deadline then some gas else none
estimate_gas deadline ((now, rejected error) ∷ rest) =
    let later = estimate_gas deadline rest in
    if ltb now deadline
    then (elim (parse_send_error error) [
      | gas_too_high ↦ none
      | contract_execution ↦ none
      | _ ↦ later
    ])
    else none

unfoldable pub estimate_gas_and_price : ℕ → List (ℕ × Reply ℕ) → List (ℕ × Reply ℕ) → Option (ℕ × ℕ)
estimate_gas_and_price deadline prices estimates =
    let gas_price = get_gas_price deadline prices in
    if gas_price == 0
    then none
    else elim (estimate_gas deadline estimates) [ none ↦ none | some gas ↦ some (gas, gas_price) ]

-- What the sender shares with the other tasks.
pub record Account : Type 0 where
  pub nonce_to_send : ℕ
  pub http_rpc_client : ℕ
  pub pending_txns : List PendingTxnData

-- A turn of the retry loop: what other tasks have done with the shared account since the last turn, or
-- since the gas was asked for, as an injected client and nonce or a change of the queue; the instant
-- of the loop's test; the transaction count, which is asked for only to update the nonce, with what
-- other tasks do meanwhile; and the answer to the transaction, with what they do until it comes, and
-- the instant after it.
pub record Attempt : Type 0 where
  pub before : Account → Account
  pub now : ℕ
  pub while_counting : Account → Account
  pub transaction_count : Option ℕ
  pub while_sending : Account → Account
  pub reply : Reply ℕ
  pub sent_at : ℕ

pub record Retry : Type 0 where
  pub update_nonce : Bool
  pub gas_limit : ℕ
  pub gas_price : ℕ

-- How the retry loop ends: with the transaction sent, given up, at the deadline, or by a panic;
-- `waiting` is that no more turns are given.
pub data Sent : Type 0 where
  sent given_up expired panicked waiting : Sent

-- The transaction count becomes the nonce; `none` is a failure to get it.
abbrev pub set_nonce : Option ℕ → Account → Bool × Account
set_nonce none s = (false, s)
set_nonce (some n) s = (true, record s { nonce_to_send = n })

-- The nonce is fetched where it has to be, and whether the turn goes on.
abbrev pub refresh : Attempt → Retry → Account → Bool × Account
refresh a r s =
    if r.update_nonce then set_nonce a.transaction_count (a.while_counting s) else (true, s)

-- The nonce is used up.
abbrev pub use_nonce : Account → Option ℕ → Sent × Account
use_nonce s none = (panicked, s)
use_nonce s (some n) = (sent, record s { nonce_to_send = n })

-- The transaction that was sent, by the client and with the nonce of then, goes to the end of the queue as
-- it is now, and the nonce that is there now is used up.
abbrev pub record_sent : JobsTxnMetadata → ℕ → ℕ → ℕ → ℕ → Retry → Account → Sent × Account
record_sent job_response hash now client current_nonce r s =
    use_nonce
      (record s {
        pending_txns =
            s.pending_txns
            ++ record {
              txn_hash = hash;
              txn_data = job_response;
              http_rpc_client = client;
              nonce = current_nonce;
              gas_limit = r.gas_limit;
              gas_price = r.gas_price;
              last_monitor_instant = now;
            }
              ∷ [];
      })
      (checked (s.nonce_to_send + 1))

-- What follows a rejection: the loop is left, the task panics, or the loop goes on with the retry.
pub data Next : Type 0 where
  leave crash : Next
  retry : Retry → Next

abbrev pub or_panic : (ℕ → Retry) → Option ℕ → Next
or_panic f none = crash
or_panic f (some n) = retry (f n)

abbrev pub by_error : Retry → JobsTxnSendError → Next
by_error r nonce_too_low = retry (record r { update_nonce = true })
by_error r out_of_gas = or_panic (λ n. record r { gas_limit = n }) (raise_limit r.gas_limit)
by_error r gas_price_low = or_panic (λ n. record r { gas_price = n }) (raise_price r.gas_price)
by_error r gas_too_high = leave
by_error r contract_execution = leave
by_error r nonce_too_high = retry r
by_error r network_connectivity = retry r
by_error r other_retryable = retry r

abbrev pub after_next : (Retry → Account → Sent × Account) → Account → Next → Sent × Account
after_next again s leave = (given_up, s)
after_next again s crash = (panicked, s)
after_next again s (retry r) = again r s

module _ (job_response : JobsTxnMetadata) where
  abbrev pub after_reply :
      (Retry → Account → Sent × Account) → ℕ → ℕ → ℕ → Retry → Account → Reply ℕ → Sent × Account
  after_reply again sent_at client current_nonce r s (accepted hash) =
      record_sent job_response hash sent_at client current_nonce r s
  after_reply again sent_at client current_nonce r s (rejected error) =
      after_next again s (by_error r (parse_send_error error))

  -- The transaction is sent, by the client that the turn has begun with.
  abbrev pub after_refresh :
      (Retry → Account → Sent × Account) → Attempt → ℕ → Retry → Bool × Account → Sent × Account
  after_refresh again a client r (false, t) = again r t
  after_refresh again a client r (true, t) =
      after_reply again a.sent_at client t.nonce_to_send (record r { update_nonce = false })
        (a.while_sending t) a.reply

  -- A turn, where the test of the loop is given.
  abbrev pub take_turn :
      (Retry → Account → Sent × Account) → Attempt → Retry → Account → Bool → Sent × Account
  take_turn again a r s true = after_refresh again a s.http_rpc_client r (refresh a r s)
  take_turn again a r s false = (expired, s)

  -- The retry loop, `while Instant::now() < job_response.retry_deadline`.
  unfoldable pub send_loop : List Attempt → Retry → Account → Sent × Account
  send_loop [] r s = (waiting, s)
  send_loop (a ∷ rest) r s =
      take_turn (send_loop rest) a r (a.before s) (ltb a.now job_response.retry_deadline)

-- A response with the answers that its turn of the outer loop gets.
pub record Response : Type 0 where
  pub job_response : JobsTxnMetadata
  pub prices : List (ℕ × Reply ℕ)
  pub estimates : List (ℕ × Reply ℕ)
  pub attempts : List Attempt

unfoldable pub send_response : Response → Account → Sent × Account
send_response q s =
    elim (estimate_gas_and_price q.job_response.retry_deadline q.prices q.estimates) [
      | none ↦ (given_up, s)
      | some (gas_limit, gas_price) ↦
          send_loop q.job_response q.attempts
            (record { update_nonce = false; gas_limit = gas_limit; gas_price = gas_price }) s
    ]

-- The loop over the responses; it does not get past a panic or a wait.
unfoldable pub send_execution_output : List Response → Account → Account
send_execution_output [] s = s
send_execution_output (q ∷ rest) s =
    let (e, s') = send_response q s in
    elim e [ panicked ↦ s' | waiting ↦ s' | _ ↦ send_execution_output rest s' ]
