-- ===== src/Executor/Resend.antt =====
-- `resend_pending_transaction` of event_handler.rs: what becomes of the transaction at the front of the
-- queue. The answers of the RPC, the clock and the channel are arguments, one for each turn of a loop.
use oyster_monorepo.Base.{
  ℕ, Bool, true, false, Option, none, some, List, [], ◌∷◌, ltb, ◌==◌, if◌then◌else◌,
}
use oyster_monorepo.Executor.State.{JobsTxnMetadata, PendingTxnData, raise_limit, raise_price}
use oyster_monorepo.Executor.SendError.{
  JobsTxnSendError, nonce_too_low, nonce_too_high, out_of_gas, gas_too_high, gas_price_low,
  contract_execution, network_connectivity, other_retryable, parse_send_error,
}
use oyster_monorepo.Executor.Sender.{Reply, accepted, rejected}

-- A turn of either loop: the instant of its test, the client that is set by then, whether the channel
-- takes the response, the answer of the RPC and the instant after it, and, for the dummy transaction,
-- whether it is confirmed.
pub record Turn : Type 0 where
  pub now : ℕ
  pub current_client : ℕ
  pub channel_open : Bool
  pub reply : Reply ℕ
  pub sent_at : ℕ
  pub confirmed : Bool

-- What becomes of the transaction: it was mined, it is sent again and watched, its response goes back to
-- the sender, its nonce is no longer its own concern, or the task has panicked; `waiting` is that no
-- more turns are given.
pub data Fate : Type 0 where
  mined settled panicked waiting : Fate
  resent : PendingTxnData → Fate
  forwarded : JobsTxnMetadata → Fate

-- How the loop of replacements ends: with a fate, or with the flag for the dummy transaction.
pub data Replaced : Type 0 where
  done : Fate → Replaced
  unresolved : Bool → PendingTxnData → Replaced

abbrev pub raised : (ℕ → PendingTxnData) → Option ℕ → Option PendingTxnData
raised f none = none
raised f (some n) = some (f n)

-- The gas for the next attempt after an error, where the loop goes on; `none` is an overflow.
abbrev pub adjust : PendingTxnData → JobsTxnSendError → Option PendingTxnData
adjust p out_of_gas = raised (λ n. record p { gas_limit = n }) (raise_limit p.gas_limit)
adjust p gas_price_low = raised (λ n. record p { gas_price = n }) (raise_price p.gas_price)
adjust p nonce_too_low = some p
adjust p nonce_too_high = some p
adjust p gas_too_high = some p
adjust p contract_execution = some p
adjust p network_connectivity = some p
adjust p other_retryable = some p

abbrev pub or_crash : (PendingTxnData → Replaced) → Option PendingTxnData → Replaced
or_crash again none = done panicked
or_crash again (some p) = again p

abbrev pub replace_error :
    (Bool → PendingTxnData → Replaced) → Bool → PendingTxnData → JobsTxnSendError → Replaced
replace_error again send_dummy p nonce_too_low = done settled
replace_error again send_dummy p gas_too_high = unresolved send_dummy p
replace_error again send_dummy p contract_execution = unresolved send_dummy p
replace_error again send_dummy p out_of_gas = or_crash (again send_dummy) (adjust p out_of_gas)
replace_error again send_dummy p gas_price_low =
    or_crash (again send_dummy) (adjust p gas_price_low)
replace_error again send_dummy p nonce_too_high = again send_dummy p
replace_error again send_dummy p network_connectivity = again send_dummy p
replace_error again send_dummy p other_retryable = again send_dummy p

abbrev pub replace_reply :
    (Bool → PendingTxnData → Replaced) → Turn → Bool → PendingTxnData → Reply ℕ → Replaced
replace_reply again t send_dummy p (accepted hash) =
    done (resent (record p { txn_hash = hash; last_monitor_instant = t.sent_at }))
replace_reply again t send_dummy p (rejected error) =
    replace_error again send_dummy p (parse_send_error error)

-- A response of another client goes back to the sender, and needs no dummy transaction.
abbrev pub replace_turn :
    (Bool → PendingTxnData → Replaced) → Turn → Bool → PendingTxnData → Bool → Replaced
replace_turn again t send_dummy p true = replace_reply again t send_dummy p t.reply
replace_turn again t send_dummy p false = elim t.channel_open [
  | true ↦ done (forwarded p.txn_data)
  | false ↦ again false p
]

abbrev pub replace_in_time :
    (Bool → PendingTxnData → Replaced) → Turn → Bool → PendingTxnData → Bool → Replaced
replace_in_time again t send_dummy p true =
    replace_turn again t send_dummy p (t.current_client == p.http_rpc_client)
replace_in_time again t send_dummy p false = unresolved send_dummy p

-- `while Instant::now() < pending_txn_data.txn_data.retry_deadline`
unfoldable pub replace_loop : List Turn → Bool → PendingTxnData → Replaced
replace_loop [] send_dummy p = done waiting
replace_loop (t ∷ rest) send_dummy p =
    replace_in_time (replace_loop rest) t send_dummy p (ltb t.now p.txn_data.retry_deadline)

abbrev pub or_abort : (PendingTxnData → Fate) → Option PendingTxnData → Fate
or_abort again none = panicked
or_abort again (some p) = again p

abbrev pub dummy_error : (PendingTxnData → Fate) → PendingTxnData → JobsTxnSendError → Fate
dummy_error again p nonce_too_low = settled
dummy_error again p e = or_abort again (adjust p e)

abbrev pub dummy_reply : (PendingTxnData → Fate) → Turn → PendingTxnData → Reply ℕ → Fate
dummy_reply again t p (accepted hash) = elim t.confirmed [ true ↦ settled | false ↦ again p ]
dummy_reply again t p (rejected error) = dummy_error again p (parse_send_error error)

abbrev pub dummy_turn : (PendingTxnData → Fate) → Turn → PendingTxnData → Bool → Fate
dummy_turn again t p true = dummy_reply again t p t.reply
dummy_turn again t p false = settled

-- The loop that sends nothing to itself, so that the nonce is used up.
unfoldable pub dummy_loop : List Turn → PendingTxnData → Fate
dummy_loop [] p = waiting
dummy_loop (t ∷ rest) p = dummy_turn (dummy_loop rest) t p (t.current_client == p.http_rpc_client)

abbrev pub after_replacement : List Turn → Replaced → Fate
after_replacement dummies (done f) = f
after_replacement dummies (unresolved true p) = dummy_loop dummies p
after_replacement dummies (unresolved false p) = settled

-- The gas limit and the price for the replacement.
unfoldable pub raise_gas : PendingTxnData → Option PendingTxnData
raise_gas p = elim (raise_limit p.gas_limit) [
  | none ↦ none
  | some gas_limit ↦ elim (raise_price p.gas_price) [
    | none ↦ none
    | some gas_price ↦ some (record p { gas_limit = gas_limit; gas_price = gas_price })
  ]
]

abbrev pub replace : List Turn → List Turn → Option PendingTxnData → Fate
replace turns dummies none = panicked
replace turns dummies (some p) = after_replacement dummies (replace_loop turns true p)

-- A round of the outer loop, after the transaction was taken from the front and the time was waited.
unfoldable pub resend_one : Bool → List Turn → List Turn → PendingTxnData → Fate
resend_one has_receipt turns dummies p =
    if has_receipt then mined else replace turns dummies (raise_gas p)

-- What the other tasks see: the queue, and the responses that went back to the sender.
pub record Shared : Type 0 where
  pub pending_txns : List PendingTxnData
  pub channel : List JobsTxnMetadata

abbrev pub settle : List PendingTxnData → List JobsTxnMetadata → Fate → Shared
settle rest channel (resent p) = record { pending_txns = p ∷ rest; channel = channel }
settle rest channel (forwarded q) = record { pending_txns = rest; channel = q ∷ channel }
settle rest channel mined = record { pending_txns = rest; channel = channel }
settle rest channel settled = record { pending_txns = rest; channel = channel }
settle rest channel panicked = record { pending_txns = rest; channel = channel }
settle rest channel waiting = record { pending_txns = rest; channel = channel }

unfoldable pub resend_front : Bool → List Turn → List Turn → Shared → Shared
resend_front has_receipt turns dummies s = elim s.pending_txns [
  | [] ↦ s
  | p ∷ rest ↦ settle rest s.channel (resend_one has_receipt turns dummies p)
]
