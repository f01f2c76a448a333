-- ===== src/Executor/Resending.antt =====
-- What a transaction that is sent again keeps, and where a response goes.
use oyster_monorepo.Base.{
  ℕ, ◌≤◌, ◌≡◌, refl, Bool, true, false, Option, none, some, List, [], ◌∷◌, arith, ltb, ◌==◌,
}
use oyster_monorepo.Executor.State.{PendingTxnData, raise_limit, raise_price}
use oyster_monorepo.Executor.SendError.{
  JobsTxnSendError, nonce_too_low, nonce_too_high, out_of_gas, gas_too_high, gas_price_low,
  contract_execution, network_connectivity, other_retryable, parse_send_error,
}
use oyster_monorepo.Executor.Sender.{Reply, accepted, rejected}
use oyster_monorepo.Executor.Resend.{
  Turn, Fate, mined, settled, panicked, waiting, resent, forwarded, Replaced, done, unresolved,
  adjust, or_crash, replace_error, replace_reply, replace_turn, replace_in_time, replace_loop,
  dummy_loop, or_abort, dummy_error, dummy_reply, dummy_turn, after_replacement, raise_gas, replace,
  resend_one,
}

-- The same transaction but for its gas, of which there is at least as much, its hash and its time.
pub record IsRaised (p q : PendingTxnData) : Type 0 where
  pub same_data : q.txn_data ≡ p.txn_data
  pub same_client : q.http_rpc_client ≡ p.http_rpc_client
  pub same_nonce : q.nonce ≡ p.nonce
  pub more_gas : p.gas_limit ≤ q.gas_limit
  pub higher_price : p.gas_price ≤ q.gas_price

-- What is promised of the end: what is sent again is the transaction raised, and what goes back to the
-- sender is its response.
abbrev pub IsFaithful : PendingTxnData → Fate → Type 0
IsFaithful p (resent q) = IsRaised p q
IsFaithful p (forwarded d) = d ≡ p.txn_data
IsFaithful p mined = Unit {0}
IsFaithful p settled = Unit {0}
IsFaithful p panicked = Unit {0}
IsFaithful p waiting = Unit {0}

IsRaised-refl : (p : PendingTxnData) → IsRaised p p
IsRaised-refl p = ground arith

IsRaised-trans : (p q r : PendingTxnData) → IsRaised p q → IsRaised q r → IsRaised p r
IsRaised-trans p q r h k = ground arith

IsFaithful-IsRaised :
    (p q : PendingTxnData) (f : Fate) → IsRaised p q → IsFaithful q f → IsFaithful p f
IsFaithful-IsRaised p q (resent r) h k = IsRaised-trans p q r h k
IsFaithful-IsRaised p q (forwarded d) h k = ground arith
IsFaithful-IsRaised p q mined h k = tt
IsFaithful-IsRaised p q settled h k = tt
IsFaithful-IsRaised p q panicked h k = tt
IsFaithful-IsRaised p q waiting h k = tt

raise_price-le : (price n : ℕ) → raise_price price ≡ some n → price ≤ n
unfolding raise_price
raise_price-le price n h = ground arith

adjust-IsRaised : (p q : PendingTxnData) (e : JobsTxnSendError) → adjust p e ≡ some q → IsRaised p q
unfolding raise_limit
adjust-IsRaised p q nonce_too_low h = ground arith
adjust-IsRaised p q nonce_too_high h = ground arith
adjust-IsRaised p q out_of_gas h = ground arith
adjust-IsRaised p q gas_too_high h = ground arith
adjust-IsRaised p q gas_price_low h = ground (arith, raise_price-le p.gas_price q.gas_price)
adjust-IsRaised p q contract_execution h = ground arith
adjust-IsRaised p q network_connectivity h = ground arith
adjust-IsRaised p q other_retryable h = ground arith

-- The same of the end of the loop of replacements.
abbrev pub IsFaithfulSoFar : PendingTxnData → Replaced → Type 0
IsFaithfulSoFar p (done f) = IsFaithful p f
IsFaithfulSoFar p (unresolved send_dummy q) = IsRaised p q

IsFaithfulSoFar-IsRaised :
    (p q : PendingTxnData) (x : Replaced) → IsRaised p q → IsFaithfulSoFar q x → IsFaithfulSoFar p x
IsFaithfulSoFar-IsRaised p q (done f) h k = IsFaithful-IsRaised p q f h k
IsFaithfulSoFar-IsRaised p q (unresolved send_dummy r) h k = IsRaised-trans p q r h k

module _ (again : Bool → PendingTxnData → Replaced)
    (later : (send_dummy : Bool)
      → (q : PendingTxnData) → IsFaithfulSoFar q (again send_dummy q)) where
  or_crash-IsFaithfulSoFar :
      (send_dummy : Bool) (p : PendingTxnData) (e : JobsTxnSendError) (o : Option PendingTxnData)
      → adjust p e ≡ o
      → IsFaithfulSoFar p (or_crash (again send_dummy) o)
  or_crash-IsFaithfulSoFar send_dummy p e none h = tt
  or_crash-IsFaithfulSoFar send_dummy p e (some q) h =
      IsFaithfulSoFar-IsRaised p q (again send_dummy q) (adjust-IsRaised p q e h)
        (later send_dummy q)

  replace_error-IsFaithfulSoFar :
      (send_dummy : Bool) (p : PendingTxnData) (e : JobsTxnSendError)
      → IsFaithfulSoFar p (replace_error again send_dummy p e)
  replace_error-IsFaithfulSoFar send_dummy p nonce_too_low = tt
  replace_error-IsFaithfulSoFar send_dummy p gas_too_high = IsRaised-refl p
  replace_error-IsFaithfulSoFar send_dummy p contract_execution = IsRaised-refl p
  replace_error-IsFaithfulSoFar send_dummy p out_of_gas =
      or_crash-IsFaithfulSoFar send_dummy p out_of_gas (adjust p out_of_gas) refl
  replace_error-IsFaithfulSoFar send_dummy p gas_price_low =
      or_crash-IsFaithfulSoFar send_dummy p gas_price_low (adjust p gas_price_low) refl
  replace_error-IsFaithfulSoFar send_dummy p nonce_too_high = later send_dummy p
  replace_error-IsFaithfulSoFar send_dummy p network_connectivity = later send_dummy p
  replace_error-IsFaithfulSoFar send_dummy p other_retryable = later send_dummy p

  replace_reply-IsFaithfulSoFar :
      (t : Turn) (send_dummy : Bool) (p : PendingTxnData) (reply : Reply ℕ)
      → IsFaithfulSoFar p (replace_reply again t send_dummy p reply)
  replace_reply-IsFaithfulSoFar t send_dummy p (accepted hash) = ground arith
  replace_reply-IsFaithfulSoFar t send_dummy p (rejected error) =
      replace_error-IsFaithfulSoFar send_dummy p (parse_send_error error)

  forward-IsFaithfulSoFar :
      (p : PendingTxnData) (channel_open : Bool)
      → IsFaithfulSoFar p (elim channel_open as (λ x. Replaced) [
        | true ↦ done (forwarded p.txn_data)
        | false ↦ again false p
      ])
  forward-IsFaithfulSoFar p true = refl
  forward-IsFaithfulSoFar p false = later false p

  replace_turn-IsFaithfulSoFar :
      (t : Turn) (send_dummy : Bool) (p : PendingTxnData) (same_client : Bool)
      → IsFaithfulSoFar p (replace_turn again t send_dummy p same_client)
  replace_turn-IsFaithfulSoFar t send_dummy p true =
      replace_reply-IsFaithfulSoFar t send_dummy p t.reply
  replace_turn-IsFaithfulSoFar t send_dummy p false = forward-IsFaithfulSoFar p t.channel_open

  replace_in_time-IsFaithfulSoFar :
      (t : Turn) (send_dummy : Bool) (p : PendingTxnData) (in_time : Bool)
      → IsFaithfulSoFar p (replace_in_time again t send_dummy p in_time)
  replace_in_time-IsFaithfulSoFar t send_dummy p true =
      replace_turn-IsFaithfulSoFar t send_dummy p (t.current_client == p.http_rpc_client)
  replace_in_time-IsFaithfulSoFar t send_dummy p false = IsRaised-refl p

replace_loop-IsFaithfulSoFar :
    (turns : List Turn) (send_dummy : Bool) (p : PendingTxnData)
    → IsFaithfulSoFar p (replace_loop turns send_dummy p)
unfolding replace_loop
replace_loop-IsFaithfulSoFar [] send_dummy p = tt
replace_loop-IsFaithfulSoFar (t ∷ rest) send_dummy p =
    replace_in_time-IsFaithfulSoFar (replace_loop rest) (replace_loop-IsFaithfulSoFar rest) t
      send_dummy p (ltb t.now p.txn_data.retry_deadline)

-- Fates that leave nothing to be sent.
abbrev IsQuiet : Fate → Type 0
IsQuiet (resent q) = ⊥
IsQuiet (forwarded d) = ⊥
IsQuiet mined = Unit {0}
IsQuiet settled = Unit {0}
IsQuiet panicked = Unit {0}
IsQuiet waiting = Unit {0}

module _ (again : PendingTxnData → Fate) (later : (q : PendingTxnData) → IsQuiet (again q)) where
  or_abort-IsQuiet : (o : Option PendingTxnData) → IsQuiet (or_abort again o)
  or_abort-IsQuiet none = tt
  or_abort-IsQuiet (some q) = later q

  dummy_error-IsQuiet :
      (p : PendingTxnData) (e : JobsTxnSendError) → IsQuiet (dummy_error again p e)
  dummy_error-IsQuiet p nonce_too_low = tt
  dummy_error-IsQuiet p nonce_too_high = later p
  dummy_error-IsQuiet p out_of_gas = or_abort-IsQuiet (adjust p out_of_gas)
  dummy_error-IsQuiet p gas_too_high = later p
  dummy_error-IsQuiet p gas_price_low = or_abort-IsQuiet (adjust p gas_price_low)
  dummy_error-IsQuiet p contract_execution = later p
  dummy_error-IsQuiet p network_connectivity = later p
  dummy_error-IsQuiet p other_retryable = later p

  confirmed-IsQuiet :
      (p : PendingTxnData) (b : Bool)
      → IsQuiet (elim b as (λ x. Fate) [ true ↦ settled | false ↦ again p ])
  confirmed-IsQuiet p true = tt
  confirmed-IsQuiet p false = later p

  dummy_reply-IsQuiet :
      (t : Turn) (p : PendingTxnData) (reply : Reply ℕ) → IsQuiet (dummy_reply again t p reply)
  dummy_reply-IsQuiet t p (accepted hash) = confirmed-IsQuiet p t.confirmed
  dummy_reply-IsQuiet t p (rejected error) = dummy_error-IsQuiet p (parse_send_error error)

  dummy_turn-IsQuiet : (t : Turn) (p : PendingTxnData) (b : Bool) → IsQuiet (dummy_turn again t p b)
  dummy_turn-IsQuiet t p true = dummy_reply-IsQuiet t p t.reply
  dummy_turn-IsQuiet t p false = tt

dummy_loop-IsQuiet : (turns : List Turn) (p : PendingTxnData) → IsQuiet (dummy_loop turns p)
unfolding dummy_loop
dummy_loop-IsQuiet [] p = tt
dummy_loop-IsQuiet (t ∷ rest) p =
    dummy_turn-IsQuiet (dummy_loop rest) (dummy_loop-IsQuiet rest) t p
      (t.current_client == p.http_rpc_client)

IsQuiet-IsFaithful : (p : PendingTxnData) (f : Fate) → IsQuiet f → IsFaithful p f
IsQuiet-IsFaithful p (resent q) h = absurd h
IsQuiet-IsFaithful p (forwarded d) h = absurd h
IsQuiet-IsFaithful p mined h = tt
IsQuiet-IsFaithful p settled h = tt
IsQuiet-IsFaithful p panicked h = tt
IsQuiet-IsFaithful p waiting h = tt

after_replacement-IsFaithful :
    (dummies : List Turn) (p : PendingTxnData) (x : Replaced)
    → IsFaithfulSoFar p x
    → IsFaithful p (after_replacement dummies x)
after_replacement-IsFaithful dummies p (done f) h = h
after_replacement-IsFaithful dummies p (unresolved true q) h =
    IsQuiet-IsFaithful p (dummy_loop dummies q) (dummy_loop-IsQuiet dummies q)
after_replacement-IsFaithful dummies p (unresolved false q) h = tt

-- A replacement offers more gas, or at least as much where the offer is raised to begin with.
raise_gas-IsRaised : (p q : PendingTxnData) → raise_gas p ≡ some q → IsRaised p q
unfolding raise_gas raise_limit
raise_gas-IsRaised p q h = ground (arith, raise_price-le p.gas_price q.gas_price)

replace-IsFaithful :
    (turns dummies : List Turn) (p : PendingTxnData) (o : Option PendingTxnData)
    → raise_gas p ≡ o
    → IsFaithful p (replace turns dummies o)
replace-IsFaithful turns dummies p none e = tt
replace-IsFaithful turns dummies p (some q) e =
    IsFaithful-IsRaised p q (after_replacement dummies (replace_loop turns true q))
      (raise_gas-IsRaised p q e)
      (after_replacement-IsFaithful dummies q (replace_loop turns true q)
        (replace_loop-IsFaithfulSoFar turns true q))

-- Whatever becomes of a pending transaction: where it is sent again, it is the same response with the
-- same nonce by the same client, with no less gas and no lower a price; and where a response goes back to
-- the sender, it is that of the transaction.
pub resend_one-IsFaithful :
    (has_receipt : Bool) (turns dummies : List Turn) (p : PendingTxnData)
    → IsFaithful p (resend_one has_receipt turns dummies p)
unfolding resend_one
resend_one-IsFaithful true turns dummies p = tt
resend_one-IsFaithful false turns dummies p = replace-IsFaithful turns dummies p (raise_gas p) refl
