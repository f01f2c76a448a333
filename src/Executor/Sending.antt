-- ===== src/Executor/Sending.antt =====
-- When the sender gets a transaction sent, and with which nonce.
use mathlib.Core.Path.{subst}
use oyster_monorepo.Base.{
  ℕ, ◌+◌, ◌^◌, ◌<◌, ◌≡◌, ◌⊎◌, refl, sym, true, false, none, some, List, [], ◌∷◌, ◌++◌, arith, ltb,
  if◌then◌else◌, All, inl, inr,
}
use oyster_monorepo.Executor.State.{JobsTxnMetadata, PendingTxnData}
use oyster_monorepo.Executor.SendError.{
  nonce_too_low, nonce_too_high, network_connectivity, other_retryable, parse_send_error,
}
use oyster_monorepo.Executor.Sender.{
  accepted, rejected, Account, Attempt, Retry, Sent, sent, take_turn, send_loop,
}
use oyster_monorepo.Executor.Queued.{IsSentIn}

-- The nonce leaves room for one more.
abbrev pub HasRoom : Account → Type 0
HasRoom s = s.nonce_to_send + 1 < 2 ^ 256

-- What other tasks do leaves such a nonce.
abbrev pub LeavesRoom : (Account → Account) → Type 0
LeavesRoom f = (s : Account) → HasRoom s → HasRoom (f s)

-- A turn in which the transaction is refused for a reason that is retried as it is, in time and with
-- a transaction count at hand.
pub record IsRetried (deadline : ℕ) (a : Attempt) : Type 0 where
  pub in_time : a.now < deadline
  pub before : LeavesRoom a.before
  pub sending : LeavesRoom a.while_sending
  pub count : ℕ
  pub counted : a.transaction_count ≡ some count
  pub bounded : count + 1 < 2 ^ 256
  pub error : List ℕ
  pub refused : a.reply ≡ rejected error
  pub retried :
      (parse_send_error error ≡ nonce_too_low)
      ⊎ ((parse_send_error error ≡ nonce_too_high)
          ⊎ ((parse_send_error error ≡ network_connectivity)
              ⊎ (parse_send_error error ≡ other_retryable)))

-- A turn in which it is accepted.
pub record IsAccepted (deadline : ℕ) (a : Attempt) : Type 0 where
  pub in_time : a.now < deadline
  pub before : LeavesRoom a.before
  pub sending : LeavesRoom a.while_sending
  pub count : ℕ
  pub counted : a.transaction_count ≡ some count
  pub bounded : count + 1 < 2 ^ 256
  pub hash : ℕ
  pub taken : a.reply ≡ accepted hash

-- The account as the transaction of a turn is sent.
abbrev sending_with : Attempt → ℕ → Retry → Account → Account
sending_with a count r s =
    if r.update_nonce then record (a.while_counting s) { nonce_to_send = count } else s

sending_with-HasRoom :
    (a : Attempt) (count : ℕ) (r : Retry) (s : Account)
    → count + 1 < 2 ^ 256
    → HasRoom s
    → HasRoom (sending_with a count r s)
sending_with-HasRoom a count r s h k = ground arith

IsRetried-again :
    (job_response : JobsTxnMetadata) (again : Retry → Account → Sent × Account) (b : Attempt)
    (r : Retry) (s : Account)
    → (h : IsRetried job_response.retry_deadline b)
    → (r' : Retry) × (take_turn job_response again b r s (ltb b.now job_response.retry_deadline)
        ≡ again r' (b.while_sending (sending_with b h.count r s)))
IsRetried-again job_response again b r s h = elim h.retried [
  | inl low ↦ (record r { update_nonce = true }, ground arith)
  | inr (inl high) ↦ (record r { update_nonce = false }, ground arith)
  | inr (inr (inl network)) ↦ (record r { update_nonce = false }, ground arith)
  | inr (inr (inr other)) ↦ (record r { update_nonce = false }, ground arith)
]

IsAccepted-sent :
    (job_response : JobsTxnMetadata) (again : Retry → Account → Sent × Account) (a : Attempt)
    (r : Retry) (s : Account)
    → (h : IsAccepted job_response.retry_deadline a)
    → HasRoom (a.while_sending (sending_with a h.count r s))
    → (take_turn job_response again a r s (ltb a.now job_response.retry_deadline)).0 ≡ sent
IsAccepted-sent job_response again a r s h room = ground arith

-- After any number of refusals that are retried as they are, a transaction that is accepted under the
-- deadline is sent, whatever the gas is, whether or not the nonce is to be updated, and whatever
-- other tasks do meanwhile that leaves a nonce below 2 ^ 256 - 1.
pub send_loop_sends :
    (job_response : JobsTxnMetadata) (refusals rest : List Attempt) (a : Attempt) (r : Retry)
    (s : Account)
    → All (IsRetried job_response.retry_deadline) refusals
    → IsAccepted job_response.retry_deadline a
    → s.nonce_to_send + 1 < 2 ^ 256
    → (send_loop job_response (refusals ++ a ∷ rest) r s).0 ≡ sent
unfolding send_loop
send_loop_sends job_response [] rest a r s none_before h n =
    IsAccepted-sent job_response (send_loop job_response rest) a r (a.before s) h
      (h.sending _ (sending_with-HasRoom a h.count r (a.before s) h.bounded (h.before s n)))
send_loop_sends job_response (b ∷ refusals) rest a r s (g, gs) h n =
    let (r', e) =
      IsRetried-again job_response (send_loop job_response (refusals ++ a ∷ rest)) b r (b.before s)
        g in
    rw e (
      send_loop_sends job_response refusals rest a r'
        (b.while_sending (sending_with b g.count r (b.before s))) gs h
        (g.sending _ (sending_with-HasRoom b g.count r (b.before s) g.bounded (g.before s n))))

-- A turn, in time and with a count at hand, in which the nonce is refused as too low.
pub record IsTooLow (deadline : ℕ) (b : Attempt) : Type 0 where
  pub in_time : b.now < deadline
  pub count : ℕ
  pub counted : b.transaction_count ≡ some count
  pub error : List ℕ
  pub refused : b.reply ≡ rejected error
  pub low : parse_send_error error ≡ nonce_too_low

-- A turn, in time, in which the transaction count cannot be had.
pub record IsUncounted (deadline : ℕ) (a : Attempt) : Type 0 where
  pub in_time : a.now < deadline
  pub uncounted : a.transaction_count ≡ none

-- A turn, in time, in which the count is had and the transaction is accepted.
pub record IsCounted (deadline count : ℕ) (a : Attempt) : Type 0 where
  pub in_time : a.now < deadline
  pub counted : a.transaction_count ≡ some count
  pub bounded : count + 1 < 2 ^ 256
  pub sending : LeavesRoom a.while_sending
  pub hash : ℕ
  pub taken : a.reply ≡ accepted hash

-- The transaction was sent in that turn with that nonce.
abbrev pub IsSentWith : JobsTxnMetadata → Attempt → ℕ → Sent × Account → Type 0
IsSentWith job_response a count (e, s') =
    (e ≡ sent) × (i : IsSentIn job_response s' a) × (i.p.nonce ≡ count)

module _ (job_response : JobsTxnMetadata) where
  low_again :
      (again : Retry → Account → Sent × Account) (b : Attempt) (r : Retry) (s : Account)
      → (h : IsTooLow job_response.retry_deadline b)
      → (t : Account) × (take_turn job_response again b r s (ltb b.now job_response.retry_deadline)
          ≡ again
              (record { update_nonce = true; gas_limit = r.gas_limit; gas_price = r.gas_price })
              t)
  low_again again b r s h = (b.while_sending (sending_with b h.count r s), ground arith)

  uncounted_again :
      (again : Retry → Account → Sent × Account) (u : Attempt) (r : Retry) (s : Account)
      → IsUncounted job_response.retry_deadline u
      → r.update_nonce ≡ true
      → take_turn job_response again u r s (ltb u.now job_response.retry_deadline)
        ≡ again r (u.while_counting s)
  uncounted_again again u r s h update = ground arith

  counted_sent :
      (again : Retry → Account → Sent × Account) (a : Attempt) (count : ℕ) (r : Retry) (s : Account)
      → IsCounted job_response.retry_deadline count a
      → r.update_nonce ≡ true
      → IsSentWith job_response a count
          (take_turn job_response again a r s (ltb a.now job_response.retry_deadline))
  counted_sent again a count r s h update =
      let sending : Account = record (a.while_counting s) { nonce_to_send = count } in
      let t = a.while_sending sending in
      let p : PendingTxnData = record {
        txn_hash = h.hash;
        txn_data = job_response;
        http_rpc_client = s.http_rpc_client;
        nonce = count;
        gas_limit = r.gas_limit;
        gas_price = r.gas_price;
        last_monitor_instant = a.sent_at;
      } in
      let s' : Account = record t {
        pending_txns = t.pending_txns ++ p ∷ [];
        nonce_to_send = t.nonce_to_send + 1;
      } in
      let room : HasRoom t = h.sending sending h.bounded in
      let e : take_turn job_response again a r s (ltb a.now job_response.retry_deadline)
          ≡ (sent, s') =
        ground arith in
      let i : IsSentIn job_response s' a = record {
        start = s;
        sending = sending;
        p = p;
        in_time = h.in_time;
        counted = inr (count, h.counted, refl);
        taken = h.taken;
        responds = refl;
        sender = refl;
        numbered = refl;
        timed = refl;
        left = refl;
      } in
      subst (IsSentWith job_response a count) (sym e) (refl, i, refl)

  recounts :
      (uncounted rest : List Attempt) (a : Attempt) (count : ℕ) (r : Retry) (s : Account)
      → All (IsUncounted job_response.retry_deadline) uncounted
      → IsCounted job_response.retry_deadline count a
      → r.update_nonce ≡ true
      → IsSentWith job_response a count (send_loop job_response (uncounted ++ a ∷ rest) r s)
  unfolding send_loop
  recounts [] rest a count r s none_before h update =
      counted_sent (send_loop job_response rest) a count r (a.before s) h update
  recounts (u ∷ uncounted) rest a count r s (g, gs) h update =
      subst (IsSentWith job_response a count)
        (sym (
          uncounted_again (send_loop job_response (uncounted ++ a ∷ rest)) u r (u.before s) g
            update))
        (recounts uncounted rest a count r (u.while_counting (u.before s)) gs h update)

  -- After a refusal for a nonce that is too low, and any number of turns in which the transaction count
  -- cannot be had: the transaction is sent in the first turn in which it can be had, where it is
  -- accepted under the deadline, and with that count for its nonce, whatever the nonce was before and
  -- whatever other tasks do meanwhile that leaves a nonce below 2 ^ 256 - 1.
  pub send_loop_recounts :
      (b : Attempt) (uncounted rest : List Attempt) (a : Attempt) (count : ℕ) (r : Retry)
      (s : Account)
      → (h : IsTooLow job_response.retry_deadline b)
      → All (IsUncounted job_response.retry_deadline) uncounted
      → IsCounted job_response.retry_deadline count a
      → IsSentWith job_response a count (send_loop job_response (b ∷ (uncounted ++ a ∷ rest)) r s)
  unfolding send_loop
  send_loop_recounts b uncounted rest a count r s h gs k =
      let (t, e) = low_again (send_loop job_response (uncounted ++ a ∷ rest)) b r (b.before s) h in
      subst (IsSentWith job_response a count) (sym e)
        (recounts uncounted rest a count _ t gs k refl)
