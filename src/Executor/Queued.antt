-- ===== src/Executor/Queued.antt =====
-- What the sender puts into the queue of pending transactions, whatever other tasks do meanwhile.
use mathlib.Core.Logic.Or
use mathlib.Core.List.{Mem, mem-cons}
use oyster_monorepo.Base.{
  ℕ, ◌+◌, ◌<◌, ◌≡◌, ◌⊎◌, refl, ap, Bool, true, false, Option, none, some, List, [], ◌∷◌, ◌++◌,
  arith, ltb, if◌then◌else◌, All, inl, inr,
}
use oyster_monorepo.Executor.State.{JobsTxnMetadata, PendingTxnData, checked}
use oyster_monorepo.Executor.SendError.{parse_send_error}
use oyster_monorepo.Executor.Sender.{
  Reply, accepted, rejected, Account, Attempt, Retry, Sent, sent, given_up, expired, panicked,
  waiting, set_nonce, use_nonce, Next, leave, crash, retry, by_error, after_next, after_reply,
  after_refresh, take_turn, send_loop,
}

-- The transaction of a turn that is sent and accepted under the deadline: the account as the turn began,
-- with the client that sends it; as it was sent, where its nonce was counted again if it had to be; and
-- as the turn leaves it: the transaction stands at the end of the queue that was there when the
-- answer came, with the client and the nonce it was sent with, and the nonce that was there then is
-- used up.
pub record IsSentIn (job_response : JobsTxnMetadata) (s' : Account) (a : Attempt) : Type 0 where
  pub start : Account
  pub sending : Account
  pub p : PendingTxnData
  pub in_time : a.now < job_response.retry_deadline
  pub counted :
      (sending ≡ start)
      ⊎ ((count : ℕ) × (a.transaction_count ≡ some count)
          × (sending ≡ record (a.while_counting start) { nonce_to_send = count }))
  pub taken : a.reply ≡ accepted p.txn_hash
  pub responds : p.txn_data ≡ job_response
  pub sender : p.http_rpc_client ≡ start.http_rpc_client
  pub numbered : p.nonce ≡ sending.nonce_to_send
  pub timed : p.last_monitor_instant ≡ a.sent_at
  pub left :
      let t = a.while_sending sending in
      s' ≡ record t { pending_txns = t.pending_txns ++ p ∷ []; nonce_to_send = t.nonce_to_send + 1 }

module _ (Changes : List PendingTxnData → List PendingTxnData → Type 0) where
  -- What other tasks do in a turn changes the queue in no other way.
  abbrev pub Keeps : Attempt → Type 0
  Keeps a =
      (s : Account)
      → Changes s.pending_txns (a.before s).pending_txns
        × Changes s.pending_txns (a.while_counting s).pending_txns
        × Changes s.pending_txns (a.while_sending s).pending_txns

  -- The queue at the end of the retry loop, by how it ends.
  abbrev pub IsQueued : JobsTxnMetadata → List Attempt → Account → Sent × Account → Type 0
  IsQueued job_response attempts s (sent, s') =
      (a : Attempt) × Mem a attempts
      × (sent_in : IsSentIn job_response s' a) × Changes s.pending_txns
          (a.while_sending sent_in.sending).pending_txns
  IsQueued job_response attempts s (given_up, s') = Changes s.pending_txns s'.pending_txns
  IsQueued job_response attempts s (expired, s') = Changes s.pending_txns s'.pending_txns
  IsQueued job_response attempts s (panicked, s') = Unit {0}
  IsQueued job_response attempts s (waiting, s') = Changes s.pending_txns s'.pending_txns

  module _ (same : (q : List PendingTxnData) → Changes q q)
      (onward : (q r t : List PendingTxnData) → Changes q r → Changes r t → Changes q t) where
    -- A change of the queue before the turns.
    changed-IsQueued :
        (job_response : JobsTxnMetadata) (attempts : List Attempt) (s t : Account)
        (x : Sent × Account)
        → Changes s.pending_txns t.pending_txns
        → IsQueued job_response attempts t x
        → IsQueued job_response attempts s x
    changed-IsQueued job_response attempts s t (sent, s') e (a, m, i, h) =
        (a, m, i, onward _ _ _ e h)
    changed-IsQueued job_response attempts s t (given_up, s') e h = onward _ _ _ e h
    changed-IsQueued job_response attempts s t (expired, s') e h = onward _ _ _ e h
    changed-IsQueued job_response attempts s t (panicked, s') e h = tt
    changed-IsQueued job_response attempts s t (waiting, s') e h = onward _ _ _ e h

    rest-IsQueued :
        (job_response : JobsTxnMetadata) (b : Attempt) (attempts : List Attempt) (s : Account)
        (x : Sent × Account)
        → IsQueued job_response attempts s x
        → IsQueued job_response (b ∷ attempts) s x
    rest-IsQueued job_response b attempts s (sent, s') (a, m, i, h) =
        (a, mem-cons.1 (Or.inr m), i, h)
    rest-IsQueued job_response b attempts s (given_up, s') h = h
    rest-IsQueued job_response b attempts s (expired, s') h = h
    rest-IsQueued job_response b attempts s (panicked, s') h = h
    rest-IsQueued job_response b attempts s (waiting, s') h = h

    module _ (job_response : JobsTxnMetadata) (a : Attempt) (keeps : Keeps a) (rest : List Attempt)
        (again : Retry → Account → Sent × Account)
        (later : (r : Retry) → (s : Account) → IsQueued job_response rest s (again r s)) where
      after_next-IsQueued :
          (s : Account) (n : Next) → IsQueued job_response (a ∷ rest) s (after_next again s n)
      after_next-IsQueued s leave = same _
      after_next-IsQueued s crash = tt
      after_next-IsQueued s (retry r) = rest-IsQueued job_response a rest s (again r s) (later r s)

      use_nonce-IsQueued :
          (s t : Account) (o : Option ℕ)
          → checked (s.nonce_to_send + 1) ≡ o
          → ((n : ℕ)
              → n ≡ s.nonce_to_send + 1
              → (i : IsSentIn job_response (record t { nonce_to_send = n }) a) × Changes
                  s.pending_txns
                  (a.while_sending i.sending).pending_txns)
          → IsQueued job_response (a ∷ rest) s (use_nonce t o)
      use_nonce-IsQueued s t none e h = tt
      use_nonce-IsQueued s t (some n) e h =
          let (i, k) = h n (ground arith) in (a, mem-cons.1 (Or.inl refl), i, k)

      after_reply-IsQueued :
          (start sending : Account) (r : Retry) (reply : Reply ℕ)
          → a.now < job_response.retry_deadline
          → (sending ≡ start)
            ⊎ ((count : ℕ) × (a.transaction_count ≡ some count)
                × (sending ≡ record (a.while_counting start) { nonce_to_send = count }))
          → a.reply ≡ reply
          → IsQueued job_response (a ∷ rest) (a.while_sending sending) (
              after_reply job_response again a.sent_at start.http_rpc_client sending.nonce_to_send r
                (a.while_sending sending)
                reply)
      after_reply-IsQueued start sending r (accepted hash) in_time counted e =
          let t = a.while_sending sending in
          let p : PendingTxnData = record {
            txn_hash = hash;
            txn_data = job_response;
            http_rpc_client = start.http_rpc_client;
            nonce = sending.nonce_to_send;
            gas_limit = r.gas_limit;
            gas_price = r.gas_price;
            last_monitor_instant = a.sent_at;
          } in
          use_nonce-IsQueued t _ (checked (t.nonce_to_send + 1)) refl (λ n k. (
            record {
              start = start;
              sending = sending;
              p = p;
              in_time = in_time;
              counted = counted;
              taken = e;
              responds = refl;
              sender = refl;
              numbered = refl;
              timed = refl;
              left =
                  ap (λ m. record t { pending_txns = t.pending_txns ++ p ∷ []; nonce_to_send = m })
                    k;
            },
            same _,
          ))
      after_reply-IsQueued start sending r (rejected error) in_time counted e =
          after_next-IsQueued (a.while_sending sending) (by_error r (parse_send_error error))

      after_refresh-IsQueued :
          (start : Account) (r : Retry) (x : Bool × Account)
          → a.now < job_response.retry_deadline
          → Changes start.pending_txns x.1.pending_txns
          → (x.0 ≡ true
              → (x.1 ≡ start)
                ⊎ ((count : ℕ) × (a.transaction_count ≡ some count)
                    × (x.1 ≡ record (a.while_counting start) { nonce_to_send = count })))
          → IsQueued job_response
              (a ∷ rest)
              start
              (after_refresh job_response again a start.http_rpc_client r x)
      after_refresh-IsQueued start r (false, t) in_time moved counted =
          changed-IsQueued job_response (a ∷ rest) start t (again r t) moved
            (rest-IsQueued job_response a rest t (again r t) (later r t))
      after_refresh-IsQueued start r (true, t) in_time moved counted =
          changed-IsQueued job_response (a ∷ rest) start (a.while_sending t)
            (after_reply job_response again a.sent_at start.http_rpc_client t.nonce_to_send
              (record r { update_nonce = false }) (a.while_sending t) a.reply)
            (onward _ _ _ moved (keeps t).2)
            (after_reply-IsQueued start t (record r { update_nonce = false }) a.reply in_time
              (counted refl) refl)

      set_nonce-moved :
          (o : Option ℕ) (s t : Account)
          → Changes s.pending_txns t.pending_txns
          → Changes s.pending_txns (set_nonce o t).1.pending_txns
      set_nonce-moved none s t h = h
      set_nonce-moved (some n) s t h = h

      set_nonce-counted :
          (o : Option ℕ) (s t : Account)
          → a.transaction_count ≡ o
          → (set_nonce o (a.while_counting s)).0 ≡ true
          → ((set_nonce o (a.while_counting s)).1 ≡ s)
            ⊎ ((count : ℕ) × (a.transaction_count ≡ some count)
                × ((set_nonce o (a.while_counting s)).1
                    ≡ record (a.while_counting s) { nonce_to_send = count }))
      set_nonce-counted none s t e h = absurd (ground arith)
      set_nonce-counted (some n) s t e h = inr (n, e, refl)

      refreshed-IsQueued :
          (s : Account) (r : Retry) (update_nonce : Bool)
          → a.now < job_response.retry_deadline
          → IsQueued job_response (a ∷ rest) s (
              after_refresh job_response again a s.http_rpc_client r (
                if update_nonce
                then set_nonce a.transaction_count (a.while_counting s)
                else (true, s)))
      refreshed-IsQueued s r true in_time =
          after_refresh-IsQueued s r (set_nonce a.transaction_count (a.while_counting s)) in_time
            (set_nonce-moved a.transaction_count s (a.while_counting s) (keeps s).1)
            (set_nonce-counted a.transaction_count s s refl)
      refreshed-IsQueued s r false in_time =
          after_refresh-IsQueued s r (true, s) in_time (same _) (λ e. inl refl)

      take_turn-IsQueued :
          (s : Account) (r : Retry) (b : Bool)
          → ltb a.now job_response.retry_deadline ≡ b
          → IsQueued job_response (a ∷ rest) s (take_turn job_response again a r s b)
      take_turn-IsQueued s r true e = refreshed-IsQueued s r r.update_nonce (ground arith)
      take_turn-IsQueued s r false e = same _

    -- Where whatever other tasks do to the queue between the turns and in the awaits is one of some
    -- changes, which can follow each other: however the retry loop ends but by a panic, where the
    -- response was sent, the queue that those changes left has exactly one transaction more at its
    -- end, the response's, which was accepted under the deadline, with the client and the nonce
    -- that it was sent with, while the nonce that is there by then is used up; else the queue
    -- is what those changes left.
    pub send_loop-IsQueued :
        (job_response : JobsTxnMetadata) (attempts : List Attempt) (r : Retry) (s : Account)
        → All Keeps attempts
        → IsQueued job_response attempts s (send_loop job_response attempts r s)
    unfolding send_loop
    send_loop-IsQueued job_response [] r s keeps = same _
    send_loop-IsQueued job_response (a ∷ rest) r s keeps =
        changed-IsQueued job_response (a ∷ rest) s (a.before s)
          (take_turn job_response (send_loop job_response rest) a r (a.before s)
            (ltb a.now job_response.retry_deadline))
          (keeps.0 s).0
          (take_turn-IsQueued job_response a keeps.0 rest (send_loop job_response rest)
            (λ r' s'. send_loop-IsQueued job_response rest r' s' keeps.1) (a.before s) r
            (ltb a.now job_response.retry_deadline) refl)
