-- ===== src/RawProxy/Queue.antt =====
-- `handle_conn` of ip_to_vsock_raw_outgoing.rs, and of ip_to_vsock_raw_incoming.rs, which do the same: packets
-- of a queue of the netfilter, sent over the vsock connection and dropped.
use oyster_monorepo.Base.{
  ℕ, ◌+◌, ◌-◌, ◌≡◌, refl, sym, ap, ◌∙◌, Bool, true, false, Option, none, some, List, [], ◌∷◌, ◌++◌,
  length, take, drop, ltb, if◌then◌else◌, if_elim, arith,
}
use oyster_monorepo.Base.Slices.{concat, append-nil, assoc, take-split, take_all, concat-append}
use oyster_monorepo.RawProxy.Errors.{ProxyError}
use Prim.Native.Nat.{min}

-- What was sent over the connection, and the packets with a verdict, the last one behind.
pub record Relayed : Type 0 where
  pub sent : List ℕ
  pub dropped : List (List ℕ)

-- How the loop that sends a packet ends, with the bytes sent by then and the answers that are left.
pub data Sending : Type 0 where
  all_sent : List ℕ → List (Option ℕ) → Sending
  send_failed send_waits : List ℕ → Sending

-- `while total_sent < size`. Each answer is how many bytes a call of `send` would take, of which it takes no
-- more than are offered, or an error.
unfoldable pub send_packet : List ℕ → ℕ → List ℕ → List (Option ℕ) → Sending
send_packet buf total_sent sent [] =
    if ltb total_sent (length buf) then send_waits sent else all_sent sent []
send_packet buf total_sent sent (none ∷ answers) =
    if ltb total_sent (length buf) then send_failed sent else all_sent sent (none ∷ answers)
send_packet buf total_sent sent (some n ∷ answers) =
    let taken = min n (length buf - total_sent) in
    let later =
      send_packet buf (total_sent + taken) (sent ++ take taken (drop total_sent buf)) answers in
    if ltb total_sent (length buf) then later else all_sent sent (some n ∷ answers)

-- How a connection ends: with an error, or in a call that does not return.
pub data Ended : Type 0 where
  failed : ProxyError → Relayed → Ended
  waits : Relayed → Ended

-- The verdict on a packet that was sent, by whether the queue takes it.
abbrev pub with_verdict :
    (List (Option ℕ) → List Bool → Relayed → Ended) → List ℕ → List Bool → Relayed → Sending → Ended
with_verdict next buf verdicts r (send_failed sent) =
    failed ProxyError.vsock_error (record r { sent = sent })
with_verdict next buf verdicts r (send_waits sent) = waits (record r { sent = sent })
with_verdict next buf [] r (all_sent sent answers) = waits (record r { sent = sent })
with_verdict next buf (false ∷ verdicts) r (all_sent sent answers) =
    failed ProxyError.nfq_error (record r { sent = sent })
with_verdict next buf (true ∷ verdicts) r (all_sent sent answers) =
    next answers verdicts (record { sent = sent; dropped = r.dropped ++ buf ∷ [] })

-- The loop over the packets that `recv` brings, or its error.
unfoldable pub relay : List (Option (List ℕ)) → List (Option ℕ) → List Bool → Relayed → Ended
relay [] answers verdicts r = waits r
relay (none ∷ received) answers verdicts r = failed ProxyError.nfq_error r
relay (some buf ∷ received) answers verdicts r =
    with_verdict (λ answers verdicts r. relay received answers verdicts r) buf verdicts r
      (send_packet buf 0 r.sent answers)

-- The packets before the first error.
abbrev pub packets_of : List (Option (List ℕ)) → List (List ℕ)
packets_of [] = []
packets_of (none ∷ received) = []
packets_of (some buf ∷ received) = buf ∷ packets_of received

abbrev pub relayed_of : Ended → Relayed
relayed_of (failed error r) = r
relayed_of (waits r) = r

-- What was sent while a packet was: the packet behind what was sent before, or its front.
abbrev pub Carried : List ℕ → List ℕ → Sending → Type 0
Carried before buf (all_sent sent answers) = sent ≡ before ++ buf
Carried before buf (send_failed sent) = (k : ℕ) × (sent ≡ before ++ take k buf)
Carried before buf (send_waits sent) = (k : ℕ) × (sent ≡ before ++ take k buf)

-- A packet is sent once its length is reached.
whole :
    (buf before sent : List ℕ) (n : ℕ)
    → sent ≡ before ++ take n buf
    → ltb n (length buf) ≡ false
    → sent ≡ before ++ buf
whole buf before sent n e h = e ∙ ap (λ bs. before ++ bs) (take_all n buf (ground arith))

send_packet-Carried :
    (buf before sent : List ℕ) (total_sent : ℕ) (answers : List (Option ℕ))
    → sent ≡ before ++ take total_sent buf
    → Carried before buf (send_packet buf total_sent sent answers)
unfolding send_packet
send_packet-Carried buf before sent total_sent [] e =
    if_elim (Carried before buf) (ltb total_sent (length buf)) (λ h. (total_sent, e))
      (λ h. whole buf before sent total_sent e h)
send_packet-Carried buf before sent total_sent (none ∷ answers) e =
    if_elim (Carried before buf) (ltb total_sent (length buf)) (λ h. (total_sent, e))
      (λ h. whole buf before sent total_sent e h)
send_packet-Carried buf before sent total_sent (some n ∷ answers) e =
    let taken = min n (length buf - total_sent) in
    let front = take taken (drop total_sent buf) in
    if_elim (Carried before buf) (ltb total_sent (length buf))
      (λ h. send_packet-Carried buf before (sent ++ front) (total_sent + taken) answers (
        ap (λ bs. bs ++ front) e
        ∙ assoc before (take total_sent buf) front
        ∙ ap (λ bs. before ++ bs) (sym (take-split total_sent taken buf))))
      (λ h. whole buf before sent total_sent e h)

abbrev pub head_of : List (List ℕ) → List ℕ
head_of [] = []
head_of (buf ∷ rest) = buf

-- The packets were dropped in order, and what was sent is those, and the front of the next one.
pub record IsRelayed (packets : List (List ℕ)) (before after : Relayed) : Type 0 where
  pub relayed : List (List ℕ)
  pub rest : List (List ℕ)
  pub split : relayed ++ rest ≡ packets
  pub in_order : after.dropped ≡ before.dropped ++ relayed
  pub count : ℕ
  pub carried : after.sent ≡ concat after.dropped ++ take count (head_of rest)

-- Nothing more was dropped, and the front of the next packet was sent.
stopped-IsRelayed :
    (packets : List (List ℕ)) (r : Relayed) (sent : List ℕ) (count : ℕ)
    → sent ≡ concat r.dropped ++ take count (head_of packets)
    → IsRelayed packets r (record r { sent = sent })
stopped-IsRelayed packets r sent count e = record {
  relayed = [];
  rest = packets;
  split = refl;
  in_order = sym (append-nil r.dropped);
  count = count;
  carried = e;
}

-- A packet of which all was sent.
whole-IsRelayed :
    (buf : List ℕ) (packets : List (List ℕ)) (r : Relayed) (sent : List ℕ)
    → sent ≡ concat r.dropped ++ buf
    → IsRelayed (buf ∷ packets) r (record r { sent = sent })
whole-IsRelayed buf packets r sent e =
    stopped-IsRelayed (buf ∷ packets) r sent (length buf)
      (e ∙ ap (λ bs. concat r.dropped ++ bs) (sym (take_all (length buf) buf (omega arith))))

verdict-IsRelayed :
    (next : List (Option ℕ) → List Bool → Relayed → Ended) (buf : List ℕ) (packets : List (List ℕ))
    (verdicts : List Bool) (r : Relayed) (sending : Sending)
    → Carried (concat r.dropped) buf sending
    → ((answers : List (Option ℕ)) (verdicts : List Bool) (t : Relayed)
        → t.sent ≡ concat t.dropped
        → IsRelayed packets t (relayed_of (next answers verdicts t)))
    → IsRelayed (buf ∷ packets) r (relayed_of (with_verdict next buf verdicts r sending))
verdict-IsRelayed next buf packets verdicts r (send_failed sent) (k, e) after =
    stopped-IsRelayed (buf ∷ packets) r sent k e
verdict-IsRelayed next buf packets verdicts r (send_waits sent) (k, e) after =
    stopped-IsRelayed (buf ∷ packets) r sent k e
verdict-IsRelayed next buf packets [] r (all_sent sent answers) e after =
    whole-IsRelayed buf packets r sent e
verdict-IsRelayed next buf packets (false ∷ verdicts) r (all_sent sent answers) e after =
    whole-IsRelayed buf packets r sent e
verdict-IsRelayed next buf packets (true ∷ verdicts) r (all_sent sent answers) e after =
    let t : Relayed = record { sent = sent; dropped = r.dropped ++ buf ∷ [] } in
    let later = after answers verdicts t (
      e
      ∙ ap (λ bs. concat r.dropped ++ bs) (sym (append-nil buf))
      ∙ sym (concat-append r.dropped (buf ∷ []))) in
    record {
      relayed = buf ∷ later.relayed;
      rest = later.rest;
      split = ap (λ bs. buf ∷ bs) later.split;
      in_order = later.in_order ∙ assoc r.dropped (buf ∷ []) later.relayed;
      count = later.count;
      carried = later.carried;
    }

-- However the loop ends, and whatever its calls answer, where what was sent before is the packets that were
-- dropped before: the packets dropped since are the first ones received, in order, and what was sent in all
-- is the packets dropped in all and a front of the next one. No byte is lost, sent twice or out of order.
pub relay-IsRelayed :
    (received : List (Option (List ℕ))) (answers : List (Option ℕ)) (verdicts : List Bool)
    (r : Relayed)
    → r.sent ≡ concat r.dropped
    → IsRelayed (packets_of received) r (relayed_of (relay received answers verdicts r))
unfolding relay
relay-IsRelayed [] answers verdicts r e =
    stopped-IsRelayed [] r r.sent 0 (e ∙ sym (append-nil (concat r.dropped)))
relay-IsRelayed (none ∷ received) answers verdicts r e =
    stopped-IsRelayed [] r r.sent 0 (e ∙ sym (append-nil (concat r.dropped)))
relay-IsRelayed (some buf ∷ received) answers verdicts r e =
    verdict-IsRelayed (λ answers verdicts r. relay received answers verdicts r) buf
      (packets_of received) verdicts r (send_packet buf 0 r.sent answers)
      (send_packet-Carried buf (concat r.dropped) r.sent 0 answers
        (e ∙ sym (append-nil (concat r.dropped))))
      (λ answers verdicts t h. relay-IsRelayed received answers verdicts t h)
