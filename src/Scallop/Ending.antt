-- ===== src/Scallop/Ending.antt =====
-- The loop of `poll_flush` in sdks/rs/src/scallop.rs ends where the base takes a byte of what it is given.
use oyster_monorepo.Base.{
  ℕ, zero, suc, ◌+◌, ◌-◌, ◌≤◌, ◌<◌, length, List, arith, ltb, ◌==◌, ==_false, ◌||◌, if_elim,
}
use oyster_monorepo.Base.Slices.{slice, length-slice}
use oyster_monorepo.Scallop.Library.{Poll, pending, failed, ready, AsyncBase}
use oyster_monorepo.Scallop.Stream.{
  ScallopStream, Outcome, blocked, base_failed, noise_failed, panicked, running, done,
}
use oyster_monorepo.Scallop.Write.{sent_some, answered, send, poll_flush}
use oyster_monorepo.Scallop.Laws.{taken_of}

-- A base that is ready has taken a byte.
abbrev pub Advances : {Base : Type 0} → Poll ℕ × Base → Type 0
Advances (pending, base) = Unit {0}
Advances (failed, base) = Unit {0}
Advances (ready size, base) = 1 ≤ size

-- The poll has returned.
abbrev pub Returns : {A : Type 0} → Outcome A → Type 0
Returns blocked = Unit {0}
Returns base_failed = Unit {0}
Returns noise_failed = Unit {0}
Returns panicked = ⊥
Returns running = ⊥
Returns (done a) = Unit {0}

module _ {Noise Base : Type 0} (io : AsyncBase Base) where
  answered-Returns :
      (s : ScallopStream Noise Base) (answer : Poll (Unit {0}) × Base)
      → Returns (answered s answer).0
  answered-Returns s (pending, base) = tt
  answered-Returns s (failed, base) = tt
  answered-Returns s (ready u, base) = tt

  sent_some-Returns :
      (next : ScallopStream Noise Base → Outcome (Unit {0}) × ScallopStream Noise Base)
      (s : ScallopStream Noise Base) (answer : Poll ℕ × Base)
      → Advances answer
      → ((base : Base) (size : ℕ)
          → 1 ≤ size
          → size ≤ taken_of answer
          → Returns (next (record s { stream = base; write_start = s.write_start + size })).0)
      → Returns (sent_some next s answer).0
  sent_some-Returns next s (pending, base) moves after = tt
  sent_some-Returns next s (failed, base) moves after = tt
  sent_some-Returns next s (ready size, base) moves after = after base size moves (omega arith)

  module _ (fits : (b : Base) (bytes : List ℕ) → taken_of (io.poll_write b bytes) ≤ length bytes)
      (advances : (b : Base) (bytes : List ℕ)
        → 1 ≤ length bytes
        → Advances (io.poll_write b bytes)) where
    send-Returns :
        (fuel : ℕ) (s : ScallopStream Noise Base)
        → s.write_end - s.write_start < fuel
        → s.write_start ≤ s.write_end
        → s.write_end ≤ length s.wbuf
        → Returns (send io fuel s).0
    unfolding send
    send-Returns zero s less ordered bounded = absurd (omega arith)
    send-Returns (suc fuel) s less ordered bounded =
        let queued = slice s.wbuf s.write_start s.write_end in
        let size = length-slice s.write_start s.write_end s.wbuf ordered bounded in
        if_elim (λ (x : Outcome (Unit {0}) × ScallopStream Noise Base). Returns x.0)
          (s.write_start == s.write_end) (λ e. answered-Returns s (io.poll_flush s.stream))
          (λ e.
            if_elim (λ (x : Outcome (Unit {0}) × ScallopStream Noise Base). Returns x.0)
              (ltb (length s.wbuf) s.write_end || ltb s.write_end s.write_start)
              (λ h. absurd (ground arith))
              (λ h.
                let differ = ==_false s.write_start s.write_end e in
                let some_left : 1 ≤ length queued = ground (arith, size) in
                sent_some-Returns (λ next. send io fuel next) s (io.poll_write s.stream queued)
                  (advances s.stream queued some_left)
                  (λ base n moves below.
                    let bound = fits s.stream queued in
                    send-Returns fuel (record s { stream = base; write_start = s.write_start + n })
                      (omega arith) (omega arith) bounded)))

    -- Where the base, when it is ready, takes at least one of the bytes it is given, and no more than those,
    -- a flush of a stream whose queue lies in its buffer returns: neither does its loop go on for ever, nor
    -- does an index leave the buffer.
    pub poll_flush-Returns :
        (s : ScallopStream Noise Base)
        → s.write_start ≤ s.write_end
        → s.write_end ≤ length s.wbuf
        → Returns (poll_flush io s).0
    unfolding poll_flush
    poll_flush-Returns s ordered bounded =
        send-Returns (suc (s.write_end - s.write_start)) s (omega arith) ordered bounded
