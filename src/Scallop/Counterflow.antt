-- ===== src/Scallop/Counterflow.antt =====
-- What a `ScallopStream` of sdks/rs/src/scallop.rs will still read is not changed by what is written to it.
use oyster_monorepo.Base.{
  ◌∷◌, ℕ, zero, suc, ◌+◌, ◌-◌, ◌%◌, ◌≡◌, refl, ap, ◌∙◌, Option, none, some, List, ◌++◌, length,
  take, ltb, ◌==◌, ◌||◌, if_elim,
}
use oyster_monorepo.Base.Slices.{slice}
use oyster_monorepo.Scallop.Library.{
  Poll, pending, failed, ready, Noiser, AsyncBase, to_be_bytes, zeros,
}
use oyster_monorepo.Scallop.Stream.{
  ScallopStream, Outcome, blocked, base_failed, noise_failed, panicked, running, done,
}
use oyster_monorepo.Scallop.Write.{
  sent_some, answered, send, poll_flush, written, queue, when_flushed, poll_write,
}
use oyster_monorepo.Scallop.Laws.{IsPipe, IsPaired, Decrypts}
use oyster_monorepo.Scallop.Reading.{IsReading, at_length, at_body, at_read}
use Prim.Native.Nat.{min}

module _ {Noise Base : Type 0} (noiser : Noiser Noise) (io : AsyncBase Base)
    (unread sent : Base → List ℕ) (laws : IsPipe io unread sent) where
  module _ (text : List ℕ) where
    Reads : ScallopStream Noise Base → Type 0
    Reads s = IsReading noiser io unread sent s text

    -- The fields that only a write sets.
    rewritten-Reads :
        (s : ScallopStream Noise Base) (noise : Noise) (base : Base) (wbuf : List ℕ)
        (write_start write_end : ℕ)
        → unread base ≡ unread s.stream
        → ((records : List (List ℕ × List ℕ))
            → Decrypts noiser s.noise records
            → Decrypts noiser noise records)
        → Reads s
        → Reads (record s {
          noise = noise;
          stream = base;
          wbuf = wbuf;
          write_start = write_start;
          write_end = write_end;
        })
    unfolding Reads
    rewritten-Reads s noise base wbuf write_start write_end keeps more
          (at_length {future} records mode size loading short decrypts same) =
        let n = length s.rbuf - s.pending_bytes in
        at_length records mode size
          record {
            bounded = loading.bounded;
            loaded = ap (λ bs. take n s.rbuf ++ (bs ++ future)) keeps ∙ loading.loaded;
          }
          short (more records decrypts) same
    rewritten-Reads s noise base wbuf write_start write_end keeps more
          (at_body {future} message payload records mode size loading short decrypts same) =
        let n = length s.rbuf - s.pending_bytes in
        at_body message payload records mode size
          record {
            bounded = loading.bounded;
            loaded = ap (λ bs. take n s.rbuf ++ (bs ++ future)) keeps ∙ loading.loaded;
          }
          short (more ((message, payload) ∷ records) decrypts) same
    rewritten-Reads s noise base wbuf write_start write_end keeps more
          (at_read future records mode empty ordered fits e short decrypts same) =
        at_read future records mode empty ordered fits (ap (λ bs. bs ++ future) keeps ∙ e) short
          (more records decrypts) same

    moved-Reads :
        (s : ScallopStream Noise Base) (base : Base) (write_start : ℕ)
        → unread base ≡ unread s.stream
        → Reads s
        → Reads (record s { stream = base; write_start = write_start })
    moved-Reads s base write_start keeps r =
        rewritten-Reads s s.noise base s.wbuf write_start s.write_end keeps (λ records h. h) r

    answered-Reads :
        (s : ScallopStream Noise Base) (answer : Poll (Unit {0}) × Base)
        → unread answer.1 ≡ unread s.stream
        → Reads s
        → Reads (answered s answer).1
    answered-Reads s (pending, base) keeps r = moved-Reads s base s.write_start keeps r
    answered-Reads s (failed, base) keeps r = moved-Reads s base s.write_start keeps r
    answered-Reads s (ready u, base) keeps r = moved-Reads s base s.write_start keeps r

    sent_some-Reads :
        (next : ScallopStream Noise Base → Outcome (Unit {0}) × ScallopStream Noise Base)
        (s : ScallopStream Noise Base) (answer : Poll ℕ × Base)
        → unread answer.1 ≡ unread s.stream
        → Reads s
        → ((t : ScallopStream Noise Base) → Reads t → Reads (next t).1)
        → Reads (sent_some next s answer).1
    sent_some-Reads next s (pending, base) keeps r after = moved-Reads s base s.write_start keeps r
    sent_some-Reads next s (failed, base) keeps r after = moved-Reads s base s.write_start keeps r
    sent_some-Reads next s (ready size, base) keeps r after =
        after (record s { stream = base; write_start = s.write_start + size })
          (moved-Reads s base (s.write_start + size) keeps r)

    send-Reads : (fuel : ℕ) (s : ScallopStream Noise Base) → Reads s → Reads (send io fuel s).1
    unfolding send
    send-Reads zero s r =
        if_elim (λ (x : Outcome (Unit {0}) × ScallopStream Noise Base). Reads x.1)
          (s.write_start == s.write_end)
          (λ h. answered-Reads s (io.poll_flush s.stream) (laws.flush_keeps s.stream) r) (λ h. r)
    send-Reads (suc fuel) s r =
        let queued = slice s.wbuf s.write_start s.write_end in
        if_elim (λ (x : Outcome (Unit {0}) × ScallopStream Noise Base). Reads x.1)
          (s.write_start == s.write_end)
          (λ h. answered-Reads s (io.poll_flush s.stream) (laws.flush_keeps s.stream) r)
          (λ h.
            if_elim (λ (x : Outcome (Unit {0}) × ScallopStream Noise Base). Reads x.1)
              (ltb (length s.wbuf) s.write_end || ltb s.write_end s.write_start) (λ bad. r)
              (λ good.
                sent_some-Reads (λ next. send io fuel next) s (io.poll_write s.stream queued)
                  (laws.write_keeps s.stream queued) r (λ t kept. send-Reads fuel t kept)))

    flushed-Reads :
        {A : Type 0} (next : ScallopStream Noise Base → Outcome A × ScallopStream Noise Base)
        (answer : Outcome (Unit {0}) × ScallopStream Noise Base)
        → Reads answer.1
        → ((t : ScallopStream Noise Base) → Reads t → Reads (next t).1)
        → Reads (when_flushed next answer).1
    flushed-Reads next (blocked, s) r after = r
    flushed-Reads next (base_failed, s) r after = r
    flushed-Reads next (noise_failed, s) r after = r
    flushed-Reads next (panicked, s) r after = r
    flushed-Reads next (running, s) r after = r
    flushed-Reads next (done u, s) r after = after s r

    written-Reads :
        (len : ℕ) (s : ScallopStream Noise Base) (answer : Option ℕ × (List ℕ × Noise))
        → ((records : List (List ℕ × List ℕ))
            → Decrypts noiser s.noise records
            → Decrypts noiser answer.1.1 records)
        → Reads s
        → Reads (written len s answer).1
    written-Reads len s (none, (new_buf, noise)) more r =
        rewritten-Reads s noise s.stream s.wbuf s.write_start s.write_end refl more r
    written-Reads len s (some noise_len, (new_buf, noise)) more r =
        rewritten-Reads s noise s.stream (to_be_bytes (noise_len % 65536) ++ new_buf) 0
          (noise_len + 2) refl more r

  -- A flush keeps what the stream will still deliver.
  pub poll_flush-IsReading :
      (text : List ℕ) (s : ScallopStream Noise Base)
      → IsReading noiser io unread sent s text
      → IsReading noiser io unread sent (poll_flush io s).1 text
  unfolding poll_flush Reads
  poll_flush-IsReading text s r = send-Reads text (suc (s.write_end - s.write_start)) s r

  -- A write keeps what the stream will still deliver.
  pub poll_write-IsReading :
      {a b : Noise} (paired : IsPaired noiser a b) (text buf : List ℕ)
      (s : ScallopStream Noise Base)
      → IsReading noiser io unread sent s text
      → IsReading noiser io unread sent (poll_write noiser io buf s).1 text
  unfolding poll_write queue Reads
  poll_write-IsReading paired text buf s r =
      flushed-Reads text (λ flushed. queue noiser buf flushed) (poll_flush io s)
        (poll_flush-IsReading text s r)
        (λ t kept.
          let len = min (length buf) 64000 in
          let new_buf = zeros (len + 998) in
          written-Reads text len t (noiser.write_message t.noise (take len buf) new_buf)
            (λ records h. paired.write_keeps t.noise records (take len buf) new_buf h) kept)
