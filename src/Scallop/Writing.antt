-- ===== src/Scallop/Writing.antt =====
-- `poll_flush` and `poll_write` of sdks/rs/src/scallop.rs: the state of a stream that has accepted bytes.
use oyster_monorepo.Base.{
  ℕ, zero, suc, ◌+◌, ◌-◌, ◌≤◌, ◌≡◌, sym, ap, ◌∙◌, List, ◌++◌, length, take, arith, All, ltb, ◌==◌,
  ==_true, ◌||◌, if_elim,
}
use oyster_monorepo.Base.Slices.{slice, append-nil, assoc, slice-split, take-slice, length-slice}
use oyster_monorepo.Scallop.Library.{Poll, pending, failed, ready, Noiser, AsyncBase}
use oyster_monorepo.Scallop.Stream.{
  ScallopStream, Outcome, blocked, base_failed, noise_failed, panicked, running, done,
}
use oyster_monorepo.Scallop.Write.{sent_some, answered, send, poll_flush}
use oyster_monorepo.Scallop.Laws.{IsPipe, Wrote, frames, text_of, IsShort, taken_of}

module _ {Noise Base : Type 0} (noiser : Noiser Noise) (io : AsyncBase Base)
    (unread sent : Base → List ℕ) (start : Noise) where
  -- The bytes `text` are those that the stream has accepted since it had the state `start`: what the base
  -- was given and what is still queued up are the records that carry them.
  pub record IsWriting (text : List ℕ) (s : ScallopStream Noise Base) : Type 0 where
    pub records : List (List ℕ × List ℕ)
    pub history : Wrote noiser start records s.noise
    pub carried : sent s.stream ++ slice s.wbuf s.write_start s.write_end ≡ frames records
    pub ordered : s.write_start ≤ s.write_end
    pub fits : s.write_end ≤ length s.wbuf
    pub short : All IsShort records
    pub texts : text ≡ text_of records

  -- Nothing is left in the queue once a flush is done.
  abbrev pub Flushed : Outcome (Unit {0}) → ScallopStream Noise Base → Type 0
  Flushed blocked s = Unit {0}
  Flushed base_failed s = Unit {0}
  Flushed noise_failed s = ⊥
  Flushed panicked s = ⊥
  Flushed running s = Unit {0}
  Flushed (done u) s = s.write_start ≡ s.write_end

  abbrev pub Flushes : List ℕ → Outcome (Unit {0}) × ScallopStream Noise Base → Type 0
  Flushes text (outcome, s) = IsWriting text s × Flushed outcome s

  -- The base has taken so many of the queued bytes.
  taken-IsWriting :
      (text : List ℕ) (s : ScallopStream Noise Base) (base : Base) (size : ℕ)
      → size ≤ s.write_end - s.write_start
      → sent base ≡ sent s.stream ++ take size (slice s.wbuf s.write_start s.write_end)
      → IsWriting text s
      → IsWriting text (record s { stream = base; write_start = s.write_start + size })
  taken-IsWriting text s base size h sends w =
      let ordered = w.ordered in
      let queued = slice s.wbuf s.write_start s.write_end in
      let behind = slice s.wbuf (s.write_start + size) s.write_end in
      let split = slice-split s.write_start size s.write_end s.wbuf (omega arith) in
      record {
        records = w.records;
        history = w.history;
        carried =
            ap (λ bs. bs ++ behind) sends
            ∙ assoc (sent s.stream) (take size queued) behind
            ∙ ap (λ bs. sent s.stream ++ bs)
                (ap (λ bs. bs ++ behind)
                    (take-slice size s.write_start s.write_end s.wbuf (omega arith))
                  ∙ sym split)
            ∙ w.carried;
        ordered = omega arith;
        fits = w.fits;
        short = w.short;
        texts = w.texts;
      }

  moved-IsWriting :
      (text : List ℕ) (s : ScallopStream Noise Base) (base : Base)
      → sent base ≡ sent s.stream
      → IsWriting text s
      → IsWriting text (record s { stream = base })
  moved-IsWriting text s base sends w = record {
    records = w.records;
    history = w.history;
    carried = ap (λ bs. bs ++ slice s.wbuf s.write_start s.write_end) sends ∙ w.carried;
    ordered = w.ordered;
    fits = w.fits;
    short = w.short;
    texts = w.texts;
  }

  answered-Flushes :
      (text : List ℕ) (s : ScallopStream Noise Base) (answer : Poll (Unit {0}) × Base)
      → sent answer.1 ≡ sent s.stream
      → s.write_start ≡ s.write_end
      → IsWriting text s
      → Flushes text (answered s answer)
  answered-Flushes text s (pending, base) sends e w = (moved-IsWriting text s base sends w, tt)
  answered-Flushes text s (failed, base) sends e w = (moved-IsWriting text s base sends w, tt)
  answered-Flushes text s (ready u, base) sends e w = (moved-IsWriting text s base sends w, e)

  sent_some-Flushes :
      (next : ScallopStream Noise Base → Outcome (Unit {0}) × ScallopStream Noise Base)
      (text : List ℕ) (s : ScallopStream Noise Base) (answer : Poll ℕ × Base)
      → sent answer.1
        ≡ sent s.stream ++ take (taken_of answer) (slice s.wbuf s.write_start s.write_end)
      → taken_of answer ≤ s.write_end - s.write_start
      → IsWriting text s
      → ((t : ScallopStream Noise Base) → IsWriting text t → Flushes text (next t))
      → Flushes text (sent_some next s answer)
  sent_some-Flushes next text s (pending, base) sends h w after =
      (moved-IsWriting text s base (sends ∙ append-nil (sent s.stream)) w, tt)
  sent_some-Flushes next text s (failed, base) sends h w after =
      (moved-IsWriting text s base (sends ∙ append-nil (sent s.stream)) w, tt)
  sent_some-Flushes next text s (ready size, base) sends h w after =
      after (record s { stream = base; write_start = s.write_start + size })
        (taken-IsWriting text s base size h sends w)

  send-Flushes :
      (laws : IsPipe io unread sent) (fuel : ℕ) (text : List ℕ) (s : ScallopStream Noise Base)
      → IsWriting text s
      → Flushes text (send io fuel s)
  unfolding send
  send-Flushes laws zero text s w =
      if_elim (Flushes text) (s.write_start == s.write_end)
        (λ e.
          answered-Flushes text s (io.poll_flush s.stream) (laws.flush_sends s.stream)
            (==_true s.write_start s.write_end e) w)
        (λ e. (w, tt))
  send-Flushes laws (suc fuel) text s w =
      let ordered = w.ordered in
      let fits = w.fits in
      let queued = slice s.wbuf s.write_start s.write_end in
      if_elim (Flushes text) (s.write_start == s.write_end)
        (λ e.
          answered-Flushes text s (io.poll_flush s.stream) (laws.flush_sends s.stream)
            (==_true s.write_start s.write_end e) w)
        (λ e.
          if_elim (Flushes text) (ltb (length s.wbuf) s.write_end || ltb s.write_end s.write_start)
            (λ h. absurd (ground arith))
            (λ h.
              sent_some-Flushes (λ next. send io fuel next) text s (io.poll_write s.stream queued)
                (laws.write_sends s.stream queued)
                (omega (
                  arith,
                  laws.write_fits s.stream queued,
                  length-slice s.write_start s.write_end s.wbuf ordered fits,
                ))
                w (λ t kept. send-Flushes laws fuel text t kept)))

  pub poll_flush-Flushes :
      (laws : IsPipe io unread sent) (text : List ℕ) (s : ScallopStream Noise Base)
      → IsWriting text s
      → Flushes text (poll_flush io s)
  unfolding poll_flush
  poll_flush-Flushes laws text s w = send-Flushes laws (suc (s.write_end - s.write_start)) text s w
