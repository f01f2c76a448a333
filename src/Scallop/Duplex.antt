-- ===== src/Scallop/Duplex.antt =====
-- The two directions of a `ScallopStream` of sdks/rs/src/scallop.rs do not disturb each other.
use oyster_monorepo.Base.{
  ℕ, zero, suc, ◌+◌, ◌-◌, ◌≡◌, refl, ap, ◌∙◌, Bool, true, false, Option, none, some, List, [], ◌∷◌,
  ◌++◌, length, ltb, ◌==◌, ◌||◌, if_elim,
}
use oyster_monorepo.Base.Slices.{slice}
use oyster_monorepo.Scallop.Library.{
  Poll, pending, failed, ready, Noiser, AsyncBase, from_be_bytes, zeros, overwrite,
}
use oyster_monorepo.Scallop.Stream.{
  ReadMode, length_mode, body_mode, read_mode, ScallopStream, Outcome, blocked, base_failed,
  noise_failed, panicked, running, done, chunk_read, fill, body_read, length_read, deliver,
  process_in, process, turned, filled, read_loop, poll_read,
}
use oyster_monorepo.Scallop.Laws.{IsPipe, Wrote, read}
use oyster_monorepo.Scallop.Writing.{IsWriting}

module _ {Noise Base : Type 0} (noiser : Noiser Noise) (io : AsyncBase Base)
    (unread sent : Base → List ℕ) (laws : IsPipe io unread sent) where
  module _ (start : Noise) (text : List ℕ) where
    Writes : ScallopStream Noise Base → Type 0
    Writes s = IsWriting noiser io unread sent start text s

    -- The fields that only a read sets.
    reread-Writes :
        (s : ScallopStream Noise Base) (noise : Noise) (base : Base) (rbuf : List ℕ)
        (pending_bytes : ℕ) (mode : ReadMode) (read_end read_start : ℕ)
        → sent base ≡ sent s.stream
        → ((records : List (List ℕ × List ℕ))
            → Wrote noiser start records s.noise
            → Wrote noiser start records noise)
        → Writes s
        → Writes (record s {
          noise = noise;
          stream = base;
          rbuf = rbuf;
          pending_bytes = pending_bytes;
          mode = mode;
          read_end = read_end;
          read_start = read_start;
        })
    unfolding Writes
    reread-Writes s noise base rbuf pending_bytes mode read_end read_start sends more w = record {
      records = w.records;
      history = more w.records w.history;
      carried = ap (λ bs. bs ++ slice s.wbuf s.write_start s.write_end) sends ∙ w.carried;
      ordered = w.ordered;
      fits = w.fits;
      short = w.short;
      texts = w.texts;
    }

    chunk-Writes :
        (next : ScallopStream Noise Base → Outcome Bool × ScallopStream Noise Base)
        (s : ScallopStream Noise Base) (answer : Poll (List ℕ) × Base)
        → sent answer.1 ≡ sent s.stream
        → Writes s
        → ((t : ScallopStream Noise Base) → Writes t → Writes (next t).1)
        → Writes (chunk_read next s answer).1
    chunk-Writes next s (pending, base) sends w after =
        reread-Writes s s.noise base s.rbuf s.pending_bytes s.mode s.read_end s.read_start sends
          (λ r h. h) w
    chunk-Writes next s (failed, base) sends w after =
        reread-Writes s s.noise base s.rbuf s.pending_bytes s.mode s.read_end s.read_start sends
          (λ r h. h) w
    chunk-Writes next s (ready [], base) sends w after =
        reread-Writes s s.noise base s.rbuf s.pending_bytes s.mode s.read_end s.read_start sends
          (λ r h. h) w
    chunk-Writes next s (ready (c ∷ cs), base) sends w after =
        after
          (record s {
            stream = base;
            rbuf = overwrite s.rbuf (length s.rbuf - s.pending_bytes) (c ∷ cs);
            pending_bytes = s.pending_bytes - length (c ∷ cs);
          })
          (reread-Writes s s.noise base
            (overwrite s.rbuf (length s.rbuf - s.pending_bytes) (c ∷ cs))
            (s.pending_bytes - length (c ∷ cs)) s.mode s.read_end s.read_start sends (λ r h. h) w)

    fill-Writes : (fuel : ℕ) (s : ScallopStream Noise Base) → Writes s → Writes (fill io fuel s).1
    unfolding fill
    fill-Writes zero s w =
        if_elim (λ (r : Outcome Bool × ScallopStream Noise Base). Writes r.1) (s.pending_bytes == 0)
          (λ h. w) (λ h. w)
    fill-Writes (suc fuel) s w =
        if_elim (λ (r : Outcome Bool × ScallopStream Noise Base). Writes r.1) (s.pending_bytes == 0)
          (λ h. w)
          (λ h.
            chunk-Writes (λ next. fill io fuel next) s (io.poll_read s.stream s.pending_bytes)
              (laws.read_sends s.stream s.pending_bytes) w (λ t kept. fill-Writes fuel t kept))

    body-Writes :
        (s : ScallopStream Noise Base) (answer : Option ℕ × (List ℕ × Noise))
        → ((records : List (List ℕ × List ℕ))
            → Wrote noiser start records s.noise
            → Wrote noiser start records answer.1.1)
        → Writes s
        → Writes (body_read s answer).1
    body-Writes s (none, (rbuf, noise)) more w =
        reread-Writes s noise s.stream rbuf s.pending_bytes s.mode s.read_end s.read_start refl more
          w
    body-Writes s (some len, (rbuf, noise)) more w =
        reread-Writes s noise s.stream rbuf s.pending_bytes read_mode len 0 refl more w

    length-Writes :
        (s : ScallopStream Noise Base) (answer : Option ℕ)
        → Writes s
        → Writes (length_read s answer).1
    length-Writes s none w = w
    length-Writes s (some n) w =
        reread-Writes s s.noise s.stream (zeros n) n body_mode s.read_end s.read_start refl
          (λ r h. h) w

    deliver-Writes :
        (room : ℕ) (s : ScallopStream Noise Base) → Writes s → Writes (deliver room s).1
    deliver-Writes room s w =
        if_elim (λ (r : Option (Outcome (List ℕ)) × ScallopStream Noise Base). Writes r.1)
          (ltb (length s.rbuf) s.read_end || ltb s.read_end s.read_start) (λ h. w)
          (λ h.
            if_elim (λ (r : Option (Outcome (List ℕ)) × ScallopStream Noise Base). Writes r.1)
              (ltb room (s.read_end - s.read_start))
              (λ less.
                reread-Writes s s.noise s.stream s.rbuf s.pending_bytes s.mode s.read_end
                  (s.read_start + room) refl (λ r h. h) w)
              (λ all.
                reread-Writes s s.noise s.stream (zeros 2) 2 length_mode s.read_end s.read_start
                  refl (λ r h. h) w))

    process_in-Writes :
        (mode : ReadMode) (room : ℕ) (s : ScallopStream Noise Base)
        → Writes s
        → Writes (process_in mode noiser room s).1
    process_in-Writes length_mode room s w = length-Writes s (from_be_bytes s.rbuf) w
    process_in-Writes body_mode room s w =
        body-Writes s (noiser.read_message s.noise s.rbuf s.rbuf) (λ records h. read h) w
    process_in-Writes read_mode room s w = deliver-Writes room s w

    turned-Writes :
        (next : ScallopStream Noise Base → Outcome (List ℕ) × ScallopStream Noise Base)
        (answer : Option (Outcome (List ℕ)) × ScallopStream Noise Base)
        → Writes answer.1
        → ((t : ScallopStream Noise Base) → Writes t → Writes (next t).1)
        → Writes (turned next answer).1
    turned-Writes next (none, s) w after = after s w
    turned-Writes next (some outcome, s) w after = w

    filled-Writes :
        (next : ScallopStream Noise Base → Outcome (List ℕ) × ScallopStream Noise Base)
        (answer : Outcome Bool × ScallopStream Noise Base)
        → Writes answer.1
        → ((t : ScallopStream Noise Base) → Writes t → Writes (next t).1)
        → Writes (filled next answer).1
    filled-Writes next (blocked, s) w after = w
    filled-Writes next (base_failed, s) w after = w
    filled-Writes next (noise_failed, s) w after = w
    filled-Writes next (panicked, s) w after = w
    filled-Writes next (running, s) w after = w
    filled-Writes next (done false, s) w after = w
    filled-Writes next (done true, s) w after = after s w

    read_loop-Writes :
        (fuel room : ℕ) (s : ScallopStream Noise Base)
        → Writes s
        → Writes (read_loop noiser io fuel room s).1
    unfolding read_loop process
    read_loop-Writes zero room s w = w
    read_loop-Writes (suc fuel) room s w =
        filled-Writes
          (λ full. turned (λ next. read_loop noiser io fuel room next) (process noiser room full))
          (fill io s.pending_bytes s) (fill-Writes s.pending_bytes s w)
          (λ t kept.
            turned-Writes (λ next. read_loop noiser io fuel room next) (process noiser room t)
              (process_in-Writes t.mode room t kept)
              (λ u reads. read_loop-Writes fuel room u reads))

  -- A read keeps what the stream has accepted.
  pub poll_read-IsWriting :
      (start : Noise) (text : List ℕ) (room : ℕ) (s : ScallopStream Noise Base)
      → IsWriting noiser io unread sent start text s
      → IsWriting noiser io unread sent start text (poll_read noiser io room s).1
  unfolding poll_read Writes
  poll_read-IsWriting start text room s w = read_loop-Writes start text 3 room s w
