-- ===== src/Scallop/Waking.antt =====
-- The polls of sdks/rs/src/scallop.rs are pending only as a direct result of the base being pending.
use oyster_monorepo.Base.{
  ℕ, zero, suc, ◌+◌, ◌-◌, Bool, true, false, Option, none, some, List, [], ◌∷◌, length, take, ltb,
  ◌==◌, ◌||◌, if_elim,
}
use oyster_monorepo.Base.Slices.{slice}
use oyster_monorepo.Scallop.Library.{
  Poll, pending, failed, ready, Noiser, AsyncBase, from_be_bytes, overwrite, zeros,
}
use oyster_monorepo.Scallop.Stream.{
  ReadMode, length_mode, body_mode, read_mode, ScallopStream, Outcome, blocked, base_failed,
  noise_failed, panicked, running, done, chunk_read, fill, body_read, length_read, deliver,
  process_in, process, turned, filled, read_loop, poll_read,
}
use oyster_monorepo.Scallop.Write.{
  sent_some, answered, send, poll_flush, written, queue, when_flushed, poll_write, poll_shutdown,
}
use Prim.Native.Nat.{min}

abbrev pub NotPending : {A Base : Type 0} → Poll A × Base → Type 0
NotPending (pending, base) = ⊥
NotPending (failed, base) = Unit {0}
NotPending (ready a, base) = Unit {0}

-- The base is never pending.
pub record IsPrompt {Base : Type 0} (io : AsyncBase Base) : Type 0 where
  pub reads : (b : Base) (room : ℕ) → NotPending (io.poll_read b room)
  pub writes : (b : Base) (bytes : List ℕ) → NotPending (io.poll_write b bytes)
  pub flushes : (b : Base) → NotPending (io.poll_flush b)
  pub shuts_down : (b : Base) → NotPending (io.poll_shutdown b)

abbrev pub NotBlocked : {A S : Type 0} → Outcome A × S → Type 0
NotBlocked (blocked, s) = ⊥
NotBlocked (base_failed, s) = Unit {0}
NotBlocked (noise_failed, s) = Unit {0}
NotBlocked (panicked, s) = Unit {0}
NotBlocked (running, s) = Unit {0}
NotBlocked (done a, s) = Unit {0}

module _ {Noise Base : Type 0} (noiser : Noiser Noise) (io : AsyncBase Base)
    (prompt : IsPrompt io) where
  -- A turn that ends the loop is not pending.
  NotHeld : Option (Outcome (List ℕ)) × ScallopStream Noise Base → Type 0
  NotHeld (none, s) = Unit {0}
  NotHeld (some outcome, s) = NotBlocked (outcome, s)

  chunk-NotBlocked :
      (next : ScallopStream Noise Base → Outcome Bool × ScallopStream Noise Base)
      (s : ScallopStream Noise Base) (answer : Poll (List ℕ) × Base)
      → NotPending answer
      → ((t : ScallopStream Noise Base) → NotBlocked (next t))
      → NotBlocked (chunk_read next s answer)
  chunk-NotBlocked next s (pending, base) h after = absurd h
  chunk-NotBlocked next s (failed, base) h after = tt
  chunk-NotBlocked next s (ready [], base) h after = tt
  chunk-NotBlocked next s (ready (c ∷ cs), base) h after = after (record s {
    stream = base;
    rbuf = overwrite s.rbuf (length s.rbuf - s.pending_bytes) (c ∷ cs);
    pending_bytes = s.pending_bytes - length (c ∷ cs);
  })

  fill-NotBlocked : (fuel : ℕ) (s : ScallopStream Noise Base) → NotBlocked (fill io fuel s)
  unfolding fill
  fill-NotBlocked zero s =
      if_elim (λ (r : Outcome Bool × ScallopStream Noise Base). NotBlocked r) (s.pending_bytes == 0)
        (λ e. tt) (λ e. tt)
  fill-NotBlocked (suc fuel) s =
      if_elim (λ (r : Outcome Bool × ScallopStream Noise Base). NotBlocked r) (s.pending_bytes == 0)
        (λ e. tt)
        (λ e.
          chunk-NotBlocked (λ next. fill io fuel next) s (io.poll_read s.stream s.pending_bytes)
            (prompt.reads s.stream s.pending_bytes) (λ t. fill-NotBlocked fuel t))

  length-NotHeld : (s : ScallopStream Noise Base) (size : Option ℕ) → NotHeld (length_read s size)
  unfolding NotHeld
  length-NotHeld s none = tt
  length-NotHeld s (some n) = tt

  body-NotHeld :
      (s : ScallopStream Noise Base) (answer : Option ℕ × (List ℕ × Noise))
      → NotHeld (body_read s answer)
  unfolding NotHeld
  body-NotHeld s (none, (rbuf, noise)) = tt
  body-NotHeld s (some len, (rbuf, noise)) = tt

  deliver-NotHeld : (room : ℕ) (s : ScallopStream Noise Base) → NotHeld (deliver room s)
  unfolding NotHeld
  deliver-NotHeld room s =
      if_elim NotHeld (ltb (length s.rbuf) s.read_end || ltb s.read_end s.read_start) (λ h. tt)
        (λ h. if_elim NotHeld (ltb room (s.read_end - s.read_start)) (λ less. tt) (λ all. tt))

  process_in-NotHeld :
      (mode : ReadMode) (room : ℕ) (s : ScallopStream Noise Base)
      → NotHeld (process_in mode noiser room s)
  process_in-NotHeld length_mode room s = length-NotHeld s (from_be_bytes s.rbuf)
  process_in-NotHeld body_mode room s = body-NotHeld s (noiser.read_message s.noise s.rbuf s.rbuf)
  process_in-NotHeld read_mode room s = deliver-NotHeld room s

  turned-NotBlocked :
      (next : ScallopStream Noise Base → Outcome (List ℕ) × ScallopStream Noise Base)
      (answer : Option (Outcome (List ℕ)) × ScallopStream Noise Base)
      → NotHeld answer
      → ((t : ScallopStream Noise Base) → NotBlocked (next t))
      → NotBlocked (turned next answer)
  unfolding NotHeld
  turned-NotBlocked next (none, s) h after = after s
  turned-NotBlocked next (some outcome, s) h after = h

  filled-NotBlocked :
      (next : ScallopStream Noise Base → Outcome (List ℕ) × ScallopStream Noise Base)
      (answer : Outcome Bool × ScallopStream Noise Base)
      → NotBlocked answer
      → ((t : ScallopStream Noise Base) → NotBlocked (next t))
      → NotBlocked (filled next answer)
  filled-NotBlocked next (blocked, s) h after = absurd h
  filled-NotBlocked next (base_failed, s) h after = tt
  filled-NotBlocked next (noise_failed, s) h after = tt
  filled-NotBlocked next (panicked, s) h after = tt
  filled-NotBlocked next (running, s) h after = tt
  filled-NotBlocked next (done false, s) h after = tt
  filled-NotBlocked next (done true, s) h after = after s

  read_loop-NotBlocked :
      (fuel room : ℕ) (s : ScallopStream Noise Base) → NotBlocked (read_loop noiser io fuel room s)
  unfolding read_loop process
  read_loop-NotBlocked zero room s = tt
  read_loop-NotBlocked (suc fuel) room s =
      filled-NotBlocked
        (λ full. turned (λ next. read_loop noiser io fuel room next) (process noiser room full))
        (fill io s.pending_bytes s) (fill-NotBlocked s.pending_bytes s)
        (λ t.
          turned-NotBlocked (λ next. read_loop noiser io fuel room next) (process noiser room t)
            (process_in-NotHeld t.mode room t) (λ u. read_loop-NotBlocked fuel room u))

  answered-NotBlocked :
      (s : ScallopStream Noise Base) (answer : Poll (Unit {0}) × Base)
      → NotPending answer
      → NotBlocked (answered s answer)
  answered-NotBlocked s (pending, base) h = absurd h
  answered-NotBlocked s (failed, base) h = tt
  answered-NotBlocked s (ready u, base) h = tt

  sent_some-NotBlocked :
      (next : ScallopStream Noise Base → Outcome (Unit {0}) × ScallopStream Noise Base)
      (s : ScallopStream Noise Base) (answer : Poll ℕ × Base)
      → NotPending answer
      → ((t : ScallopStream Noise Base) → NotBlocked (next t))
      → NotBlocked (sent_some next s answer)
  sent_some-NotBlocked next s (pending, base) h after = absurd h
  sent_some-NotBlocked next s (failed, base) h after = tt
  sent_some-NotBlocked next s (ready size, base) h after =
      after (record s { stream = base; write_start = s.write_start + size })

  send-NotBlocked : (fuel : ℕ) (s : ScallopStream Noise Base) → NotBlocked (send io fuel s)
  unfolding send
  send-NotBlocked zero s =
      if_elim (λ (r : Outcome (Unit {0}) × ScallopStream Noise Base). NotBlocked r)
        (s.write_start == s.write_end)
        (λ e. answered-NotBlocked s (io.poll_flush s.stream) (prompt.flushes s.stream)) (λ e. tt)
  send-NotBlocked (suc fuel) s =
      let queued = slice s.wbuf s.write_start s.write_end in
      if_elim (λ (r : Outcome (Unit {0}) × ScallopStream Noise Base). NotBlocked r)
        (s.write_start == s.write_end)
        (λ e. answered-NotBlocked s (io.poll_flush s.stream) (prompt.flushes s.stream))
        (λ e.
          if_elim (λ (r : Outcome (Unit {0}) × ScallopStream Noise Base). NotBlocked r)
            (ltb (length s.wbuf) s.write_end || ltb s.write_end s.write_start) (λ h. tt)
            (λ h.
              sent_some-NotBlocked (λ next. send io fuel next) s (io.poll_write s.stream queued)
                (prompt.writes s.stream queued) (λ t. send-NotBlocked fuel t)))

  flushed-NotBlocked :
      {A : Type 0} (next : ScallopStream Noise Base → Outcome A × ScallopStream Noise Base)
      (answer : Outcome (Unit {0}) × ScallopStream Noise Base)
      → NotBlocked answer
      → ((t : ScallopStream Noise Base) → NotBlocked (next t))
      → NotBlocked (when_flushed next answer)
  flushed-NotBlocked next (blocked, s) h after = absurd h
  flushed-NotBlocked next (base_failed, s) h after = tt
  flushed-NotBlocked next (noise_failed, s) h after = tt
  flushed-NotBlocked next (panicked, s) h after = tt
  flushed-NotBlocked next (running, s) h after = tt
  flushed-NotBlocked next (done u, s) h after = after s

  written-NotBlocked :
      (len : ℕ) (s : ScallopStream Noise Base) (answer : Option ℕ × (List ℕ × Noise))
      → NotBlocked (written len s answer)
  written-NotBlocked len s (none, (new_buf, noise)) = tt
  written-NotBlocked len s (some n, (new_buf, noise)) = tt

  -- Where no poll of the base is pending, no poll of the stream is, in whatever state it is: neither one to
  -- read, nor one to write, to flush or to shut down.
  pub polls-NotBlocked :
      (room : ℕ) (buf : List ℕ) (s : ScallopStream Noise Base)
      → NotBlocked (poll_read noiser io room s)
        × NotBlocked (poll_write noiser io buf s)
        × NotBlocked (poll_flush io s)
        × NotBlocked (poll_shutdown io s)
  unfolding poll_read poll_write poll_flush poll_shutdown queue
  polls-NotBlocked room buf s =
      let flush = send-NotBlocked (suc (s.write_end - s.write_start)) s in
      (
        read_loop-NotBlocked 3 room s,
        flushed-NotBlocked (λ flushed. queue noiser buf flushed) (poll_flush io s) flush
            (λ t.
              let len = min (length buf) 64000 in
              written-NotBlocked len t
                (noiser.write_message t.noise (take len buf) (zeros (len + 998)))),
        flush,
        flushed-NotBlocked (λ flushed. answered flushed (io.poll_shutdown flushed.stream))
            (poll_flush io s) flush
            (λ t. answered-NotBlocked t (io.poll_shutdown t.stream) (prompt.shuts_down t.stream)),
      )
