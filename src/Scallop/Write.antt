-- ===== src/Scallop/Write.antt =====
-- The implementation of `AsyncWrite` for `ScallopStream` in sdks/rs/src/scallop.rs.
use oyster_monorepo.Base.{
  ◌||◌, ℕ, zero, suc, ◌+◌, ◌-◌, ◌==◌, ◌%◌, Option, none, some, List, ◌++◌, length, take, ltb,
  if◌then◌else◌,
}
use oyster_monorepo.Base.Slices.{slice}
use oyster_monorepo.Scallop.Library.{
  Poll, pending, failed, ready, Noiser, AsyncBase, to_be_bytes, zeros,
}
use oyster_monorepo.Scallop.Stream.{
  ScallopStream, Outcome, blocked, base_failed, noise_failed, panicked, running, done,
}
use Prim.Native.Nat.{min}

module _ {Noise Base : Type 0} where
  abbrev pub sent_some :
      (ScallopStream Noise Base → Outcome (Unit {0}) × ScallopStream Noise Base)
      → ScallopStream Noise Base
      → Poll ℕ × Base
      → Outcome (Unit {0}) × ScallopStream Noise Base
  sent_some next s (pending, base) = (blocked, record s { stream = base })
  sent_some next s (failed, base) = (base_failed, record s { stream = base })
  sent_some next s (ready size, base) =
      next (record s { stream = base; write_start = s.write_start + size })

  abbrev pub answered :
      ScallopStream Noise Base
      → Poll (Unit {0}) × Base
      → Outcome (Unit {0}) × ScallopStream Noise Base
  answered s (pending, base) = (blocked, record s { stream = base })
  answered s (failed, base) = (base_failed, record s { stream = base })
  answered s (ready u, base) = (done u, record s { stream = base })

  -- `while stream.write_start != stream.write_end`, and the flush of the base behind it.
  unfoldable pub send :
      AsyncBase Base → ℕ → ScallopStream Noise Base → Outcome (Unit {0}) × ScallopStream Noise Base
  send io zero s =
      if s.write_start == s.write_end then answered s (io.poll_flush s.stream) else (running, s)
  send io (suc fuel) s =
      if s.write_start == s.write_end
      then answered s (io.poll_flush s.stream)
      else if ltb (length s.wbuf) s.write_end || ltb s.write_end s.write_start
      then (panicked, s)
      else sent_some (λ next. send io fuel next) s
          (io.poll_write s.stream (slice s.wbuf s.write_start s.write_end))

  unfoldable pub poll_flush :
      AsyncBase Base → ScallopStream Noise Base → Outcome (Unit {0}) × ScallopStream Noise Base
  poll_flush io s = send io (suc (s.write_end - s.write_start)) s

  abbrev pub written :
      ℕ
      → ScallopStream Noise Base
      → Option ℕ × (List ℕ × Noise)
      → Outcome ℕ × ScallopStream Noise Base
  written len s (none, (new_buf, noise)) = (noise_failed, record s { noise = noise })
  written len s (some noise_len, (new_buf, noise)) = (
    done len,
    record s {
      noise = noise;
      wbuf = to_be_bytes (noise_len % 65536) ++ new_buf;
      write_start = 0;
      write_end = noise_len + 2;
    },
  )

  -- `poll_write` behind the flush: a record of at most 64000 bytes is queued up.
  unfoldable pub queue :
      Noiser Noise → List ℕ → ScallopStream Noise Base → Outcome ℕ × ScallopStream Noise Base
  queue noiser buf s =
      let len = min (length buf) 64000 in
      written len s (noiser.write_message s.noise (take len buf) (zeros (len + 998)))

  abbrev pub when_flushed :
      {A : Type 0}
      → (ScallopStream Noise Base → Outcome A × ScallopStream Noise Base)
      → Outcome (Unit {0}) × ScallopStream Noise Base
      → Outcome A × ScallopStream Noise Base
  when_flushed next (blocked, s) = (blocked, s)
  when_flushed next (base_failed, s) = (base_failed, s)
  when_flushed next (noise_failed, s) = (noise_failed, s)
  when_flushed next (panicked, s) = (panicked, s)
  when_flushed next (running, s) = (running, s)
  when_flushed next (done u, s) = next s

  -- The number of bytes of the buffer that the poll has taken.
  unfoldable pub poll_write :
      Noiser Noise
      → AsyncBase Base
      → List ℕ
      → ScallopStream Noise Base
      → Outcome ℕ × ScallopStream Noise Base
  poll_write noiser io buf s = when_flushed (λ flushed. queue noiser buf flushed) (poll_flush io s)

  unfoldable pub poll_shutdown :
      AsyncBase Base → ScallopStream Noise Base → Outcome (Unit {0}) × ScallopStream Noise Base
  poll_shutdown io s =
      when_flushed (λ flushed. answered flushed (io.poll_shutdown flushed.stream)) (poll_flush io s)
