-- ===== src/Scallop/Stream.antt =====
-- `ScallopStream` of sdks/rs/src/scallop.rs, with its implementations of `AsyncRead` and `AsyncWrite`.
use oyster_monorepo.Base.{
  ◌||◌, ◌==◌, ℕ, zero, suc, ◌+◌, ◌-◌, Bool, true, false, Option, none, some, List, [], ◌∷◌, length,
  ltb, if◌then◌else◌,
}
use oyster_monorepo.Base.Slices.{slice}
use oyster_monorepo.Scallop.Library.{
  Poll, pending, failed, ready, Noiser, AsyncBase, from_be_bytes, zeros, overwrite,
}

pub data ReadMode : Type 0 where
  length_mode body_mode read_mode : ReadMode

pub record ScallopStream (Noise Base : Type 0) : Type 0 where
  pub noise : Noise
  pub stream : Base
  -- read buffer
  pub rbuf : List ℕ
  pub pending_bytes : ℕ
  pub mode : ReadMode
  pub read_end : ℕ
  pub read_start : ℕ
  -- write buffer
  pub wbuf : List ℕ
  pub write_start : ℕ
  pub write_end : ℕ

-- What a poll comes to: the base is not ready or has failed, the noise protocol has failed, an index is
-- out of range, the loop has not ended on its fuel, or an answer.
pub data Outcome (A : Type 0) : Type 0 where
  blocked base_failed noise_failed panicked running : Outcome A
  done : A → Outcome A

module _ {Noise Base : Type 0} where
  -- The stream that both handshakes end with.
  unfoldable pub new_stream : Noise → Base → ScallopStream Noise Base
  new_stream noise stream = record {
    noise = noise;
    stream = stream;
    rbuf = zeros 2;
    pending_bytes = 2;
    mode = length_mode;
    read_end = 0;
    read_start = 0;
    wbuf = [];
    write_start = 0;
    write_end = 0;
  }

  -- The end of a turn of the inner loop of `poll_read`, with what the base has answered: at the end of
  -- its bytes the poll returns.
  abbrev pub chunk_read :
      (ScallopStream Noise Base → Outcome Bool × ScallopStream Noise Base)
      → ScallopStream Noise Base
      → Poll (List ℕ) × Base
      → Outcome Bool × ScallopStream Noise Base
  chunk_read next s (pending, base) = (blocked, record s { stream = base })
  chunk_read next s (failed, base) = (base_failed, record s { stream = base })
  chunk_read next s (ready [], base) = (done false, record s { stream = base })
  chunk_read next s (ready (c ∷ cs), base) = next (record s {
    stream = base;
    rbuf = overwrite s.rbuf (length s.rbuf - s.pending_bytes) (c ∷ cs);
    pending_bytes = s.pending_bytes - length (c ∷ cs);
  })

  -- `while stream.pending != 0`
  unfoldable pub fill :
      AsyncBase Base → ℕ → ScallopStream Noise Base → Outcome Bool × ScallopStream Noise Base
  fill io zero s = if s.pending_bytes == 0 then (done true, s) else (running, s)
  fill io (suc fuel) s =
      if s.pending_bytes == 0
      then (done true, s)
      else chunk_read (λ next. fill io fuel next) s (io.poll_read s.stream s.pending_bytes)

  abbrev pub body_read :
      ScallopStream Noise Base
      → Option ℕ × (List ℕ × Noise)
      → Option (Outcome (List ℕ)) × ScallopStream Noise Base
  body_read s (none, (rbuf, noise)) = (some noise_failed, record s { noise = noise; rbuf = rbuf })
  body_read s (some len, (rbuf, noise)) = (
    none,
    record s { noise = noise; rbuf = rbuf; read_start = 0; read_end = len; mode = read_mode },
  )

  abbrev pub length_read :
      ScallopStream Noise Base → Option ℕ → Option (Outcome (List ℕ)) × ScallopStream Noise Base
  length_read s none = (some panicked, s)
  length_read s (some record_length) = (
    none,
    record s { pending_bytes = record_length; mode = body_mode; rbuf = zeros record_length },
  )

  -- As much of the record as there is room for.
  abbrev pub deliver :
      ℕ → ScallopStream Noise Base → Option (Outcome (List ℕ)) × ScallopStream Noise Base
  deliver room s =
      if ltb (length s.rbuf) s.read_end || ltb s.read_end s.read_start
      then (some panicked, s)
      else if ltb room (s.read_end - s.read_start)
      then (
        some (done (slice s.rbuf s.read_start (s.read_start + room))),
        record s { read_start = s.read_start + room },
      )
      else (
        some (done (slice s.rbuf s.read_start s.read_end)),
        record s { rbuf = zeros 2; pending_bytes = 2; mode = length_mode },
      )

  -- The three branches on the mode, once no byte is pending: none where the loop goes on.
  abbrev pub process_in :
      ReadMode
      → Noiser Noise
      → ℕ
      → ScallopStream Noise Base
      → Option (Outcome (List ℕ)) × ScallopStream Noise Base
  process_in length_mode noiser room s = length_read s (from_be_bytes s.rbuf)
  process_in body_mode noiser room s = body_read s (noiser.read_message s.noise s.rbuf s.rbuf)
  process_in read_mode noiser room s = deliver room s

  unfoldable pub process :
      Noiser Noise
      → ℕ
      → ScallopStream Noise Base
      → Option (Outcome (List ℕ)) × ScallopStream Noise Base
  process noiser room s = process_in s.mode noiser room s

  abbrev pub turned :
      (ScallopStream Noise Base → Outcome (List ℕ) × ScallopStream Noise Base)
      → Option (Outcome (List ℕ)) × ScallopStream Noise Base
      → Outcome (List ℕ) × ScallopStream Noise Base
  turned next (none, s) = next s
  turned next (some outcome, s) = (outcome, s)

  -- After the inner loop: at the end of the bytes nothing is put into the buffer of the caller.
  abbrev pub filled :
      (ScallopStream Noise Base → Outcome (List ℕ) × ScallopStream Noise Base)
      → Outcome Bool × ScallopStream Noise Base
      → Outcome (List ℕ) × ScallopStream Noise Base
  filled next (blocked, s) = (blocked, s)
  filled next (base_failed, s) = (base_failed, s)
  filled next (noise_failed, s) = (noise_failed, s)
  filled next (panicked, s) = (panicked, s)
  filled next (running, s) = (running, s)
  filled next (done false, s) = (done [], s)
  filled next (done true, s) = next s

  -- The outer loop of `poll_read`.
  unfoldable pub read_loop :
      Noiser Noise
      → AsyncBase Base
      → ℕ
      → ℕ
      → ScallopStream Noise Base
      → Outcome (List ℕ) × ScallopStream Noise Base
  read_loop noiser io zero room s = (running, s)
  read_loop noiser io (suc fuel) room s =
      filled
        (λ full. turned (λ next. read_loop noiser io fuel room next) (process noiser room full))
        (fill io s.pending_bytes s)

  -- The bytes that the poll puts into a buffer with so much room.
  unfoldable pub poll_read :
      Noiser Noise
      → AsyncBase Base
      → ℕ
      → ScallopStream Noise Base
      → Outcome (List ℕ) × ScallopStream Noise Base
  poll_read noiser io room s = read_loop noiser io 3 room s
