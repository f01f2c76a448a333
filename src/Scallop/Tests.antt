-- ===== src/Scallop/Tests.antt =====
-- Runs of the streams and of the handshakes of sdks/rs/src/scallop.rs.
use oyster_monorepo.Base.{ℕ, ◌≤◌, ◌≡◌, refl, List, [], ◌∷◌, ◌++◌, length, arith}
use oyster_monorepo.Scallop.Library.{zeros}
use oyster_monorepo.Scallop.Stream.{
  ScallopStream, ReadMode, new_stream, poll_read, fill, read_loop, process,
}
use oyster_monorepo.Scallop.Write.{poll_shutdown, poll_write, poll_flush, send, queue}
use oyster_monorepo.Scallop.Laws.{here}
use oyster_monorepo.Scallop.Reading.{IsReading, at_length, Delivers}
use oyster_monorepo.Scallop.Delivery.{poll_read-Delivers}
use oyster_monorepo.Scallop.Writing.{IsWriting}
use oyster_monorepo.Scallop.Accepting.{Accepts, poll_write-Accepts}
use oyster_monorepo.Scallop.Ending.{Advances, Returns, poll_flush-Returns}
use oyster_monorepo.Scallop.Waking.{IsPrompt, NotBlocked, polls-NotBlocked}
use oyster_monorepo.Scallop.Session.{Op, read, write, flush, run, delivered-accepted}
use oyster_monorepo.Scallop.Plain.{Pipe, pipe, pipe-IsPipe, plain, plain-IsPaired, copied-Decrypts}

abbrev unread : Pipe → List ℕ
unread p = p.0

abbrev sent : Pipe → List ℕ
sent p = p.1

abbrev ops : List Op
ops = write (5 ∷ 6 ∷ 7 ∷ 8 ∷ []) ∷ flush ∷ write (9 ∷ []) ∷ read 3 ∷ []

abbrev peer_ops : List Op
peer_ops = read 3 ∷ write (1 ∷ []) ∷ read 3 ∷ []

abbrev wire : List ℕ
wire = 0 ∷ 4 ∷ 5 ∷ 6 ∷ 7 ∷ 8 ∷ []

-- The last write has not been flushed.
accepted_test : (run plain pipe ops (new_stream tt ([], []))).1.0 ≡ 5 ∷ 6 ∷ 7 ∷ 8 ∷ 9 ∷ []
unfolding run poll_read poll_write poll_flush send queue fill read_loop process new_stream
accepted_test = refl

delivered_test : (run plain pipe peer_ops (new_stream tt (wire, []))).0 ≡ 5 ∷ 6 ∷ 7 ∷ 8 ∷ []
unfolding run poll_read poll_write poll_flush send queue fill read_loop process new_stream
delivered_test = refl

brings : (run plain pipe ops (new_stream tt ([], []))).1.1.stream.1 ≡ wire ++ []
unfolding run poll_read poll_write poll_flush send queue fill read_loop process new_stream
brings = refl

delivered-accepted_example :
    (rest : List ℕ) × ((run plain pipe ops (new_stream tt ([], []))).1.0
      ≡ (run plain pipe peer_ops (new_stream tt (wire, []))).0 ++ rest)
delivered-accepted_example =
    delivered-accepted plain pipe unread sent pipe-IsPipe plain-IsPaired plain-IsPaired ops peer_ops
      ([], []) (wire, []) [] refl brings

reading : IsReading plain pipe unread sent (new_stream tt (wire, [])) (5 ∷ 6 ∷ 7 ∷ 8 ∷ [])
unfolding new_stream
reading =
    at_length {future = []} ((5 ∷ 6 ∷ 7 ∷ 8 ∷ [], 5 ∷ 6 ∷ 7 ∷ 8 ∷ []) ∷ []) refl refl
      record { bounded = omega arith; loaded = refl } (omega arith, tt)
      (copied-Decrypts (5 ∷ 6 ∷ 7 ∷ 8 ∷ [])) refl

poll_read-Delivers_example :
    Delivers plain pipe unread sent
      (5 ∷ 6 ∷ 7 ∷ 8 ∷ [])
      (poll_read plain pipe 3 (new_stream tt (wire, [])))
poll_read-Delivers_example =
    poll_read-Delivers plain pipe unread sent pipe-IsPipe 3 (5 ∷ 6 ∷ 7 ∷ 8 ∷ [])
      (new_stream tt (wire, [])) reading

writing : IsWriting plain pipe unread sent tt [] (new_stream tt ([], []))
unfolding new_stream
writing = record {
  records = [];
  history = here;
  carried = refl;
  ordered = omega arith;
  fits = omega arith;
  short = tt;
  texts = refl;
}

poll_write-Accepts_example :
    Accepts plain pipe unread sent tt
      (5 ∷ 6 ∷ [])
      []
      (poll_write plain pipe (5 ∷ 6 ∷ []) (new_stream tt ([], [])))
poll_write-Accepts_example =
    poll_write-Accepts plain pipe unread sent tt pipe-IsPipe plain-IsPaired (5 ∷ 6 ∷ []) []
      (new_stream tt ([], [])) writing

pipe-Advances : (p : Pipe) (bytes : List ℕ) → 1 ≤ length bytes → Advances (pipe.poll_write p bytes)
pipe-Advances p [] h = absurd (omega arith)
pipe-Advances p (b ∷ bytes) h = omega arith

-- Five bytes are queued.
abbrev queued : ScallopStream (Unit {0}) Pipe
queued = record {
  noise = tt;
  stream = ([], []);
  rbuf = zeros 2;
  pending_bytes = 2;
  mode = ReadMode.length_mode;
  read_end = 0;
  read_start = 0;
  wbuf = 0 ∷ 3 ∷ 5 ∷ 6 ∷ 7 ∷ 0 ∷ [];
  write_start = 0;
  write_end = 5;
}

poll_flush-Returns_example : Returns (poll_flush pipe queued).0
poll_flush-Returns_example =
    poll_flush-Returns pipe pipe-IsPipe.write_fits pipe-Advances queued (omega arith) (omega arith)

pipe-IsPrompt : IsPrompt pipe
pipe-IsPrompt = record {
  reads = λ p room. tt;
  writes = λ p bytes. tt;
  flushes = λ p. tt;
  shuts_down = λ p. tt;
}

polls-NotBlocked_example :
    NotBlocked (poll_read plain pipe 3 queued)
    × NotBlocked (poll_write plain pipe (1 ∷ 2 ∷ []) queued)
    × NotBlocked (poll_flush pipe queued)
    × NotBlocked (poll_shutdown pipe queued)
polls-NotBlocked_example = polls-NotBlocked plain pipe pipe-IsPrompt 3 (1 ∷ 2 ∷ []) queued
