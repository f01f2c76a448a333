-- ===== src/Scallop/Session.antt =====
-- Two streams of sdks/rs/src/scallop.rs that talk to each other.
use mathlib.Core.Path.{subst}
use oyster_monorepo.Base.{ℕ, ◌≡◌, refl, sym, ap, ◌∙◌, List, [], ◌∷◌, ◌++◌, take, All, arith}
use oyster_monorepo.Base.Slices.{slice, append-nil, assoc}
use oyster_monorepo.Scallop.Library.{Noiser, AsyncBase}
use oyster_monorepo.Scallop.Stream.{
  ScallopStream, Outcome, blocked, base_failed, noise_failed, panicked, running, done, new_stream,
  poll_read,
}
use oyster_monorepo.Scallop.Write.{poll_flush, poll_write}
use oyster_monorepo.Scallop.Laws.{IsPipe, IsPaired, here, Decrypts, frames, text_of, IsShort}
use oyster_monorepo.Scallop.Reading.{delivered, IsReading, at_length}
use oyster_monorepo.Scallop.Delivery.{poll_read-Delivers}
use oyster_monorepo.Scallop.Writing.{IsWriting, poll_flush-Flushes}
use oyster_monorepo.Scallop.Accepting.{Accepts, poll_write-Accepts}
use oyster_monorepo.Scallop.Duplex.{poll_read-IsWriting}
use oyster_monorepo.Scallop.Counterflow.{poll_write-IsReading, poll_flush-IsReading}

-- A poll of the stream.
pub data Op : Type 0 where
  read : ℕ → Op
  write : List ℕ → Op
  flush : Op

-- The bytes of a buffer that a write has taken.
abbrev pub accepted : List ℕ → Outcome ℕ → List ℕ
accepted buf blocked = []
accepted buf base_failed = []
accepted buf noise_failed = []
accepted buf panicked = []
accepted buf running = []
accepted buf (done n) = take n buf

module _ {Noise Base : Type 0} (noiser : Noiser Noise) (io : AsyncBase Base) where
  -- What a poll delivers and what it accepts, and the stream behind it.
  abbrev pub step : Op → ScallopStream Noise Base → List ℕ × (List ℕ × ScallopStream Noise Base)
  step (read room) s = let (outcome, t) = poll_read noiser io room s in (delivered outcome, ([], t))
  step (write buf) s =
      let (outcome, t) = poll_write noiser io buf s in ([], (accepted buf outcome, t))
  step flush s = ([], ([], (poll_flush io s).1))

  -- The same over polls in any order.
  unfoldable pub run :
      List Op → ScallopStream Noise Base → List ℕ × (List ℕ × ScallopStream Noise Base)
  run [] s = ([], ([], s))
  run (op ∷ ops) s =
      let (got, (gave, t)) = step op s in
      let (more, (further, u)) = run ops t in (got ++ more, (gave ++ further, u))

  module _ (unread sent : Base → List ℕ) (laws : IsPipe io unread sent) where
    same-IsWriting :
        (start : Noise) (text : List ℕ) (s : ScallopStream Noise Base)
        → IsWriting noiser io unread sent start text s
        → IsWriting noiser io unread sent start (text ++ []) s
    same-IsWriting start text s w =
        subst (λ bs. IsWriting noiser io unread sent start bs s) (sym (append-nil text)) w

    Accepts-IsWriting :
        (start : Noise) (buf text : List ℕ) (answer : Outcome ℕ × ScallopStream Noise Base)
        → Accepts noiser io unread sent start buf text answer
        → IsWriting noiser io unread sent start (text ++ accepted buf answer.0) answer.1
    Accepts-IsWriting start buf text (blocked, s) w = same-IsWriting start text s w
    Accepts-IsWriting start buf text (base_failed, s) w = same-IsWriting start text s w
    Accepts-IsWriting start buf text (noise_failed, s) w = same-IsWriting start text s w
    Accepts-IsWriting start buf text (panicked, s) w = absurd w
    Accepts-IsWriting start buf text (running, s) w = same-IsWriting start text s w
    Accepts-IsWriting start buf text (done n, s) (h, w) = w

    step-IsWriting :
        {start peer : Noise} (paired : IsPaired noiser start peer) (op : Op) (text : List ℕ)
        (s : ScallopStream Noise Base)
        → IsWriting noiser io unread sent start text s
        → IsWriting noiser io unread sent start (text ++ (step op s).1.0) (step op s).1.1
    step-IsWriting {start} paired (read room) text s w =
        same-IsWriting start text (poll_read noiser io room s).1
          (poll_read-IsWriting noiser io unread sent laws start text room s w)
    step-IsWriting {start} paired (write buf) text s w =
        Accepts-IsWriting start buf text (poll_write noiser io buf s)
          (poll_write-Accepts noiser io unread sent start laws paired buf text s w)
    step-IsWriting {start} paired flush text s w =
        same-IsWriting start text (poll_flush io s).1
          (poll_flush-Flushes noiser io unread sent start laws text s w).0

    run-IsWriting :
        {start peer : Noise} (paired : IsPaired noiser start peer) (ops : List Op) (text : List ℕ)
        (s : ScallopStream Noise Base)
        → IsWriting noiser io unread sent start text s
        → IsWriting noiser io unread sent start (text ++ (run ops s).1.0) (run ops s).1.1
    unfolding run
    run-IsWriting {start} paired [] text s w = same-IsWriting start text s w
    run-IsWriting {start} paired (op ∷ ops) text s w =
        let gave = (step op s).1.0 in
        let t = (step op s).1.1 in
        subst (λ bs. IsWriting noiser io unread sent start bs (run ops t).1.1)
          (assoc text gave (run ops t).1.0)
          (run-IsWriting paired ops (text ++ gave) t (step-IsWriting paired op text s w))

    -- The text is what comes out of the stream, and then what it will still deliver.
    abbrev pub Yields : List ℕ → List ℕ × (List ℕ × ScallopStream Noise Base) → Type 0
    Yields text (got, (gave, s)) =
        (rest : List ℕ) × (text ≡ got ++ rest) × IsReading noiser io unread sent s rest

    step-Yields :
        {start peer : Noise} (paired : IsPaired noiser start peer) (op : Op) (text : List ℕ)
        (s : ScallopStream Noise Base)
        → IsReading noiser io unread sent s text
        → Yields text (step op s)
    step-Yields paired (read room) text s r =
        let (rest, same, reading, sound) =
          poll_read-Delivers noiser io unread sent laws room text s r in
        (rest, same, reading)
    step-Yields paired (write buf) text s r =
        (text, refl, poll_write-IsReading noiser io unread sent laws paired text buf s r)
    step-Yields paired flush text s r =
        (text, refl, poll_flush-IsReading noiser io unread sent laws text s r)

    run-Yields :
        {start peer : Noise} (paired : IsPaired noiser start peer) (ops : List Op) (text : List ℕ)
        (s : ScallopStream Noise Base)
        → IsReading noiser io unread sent s text
        → Yields text (run ops s)
    unfolding run
    run-Yields paired [] text s r = (text, refl, r)
    run-Yields paired (op ∷ ops) text s r =
        let got = (step op s).0 in
        let t = (step op s).1.1 in
        let (rest, same, reading) = step-Yields paired op text s r in
        let (last, again, reads) = run-Yields paired ops rest t reading in
        (last, same ∙ ap (λ bs. got ++ bs) again ∙ sym (assoc got (run ops t).0 last), reads)

    new_stream-IsWriting :
        (start : Noise) (base : Base)
        → sent base ≡ []
        → IsWriting noiser io unread sent start [] (new_stream start base)
    unfolding new_stream
    new_stream-IsWriting start base none_sent = record {
      records = [];
      history = here;
      carried = append-nil (sent base) ∙ none_sent;
      ordered = omega arith;
      fits = omega arith;
      short = tt;
      texts = refl;
    }

    new_stream-IsReading :
        (noise : Noise) (base : Base) (future : List ℕ) (records : List (List ℕ × List ℕ))
        → unread base ++ future ≡ frames records
        → All IsShort records
        → Decrypts noiser noise records
        → IsReading noiser io unread sent (new_stream noise base) (text_of records)
    unfolding new_stream
    new_stream-IsReading noise base future records e short decrypts =
        at_length records refl refl record { bounded = omega arith; loaded = e } short decrypts refl

    -- Two streams have the two states of the noise protocol after a handshake, each of which reads what the
    -- other one writes, their bases are pipes, and they have been polled in any order, for reads, writes and
    -- flushes; the base of the first had been given nothing before, and the bytes that the base of the second
    -- brings in all are the front of those that the base of the first was given. Then all that was read from
    -- the second is the front of what the writes to the first have accepted, in order, without a change.
    pub delivered-accepted :
        {a b : Noise} (paired : IsPaired noiser a b) (back : IsPaired noiser b a)
        (ops peer_ops : List Op) (base peer_base : Base) (future : List ℕ)
        → sent base ≡ []
        → sent (run ops (new_stream a base)).1.1.stream ≡ unread peer_base ++ future
        → (rest : List ℕ) × ((run ops (new_stream a base)).1.0
            ≡ (run peer_ops (new_stream b peer_base)).0 ++ rest)
    delivered-accepted {a} {b} paired back ops peer_ops base peer_base future none_sent brings =
        let first = (run ops (new_stream a base)).1.1 in
        let w =
          run-IsWriting paired ops [] (new_stream a base) (new_stream-IsWriting a base none_sent) in
        let queued = slice first.wbuf first.write_start first.write_end in
        let reading =
          new_stream-IsReading b peer_base (future ++ queued) w.records
            (sym (assoc (unread peer_base) future queued)
              ∙ ap (λ bs. bs ++ queued) (sym brings)
              ∙ w.carried)
            w.short (paired.decrypts w.records first.noise w.history) in
        let (rest, same, after) =
          run-Yields back peer_ops (text_of w.records) (new_stream b peer_base) reading in
        (rest, w.texts ∙ same)
