-- ===== src/Scallop/Delivery.antt =====
-- `poll_read` of sdks/rs/src/scallop.rs delivers what the peer has written, and nothing else.
use mathlib.Core.Path.{subst}
use oyster_monorepo.Base.{
  ◌==◌, ==_false, ℕ, zero, suc, ◌≤◌, ◌≡◌, refl, sym, ◌∙◌, Bool, true, false, Option, none, some,
  List, ◌∷◌, ◌++◌, arith, if_elim,
}
use oyster_monorepo.Scallop.Library.{Noiser, AsyncBase}
use oyster_monorepo.Scallop.Stream.{
  ReadMode, length_mode, body_mode, read_mode, ScallopStream, Outcome, blocked, base_failed,
  noise_failed, panicked, running, done, fill, deliver, process_in, process, turned, filled,
  read_loop, poll_read,
}
use oyster_monorepo.Scallop.Laws.{IsPipe, Decrypts, frames}
use oyster_monorepo.Scallop.Filling.{Complete, fill-Filled}
use oyster_monorepo.Scallop.Reading.{
  full, IsReading, at_length, at_body, at_read, Delivers, turns_of, Turns, length_turn, body_turn,
  read_turn,
}

module _ {Noise Base : Type 0} (noiser : Noiser Noise) (io : AsyncBase Base)
    (unread sent : Base → List ℕ) where
  -- The inner loop keeps what is still to come, and where it ends with a full buffer no byte is missing.
  Fills : List ℕ → ReadMode → Outcome Bool × ScallopStream Noise Base → Type 0
  Fills text mode (outcome, s) =
      IsReading noiser io unread sent s text × (s.mode ≡ mode) × Complete outcome s.pending_bytes

  fill_empty :
      (fuel : ℕ) (s : ScallopStream Noise Base)
      → s.pending_bytes ≡ 0
      → fill io fuel s ≡ (done true, s)
  unfolding fill
  fill_empty zero s e =
      if_elim (λ r. r ≡ (done true, s)) (s.pending_bytes == 0) (λ h. refl)
        (λ h. absurd (==_false s.pending_bytes 0 h e))
  fill_empty (suc fuel) s e =
      if_elim (λ r. r ≡ (done true, s)) (s.pending_bytes == 0) (λ h. refl)
        (λ h. absurd (==_false s.pending_bytes 0 h e))

  fill-IsReading :
      (laws : IsPipe io unread sent) (text : List ℕ) (s : ScallopStream Noise Base)
      → IsReading noiser io unread sent s text
      → Fills text s.mode (fill io s.pending_bytes s)
  unfolding Fills
  fill-IsReading laws text s (at_length {future} records mode size loading short decrypts same) =
      let f =
        fill-Filled io unread sent future (frames records) laws s.pending_bytes s (omega arith) refl
          refl refl loading in
      (
        at_length records (f.same_mode ∙ mode) (f.same_size ∙ size) f.loading short
            (subst (λ t. Decrypts noiser t records) (sym f.same_noise) decrypts) same,
        f.same_mode,
        f.complete,
      )
  fill-IsReading laws text s
        (at_body {future} message payload records mode size loading short decrypts same) =
      let f =
        fill-Filled io unread sent future (message ++ frames records) laws s.pending_bytes s
          (omega arith) refl refl refl loading in
      (
        at_body message payload records (f.same_mode ∙ mode) (f.same_size ∙ size) f.loading short
            (subst (λ t. Decrypts noiser t ((message, payload) ∷ records)) (sym f.same_noise)
              decrypts)
            same,
        f.same_mode,
        f.complete,
      )
  fill-IsReading laws text s
        (at_read future records mode empty ordered fits e short decrypts same) =
      subst (Fills text s.mode) (sym (fill_empty s.pending_bytes s empty))
        (at_read future records mode empty ordered fits e short decrypts same, refl, empty)

  process-Turns :
      (text : List ℕ) (room : ℕ) (s : ScallopStream Noise Base)
      → IsReading noiser io unread sent s text
      → s.pending_bytes ≡ 0
      → Turns noiser io unread sent (turns_of s.mode) text (process noiser room s)
  unfolding process
  process-Turns text room s (at_length {future} records mode size loading short decrypts same)
        empty =
      subst (λ m. Turns noiser io unread sent (turns_of m) text (process_in m noiser room s))
        (sym mode)
        (subst (λ t. Turns noiser io unread sent 3 t (process_in length_mode noiser room s))
          (sym same)
          (length_turn noiser io unread sent future records room s size
            (full noiser io unread sent future (frames records) s loading empty) short decrypts))
  process-Turns text room s
        (at_body {future} message payload records mode size loading short decrypts same) empty =
      subst (λ m. Turns noiser io unread sent (turns_of m) text (process_in m noiser room s))
        (sym mode)
        (subst (λ t. Turns noiser io unread sent 2 t (process_in body_mode noiser room s))
          (sym same)
          (body_turn noiser io unread sent future message payload records room s size empty
            (full noiser io unread sent future (message ++ frames records) s loading empty) short
            decrypts))
  process-Turns text room s
        (at_read future records mode none_left ordered fits e short decrypts same) empty =
      subst (λ m. Turns noiser io unread sent (turns_of m) text (process_in m noiser room s))
        (sym mode)
        (subst (λ t. Turns noiser io unread sent 1 t (deliver room s)) (sym same)
          (read_turn noiser io unread sent future records room s mode empty ordered fits e short
            decrypts))

  filled-Delivers :
      (next : ScallopStream Noise Base → Outcome (List ℕ) × ScallopStream Noise Base)
      (text : List ℕ) (answer : Outcome Bool × ScallopStream Noise Base)
      → IsReading noiser io unread sent answer.1 text
      → Complete answer.0 answer.1.pending_bytes
      → (answer.1.pending_bytes ≡ 0 → Delivers noiser io unread sent text (next answer.1))
      → Delivers noiser io unread sent text (filled next answer)
  filled-Delivers next text (blocked, s) reading complete after = (text, refl, reading, tt)
  filled-Delivers next text (base_failed, s) reading complete after = (text, refl, reading, tt)
  filled-Delivers next text (noise_failed, s) reading complete after = absurd complete
  filled-Delivers next text (panicked, s) reading complete after = absurd complete
  filled-Delivers next text (running, s) reading complete after = absurd complete
  filled-Delivers next text (done false, s) reading complete after = (text, refl, reading, tt)
  filled-Delivers next text (done true, s) reading complete after = after complete

  turned-Delivers :
      (next : ScallopStream Noise Base → Outcome (List ℕ) × ScallopStream Noise Base) (n : ℕ)
      (text : List ℕ) (answer : Option (Outcome (List ℕ)) × ScallopStream Noise Base)
      → Turns noiser io unread sent n text answer
      → ((t : ScallopStream Noise Base)
          → IsReading noiser io unread sent t text
          → suc (turns_of t.mode) ≤ n
          → Delivers noiser io unread sent text (next t))
      → Delivers noiser io unread sent text (turned next answer)
  turned-Delivers next n text (none, s) (reading, less) after = after s reading less
  turned-Delivers next n text (some outcome, s) delivers after = delivers

  turns_positive : (mode : ReadMode) → 1 ≤ turns_of mode
  turns_positive length_mode = omega arith
  turns_positive body_mode = omega arith
  turns_positive read_mode = omega arith

  turns_bounded : (mode : ReadMode) → turns_of mode ≤ 3
  turns_bounded length_mode = omega arith
  turns_bounded body_mode = omega arith
  turns_bounded read_mode = omega arith

  read_loop-Delivers :
      (laws : IsPipe io unread sent) (fuel room : ℕ) (text : List ℕ) (s : ScallopStream Noise Base)
      → IsReading noiser io unread sent s text
      → turns_of s.mode ≤ fuel
      → Delivers noiser io unread sent text (read_loop noiser io fuel room s)
  unfolding read_loop Fills
  read_loop-Delivers laws zero room text s reading h = absurd (omega (arith, turns_positive s.mode))
  read_loop-Delivers laws (suc fuel) room text s reading h =
      let filling = fill io s.pending_bytes s in
      let (kept, mode, complete) = fill-IsReading laws text s reading in
      let less : turns_of filling.1.mode ≤ suc fuel =
        subst (λ m. turns_of m ≤ suc fuel) (sym mode) h in
      filled-Delivers
        (λ full. turned (λ next. read_loop noiser io fuel room next) (process noiser room full))
        text filling kept complete
        (λ empty.
          turned-Delivers (λ next. read_loop noiser io fuel room next) (turns_of filling.1.mode)
            text (process noiser room filling.1) (process-Turns text room filling.1 kept empty)
            (λ t reads fewer. read_loop-Delivers laws fuel room text t reads (omega arith)))

  -- Where the base is a pipe and brings the rest of the records of a peer: a poll to read delivers the front
  -- of the text that they still carry, the stream is then in such a state for the rest of the text, and the
  -- poll has not failed by the noise protocol, panicked or looped on.
  pub poll_read-Delivers :
      (laws : IsPipe io unread sent) (room : ℕ) (text : List ℕ) (s : ScallopStream Noise Base)
      → IsReading noiser io unread sent s text
      → Delivers noiser io unread sent text (poll_read noiser io room s)
  unfolding poll_read
  poll_read-Delivers laws room text s reading =
      read_loop-Delivers laws 3 room text s reading (turns_bounded s.mode)
