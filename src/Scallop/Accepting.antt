-- ===== src/Scallop/Accepting.antt =====
-- `poll_write` of sdks/rs/src/scallop.rs queues the bytes that it accepts behind those before them.
use mathlib.Core.Path.{subst}
use oyster_monorepo.Base.{
  ℕ, suc, ◌+◌, ◌-◌, ◌%◌, ◌≤◌, ◌<◌, ◌≡◌, refl, sym, ap, ◌∙◌, Option, none, some, List, [], ◌∷◌, ◌++◌,
  length, take, arith,
}
use oyster_monorepo.Base.Slices.{slice, append-nil, slice_empty, length-take}
use oyster_monorepo.Scallop.Library.{Noiser, AsyncBase, to_be_bytes, zeros, length-zeros}
use oyster_monorepo.Scallop.Stream.{
  ScallopStream, Outcome, blocked, base_failed, noise_failed, panicked, running, done,
}
use oyster_monorepo.Scallop.Write.{poll_flush, written, queue, when_flushed, poll_write}
use oyster_monorepo.Scallop.Laws.{
  IsPipe, IsPaired, Fits, Wrote, wrote, refused, frames, frames-append, text_of-append, All-append,
  IsShort,
}
use Prim.Native.Nat.{min}
use oyster_monorepo.Scallop.Writing.{IsWriting, Flushes, poll_flush-Flushes}

module _ {Noise Base : Type 0} (noiser : Noiser Noise) (io : AsyncBase Base)
    (unread sent : Base → List ℕ) (start : Noise) where
  -- What a write has taken is behind the bytes accepted before; where it has not succeeded, nothing is.
  abbrev pub Accepts : List ℕ → List ℕ → Outcome ℕ × ScallopStream Noise Base → Type 0
  Accepts buf text (blocked, s) = IsWriting noiser io unread sent start text s
  Accepts buf text (base_failed, s) = IsWriting noiser io unread sent start text s
  Accepts buf text (noise_failed, s) = IsWriting noiser io unread sent start text s
  Accepts buf text (panicked, s) = ⊥
  Accepts buf text (running, s) = IsWriting noiser io unread sent start text s
  Accepts buf text (done n, s) =
      (n ≤ length buf) × IsWriting noiser io unread sent start (text ++ take n buf) s

  -- One more record in the queue.
  queued-IsWriting :
      (text payload new_buf : List ℕ) (noise : Noise) (s : ScallopStream Noise Base) (noise_len : ℕ)
      → noise_len < 65536
      → noise_len ≤ length new_buf
      → s.write_start ≡ s.write_end
      → ((records : List (List ℕ × List ℕ))
          → Wrote noiser start records s.noise
          → Wrote noiser start (records ++ (take noise_len new_buf, payload) ∷ []) noise)
      → IsWriting noiser io unread sent start text s
      → IsWriting noiser io unread sent start (text ++ payload) (record s {
        noise = noise;
        wbuf = to_be_bytes (noise_len % 65536) ++ new_buf;
        write_start = 0;
        write_end = noise_len + 2;
      })
  queued-IsWriting text payload new_buf noise s noise_len small fits empty more w =
      let message = take noise_len new_buf in
      let size : length message ≡ noise_len = length-take noise_len new_buf fits in
      let wrap : noise_len % 65536 ≡ length message = omega arith in
      let start_at : noise_len + 2 - 0 ≡ suc (suc noise_len) = omega arith in
      let wbuf = to_be_bytes (noise_len % 65536) ++ new_buf in
      record {
        records = w.records ++ (message, payload) ∷ [];
        history = more w.records w.history;
        carried =
            ap (λ bs. bs ++ slice wbuf 0 (noise_len + 2))
              (sym (append-nil (sent s.stream))
                ∙ ap (λ bs. sent s.stream ++ bs)
                    (sym (slice_empty s.write_start s.write_end s.wbuf empty))
                ∙ w.carried)
            ∙ ap (λ bs. frames w.records ++ bs)
                (ap (λ m. take m wbuf) start_at ∙ ap (λ m. to_be_bytes m ++ message) wrap)
            ∙ sym (frames-append w.records (message, payload));
        ordered = omega arith;
        fits = omega arith;
        short = All-append IsShort w.records (message, payload) w.short (omega arith);
        texts =
            ap (λ bs. bs ++ payload) w.texts ∙ sym (text_of-append w.records (message, payload));
      }

  written-Accepts :
      (text buf new_buf : List ℕ) (s : ScallopStream Noise Base)
      (answer : Option ℕ × (List ℕ × Noise)) (len : ℕ)
      → len ≤ 64000
      → len ≤ length buf
      → noiser.write_message s.noise (take len buf) new_buf ≡ answer
      → Fits noiser (len + 998) answer
      → s.write_start ≡ s.write_end
      → IsWriting noiser io unread sent start text s
      → Accepts buf text (written len s answer)
  written-Accepts text buf new_buf s (none, (buffer, noise)) len small h e fits empty w = record {
    records = w.records;
    history = refused w.history e;
    carried = w.carried;
    ordered = w.ordered;
    fits = w.fits;
    short = w.short;
    texts = w.texts;
  }
  written-Accepts text buf new_buf s (some noise_len, (buffer, noise)) len small h e (fits, size)
        empty w =
      (
        h,
        queued-IsWriting text (take len buf) buffer noise s noise_len (omega arith) (omega arith)
            empty (λ records history. wrote history e) w,
      )

  queue-Accepts :
      {peer : Noise} (paired : IsPaired noiser start peer) (buf text : List ℕ)
      (s : ScallopStream Noise Base)
      → s.write_start ≡ s.write_end
      → IsWriting noiser io unread sent start text s
      → Accepts buf text (queue noiser buf s)
  unfolding queue
  queue-Accepts paired buf text s empty w =
      let len = min (length buf) 64000 in
      let new_buf = zeros (len + 998) in
      let fits = paired.write_fits s.noise (take len buf) new_buf in
      written-Accepts text buf new_buf s (noiser.write_message s.noise (take len buf) new_buf) len
        (omega arith) (omega arith) refl
        (subst (λ n. Fits noiser n (noiser.write_message s.noise (take len buf) new_buf))
          (length-zeros (len + 998)) fits)
        empty w

  flushed-Accepts :
      (next : ScallopStream Noise Base → Outcome ℕ × ScallopStream Noise Base) (buf text : List ℕ)
      (answer : Outcome (Unit {0}) × ScallopStream Noise Base)
      → Flushes noiser io unread sent start text answer
      → ((t : ScallopStream Noise Base)
          → t.write_start ≡ t.write_end
          → IsWriting noiser io unread sent start text t
          → Accepts buf text (next t))
      → Accepts buf text (when_flushed next answer)
  flushed-Accepts next buf text (blocked, s) (w, empty) after = w
  flushed-Accepts next buf text (base_failed, s) (w, empty) after = w
  flushed-Accepts next buf text (noise_failed, s) (w, empty) after = w
  flushed-Accepts next buf text (panicked, s) (w, empty) after = empty
  flushed-Accepts next buf text (running, s) (w, empty) after = w
  flushed-Accepts next buf text (done u, s) (w, empty) after = after s empty w

  -- Where the base is a pipe, and the records sent and queued carry the text accepted before: after a poll to
  -- write they carry that text and behind it the bytes that the poll says it has taken, which are the front
  -- of the buffer, or that text alone where it has not succeeded; the poll does not panic.
  pub poll_write-Accepts :
      {peer : Noise} (laws : IsPipe io unread sent) (paired : IsPaired noiser start peer)
      (buf text : List ℕ) (s : ScallopStream Noise Base)
      → IsWriting noiser io unread sent start text s
      → Accepts buf text (poll_write noiser io buf s)
  unfolding poll_write
  poll_write-Accepts laws paired buf text s w =
      flushed-Accepts (λ flushed. queue noiser buf flushed) buf text (poll_flush io s)
        (poll_flush-Flushes noiser io unread sent start laws text s w)
        (λ t empty kept. queue-Accepts paired buf text t empty kept)
