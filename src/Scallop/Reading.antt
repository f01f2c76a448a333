-- ===== src/Scallop/Reading.antt =====
-- `poll_read` of sdks/rs/src/scallop.rs: the state of a stream whose base brings the records of a peer.
use mathlib.Core.Path.{subst}
use oyster_monorepo.Base.{
  ℕ, suc, ◌+◌, ◌-◌, ◌≤◌, ◌<◌, ◌≡◌, refl, sym, ap, ◌∙◌, Option, none, some, List, [], ◌∷◌, ◌++◌,
  length, take, drop, length-append, arith, All, ltb, ◌||◌, if_elim,
}
use oyster_monorepo.Base.Slices.{
  slice, assoc, take_all, length-take_bound, take-append_at, drop-append_at, slice-split,
}
use oyster_monorepo.Scallop.Library.{
  Noiser, AsyncBase, to_be_bytes, from_be_bytes, from_be_bytes-to_be_bytes, zeros, length-zeros,
}
use oyster_monorepo.Scallop.Stream.{
  ReadMode, length_mode, body_mode, read_mode, ScallopStream, Outcome, blocked, base_failed,
  noise_failed, panicked, running, done, body_read, length_read, deliver, process_in,
}
use oyster_monorepo.Scallop.Laws.{Decrypts, frames, text_of, IsShort}
use oyster_monorepo.Scallop.Filling.{Loading}

-- Two bytes that are the start of a frame hold the length of its message.
length-parsed :
    (rbuf rest body : List ℕ) (n : ℕ)
    → length rbuf ≡ 2
    → n < 65536
    → rbuf ++ rest ≡ to_be_bytes n ++ body
    → (from_be_bytes rbuf ≡ some n) × (rest ≡ body)
length-parsed [] rest body n h small e = absurd (omega arith)
length-parsed (a ∷ []) rest body n h small e = absurd (omega arith)
length-parsed (a ∷ b ∷ []) rest body n h small e =
    (ap from_be_bytes e ∙ from_be_bytes-to_be_bytes n body small, ap (λ bs. drop 2 bs) e)
length-parsed (a ∷ b ∷ c ∷ cs) rest body n h small e = absurd (omega arith)

-- Two lists put together are those of the other side where the first ones are as long.
parted :
    (xs ys zs ws : List ℕ) → length xs ≡ length zs → xs ++ ys ≡ zs ++ ws → (xs ≡ zs) × (ys ≡ ws)
parted xs ys zs ws h e = (
  sym (take-append_at (length xs) xs ys refl)
      ∙ ap (λ bs. take (length xs) bs) e
      ∙ take-append_at (length xs) zs ws (sym h),
  sym (drop-append_at (length xs) xs ys refl)
      ∙ ap (λ bs. drop (length xs) bs) e
      ∙ drop-append_at (length xs) zs ws (sym h),
)

-- What an outcome delivers.
abbrev pub delivered : Outcome (List ℕ) → List ℕ
delivered blocked = []
delivered base_failed = []
delivered noise_failed = []
delivered panicked = []
delivered running = []
delivered (done bytes) = bytes

abbrev pub IsSound : Outcome (List ℕ) → Type 0
IsSound blocked = Unit {0}
IsSound base_failed = Unit {0}
IsSound noise_failed = ⊥
IsSound panicked = ⊥
IsSound running = ⊥
IsSound (done bytes) = Unit {0}

-- The turns that are left at most in a mode.
abbrev pub turns_of : ReadMode → ℕ
turns_of length_mode = 3
turns_of body_mode = 2
turns_of read_mode = 1

module _ {Noise Base : Type 0} (noiser : Noiser Noise) (io : AsyncBase Base)
    (unread sent : Base → List ℕ) where
  -- The bytes `text` are those that the stream will still deliver, where the base brings it the rest of
  -- the records that its peer has made: on reading a length, a message, or out of a message.
  pub data IsReading (s : ScallopStream Noise Base) (text : List ℕ) : Type 0 where
    at_length :
        {future : List ℕ} (records : List (List ℕ × List ℕ))
        → s.mode ≡ length_mode
        → length s.rbuf ≡ 2
        → Loading io unread sent future (frames records) s
        → All IsShort records
        → Decrypts noiser s.noise records
        → text ≡ text_of records
        → IsReading s text
    at_body :
        {future : List ℕ} (message payload : List ℕ) (records : List (List ℕ × List ℕ))
        → s.mode ≡ body_mode
        → length s.rbuf ≡ length message
        → Loading io unread sent future (message ++ frames records) s
        → All IsShort records
        → Decrypts noiser s.noise ((message, payload) ∷ records)
        → text ≡ payload ++ text_of records
        → IsReading s text
    at_read :
        (future : List ℕ) (records : List (List ℕ × List ℕ))
        → s.mode ≡ read_mode
        → s.pending_bytes ≡ 0
        → s.read_start ≤ s.read_end
        → s.read_end ≤ length s.rbuf
        → unread s.stream ++ future ≡ frames records
        → All IsShort records
        → Decrypts noiser s.noise records
        → text ≡ slice s.rbuf s.read_start s.read_end ++ text_of records
        → IsReading s text

  -- What was delivered is the front of the text, and the rest of the text is still to come.
  abbrev pub Delivers : List ℕ → Outcome (List ℕ) × ScallopStream Noise Base → Type 0
  Delivers text (outcome, s) =
      (rest : List ℕ) × (text ≡ delivered outcome ++ rest) × IsReading s rest × IsSound outcome

  abbrev pub Turns : ℕ → List ℕ → Option (Outcome (List ℕ)) × ScallopStream Noise Base → Type 0
  Turns n text (none, s) = IsReading s text × (suc (turns_of s.mode) ≤ n)
  Turns n text (some outcome, s) = Delivers text (outcome, s)

  -- A buffer that is full is what it was filled with.
  pub full :
      (future all : List ℕ) (s : ScallopStream Noise Base)
      → Loading io unread sent future all s
      → s.pending_bytes ≡ 0
      → s.rbuf ++ (unread s.stream ++ future) ≡ all
  full future all s loading e =
      sym (
        ap (λ bs. bs ++ (unread s.stream ++ future))
          (take_all (length s.rbuf - s.pending_bytes) s.rbuf (omega arith)))
      ∙ loading.loaded

  pub length_turn :
      (future : List ℕ) (records : List (List ℕ × List ℕ)) (room : ℕ) (s : ScallopStream Noise Base)
      → length s.rbuf ≡ 2
      → s.rbuf ++ (unread s.stream ++ future) ≡ frames records
      → All IsShort records
      → Decrypts noiser s.noise records
      → Turns 3 (text_of records) (process_in length_mode noiser room s)
  length_turn future [] room s size e short decrypts =
      absurd
        (omega (arith, ap (λ bs. length bs) e, length-append s.rbuf (unread s.stream ++ future)))
  length_turn future ((message, payload) ∷ records) room s size e (small, short) decrypts =
      let n = length message in
      let regrouped = e ∙ assoc (to_be_bytes n) message (frames records) in
      let drained : length (zeros n) - n ≡ 0 = omega (arith, length-zeros n) in
      let (parsed, rest) =
        length-parsed s.rbuf (unread s.stream ++ future) (message ++ frames records) n size small
          regrouped in
      subst (λ answer. Turns 3 (payload ++ text_of records) (length_read s answer)) (sym parsed)
        (
          at_body message payload records refl (length-zeros n)
              record {
                bounded = omega (arith, length-zeros n);
                loaded = ap (λ k. take k (zeros n) ++ (unread s.stream ++ future)) drained ∙ rest;
              }
              short decrypts refl,
          omega arith,
        )

  pub body_turn :
      (future : List ℕ) (message payload : List ℕ) (records : List (List ℕ × List ℕ)) (room : ℕ)
      (s : ScallopStream Noise Base)
      → length s.rbuf ≡ length message
      → s.pending_bytes ≡ 0
      → s.rbuf ++ (unread s.stream ++ future) ≡ message ++ frames records
      → All IsShort records
      → Decrypts noiser s.noise ((message, payload) ∷ records)
      → Turns 2 (payload ++ text_of records) (process_in body_mode noiser room s)
  body_turn future message payload records room s size empty e short decrypts =
      let (same, rest) =
        parted s.rbuf (unread s.stream ++ future) message (frames records) size e in
      let (written, next, reads, text, keeps) = decrypts s.rbuf (omega arith) in
      let zeroed : length payload - 0 ≡ length payload = omega arith in
      let read : noiser.read_message s.noise s.rbuf s.rbuf
          ≡ (some (length payload), (written, next)) =
        ap (λ m. noiser.read_message s.noise m s.rbuf) same ∙ reads in
      subst (λ answer. Turns 2 (payload ++ text_of records) (body_read s answer)) (sym read)
        (
          at_read future records refl empty (omega arith)
              (omega (arith, ap length text, length-take_bound (length payload) written)) rest short
              keeps
              (ap (λ bs. bs ++ text_of records) (sym (ap (λ k. take k written) zeroed ∙ text))),
          omega arith,
        )

  pub read_turn :
      (future : List ℕ) (records : List (List ℕ × List ℕ)) (room : ℕ) (s : ScallopStream Noise Base)
      → s.mode ≡ read_mode
      → s.pending_bytes ≡ 0
      → s.read_start ≤ s.read_end
      → s.read_end ≤ length s.rbuf
      → unread s.stream ++ future ≡ frames records
      → All IsShort records
      → Decrypts noiser s.noise records
      → Turns 1 (slice s.rbuf s.read_start s.read_end ++ text_of records) (deliver room s)
  read_turn future records room s mode empty ordered fits e short decrypts =
      let text = slice s.rbuf s.read_start s.read_end ++ text_of records in
      if_elim (Turns 1 text) (ltb (length s.rbuf) s.read_end || ltb s.read_end s.read_start)
        (λ h. absurd (ground arith))
        (λ h.
          if_elim (Turns 1 text) (ltb room (s.read_end - s.read_start))
            (λ less. (
              slice s.rbuf (s.read_start + room) s.read_end ++ text_of records,
              ap (λ bs. bs ++ text_of records)
                    (slice-split s.read_start room s.read_end s.rbuf (ground arith))
                  ∙ assoc (slice s.rbuf s.read_start (s.read_start + room))
                      (slice s.rbuf (s.read_start + room) s.read_end) (text_of records),
              at_read future records mode empty (ground arith) fits e short decrypts refl,
              tt,
            ))
            (λ all. (
              text_of records,
              refl,
              at_length records refl refl record { bounded = omega arith; loaded = e } short
                  decrypts refl,
              tt,
            )))
