-- ===== src/Scallop/Laws.antt =====
-- What sdks/rs/src/scallop.rs relies on in the base stream and in the noise protocol.
use oyster_monorepo.Base.{
  sym, ap, ◌∙◌, All, ℕ, ◌≤◌, ◌<◌, ◌≡◌, Option, none, some, List, [], ◌∷◌, ◌++◌, length, take,
}
use oyster_monorepo.Base.Slices.{append-nil, assoc, concat}
use oyster_monorepo.Scallop.Library.{Poll, pending, failed, ready, Noiser, AsyncBase, to_be_bytes}
use oyster_monorepo.Base.{map}

abbrev pub chunk_of : {Base : Type 0} → Poll (List ℕ) × Base → List ℕ
chunk_of (pending, base) = []
chunk_of (failed, base) = []
chunk_of (ready chunk, base) = chunk

abbrev pub taken_of : {Base : Type 0} → Poll ℕ × Base → ℕ
taken_of (pending, base) = 0
taken_of (failed, base) = 0
taken_of (ready size, base) = size

-- A base is a pipe each way: `unread` is what is still to come from it, and `sent` what it has been given.
pub record IsPipe {Base : Type 0} (io : AsyncBase Base) (unread sent : Base → List ℕ) : Type 0 where
  pub read_takes :
      (b : Base) (room : ℕ)
      → chunk_of (io.poll_read b room) ++ unread ((io.poll_read b room).1) ≡ unread b
  pub read_fits : (b : Base) (room : ℕ) → length (chunk_of (io.poll_read b room)) ≤ room
  pub read_sends : (b : Base) (room : ℕ) → sent ((io.poll_read b room).1) ≡ sent b
  pub write_sends :
      (b : Base) (bytes : List ℕ)
      → sent ((io.poll_write b bytes).1) ≡ sent b ++ take (taken_of (io.poll_write b bytes)) bytes
  pub write_fits : (b : Base) (bytes : List ℕ) → taken_of (io.poll_write b bytes) ≤ length bytes
  pub write_keeps : (b : Base) (bytes : List ℕ) → unread ((io.poll_write b bytes).1) ≡ unread b
  pub flush_sends : (b : Base) → sent ((io.poll_flush b).1) ≡ sent b
  pub flush_keeps : (b : Base) → unread ((io.poll_flush b).1) ≡ unread b

module _ {Noise : Type 0} (noiser : Noiser Noise) where
  -- The message written lies in the buffer.
  abbrev pub Fits : ℕ → Option ℕ × (List ℕ × Noise) → Type 0
  Fits capacity (none, (buffer, noise)) = Unit {0}
  Fits capacity (some len, (buffer, noise)) = (len ≤ capacity) × (length buffer ≡ capacity)

  -- The state reads the messages, each with the payload beside it, one after the other.
  abbrev pub Decrypts : Noise → List (List ℕ × List ℕ) → Type 0
  Decrypts noise [] = Unit {0}
  Decrypts noise ((message, payload) ∷ rest) =
      (buffer : List ℕ)
      → length message ≤ length buffer
      → (written : List ℕ) × (next : Noise) × (noiser.read_message noise message buffer
          ≡ (some (length payload), (written, next)))
        × (take (length payload) written ≡ payload)
        × Decrypts next rest

  -- The first state has come to the second, and has written the messages with the payloads beside them.
  pub data Wrote (start : Noise) : List (List ℕ × List ℕ) → Noise → Type 0 where
    here : Wrote start [] start
    wrote :
        {sofar : List (List ℕ × List ℕ)} {noise next : Noise} {payload buffer written : List ℕ}
        {len : ℕ}
        → Wrote start sofar noise
        → noiser.write_message noise payload buffer ≡ (some len, (written, next))
        → Wrote start (sofar ++ (take len written, payload) ∷ []) next
    refused :
        {sofar : List (List ℕ × List ℕ)} {noise next : Noise} {payload buffer written : List ℕ}
        → Wrote start sofar noise
        → noiser.write_message noise payload buffer ≡ (none, (written, next))
        → Wrote start sofar next
    read :
        {sofar : List (List ℕ × List ℕ)} {noise : Noise} {message buffer : List ℕ}
        → Wrote start sofar noise
        → Wrote start sofar ((noiser.read_message noise message buffer).1.1)

  -- What one of the states writes the other one reads, whatever is written and read in between.
  pub record IsPaired (a b : Noise) : Type 0 where
    pub write_fits :
        (noise : Noise) (payload buffer : List ℕ)
        → Fits (length buffer) (noiser.write_message noise payload buffer)
    pub decrypts :
        (sofar : List (List ℕ × List ℕ)) (noise : Noise) → Wrote a sofar noise → Decrypts b sofar
    pub write_keeps :
        (noise : Noise) (rest : List (List ℕ × List ℕ)) (payload buffer : List ℕ)
        → Decrypts noise rest
        → Decrypts ((noiser.write_message noise payload buffer).1.1) rest

-- A record on the wire: the length of the message and the message.
abbrev pub frame : List ℕ × List ℕ → List ℕ
frame (message, payload) = to_be_bytes (length message) ++ message

abbrev pub frames : List (List ℕ × List ℕ) → List ℕ
frames records = concat (map frame records)

abbrev pub payload_of : List ℕ × List ℕ → List ℕ
payload_of (message, payload) = payload

-- The bytes that the records carry.
abbrev pub text_of : List (List ℕ × List ℕ) → List ℕ
text_of records = concat (map payload_of records)

-- The messages are so short that their lengths fit into two bytes.
abbrev pub IsShort : List ℕ × List ℕ → Type 0
IsShort (message, payload) = length message < 65536

pub frames-append :
    (records : List (List ℕ × List ℕ)) (last : List ℕ × List ℕ)
    → frames (records ++ last ∷ []) ≡ frames records ++ frame last
frames-append [] last = append-nil (frame last)
frames-append (r ∷ records) last =
    ap (λ bs. frame r ++ bs) (frames-append records last)
    ∙ sym (assoc (frame r) (frames records) (frame last))

pub text_of-append :
    (records : List (List ℕ × List ℕ)) (last : List ℕ × List ℕ)
    → text_of (records ++ last ∷ []) ≡ text_of records ++ payload_of last
text_of-append [] last = append-nil (payload_of last)
text_of-append (r ∷ records) last =
    ap (λ bs. payload_of r ++ bs) (text_of-append records last)
    ∙ sym (assoc (payload_of r) (text_of records) (payload_of last))

pub All-append :
    (P : List ℕ × List ℕ → Type 0) (records : List (List ℕ × List ℕ)) (last : List ℕ × List ℕ)
    → All P records
    → P last
    → All P (records ++ last ∷ [])
All-append P [] last all holds = (holds, tt)
All-append P (r ∷ records) last (first, all) holds = (first, All-append P records last all holds)
