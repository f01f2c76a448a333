-- ===== src/Scallop/Peer.antt =====
-- The steps of the handshakes in sdks/rs/src/scallop.rs: `noise_read`, `noise_write`, and the checks that
-- both sides make. What is not in this repository is in `HandshakeLibrary`: the builder of snow, the
-- methods that tokio adds to a stream, and the implementations of the traits `ScallopAuthStore` and
-- `ScallopAuther`. The arguments of a handshake are its own, so what they hold after an error is left out.
use oyster_monorepo.Base.{
  ℕ, ◌+◌, ◌%◌, String, Bool, true, false, not, Option, none, some, List, [], ◌∷◌, ◌++◌, length,
  take, drop, ltb, ◌==◌, if◌then◌else◌,
}
use oyster_monorepo.Scallop.Library.{Noiser, to_be_bytes, zeros, overwrite}

pub data ScallopError : Type 0 where
  init_failed transport_error noise_error : ScallopError
  protocol_error : String → ScallopError

pub data Result (A : Type 0) : Type 0 where
  failed : ScallopError → Result A
  panicked : Result A
  ok : A → Result A

infixl 5 ◌>>=◌ ◌>>◌
abbrev pub ◌>>=◌ : {X Y : Type 0} → Result X → (X → Result Y) → Result Y
failed error >>= next = failed error
panicked >>= next = panicked
ok x >>= next = next x

abbrev pub ◌>>◌ : {X Y : Type 0} → Result X → Result Y → Result Y
first >> second = first >>= λ _. second

abbrev pub or_error : {A : Type 0} → ScallopError → Option A → Result A
or_error error none = failed error
or_error error (some a) = ok a

-- `unwrap`, and an index into an array.
abbrev pub or_panic : {A : Type 0} → Option A → Result A
or_panic none = panicked
or_panic (some a) = ok a

-- An `if` that returns an error where the condition is met.
abbrev pub reject_if : Bool → String → Result (Unit {0})
reject_if true text = failed (protocol_error text)
reject_if false text = ok tt

pub record HandshakeLibrary (Handshake Noise Base Store Pcrs Auther : Type 0) : Type 0 where
  pub handshake : Noiser Handshake
  pub transport : Noiser Noise
  -- The builder with the protocol's name, the private key and the prologue.
  pub build_initiator : List ℕ → List ℕ → Option Handshake
  pub build_responder : List ℕ → List ℕ → Option Handshake
  pub get_remote_static : Handshake → Option (List ℕ)
  pub into_transport_mode : Handshake → Option Noise
  -- `AsyncReadExt` and `AsyncWriteExt`
  pub read_u16 : Base → Option ℕ × Base
  pub read_exact : Base → ℕ → Option (List ℕ) × Base
  pub write_all : Base → List ℕ → Option (Unit {0}) × Base
  pub flush : Base → Option (Unit {0}) × Base
  pub contains : Store → List ℕ → Bool
  pub verify : Store → List ℕ → List ℕ → Option Pcrs × Store
  pub set : Store → List ℕ → Pcrs → Store
  pub new_auth : Auther → List ℕ

-- A state of the noise protocol, the base stream, and the two buffers.
pub record Wire (N Base : Type 0) : Type 0 where
  pub noise : N
  pub stream : Base
  pub buf : List ℕ
  pub noise_buf : List ℕ

-- `b"NoiseSocketInit1\x00\x00"`
abbrev pub prologue : List ℕ
prologue =
    0x4e ∷ 0x6f ∷ 0x69 ∷ 0x73 ∷ 0x65 ∷ 0x53 ∷ 0x6f ∷ 0x63 ∷ 0x6b ∷ 0x65 ∷ 0x74 ∷ 0x49 ∷ 0x6e ∷ 0x69
    ∷ 0x74 ∷ 0x31 ∷ 0 ∷ 0 ∷ []

-- `if len > src.len()` of the slice `src[0..len]`.
abbrev pub check_fits : ℕ → List ℕ → Result (Unit {0})
check_fits len src = if ltb (length src) len then panicked else ok tt

module _ {Handshake Noise Base Store Pcrs Auther : Type 0}
    (lib : HandshakeLibrary Handshake Noise Base Store Pcrs Auther) where
  -- From the stream into `buf`, and from there into `noise_buf`.
  unfoldable pub noise_read : {N : Type 0} → Noiser N → Wire N Base → Result (ℕ × Wire N Base)
  noise_read noiser w =
      let (read_len, stream) = lib.read_u16 w.stream in
      or_error transport_error read_len >>= λ len.
      check_fits len w.buf
      >> (let (read, stream) = lib.read_exact stream len in
          or_error transport_error read >>= λ bytes.
          let buf = overwrite w.buf 0 bytes in
          let (message_len, (noise_buf, noise)) =
            noiser.read_message w.noise (take len buf) w.noise_buf in
          or_error noise_error message_len >>= λ payload_len. ok (
            payload_len,
            record { noise = noise; stream = stream; buf = buf; noise_buf = noise_buf },
          ))

  -- The message of `src` goes to `buf`, behind its length and `dst_offset` bytes that are there already.
  unfoldable pub noise_write :
      {N : Type 0} → Noiser N → Wire N Base → List ℕ → ℕ → Result (Wire N Base)
  noise_write noiser w src dst_offset =
      let (message_len, (tail, noise)) =
        noiser.write_message w.noise src (drop (dst_offset + 2) w.buf) in
      or_error transport_error message_len >>= λ len.
      let buf =
        overwrite (take (dst_offset + 2) w.buf ++ tail) dst_offset (to_be_bytes (len % 65536)) in
      let (written, stream) = lib.write_all w.stream (take (dst_offset + len + 2) buf) in
      or_error transport_error written
      >> (let (flushed, stream) = lib.flush stream in
          or_error transport_error flushed
          >> ok (record w { noise = noise; stream = stream; buf = buf }))

  -- The 32 bytes of the key of the other side; it is an error of the program that there are none.
  abbrev pub remote_key : Handshake → Result (List ℕ)
  remote_key noise = or_panic (lib.get_remote_static noise) >>= λ key.
      if length key == 32 then ok key else panicked

  -- There is a store, and the key is not in it.
  abbrev pub should_ask : Option Store → List ℕ → Bool
  should_ask none key = false
  should_ask (some store) key = not (lib.contains store key)

  -- The attestation is verified for the key, which is then put into the store.
  abbrev pub verify_and_set : Option Store → List ℕ → List ℕ → Result (Option Store)
  verify_and_set none attestation key = panicked
  verify_and_set (some store) attestation key =
      let (pcrs, store) = lib.verify store attestation key in
      or_error (protocol_error "invalid attestation") pcrs >>= λ found.
      ok (some (lib.set store key found))

  -- The answer to a request for an attestation: it is at most 60000 bytes long.
  abbrev pub auth_payload : Option Auther → Result (List ℕ)
  auth_payload none = panicked
  auth_payload (some auther) =
      let payload = lib.new_auth auther in
      reject_if (ltb 60000 (length payload)) "auth payload too big" >> ok payload

  abbrev pub is_none : Option Auther → Bool
  is_none none = true
  is_none (some auther) = false

  -- The boxed buffers of 65000 bytes in place of those of 1024.
  abbrev pub with_large_buffers : {N : Type 0} → Wire N Base → Wire N Base
  with_large_buffers w = record w { buf = zeros 65000; noise_buf = zeros 65000 }
