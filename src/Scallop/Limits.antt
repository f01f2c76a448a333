-- ===== src/Scallop/Limits.antt =====
-- The buffers of the handshakes in sdks/rs/src/scallop.rs, of 1024 bytes, against longer messages.
use oyster_monorepo.Base.{ℕ, ◌<◌, ◌≡◌, refl, Bool, Option, some, List, length, arith}
use oyster_monorepo.Scallop.Library.{Noiser, zeros, length-zeros}
use oyster_monorepo.Scallop.Peer.{
  panicked, HandshakeLibrary, Wire, prologue, check_fits, noise_read,
}
use oyster_monorepo.Scallop.Handshake.{server_hello, read_clientfin, new_server}

module _ {Handshake Noise Base Store Pcrs Auther : Type 0}
    (lib : HandshakeLibrary Handshake Noise Base Store Pcrs Auther) where
  check_fits_panics : (len : ℕ) (buf : List ℕ) → length buf < len → check_fits len buf ≡ panicked
  check_fits_panics len buf h = ground arith

  -- A message that is longer than the buffer it is to be read into.
  noise_read_panics :
      {N : Type 0} (noiser : Noiser N) (w : Wire N Base) (stream : Base) (len : ℕ)
      → lib.read_u16 w.stream ≡ (some len, stream)
      → length w.buf < len
      → noise_read lib noiser w ≡ panicked
  unfolding noise_read
  noise_read_panics noiser w stream len read long = rw (read, check_fits_panics len w.buf long) refl

  -- Where a peer says in its first message that more than 1024 bytes follow, and nothing else is amiss, the
  -- server panics: it does not return an error.
  pub new_server_panics :
      (secret : List ℕ) (auth_store : Option Store) (auther : Option Auther)
      (stream next last : Base) (noise : Handshake) (len : ℕ)
      → lib.build_responder secret prologue ≡ some noise
      → lib.read_u16 stream ≡ (some 0, next)
      → lib.read_u16 next ≡ (some len, last)
      → 1024 < len
      → new_server lib secret auth_store auther stream ≡ panicked
  unfolding new_server server_hello
  new_server_panics secret auth_store auther stream next last noise len built zero_len long_len
        long =
      let w : Wire Handshake Base = record {
        noise = noise;
        stream = next;
        buf = zeros 1024;
        noise_buf = zeros 1024;
      } in
      rw (
        built,
        zero_len,
        noise_read_panics lib.handshake w last len long_len (omega (arith, length-zeros 1024)),
      )

  -- The same of the message that brings the attestation of a client, whatever is in it.
  pub read_clientfin_panics :
      (asked : Bool) (auth_store : Option Store) (key : List ℕ) (w : Wire Noise Base)
      (stream : Base) (len : ℕ)
      → lib.read_u16 w.stream ≡ (some len, stream)
      → length w.buf < len
      → read_clientfin lib asked auth_store key w ≡ panicked
  unfolding read_clientfin
  read_clientfin_panics asked auth_store key w stream len read long =
      rw (noise_read_panics lib.transport w stream len read long)
