-- ===== src/Scallop/Handshake.antt =====
-- `new_client_async_Noise_IX_25519_ChaChaPoly_BLAKE2b` and `new_server_async_Noise_IX_25519_ChaChaPoly_BLAKE2b`
-- of sdks/rs/src/scallop.rs. They return the store beside the stream.
use oyster_monorepo.Base.{
  ℕ, ◌+◌, ◌%◌, ◌-◌, Bool, true, false, not, ◌&&◌, ◌||◌, Option, List, [], ◌∷◌, length, take, drop,
  get_elem?, ltb, ◌==◌,
}
use oyster_monorepo.Base.Slices.{slice}
use oyster_monorepo.Scallop.Library.{to_be_bytes, from_be_bytes, zeros, overwrite}
use oyster_monorepo.Scallop.Stream.{ScallopStream, new_stream}
use oyster_monorepo.Scallop.Peer.{
  Result, ok, ◌>>=◌, ◌>>◌, or_error, or_panic, reject_if, init_failed, transport_error, noise_error,
  HandshakeLibrary, Wire, prologue, noise_read, noise_write, remote_key, should_ask, verify_and_set,
  auth_payload, is_none, with_large_buffers,
}

-- The size in two bytes, against the length of what is behind them.
abbrev pub has_size : List ℕ → ℕ → Result Bool
has_size bytes len = or_panic (from_be_bytes bytes) >>= λ size. ok (size == len)

abbrev pub flag : Bool → ℕ
flag false = 0
flag true = 1

module _ {Handshake Noise Base Store Pcrs Auther : Type 0}
    (lib : HandshakeLibrary Handshake Noise Base Store Pcrs Auther) where
  abbrev pub start : Option Handshake → Base → Result (Wire Handshake Base)
  start built stream = do
    noise ← or_error init_failed built
    ok (record { noise = noise; stream = stream; buf = zeros 1024; noise_buf = zeros 1024 })

  -- The negotiation length, which is zero.
  abbrev pub negotiate : Base → Result (ℕ × Base)
  negotiate stream =
      let (len, stream) = lib.read_u16 stream in
      or_error transport_error len >>= λ n. ok (n, stream)

  abbrev pub into_transport : Wire Handshake Base → Result (Wire Noise Base)
  into_transport w = do
    noise ← or_error noise_error (lib.into_transport_mode w.noise)
    ok (record { noise = noise; stream = w.stream; buf = w.buf; noise_buf = w.noise_buf })

  -- The client up to the end of the messages of the handshake: what is answered is whether it is asked for
  -- an attestation.
  unfoldable pub client_hello : List ℕ → Option Auther → Base → Result (Bool × Wire Handshake Base)
  client_hello secret auther stream = do
    w ← start (lib.build_initiator secret prologue) stream
    w ← noise_write lib lib.handshake w [] 2
    (len, stream) ← negotiate w.stream
    reject_if (not (len == 0)) "non zero second negotiation length"
    (len, w) ← noise_read lib lib.handshake (record w { stream = stream })
    first ← or_panic (get_elem? w.noise_buf 0)
    second ← or_panic (get_elem? w.noise_buf 1)
    reject_if (not (len == 3) || (not (first == 0) || not (second == 1)))
        "invalid second payload length"
    request ← or_panic (get_elem? w.noise_buf 2)
    reject_if (ltb 1 request) "invalid auth request in second payload"
    reject_if ((request == 1) && is_none lib auther) "auth requested but no auther available"
    ok (request == 1, w)

  unfoldable pub send_clientfin : Wire Noise Base → List ℕ → Bool → Result (Wire Noise Base)
  send_clientfin w payload should_ask_auth =
      let asked = overwrite w.noise_buf 0 (flag should_ask_auth ∷ []) in
      let sized = overwrite asked 1 (to_be_bytes (length payload % 65536)) in
      let noise_buf = overwrite sized 3 payload in
      noise_write lib lib.transport (record w { noise_buf = noise_buf })
        (take (length payload + 3) noise_buf) 0

  abbrev pub answer_server :
      Bool → Option Auther → Wire Noise Base → Bool → Result (Wire Noise Base)
  answer_server true auther w should_ask_auth = do
    payload ← auth_payload lib auther
    send_clientfin (with_large_buffers lib w) payload should_ask_auth
  answer_server false auther w should_ask_auth = send_clientfin w [] should_ask_auth

  -- The client's side of SERVERFIN, where it has asked for an attestation.
  unfoldable pub read_serverfin :
      Bool → Option Store → List ℕ → Wire Noise Base → Result (Option Store × Wire Noise Base)
  read_serverfin false auth_store remote_static w = ok (auth_store, w)
  read_serverfin true auth_store remote_static w = do
    (len, w) ← noise_read lib lib.transport (with_large_buffers lib w)
    reject_if (ltb len 2) "invalid SERVERFIN length"
    sized ← has_size w.noise_buf (len - 2)
    reject_if (not sized) "invalid SERVERFIN payload length"
    auth_store ← verify_and_set lib auth_store (slice w.noise_buf 2 len) remote_static
    ok (auth_store, w)

  unfoldable pub new_client :
      List ℕ
      → Option Store
      → Option Auther
      → Base
      → Result (Option Store × ScallopStream Noise Base)
  new_client secret auth_store auther stream = do
    (should_send_auth, w) ← client_hello secret auther stream
    remote_static ← remote_key lib w.noise
    w ← into_transport w
    w ← answer_server should_send_auth auther w (should_ask lib auth_store remote_static)
    (auth_store, w) ←
        read_serverfin (should_ask lib auth_store remote_static) auth_store remote_static w
    ok (auth_store, new_stream w.noise w.stream)

  -- The server up to the end of the client's first message.
  unfoldable pub server_hello : List ℕ → Base → Result (Wire Handshake Base)
  server_hello secret stream = do
    w ← start (lib.build_responder secret prologue) stream
    (len, stream) ← negotiate w.stream
    reject_if (not (len == 0)) "non zero first negotiation length"
    (len, w) ← noise_read lib lib.handshake (record w { stream = stream })
    reject_if (not (len == 0)) "non zero first handshake payload"
    ok w

  -- The server's answer, which asks for an attestation or not.
  unfoldable pub answer_client : Wire Handshake Base → Bool → Result (Wire Noise Base)
  answer_client w should_ask_auth = do
    w ←
        noise_write lib lib.handshake (record w { buf = overwrite w.buf 0 (to_be_bytes 0) })
          (0 ∷ 1 ∷ flag should_ask_auth ∷ []) 2
    into_transport w

  abbrev pub verify_if : Bool → Option Store → List ℕ → List ℕ → Result (Option Store)
  verify_if false auth_store attestation remote_static = ok auth_store
  verify_if true auth_store attestation remote_static =
      verify_and_set lib auth_store attestation remote_static

  -- The server's side of CLIENTFIN: the store, and whether it is asked for an attestation.
  unfoldable pub read_clientfin :
      Bool
      → Option Store
      → List ℕ
      → Wire Noise Base
      → Result (Bool × (Option Store × Wire Noise Base))
  read_clientfin should_ask_auth auth_store remote_static w = do
    (len, w) ← noise_read lib lib.transport w
    reject_if (ltb len 3) "invalid CLIENTFIN length"
    sized ← has_size (drop 1 w.noise_buf) (len - 3)
    reject_if (not sized) "invalid CLIENTFIN payload length"
    auth_store ← verify_if should_ask_auth auth_store (slice w.noise_buf 3 len) remote_static
    request ← or_panic (get_elem? w.noise_buf 0)
    reject_if (ltb 1 request) "invalid auth request in third payload"
    ok (request == 1, (auth_store, w))

  unfoldable pub send_serverfin : Bool → Option Auther → Wire Noise Base → Result (Wire Noise Base)
  send_serverfin false auther w = ok w
  send_serverfin true auther w = do
    payload ← auth_payload lib auther
    let large = with_large_buffers lib w
    let sized = overwrite large.noise_buf 0 (to_be_bytes (length payload % 65536))
    let noise_buf = overwrite sized 2 payload
    noise_write lib lib.transport (record large { noise_buf = noise_buf })
        (take (length payload + 2) noise_buf) 0

  unfoldable pub new_server :
      List ℕ
      → Option Store
      → Option Auther
      → Base
      → Result (Option Store × ScallopStream Noise Base)
  new_server secret auth_store auther stream = do
    w ← server_hello secret stream
    remote_static ← remote_key lib w.noise
    w ← answer_client w (should_ask lib auth_store remote_static)
    (should_send_auth, (auth_store, w)) ←
        read_clientfin (should_ask lib auth_store remote_static) auth_store remote_static w
    reject_if (should_send_auth && is_none lib auther) "auth requested but no auther available"
    w ← send_serverfin should_send_auth auther w
    ok (auth_store, new_stream w.noise w.stream)
