-- ===== src/Scallop/Runs.antt =====
-- Runs of the handshakes of sdks/rs/src/scallop.rs, with a store that has one key or none.
use oyster_monorepo.Base.{
  ℕ, ◌≡◌, refl, Bool, true, false, Option, none, some, List, [], ◌∷◌, ◌++◌, length, take, drop,
  arith, leb, ◌==◌, if◌then◌else◌,
}
use oyster_monorepo.Scallop.Library.{from_be_bytes, zeros}
use oyster_monorepo.Scallop.Stream.{new_stream}
use oyster_monorepo.Scallop.Peer.{panicked, ok, HandshakeLibrary, Wire, noise_read, noise_write}
use oyster_monorepo.Scallop.Handshake.{
  client_hello, send_clientfin, read_serverfin, new_client, server_hello, answer_client,
  read_clientfin, send_serverfin, new_server,
}
use oyster_monorepo.Scallop.Trust.{IsTrusted, new_server-IsTrusted, new_client-IsTrusted}
use oyster_monorepo.Scallop.Limits.{new_server_panics}
use oyster_monorepo.Scallop.Plain.{Pipe, plain}

abbrev read_pipe : Pipe → ℕ → Option (List ℕ) × Pipe
read_pipe p n = if leb n (length p.0) then (some (take n p.0), (drop n p.0, p.1)) else (none, p)

-- An attestation is a single byte.
abbrev peer : HandshakeLibrary (Unit {0}) (Unit {0}) Pipe Bool (Unit {0}) (List ℕ)
peer = record {
  handshake = plain;
  transport = plain;
  build_initiator = λ secret prologue. some tt;
  build_responder = λ secret prologue. some tt;
  get_remote_static = λ u. some (zeros 32);
  into_transport_mode = λ u. some u;
  read_u16 = λ p. (from_be_bytes p.0, (drop 2 p.0, p.1));
  read_exact = read_pipe;
  write_all = λ p bytes. (some tt, (p.0, p.1 ++ bytes));
  flush = λ p. (some tt, p);
  contains = λ store key. store;
  verify = λ store attestation key. (if length attestation == 1 then some tt else none, store);
  set = λ store key pcrs. true;
  new_auth = λ payload. payload;
}

-- The first message of a client, and its answer to a request for an attestation.
abbrev client_bytes : Pipe
client_bytes = (0 ∷ 0 ∷ 0 ∷ 0 ∷ 0 ∷ 4 ∷ 0 ∷ 0 ∷ 1 ∷ 7 ∷ [], [])

abbrev asking : List ℕ
asking = 0 ∷ 0 ∷ 0 ∷ 3 ∷ 0 ∷ 1 ∷ 1 ∷ []

served :
    new_server peer [] (some false) none client_bytes ≡ ok (some true, new_stream tt ([], asking))
unfolding new_server server_hello answer_client read_clientfin send_serverfin noise_read noise_write
served = refl

new_server-IsTrusted_example :
    (w : Wire (Unit {0}) Pipe) × (key : List ℕ) × (server_hello peer [] client_bytes ≡ ok w)
    × (some (zeros 32) ≡ some key)
    × (length key ≡ 32)
    × IsTrusted peer key (some false) (some true)
new_server-IsTrusted_example =
    new_server-IsTrusted peer [] (some false) (some true) none client_bytes
      (new_stream tt ([], asking)) served

-- The server's answer, which asks for nothing.
abbrev server_bytes : Pipe
server_bytes = (0 ∷ 0 ∷ 0 ∷ 3 ∷ 0 ∷ 1 ∷ 0 ∷ [], [])

abbrev client_sent : List ℕ
client_sent = 0 ∷ 0 ∷ 0 ∷ 0 ∷ 0 ∷ 3 ∷ 0 ∷ 0 ∷ 0 ∷ []

connected :
    new_client peer [] (some true) none server_bytes
    ≡ ok (some true, new_stream tt ([], client_sent))
unfolding new_client client_hello send_clientfin read_serverfin noise_read noise_write
connected = refl

new_client-IsTrusted_example :
    (answer : Bool × Wire (Unit {0}) Pipe) × (key : List ℕ) × (client_hello peer [] none
        server_bytes
      ≡ ok answer)
    × (some (zeros 32) ≡ some key)
    × (length key ≡ 32)
    × IsTrusted peer key (some true) (some true)
new_client-IsTrusted_example =
    new_client-IsTrusted peer [] (some true) (some true) none server_bytes
      (new_stream tt ([], client_sent)) connected

new_server_panics_example : new_server peer [] none none (0 ∷ 0 ∷ 4 ∷ 1 ∷ [], []) ≡ panicked
new_server_panics_example =
    new_server_panics peer [] none none (0 ∷ 0 ∷ 4 ∷ 1 ∷ [], []) (4 ∷ 1 ∷ [], []) ([], []) tt 1025
      refl refl refl (omega arith)
