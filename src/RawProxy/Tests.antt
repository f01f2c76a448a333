-- ===== src/RawProxy/Tests.antt =====
-- Runs of the raw proxy, and the theorems at inputs that meet their hypotheses.
use oyster_monorepo.RawProxy.Queue.{IsRelayed, relayed_of, relay, relay-IsRelayed}
use oyster_monorepo.Base.{
  ℕ, ◌≤◌, ◌≡◌, ◌≢◌, ◌↔◌, ◌⊎◌, refl, true, false, Option, none, some, List, [], ◌∷◌, ◌++◌, arith,
}
use oyster_monorepo.RawProxy.Errors.{ProxyError}
use oyster_monorepo.RawProxy.Backoff.{run_from, run_with_backoff, next_wait}
use oyster_monorepo.RawProxy.Header.{
  Buffer, address, is_reserved, is_forwarded, is_allowed_port, in_any, special_ranges,
  is_forwarded_lem,
}
use oyster_monorepo.RawProxy.Outgoing.{
  overwrite, Sockets, bytes, send_from, Turn, failed, panicked, turn, handle_conn, unreachable,
  recover,
}
use oyster_monorepo.RawProxy.Outgoing.Frames.{
  handle_conn-ends, handle_conn-IsSent, EndsSent, forward-unreachable, short_frame_panics,
}

-- `from_ne_bytes` of a machine that puts the lowest byte first.
abbrev from_le_bytes : ℕ → ℕ → ℕ → ℕ → ℕ
from_le_bytes a b c d = address d c b a

abbrev zeroed : Buffer
zeroed i = 0

-- A packet of 24 bytes from 192.168.1.2, port 443, to 1.1.1.1.
abbrev packet : List ℕ
packet =
    69 ∷ 0 ∷ 0 ∷ 24 ∷ 0 ∷ 0 ∷ 0 ∷ 0 ∷ 64 ∷ 6 ∷ 0 ∷ 0 ∷ 192 ∷ 168 ∷ 1 ∷ 2 ∷ 1 ∷ 1 ∷ 1 ∷ 1 ∷ 1 ∷ 187
    ∷ 0 ∷ 80 ∷ []

abbrev interface : ℕ
interface = from_le_bytes 192 168 1 2

abbrev sockets : Sockets
sockets = record { input = packet; answers = some 10 ∷ some 100 ∷ []; packets = [] }

abbrev filled : Buffer
unfolding overwrite
filled = overwrite 0 packet zeroed

-- What the tests compute with.
run : ℕ → Sockets → Option Turn
unfolding handle_conn turn send_from overwrite is_forwarded is_reserved is_allowed_port
    run_with_backoff run_from next_wait recover
run fuel s = handle_conn from_le_bytes interface fuel zeroed s

is_forwarded_lem_example : (is_forwarded from_le_bytes interface filled ≡ true) ↔ (
    (interface ≡ interface)
    × (in_any (address 1 1 1 1) special_ranges ≡ false)
    × ((◌≡◌ {A = ℕ} 443 80) ⊎ ((◌≡◌ {A = ℕ} 443 443) ⊎ ((1024 ≤ 443) × (443 ≤ 61439)))))
unfolding run
is_forwarded_lem_example = is_forwarded_lem from_le_bytes interface filled

handle_conn-ends_example : handle_conn from_le_bytes interface 25 zeroed sockets ≢ none
handle_conn-ends_example = handle_conn-ends from_le_bytes interface 25 zeroed sockets (omega arith)

-- Two packets come, and the socket fails after five bytes of the second.
abbrev failing : Sockets
failing = record {
  input = packet ++ packet;
  answers = some 10 ∷ some 100 ∷ some 5 ∷ none ∷ [];
  packets = [];
}

abbrev half_sent : Sockets
half_sent = record {
  input = [];
  answers = [];
  packets = (bytes filled 0 10 ∷ bytes filled 10 14 ∷ []) ∷ (bytes filled 0 5 ∷ []) ∷ [];
}

handle_conn-IsSent_example :
    EndsSent from_le_bytes interface zeroed failing (failed ProxyError.nfq_error half_sent)
unfolding run
handle_conn-IsSent_example =
    handle_conn-IsSent from_le_bytes interface 49 zeroed failing
      (failed ProxyError.nfq_error half_sent) refl

forward-unreachable_example : recover ProxyError.nfq_error ≡ unreachable
unfolding run
forward-unreachable_example =
    forward-unreachable from_le_bytes interface filled 24 []
      (record sockets { answers = none ∷ [] })
      (record { input = []; answers = []; packets = [] ∷ [] }) ProxyError.nfq_error refl

short_frame_panics_example :
    turn from_le_bytes interface zeroed (record sockets { input = 69 ∷ 0 ∷ 0 ∷ 3 ∷ packet })
    ≡ panicked
short_frame_panics_example =
    short_frame_panics from_le_bytes interface zeroed
      (record sockets { input = 69 ∷ 0 ∷ 0 ∷ 3 ∷ packet }) 69 0 3 packet refl (omega arith)

-- The first packet goes in two calls, and the verdict on the second is refused.
relay-IsRelayed_example :
    IsRelayed
      ((1 ∷ 2 ∷ 3 ∷ []) ∷ (4 ∷ []) ∷ [])
      (record { sent = []; dropped = [] })
      (relayed_of (
        relay
          (some (1 ∷ 2 ∷ 3 ∷ []) ∷ some (4 ∷ []) ∷ none ∷ [])
          (some 2 ∷ some 5 ∷ some 1 ∷ [])
          (true ∷ false ∷ [])
          (record { sent = []; dropped = [] })))
relay-IsRelayed_example =
    relay-IsRelayed (some (1 ∷ 2 ∷ 3 ∷ []) ∷ some (4 ∷ []) ∷ none ∷ [])
      (some 2 ∷ some 5 ∷ some 1 ∷ []) (true ∷ false ∷ []) (record { sent = []; dropped = [] }) refl
