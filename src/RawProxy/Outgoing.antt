-- ===== src/RawProxy/Outgoing.antt =====
-- `handle_conn` of vsock_to_ip_raw_outgoing.rs: frames from the vsock connection, checked and sent.
pub mod Bytes
pub mod Frames
pub mod Turns
use oyster_monorepo.Base.{
  ℕ, zero, suc, ◌+◌, ◌-◌, ◌*◌, ◌≤◌, ◌<◌, ◌≡◌, Bool, true, false, ◌&&◌, Option, none, some, List, [],
  ◌∷◌, ◌++◌, leb, ltb, if◌then◌else◌, length, take, drop,
}
use Prim.Native.Nat.{min}
use oyster_monorepo.RawProxy.Errors.{ProxyError}
use oyster_monorepo.RawProxy.Header.{Buffer, is_forwarded}

-- `buf[start..start + n]`
abbrev pub bytes : Buffer → ℕ → ℕ → List ℕ
bytes buf start zero = []
bytes buf start (suc n) = buf start ∷ bytes buf (suc start) n

-- The byte at an index of a list, 0 past its end, where it is not asked for.
abbrev pub byte_at : List ℕ → ℕ → ℕ
byte_at [] i = 0
byte_at (x ∷ xs) zero = x
byte_at (x ∷ xs) (suc i) = byte_at xs i

-- The bytes written over the buffer from `start` on.
unfoldable pub overwrite : ℕ → List ℕ → Buffer → Buffer
overwrite start xs buf i =
    if leb start i && ltb i (start + length xs) then byte_at xs (i - start) else buf i

-- The two sockets: the bytes that are still to come from the vsock connection, how many bytes each call
-- of `send_to` would take, of which it takes no more than are offered (`none` is an error), and the
-- packets that were offered to it, each as what its calls took; the last may be cut short.
pub record Sockets : Type 0 where
  pub input : List ℕ
  pub answers : List (Option ℕ)
  pub packets : List (List (List ℕ))

-- `read_exact`: an end of the input before the buffer is full is an error.
abbrev pub read_exact : ℕ → List ℕ → Option (List ℕ × List ℕ)
read_exact n input = if leb n (length input) then some (take n input, drop n input) else none

-- How the loop that sends a packet ends, with what the calls of `send_to` took of it: all of it, an error
-- of a call, or a call that does not return.
pub data Sends : Type 0 where
  complete : List (List ℕ) → List (Option ℕ) → Sends
  write_failed waiting : List (List ℕ) → Sends

abbrev pub after_send : List ℕ → Sends → Sends
after_send chunk (complete chunks rest) = complete (chunk ∷ chunks) rest
after_send chunk (write_failed chunks) = write_failed (chunk ∷ chunks)
after_send chunk (waiting chunks) = waiting (chunk ∷ chunks)

-- `while total_sent < size`, with `buf[total_sent..size]` offered in each turn.
unfoldable pub send_from : Buffer → ℕ → ℕ → List (Option ℕ) → Sends
send_from buf size total_sent [] = if ltb total_sent size then waiting [] else complete [] []
send_from buf size total_sent (none ∷ rest) =
    if ltb total_sent size then write_failed [] else complete [] (none ∷ rest)
send_from buf size total_sent (some n ∷ rest) =
    let taken = min n (size - total_sent) in
    let later = send_from buf size (total_sent + taken) rest in
    if ltb total_sent size
    then after_send (bytes buf total_sent taken) later
    else complete [] (some n ∷ rest)

-- A turn of the loop: the next turn, an error, a panic, or a wait in `send_to`.
pub data Turn : Type 0 where
  again : Buffer → Sockets → Turn
  failed : ProxyError → Sockets → Turn
  panicked : Turn
  blocked : Sockets → Turn

-- The source maps a failed write to `NfqError`; what was taken of the packet by then is sent.
abbrev pub after_sends : Buffer → List ℕ → Sockets → Sends → Turn
after_sends buf input s (complete chunks rest) =
    again buf (record { input = input; answers = rest; packets = s.packets ++ chunks ∷ [] })
after_sends buf input s (write_failed chunks) =
    failed ProxyError.nfq_error
      (record { input = input; answers = []; packets = s.packets ++ chunks ∷ [] })
after_sends buf input s (waiting chunks) =
    blocked (record { input = input; answers = []; packets = s.packets ++ chunks ∷ [] })

-- `u16::from_be_bytes(buf[2..4])`
abbrev pub size_of : Buffer → ℕ
size_of buf = buf 2 * 256 + buf 3

module _ (from_ne_bytes : ℕ → ℕ → ℕ → ℕ → ℕ) (ifaddr : ℕ) where
  abbrev pub forward : Buffer → ℕ → List ℕ → Sockets → Turn
  forward buf size input s =
      if is_forwarded from_ne_bytes ifaddr buf
      then after_sends buf input s (send_from buf size 0 s.answers)
      else again buf (record s { input = input })

  abbrev pub with_frame : Buffer → Sockets → Option (List ℕ × List ℕ) → Turn
  with_frame buf s none = failed ProxyError.vsock_error (record s { input = [] })
  with_frame buf s (some (frame, rest)) = forward (overwrite 4 frame buf) (size_of buf) rest s

  -- `&mut buf[4..size]` panics where the size is below 4.
  abbrev pub read_frame : Buffer → List ℕ → Sockets → Turn
  read_frame buf input s =
      if ltb (size_of buf) 4
      then panicked
      else with_frame buf s (read_exact (size_of buf - 4) input)

  abbrev pub with_head : Buffer → Sockets → Option (List ℕ × List ℕ) → Turn
  with_head buf s none = failed ProxyError.vsock_error (record s { input = [] })
  with_head buf s (some (head, rest)) = read_frame (overwrite 0 head buf) rest s

  unfoldable pub turn : Buffer → Sockets → Turn
  turn buf s = with_head buf s (read_exact 4 s.input)

  abbrev pub after_turn : (Buffer → Sockets → Option Turn) → Turn → Option Turn
  after_turn later (again buf s) = later buf s
  after_turn later (failed e s) = some (failed e s)
  after_turn later panicked = some panicked
  after_turn later (blocked s) = some (blocked s)

  -- The loop, on fuel: `none` is that it has run out.
  unfoldable pub handle_conn : ℕ → Buffer → Sockets → Option Turn
  handle_conn zero buf s = none
  handle_conn (suc fuel) buf s = after_turn (handle_conn fuel) (turn buf s)

-- What `main` does with the error: a socket that is made anew, or `unreachable!`.
pub data Recovery : Type 0 where
  new_ip_socket new_conn_socket unreachable : Recovery

unfoldable pub recover : ProxyError → Recovery
recover ProxyError.ip_error = new_ip_socket
recover ProxyError.vsock_error = new_conn_socket
recover ProxyError.nfq_error = unreachable
