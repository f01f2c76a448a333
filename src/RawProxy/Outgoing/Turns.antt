-- ===== src/RawProxy/Outgoing/Turns.antt =====
-- A turn of `handle_conn` of vsock_to_ip_raw_outgoing.rs: what it reads of the connection, and what it
-- sends of that.
use mathlib.Core.Path.{subst}
use mathlib.Core.List.{append_assoc, append-nil}
use oyster_monorepo.Base.{
  ℕ, ◌+◌, ◌-◌, ◌*◌, ◌≤◌, ◌<◌, ◌≡◌, refl, sym, ap, ◌∙◌, true, Option, none, some, List, [], ◌∷◌,
  ◌++◌, arith, leb, ltb, if◌then◌else◌, length, length-append, take, drop, Bool-cases, inl, inr,
}
use oyster_monorepo.Base.Slices.{take-drop, length-take}
use oyster_monorepo.RawProxy.Errors.{ProxyError}
use oyster_monorepo.RawProxy.Header.{Buffer, is_forwarded}
use oyster_monorepo.RawProxy.Outgoing.{
  bytes, byte_at, overwrite, Sockets, read_exact, Sends, complete, write_failed, waiting, send_from,
  Turn, again, failed, panicked, blocked, after_sends, size_of, forward, with_frame, read_frame,
  with_head, turn,
}
use oyster_monorepo.RawProxy.Outgoing.Bytes.{
  concat, Frame, whole, IsFrame, filled, size_of-filled, bytes-filled, IsTaken, send_from-IsTaken,
  bytes-cut,
}

read_exact_lem :
    (n : ℕ) (input : List ℕ) {p : List ℕ × List ℕ}
    → read_exact n input ≡ some p
    → (length p.0 ≡ n) × (input ≡ p.0 ++ p.1)
read_exact_lem n input {p} h =
    let b : leb n (length input) ≡ true = ground arith in
    let e : p ≡ (take n input, drop n input) = ground arith in
    rw e (length-take n input (ground arith), sym (take-drop n input))

-- The bytes of the packets that were sent, each as a whole.
abbrev pub contents : List (List (List ℕ)) → List (List ℕ)
contents [] = []
contents (chunks ∷ rest) = concat chunks ∷ contents rest

pub contents-add :
    (xs : List (List (List ℕ))) (chunks : List (List ℕ))
    → contents (xs ++ chunks ∷ []) ≡ contents xs ++ concat chunks ∷ []
contents-add [] chunks = refl
contents-add (x ∷ xs) chunks = ap (λ r. concat x ∷ r) (contents-add xs chunks)

module _ (from_ne_bytes : ℕ → ℕ → ℕ → ℕ → ℕ) (ifaddr : ℕ) where
  -- The packet of a frame, where it passes the three tests by the buffer with the frame in it.
  abbrev pub passed : Buffer → Frame → List (List ℕ)
  passed buf f = if is_forwarded from_ne_bytes ifaddr (filled buf f) then whole f ∷ [] else []

  -- A frame was read and passed, and its packet was cut short after `k` bytes.
  pub record IsCut (buf : Buffer) (s s' : Sockets) : Type 0 where
    pub frame : Frame
    pub k : ℕ
    pub framed : IsFrame frame
    pub input : s.input ≡ whole frame ++ s'.input
    pub passes : passed buf frame ≡ whole frame ∷ []
    pub short : k < length (whole frame)
    pub sent : contents s'.packets ≡ contents s.packets ++ take k (whole frame) ∷ []

  -- A frame was read, and its packet was sent where it passes.
  pub record IsRead (buf : Buffer) (s : Sockets) (buf' : Buffer) (s' : Sockets) : Type 0 where
    pub frame : Frame
    pub framed : IsFrame frame
    pub input : s.input ≡ whole frame ++ s'.input
    pub buffer : buf' ≡ filled buf frame
    pub sent : contents s'.packets ≡ contents s.packets ++ passed buf frame

  -- What a turn does, by how it ends.
  abbrev pub IsTurn : Buffer → Sockets → Turn → Type 0
  IsTurn buf s (again buf' s') = IsRead buf s buf' s'
  IsTurn buf s (failed ProxyError.ip_error s') = ⊥
  IsTurn buf s (failed ProxyError.vsock_error s') = contents s'.packets ≡ contents s.packets
  IsTurn buf s (failed ProxyError.nfq_error s') = IsCut buf s s'
  IsTurn buf s panicked = Unit {0}
  IsTurn buf s (blocked s') = IsCut buf s s'

  module _ (buf : Buffer) (f : Frame) (framed : IsFrame f) (rest : List ℕ) (s : Sockets)
      (input : s.input ≡ whole f ++ rest) where
    cut :
        (chunks : List (List ℕ)) (k : ℕ)
        → is_forwarded from_ne_bytes ifaddr (filled buf f) ≡ true
        → concat chunks ≡ bytes (filled buf f) 0 k
        → k < length (whole f)
        → IsCut buf s (record { input = rest; answers = []; packets = s.packets ++ chunks ∷ [] })
    cut chunks k passes taken less = record {
      frame = f;
      k = k;
      framed = framed;
      input = input;
      passes = rw passes refl;
      short = less;
      sent =
          contents-add s.packets chunks
          ∙ ap (λ x. contents s.packets ++ x ∷ [])
              (taken ∙ bytes-cut buf f k framed (omega (arith, less)));
    }

    after_sends-IsTurn :
        (x : Sends)
        → is_forwarded from_ne_bytes ifaddr (filled buf f) ≡ true
        → IsTaken (filled buf f) (length (whole f)) 0 x
        → IsTurn buf s (after_sends (filled buf f) rest s x)
    after_sends-IsTurn (complete chunks answers) passes taken =
        let e : length (whole f) - 0 ≡ length (whole f) = omega arith in
        let t : concat chunks ≡ whole f = (rw e at taken) ∙ bytes-filled buf f framed in
        record {
          frame = f;
          framed = framed;
          input = input;
          buffer = refl;
          sent =
              rw passes (contents-add s.packets chunks ∙ ap (λ x. contents s.packets ++ x ∷ []) t);
        }
    after_sends-IsTurn (write_failed chunks) passes (k, taken, less) =
        cut chunks k passes taken (omega (arith, less))
    after_sends-IsTurn (waiting chunks) passes (k, taken, less) =
        cut chunks k passes taken (omega (arith, less))

    forward-IsTurn :
        IsTurn buf s (forward from_ne_bytes ifaddr (filled buf f) (length (whole f)) rest s)
    forward-IsTurn = elim (Bool-cases (is_forwarded from_ne_bytes ifaddr (filled buf f))) [
      | inl passes ↦ rw passes (
          after_sends-IsTurn (send_from (filled buf f) (length (whole f)) 0 s.answers) passes
            (send_from-IsTaken (filled buf f) (length (whole f)) 0 s.answers (omega arith)))
      | inr dropped ↦ rw dropped (record {
        frame = f;
        framed = framed;
        input = input;
        buffer = refl;
        sent = rw dropped (sym (append-nil (contents s.packets)));
      })
    ]

  module _ (buf : Buffer) (s : Sockets) (head rest : List ℕ) (four : length head ≡ 4)
      (input : s.input ≡ head ++ rest) where
    with_frame-IsTurn :
        (o : Option (List ℕ × List ℕ))
        → 4 ≤ size_of (overwrite 0 head buf)
        → read_exact (size_of (overwrite 0 head buf) - 4) rest ≡ o
        → IsTurn buf s (with_frame from_ne_bytes ifaddr (overwrite 0 head buf) s o)
    unfolding overwrite
    with_frame-IsTurn none least e = refl
    with_frame-IsTurn (some (body, later)) least e =
        let (n, r) = read_exact_lem (size_of (overwrite 0 head buf) - 4) rest e in
        let size : size_of (overwrite 0 head buf) ≡ byte_at head 2 * 256 + byte_at head 3 =
          rw four refl in
        let whole_size : length (head ++ body) ≡ byte_at head 2 * 256 + byte_at head 3 =
          omega (arith, length-append head body, n, four, size, least) in
        let t =
          forward-IsTurn buf (head, body) (four, whole_size) later s
            (input ∙ (ap (λ x. head ++ x) r ∙ sym (append_assoc head body later))) in
        subst (λ m. IsTurn buf s (forward from_ne_bytes ifaddr (filled buf (head, body)) m later s))
          (sym (size_of-filled buf (head, body) (four, whole_size))) t

    read_frame-IsTurn : IsTurn buf s (read_frame from_ne_bytes ifaddr (overwrite 0 head buf) rest s)
    read_frame-IsTurn = elim (Bool-cases (ltb (size_of (overwrite 0 head buf)) 4)) [
      | inl short ↦ rw short tt
      | inr long ↦ rw long (with_frame-IsTurn _ (ground arith) refl)
    ]

  with_head-IsTurn :
      (buf : Buffer) (s : Sockets) (o : Option (List ℕ × List ℕ))
      → read_exact 4 s.input ≡ o
      → IsTurn buf s (with_head from_ne_bytes ifaddr buf s o)
  with_head-IsTurn buf s none e = refl
  with_head-IsTurn buf s (some (head, rest)) e =
      let (four, input) = read_exact_lem 4 s.input e in read_frame-IsTurn buf s head rest four input

  pub turn-IsTurn : (buf : Buffer) (s : Sockets) → IsTurn buf s (turn from_ne_bytes ifaddr buf s)
  unfolding turn
  turn-IsTurn buf s = with_head-IsTurn buf s (read_exact 4 s.input) refl
