-- ===== src/RawProxy/Outgoing/Frames.antt =====
-- What the proxy sends, when it stops, and what stops it.
use mathlib.Core.List.{append_assoc, append-nil}
use oyster_monorepo.Base.{
  ℕ, zero, suc, ◌+◌, ◌≤◌, ◌<◌, ◌≡◌, ◌≢◌, refl, sym, ap, ◌∙◌, Option, none, some, List, [], ◌∷◌,
  ◌++◌, arith, length, length-append, take, All,
}
use oyster_monorepo.RawProxy.Errors.{ProxyError}
use oyster_monorepo.RawProxy.Header.{Buffer}
use oyster_monorepo.RawProxy.Outgoing.{
  overwrite, Sockets, Turn, again, failed, panicked, blocked, forward, turn, after_turn,
  handle_conn, unreachable, recover,
}
use oyster_monorepo.RawProxy.Outgoing.Bytes.{Frame, whole, IsFrame, filled}
use oyster_monorepo.RawProxy.Outgoing.Turns.{contents, passed, IsCut, IsRead, IsTurn, turn-IsTurn}

-- The bytes of frames that come one after the other.
abbrev pub stream : List Frame → List ℕ
stream [] = []
stream (f ∷ fs) = whole f ++ stream fs

-- Some packets were sent of those that were to be: all of them.
abbrev pub IsAll : List (List ℕ) → List (List ℕ) → Type 0
IsAll wanted sent = sent ≡ wanted

-- All but the last, of which a part was sent.
abbrev pub IsAllButLast : List (List ℕ) → List (List ℕ) → Type 0
IsAllButLast wanted sent =
    (before : List (List ℕ)) × (packet : List ℕ) × (k : ℕ) × (wanted ≡ before ++ packet ∷ [])
    × (sent ≡ before ++ take k packet ∷ [])
    × (k < length packet)

module _ (from_ne_bytes : ℕ → ℕ → ℕ → ℕ → ℕ) (ifaddr : ℕ) where
  -- Every error that forwarding a packet ends with is one on which `main` panics: a failed write to the
  -- IP socket never makes a new socket.
  pub forward-unreachable :
      (buf : Buffer) (size : ℕ) (input : List ℕ) (s s' : Sockets) (e : ProxyError)
      → forward from_ne_bytes ifaddr buf size input s ≡ failed e s'
      → recover e ≡ unreachable
  unfolding recover
  forward-unreachable buf size input s s' e h = ground arith

  read_least :
      (buf buf' : Buffer) (s s' : Sockets)
      → IsRead from_ne_bytes ifaddr buf s buf' s'
      → 4 + length s'.input ≤ length s.input
  read_least buf buf' s s' h =
      let (head, body) = h.frame in
      let (four, size) = h.framed in
      omega (
        arith,
        ap length h.input,
        length-append (head ++ body) s'.input,
        length-append head body,
        four,
      )

  ends_after :
      (later : Buffer → Sockets → Option Turn) (t : Turn)
      → ((buf : Buffer) → (s : Sockets) → t ≡ again buf s → later buf s ≢ none)
      → after_turn from_ne_bytes ifaddr later t ≢ none
  ends_after later (again buf s) h = h buf s refl
  ends_after later (failed e s) h = λ k. ground arith
  ends_after later panicked h = λ k. ground arith
  ends_after later (blocked s) h = λ k. ground arith

  -- Every turn that goes on has read at least the four bytes of a frame's head, so that the loop
  -- ends on any fuel above the number of bytes that come.
  pub handle_conn-ends :
      (fuel : ℕ) (buf : Buffer) (s : Sockets)
      → length s.input < fuel
      → handle_conn from_ne_bytes ifaddr fuel buf s ≢ none
  unfolding handle_conn
  handle_conn-ends zero buf s h = absurd (omega (arith, h))
  handle_conn-ends (suc fuel) buf s h =
      ends_after (handle_conn from_ne_bytes ifaddr fuel) (turn from_ne_bytes ifaddr buf s)
        (λ buf' s' e.
          let read = rw e at (turn-IsTurn from_ne_bytes ifaddr buf s) in
          handle_conn-ends fuel buf' s' (omega (arith, h, read_least buf buf' s s' read)))

  -- The packets of the frames that pass the three tests, each by the buffer with the frame read over the
  -- ones before it.
  abbrev pub wanted : Buffer → List Frame → List (List ℕ)
  wanted buf [] = []
  wanted buf (f ∷ fs) = passed from_ne_bytes ifaddr buf f ++ wanted (filled buf f) fs

  -- The frames that come in, and what is sent of their packets: after the packets sent before, all of
  -- them in order, or all but a part of the last.
  abbrev pub Forwards :
      (List (List ℕ) → List (List ℕ) → Type 0) → Buffer → Sockets → Sockets → Type 0
  Forwards IsSent buf s s' =
      (frames : List Frame) × (rest : List ℕ) × (sent : List (List ℕ)) × (s.input
        ≡ stream frames ++ rest)
      × All IsFrame frames
      × IsSent (wanted buf frames) sent
      × (contents s'.packets ≡ contents s.packets ++ sent)

  -- By how the connection ends.
  abbrev pub EndsSent : Buffer → Sockets → Turn → Type 0
  EndsSent buf s (again buf' s') = ⊥
  EndsSent buf s (failed ProxyError.ip_error s') = ⊥
  EndsSent buf s (failed ProxyError.vsock_error s') = Forwards IsAll buf s s'
  EndsSent buf s (failed ProxyError.nfq_error s') = Forwards IsAllButLast buf s s'
  EndsSent buf s panicked = Unit {0}
  EndsSent buf s (blocked s') = Forwards IsAllButLast buf s s'

  -- A frame before others.
  one_more :
      (IsSent : List (List ℕ) → List (List ℕ) → Type 0)
      → ((xs wanted sent : List (List ℕ)) → IsSent wanted sent → IsSent (xs ++ wanted) (xs ++ sent))
      → (buf buf' : Buffer) (s s' t : Sockets) → IsRead from_ne_bytes ifaddr buf s buf' s'
      → Forwards IsSent buf' s' t
      → Forwards IsSent buf s t
  one_more IsSent more buf buf' s s' t h (frames, rest, sent, input, framed, is_sent, out) =
      let now = passed from_ne_bytes ifaddr buf h.frame in
      (
        h.frame ∷ frames,
        rest,
        now ++ sent,
        h.input
            ∙ (ap (λ x. whole h.frame ++ x) input
                ∙ sym (append_assoc (whole h.frame) (stream frames) rest)),
        (h.framed, framed),
        more now _ sent (rw h.buffer at is_sent),
        out ∙ (ap (λ x. x ++ sent) h.sent ∙ append_assoc (contents s.packets) now sent),
      )

  append-IsAll :
      (xs wanted sent : List (List ℕ)) → IsAll wanted sent → IsAll (xs ++ wanted) (xs ++ sent)
  append-IsAll xs wanted sent h = ap (λ x. xs ++ x) h

  append-IsAllButLast :
      (xs wanted sent : List (List ℕ))
      → IsAllButLast wanted sent
      → IsAllButLast (xs ++ wanted) (xs ++ sent)
  append-IsAllButLast xs wanted sent (before, packet, k, w, o, less) = (
    xs ++ before,
    packet,
    k,
    ap (λ x. xs ++ x) w ∙ sym (append_assoc xs before (packet ∷ [])),
    ap (λ x. xs ++ x) o ∙ sym (append_assoc xs before (take k packet ∷ [])),
    less,
  )

  after_read :
      (buf buf' : Buffer) (s s' : Sockets) (end : Turn)
      → IsRead from_ne_bytes ifaddr buf s buf' s'
      → EndsSent buf' s' end
      → EndsSent buf s end
  after_read buf buf' s s' (again _ t) h e = e
  after_read buf buf' s s' (failed ProxyError.ip_error t) h e = e
  after_read buf buf' s s' (failed ProxyError.vsock_error t) h e =
      one_more IsAll append-IsAll buf buf' s s' t h e
  after_read buf buf' s s' (failed ProxyError.nfq_error t) h e =
      one_more IsAllButLast append-IsAllButLast buf buf' s s' t h e
  after_read buf buf' s s' panicked h e = tt
  after_read buf buf' s s' (blocked t) h e =
      one_more IsAllButLast append-IsAllButLast buf buf' s s' t h e

  cut_last :
      (buf : Buffer) (s s' : Sockets)
      → IsCut from_ne_bytes ifaddr buf s s'
      → Forwards IsAllButLast buf s s'
  cut_last buf s s' h = (
    h.frame ∷ [],
    s'.input,
    take h.k (whole h.frame) ∷ [],
    h.input ∙ ap (λ x. x ++ s'.input) (sym (append-nil (whole h.frame))),
    (h.framed, tt),
    ([], whole h.frame, h.k, append-nil _ ∙ h.passes, refl, h.short),
    h.sent,
  )

  sent_after :
      (buf : Buffer) (s : Sockets) (later : Buffer → Sockets → Option Turn) (t end : Turn)
      → IsTurn from_ne_bytes ifaddr buf s t
      → ((buf' : Buffer) → (s' : Sockets) → later buf' s' ≡ some end → EndsSent buf' s' end)
      → after_turn from_ne_bytes ifaddr later t ≡ some end
      → EndsSent buf s end
  sent_after buf s later (again buf' s') end is next h =
      after_read buf buf' s s' end is (next buf' s' h)
  sent_after buf s later (failed ProxyError.ip_error s') end is next h = absurd is
  sent_after buf s later (failed ProxyError.vsock_error s') end is next h =
      let k : end ≡ failed ProxyError.vsock_error s' = ground arith in
      rw k ([], s.input, [], refl, tt, refl, is ∙ sym (append-nil (contents s.packets)))
  sent_after buf s later (failed ProxyError.nfq_error s') end is next h =
      let k : end ≡ failed ProxyError.nfq_error s' = ground arith in rw k (cut_last buf s s' is)
  sent_after buf s later panicked end is next h = let k : end ≡ panicked = ground arith in rw k tt
  sent_after buf s later (blocked s') end is next h =
      let k : end ≡ blocked s' = ground arith in rw k (cut_last buf s s' is)

  -- However a connection ends other than by a panic: what comes in is a sequence of frames, each as
  -- long as its head says, and a rest; and what is sent is, in order, each frame that passes the three
  -- tests, by the buffer with the frame read over those before it, whole and unchanged, and no
  -- other. Where a call of `send_to` fails or does not return, the last of these is cut short; an
  -- end of the input cuts none.
  pub handle_conn-IsSent :
      (fuel : ℕ) (buf : Buffer) (s : Sockets) (end : Turn)
      → handle_conn from_ne_bytes ifaddr fuel buf s ≡ some end
      → EndsSent buf s end
  unfolding handle_conn
  handle_conn-IsSent zero buf s end h = absurd (ground arith)
  handle_conn-IsSent (suc fuel) buf s end h =
      sent_after buf s (handle_conn from_ne_bytes ifaddr fuel) (turn from_ne_bytes ifaddr buf s) end
        (turn-IsTurn from_ne_bytes ifaddr buf s) (λ buf' s'. handle_conn-IsSent fuel buf' s' end) h

  -- Where the next four bytes give a frame's size as less than 4, the proxy panics, whatever it has
  -- read before.
  pub short_frame_panics :
      (buf : Buffer) (s : Sockets) (a b d : ℕ) (rest : List ℕ)
      → s.input ≡ a ∷ b ∷ 0 ∷ d ∷ rest
      → d < 4
      → turn from_ne_bytes ifaddr buf s ≡ panicked
  unfolding turn overwrite
  short_frame_panics buf s a b d rest h small = ground arith
