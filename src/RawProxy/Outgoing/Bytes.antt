-- ===== src/RawProxy/Outgoing/Bytes.antt =====
-- The bytes of the buffer of vsock_to_ip_raw_outgoing.rs, after a frame was read into it, and what the
-- calls of `send_to` take of them.
use oyster_monorepo.Base.{
  ℕ, zero, suc, ◌+◌, ◌-◌, ◌*◌, ◌≤◌, ◌<◌, ◌≡◌, refl, ap, sym, ◌∙◌, false, Option, none, some, List,
  [], ◌∷◌, ◌++◌, arith, ltb, length, length-append, take, Bool-cases, inl, inr,
}
use Prim.Native.Nat.{min}
use oyster_monorepo.RawProxy.Header.{Buffer}
use oyster_monorepo.RawProxy.Outgoing.{
  bytes, byte_at, overwrite, Sends, complete, write_failed, waiting, after_send, send_from, size_of,
}

abbrev pub concat : List (List ℕ) → List ℕ
concat [] = []
concat (xs ∷ rest) = xs ++ concat rest

pub bytes-append :
    (buf : Buffer) (m n start : ℕ)
    → bytes buf start m ++ bytes buf (start + m) n ≡ bytes buf start (m + n)
bytes-append buf zero n start =
    let e : start + 0 ≡ start = omega arith in rw e (let f : 0 + n ≡ n = omega arith in rw f refl)
bytes-append buf (suc m) n start =
    let e : start + suc m ≡ suc start + m = omega arith in
    let f : suc m + n ≡ suc (m + n) = omega arith in
    rw (e, f, bytes-append buf m n (suc start)) refl

bytes-take : (buf : Buffer) (k n start : ℕ) → k ≤ n → bytes buf start k ≡ take k (bytes buf start n)
bytes-take buf zero n start h = refl
bytes-take buf (suc k) zero start h = absurd (omega (arith, h))
bytes-take buf (suc k) (suc n) start h =
    ap (λ xs. buf start ∷ xs) (bytes-take buf k n (suc start) (omega (arith, h)))

-- Bytes that are in the buffer one by one are there as a whole.
bytes-same :
    (buf : Buffer) (xs : List ℕ) (start : ℕ)
    → ((i : ℕ) → i < length xs → buf (start + i) ≡ byte_at xs i)
    → bytes buf start (length xs) ≡ xs
bytes-same buf [] start h = refl
bytes-same buf (x ∷ xs) start h =
    let e : start + 0 ≡ start = omega arith in
    let first : buf start ≡ x = rw e at (h 0 (omega arith)) in
    let rest : bytes buf (suc start) (length xs) ≡ xs = bytes-same buf xs (suc start) (λ i b.
      let f : start + suc i ≡ suc start + i = omega arith in
      rw f at (h (suc i) (omega (arith, b)))) in
    ap (λ y. y ∷ bytes buf (suc start) (length xs)) first ∙ ap (λ ys. x ∷ ys) rest

-- A frame: its head, of four bytes, which give the size of all of it, and what follows it.
abbrev pub Frame : Type 0
Frame = List ℕ × List ℕ

abbrev pub whole : Frame → List ℕ
whole (head, body) = head ++ body

abbrev pub IsFrame : Frame → Type 0
IsFrame (head, body) =
    (length head ≡ 4) × (length (head ++ body) ≡ byte_at head 2 * 256 + byte_at head 3)

-- The buffer with a frame read into it, over what it held before.
abbrev pub filled : Buffer → Frame → Buffer
filled buf (head, body) = overwrite 4 body (overwrite 0 head buf)

pub size_of-filled :
    (buf : Buffer) (f : Frame) → IsFrame f → size_of (filled buf f) ≡ length (whole f)
unfolding overwrite
size_of-filled buf (head, body) (h, n) = rw (n, h) refl

in_head :
    (buf : Buffer) (head body : List ℕ) (i : ℕ)
    → length head ≡ 4
    → i < length head
    → filled buf (head, body) (0 + i) ≡ byte_at head i
unfolding overwrite
in_head buf head body i h b = ground arith

in_body :
    (buf : Buffer) (head body : List ℕ) (i : ℕ)
    → i < length body
    → filled buf (head, body) (4 + i) ≡ byte_at body i
unfolding overwrite
in_body buf head body i b = let e : (4 + i) - 4 ≡ i = omega arith in ground (arith, e)

-- The buffer holds the frame.
pub bytes-filled :
    (buf : Buffer) (f : Frame) → IsFrame f → bytes (filled buf f) 0 (length (whole f)) ≡ whole f
bytes-filled buf (head, body) (h, n) =
    let b = filled buf (head, body) in
    let first : bytes b 0 (length head) ≡ head =
      bytes-same b head 0 (λ i k. in_head buf head body i h k) in
    let second : bytes b 4 (length body) ≡ body =
      bytes-same b body 4 (λ i k. in_body buf head body i k) in
    let second' : bytes b (0 + length head) (length body) ≡ body =
      let e : 0 + length head ≡ 4 = omega (arith, h) in rw e second in
    rw (length-append head body) (
      sym (bytes-append b (length head) (length body) 0)
      ∙ (ap (λ xs. xs ++ bytes b (0 + length head) (length body)) first
          ∙ ap (λ ys. head ++ ys) second'))

-- What the calls took of the bytes that are left, from `total_sent` on: all of them, or a part.
abbrev pub IsTaken : Buffer → ℕ → ℕ → Sends → Type 0
IsTaken buf size total_sent (complete chunks rest) =
    concat chunks ≡ bytes buf total_sent (size - total_sent)
IsTaken buf size total_sent (write_failed chunks) =
    (k : ℕ) × (concat chunks ≡ bytes buf total_sent k) × (total_sent + k < size)
IsTaken buf size total_sent (waiting chunks) =
    (k : ℕ) × (concat chunks ≡ bytes buf total_sent k) × (total_sent + k < size)

after_send-IsTaken :
    (buf : Buffer) (size total taken : ℕ) (x : Sends)
    → total + taken ≤ size
    → IsTaken buf size (total + taken) x
    → IsTaken buf size total (after_send (bytes buf total taken) x)
after_send-IsTaken buf size total taken (complete chunks rest) le h =
    let k : size - total ≡ taken + (size - (total + taken)) = omega (arith, le) in
    rw (h, k) (bytes-append buf taken (size - (total + taken)) total)
after_send-IsTaken buf size total taken (write_failed chunks) le (k, h, less) =
    (taken + k, rw h (bytes-append buf taken k total), omega (arith, less))
after_send-IsTaken buf size total taken (waiting chunks) le (k, h, less) =
    (taken + k, rw h (bytes-append buf taken k total), omega (arith, less))

no_more :
    (buf : Buffer) (size total : ℕ) (answers : List (Option ℕ))
    → ltb total size ≡ false
    → IsTaken buf size total (complete [] answers)
no_more buf size total answers over = let e : size - total ≡ 0 = ground arith in rw e refl

pub send_from-IsTaken :
    (buf : Buffer) (size total_sent : ℕ) (answers : List (Option ℕ))
    → total_sent ≤ size
    → IsTaken buf size total_sent (send_from buf size total_sent answers)
unfolding send_from
send_from-IsTaken buf size total_sent [] le = elim (Bool-cases (ltb total_sent size)) [
  | inl more ↦ rw more (0, refl, ground arith)
  | inr over ↦ rw over (no_more buf size total_sent [] over)
]
send_from-IsTaken buf size total_sent (none ∷ later) le = elim (Bool-cases (ltb total_sent size)) [
  | inl more ↦ rw more (0, refl, ground arith)
  | inr over ↦ rw over (no_more buf size total_sent (none ∷ later) over)
]
send_from-IsTaken buf size total_sent (some n ∷ later) le =
    let taken = min n (size - total_sent) in
    elim (Bool-cases (ltb total_sent size)) [
      | inl more ↦ rw more (
          after_send-IsTaken buf size total_sent taken
            (send_from buf size (total_sent + taken) later) (omega (arith, le))
            (send_from-IsTaken buf size (total_sent + taken) later (omega (arith, le))))
      | inr over ↦ rw over (no_more buf size total_sent (some n ∷ later) over)
    ]

-- A part of a frame in the buffer is a part of the frame.
pub bytes-cut :
    (buf : Buffer) (f : Frame) (k : ℕ)
    → IsFrame f
    → k ≤ length (whole f)
    → bytes (filled buf f) 0 k ≡ take k (whole f)
bytes-cut buf f k h le =
    bytes-take (filled buf f) k (length (whole f)) 0 le ∙ ap (take k) (bytes-filled buf f h)
