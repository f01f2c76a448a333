-- ===== src/Scallop/Library.antt =====
-- What sdks/rs/src/scallop.rs calls and this repository does not hold, as fields: the states of the
-- noise protocol (snow) and the base stream (an implementation of the traits of tokio). Each answers with
-- its new state, and with the new contents of a buffer that it is given to write to.
use oyster_monorepo.Base.{
  zero, suc, drop, ap, ℕ, ◌+◌, ◌/◌, ◌%◌, ◌*◌, ◌<◌, ◌≡◌, refl, Option, none, some, List, [], ◌∷◌,
  ◌++◌, length, take, arith,
}

-- `Poll<Result<A>>`
pub data Poll (A : Type 0) : Type 0 where
  pending failed : Poll A
  ready : A → Poll A

-- The trait `Noiser`: the first list is what is read, the second the buffer that is written to, and the
-- number the bytes written there, where no error is returned.
pub record Noiser (Noise : Type 0) : Type 0 where
  pub read_message : Noise → List ℕ → List ℕ → Option ℕ × (List ℕ × Noise)
  pub write_message : Noise → List ℕ → List ℕ → Option ℕ × (List ℕ × Noise)

-- `AsyncRead` and `AsyncWrite`: a read is given the room in its buffer and answers with the bytes it
-- filled it with, a write answers with the number of bytes taken.
pub record AsyncBase (Base : Type 0) : Type 0 where
  pub poll_read : Base → ℕ → Poll (List ℕ) × Base
  pub poll_write : Base → List ℕ → Poll ℕ × Base
  pub poll_flush : Base → Poll (Unit {0}) × Base
  pub poll_shutdown : Base → Poll (Unit {0}) × Base

-- `(n as u16).to_be_bytes()`
abbrev pub to_be_bytes : ℕ → List ℕ
to_be_bytes n = n / 256 % 256 ∷ (n % 256) ∷ []

-- `u16::from_be_bytes(buffer[0..2])`, which panics on a shorter buffer.
abbrev pub from_be_bytes : List ℕ → Option ℕ
from_be_bytes [] = none
from_be_bytes (a ∷ []) = none
from_be_bytes (a ∷ b ∷ rest) = some (a * 256 + b)

-- `vec![0u8; n]`
abbrev pub zeros : ℕ → List ℕ
zeros zero = []
zeros (suc n) = 0 ∷ zeros n

-- `buffer[at..at + bytes.len()].copy_from_slice(bytes)`
abbrev pub overwrite : List ℕ → ℕ → List ℕ → List ℕ
overwrite buffer at bytes = take at buffer ++ (bytes ++ drop (at + length bytes) buffer)

pub from_be_bytes-to_be_bytes :
    (n : ℕ) (rest : List ℕ) → n < 65536 → from_be_bytes (to_be_bytes n ++ rest) ≡ some n
from_be_bytes-to_be_bytes n rest h = ap some (omega arith)

pub length-zeros : (n : ℕ) → length (zeros n) ≡ n
length-zeros zero = refl
length-zeros (suc n) = omega (arith, length-zeros n)
