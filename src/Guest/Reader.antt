-- ===== src/Guest/Reader.antt =====
-- How the guest reads the attestation: indices and ranges, which panic out of range, and assertions. A
-- panic is `none`: there is no proof then.
use Prim.Native.Char.{code}
use oyster_monorepo.Base.{
  ℕ, String, ◌+◌, ◌-◌, ◌*◌, ◌≡◌, refl, Bool, true, false, ◌&&◌, Option, none, some, List, [], ◌∷◌,
  leb, ◌==◌, if◌then◌else◌, length, get_elem?, take, drop, arith,
}

infixl 5 ◌>>=◌ ◌>>◌
abbrev pub ◌>>=◌ : {A B : Type 0} → Option A → (A → Option B) → Option B
none >>= f = none
some a >>= f = f a

abbrev pub ◌>>◌ : {A B : Type 0} → Option A → Option B → Option B
m >> k = m >>= λ _. k

-- `assert!`
abbrev pub assert : Bool → Option (Unit {0})
assert true = some tt
assert false = none

abbrev pub bytes_eq : List ℕ → List ℕ → Bool
bytes_eq [] [] = true
bytes_eq [] (y ∷ ys) = false
bytes_eq (x ∷ xs) [] = false
bytes_eq (x ∷ xs) (y ∷ ys) = x == y && bytes_eq xs ys

-- The bytes of an ASCII text.
abbrev pub codes : String → List ℕ
codes String.[] = []
codes (String.◌∷◌ c s) = code c ∷ codes s

-- `from_be_bytes`
abbrev pub be_from : ℕ → List ℕ → ℕ
be_from acc [] = acc
be_from acc (x ∷ xs) = be_from (acc * 256 + x) xs

abbrev pub from_be_bytes : List ℕ → ℕ
from_be_bytes xs = be_from 0 xs

module _ (attestation : List ℕ) where
  -- `attestation[i]`
  abbrev pub index : ℕ → Option ℕ
  index i = get_elem? attestation i

  -- `attestation[a..b]`
  unfoldable pub range : ℕ → ℕ → Option (List ℕ)
  range a b =
      if leb a b && leb b (length attestation)
      then some (take (b - a) (drop a attestation))
      else none

  -- `assert_eq!(attestation[i], v)`
  unfoldable pub assert_byte : ℕ → ℕ → Option (Unit {0})
  assert_byte i v = do x ← index i; assert (x == v)

  -- `assert_eq!(attestation[a..a + n], v)`, for `v` of length `n`
  unfoldable pub assert_bytes : ℕ → List ℕ → Option (Unit {0})
  unfolding range
  assert_bytes a v = do xs ← range a (a + length v); assert (bytes_eq xs v)

  -- `u16::from_be_bytes([attestation[i], attestation[i + 1]])`
  unfoldable pub size_at : ℕ → Option ℕ
  size_at i = do a ← index i; b ← index (i + 1); some (a * 256 + b)

-- What a read that is sequenced before another has given.
pub bind-some :
    {A B : Type 0} (m : Option A) (f : A → Option B) {b : B}
    → (m >>= f) ≡ some b
    → (a : A) × (m ≡ some a) × (f a ≡ some b)
bind-some none f h = absurd (ground arith)
bind-some (some a) f h = (a, refl, h)

pub then-some :
    {A B : Type 0} (m : Option A) (k : Option B) {b : B} → (m >> k) ≡ some b → k ≡ some b
then-some none k h = absurd (ground arith)
then-some (some a) k h = h
