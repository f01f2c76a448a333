-- ===== src/Base/Slices.antt =====
-- Slices of lists by native numbers, and the laws by which they are cut and put together.
use Prim.Native.Nat.{ℕ, zero, suc, ◌+◌, ◌-◌, ◌≤◌}
use mathlib.Core.Path.{◌≡◌, refl, sym, ap, ◌∙◌}
use mathlib.Core.List.{List, [], ◌∷◌, ◌++◌}
use native.Mathlib.Omega.{arith}
use oyster_monorepo.Base.Lists.{length, take, drop}

module _ {ℓ} {A : Type ℓ} where
  -- `xs[a..b]`
  abbrev pub slice : List A → ℕ → ℕ → List A
  slice xs a b = take (b - a) (drop a xs)

  abbrev pub concat : List (List A) → List A
  concat [] = []
  concat (xs ∷ xss) = xs ++ concat xss

  pub append-nil : (xs : List A) → xs ++ [] ≡ xs
  append-nil [] = refl
  append-nil (x ∷ xs) = ap (λ r. x ∷ r) (append-nil xs)

  pub assoc : (xs ys zs : List A) → (xs ++ ys) ++ zs ≡ xs ++ (ys ++ zs)
  assoc [] ys zs = refl
  assoc (x ∷ xs) ys zs = ap (λ r. x ∷ r) (assoc xs ys zs)

  pub concat-append : (xss yss : List (List A)) → concat (xss ++ yss) ≡ concat xss ++ concat yss
  concat-append [] yss = refl
  concat-append (xs ∷ xss) yss =
      ap (λ r. xs ++ r) (concat-append xss yss) ∙ sym (assoc xs (concat xss) (concat yss))

  pub take-drop : (n : ℕ) (xs : List A) → take n xs ++ drop n xs ≡ xs
  take-drop zero xs = refl
  take-drop (suc n) [] = refl
  take-drop (suc n) (x ∷ xs) = ap (λ r. x ∷ r) (take-drop n xs)

  pub take_all : (n : ℕ) (xs : List A) → length xs ≤ n → take n xs ≡ xs
  take_all zero [] h = refl
  take_all zero (x ∷ xs) h = absurd (omega arith)
  take_all (suc n) [] h = refl
  take_all (suc n) (x ∷ xs) h = ap (λ r. x ∷ r) (take_all n xs (omega arith))

  pub length-take : (n : ℕ) (xs : List A) → n ≤ length xs → length (take n xs) ≡ n
  length-take zero xs h = refl
  length-take (suc n) [] h = absurd (omega arith)
  length-take (suc n) (x ∷ xs) h = omega (arith, length-take n xs (omega arith))

  pub length-take_le : (n : ℕ) (xs : List A) → length (take n xs) ≤ n
  length-take_le zero xs = omega arith
  length-take_le (suc n) [] = omega arith
  length-take_le (suc n) (x ∷ xs) = omega (arith, length-take_le n xs)

  pub length-take_bound : (n : ℕ) (xs : List A) → length (take n xs) ≤ length xs
  length-take_bound zero xs = omega arith
  length-take_bound (suc n) [] = omega arith
  length-take_bound (suc n) (x ∷ xs) = omega (arith, length-take_bound n xs)

  -- The length of what is left, with no premise.
  pub length-drop : (n : ℕ) (xs : List A) → length (drop n xs) ≡ length xs - n
  length-drop zero xs = omega arith
  length-drop (suc n) [] = omega arith
  length-drop (suc n) (x ∷ xs) = omega (arith, length-drop n xs)

  -- Taking what was put in front.
  pub take-append_at : (n : ℕ) (xs ys : List A) → length xs ≡ n → take n (xs ++ ys) ≡ xs
  take-append_at zero [] ys h = refl
  take-append_at zero (x ∷ xs) ys h = absurd (omega arith)
  take-append_at (suc n) [] ys h = absurd (omega arith)
  take-append_at (suc n) (x ∷ xs) ys h = ap (λ r. x ∷ r) (take-append_at n xs ys (omega arith))

  pub drop-append_at : (n : ℕ) (xs ys : List A) → length xs ≡ n → drop n (xs ++ ys) ≡ ys
  drop-append_at zero [] ys h = refl
  drop-append_at zero (x ∷ xs) ys h = absurd (omega arith)
  drop-append_at (suc n) [] ys h = absurd (omega arith)
  drop-append_at (suc n) (x ∷ xs) ys h = drop-append_at n xs ys (omega arith)

  pub take_nil : (n : ℕ) → take {A = A} n [] ≡ []
  take_nil zero = refl
  take_nil (suc n) = refl

  pub drop_nil : (n : ℕ) → drop {A = A} n [] ≡ []
  drop_nil zero = refl
  drop_nil (suc n) = refl

  pub take-split : (k n : ℕ) (xs : List A) → take (k + n) xs ≡ take k xs ++ take n (drop k xs)
  take-split zero n xs = ap (λ m. take m xs) (omega arith)
  take-split (suc k) n [] = take_nil (suc k + n) ∙ sym (take_nil n)
  take-split (suc k) n (x ∷ xs) =
      let e : suc k + n ≡ suc (k + n) = omega arith in
      ap (λ m. take m (x ∷ xs)) e ∙ ap (λ r. x ∷ r) (take-split k n xs)

  drop-drop : (k a : ℕ) (xs : List A) → drop k (drop a xs) ≡ drop (a + k) xs
  drop-drop k zero xs = ap (λ m. drop m xs) (omega arith)
  drop-drop k (suc a) [] = drop_nil k ∙ sym (drop_nil (suc a + k))
  drop-drop k (suc a) (x ∷ xs) =
      let e : suc (a + k) ≡ suc a + k = omega arith in
      drop-drop k a xs ∙ ap (λ m. drop m (x ∷ xs)) e

  -- A slice is cut at a place between its ends.
  pub slice-split :
      (a k b : ℕ) (xs : List A)
      → a + k ≤ b
      → slice xs a b ≡ slice xs a (a + k) ++ slice xs (a + k) b
  slice-split a k b xs h =
      ap (λ m. take m (drop a xs)) (omega arith)
      ∙ take-split (a + k - a) (b - (a + k)) (drop a xs)
      ∙ ap (λ ys. slice xs a (a + k) ++ take (b - (a + k)) ys)
          (drop-drop (a + k - a) a xs ∙ ap (λ m. drop m xs) (omega arith))

  pub take-take : (k n : ℕ) (xs : List A) → k ≤ n → take k (take n xs) ≡ take k xs
  take-take zero n xs h = refl
  take-take (suc k) zero xs h = absurd (omega arith)
  take-take (suc k) (suc n) [] h = refl
  take-take (suc k) (suc n) (x ∷ xs) h = ap (λ r. x ∷ r) (take-take k n xs (omega arith))

  -- The front of a slice is the slice up to there.
  pub take-slice :
      (k a b : ℕ) (xs : List A) → a + k ≤ b → take k (slice xs a b) ≡ slice xs a (a + k)
  take-slice k a b xs h =
      let e : k ≡ a + k - a = omega arith in
      take-take k (b - a) (drop a xs) (omega arith) ∙ ap (λ m. take m (drop a xs)) e

  pub length-slice : (a b : ℕ) (xs : List A) → a ≤ b → b ≤ length xs → length (slice xs a b) ≡ b - a
  length-slice a b xs h fits = length-take (b - a) (drop a xs) (omega (arith, length-drop a xs))

  pub slice_empty : (a b : ℕ) (xs : List A) → a ≡ b → slice xs a b ≡ []
  slice_empty a b xs h = let e : b - a ≡ 0 = omega arith in ap (λ m. take m (drop a xs)) e
