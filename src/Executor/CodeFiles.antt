-- ===== src/Executor/CodeFiles.antt =====
-- The code that is written for a job is the code that the transaction encodes.
use oyster_monorepo.Base.{
  ℕ, zero, suc, ◌-◌, ◌<◌, ◌≡◌, ◌≢◌, ◌∙◌, refl, sym, ap, true, false, Option, some, List, [], ◌∷◌,
  ◌++◌, arith, ltb, length, length-append, get_elem?, take, drop,
}
use mathlib.Core.List.{append_assoc, reverse, reverse_aux}
use oyster_monorepo.Guest.Reader.{bytes_eq}
use oyster_monorepo.Executor.SendError.{starts_with}
use oyster_monorepo.Executor.Code.{
  Value, object, text, written, later, position, unwrap_or, strip, method_prefix, is_char_boundary,
  read_calldata, check_address, create_code_file,
}

abbrev pub zeros : ℕ → List ℕ
zeros zero = []
zeros (suc n) = 0 ∷ zeros n

zeros-snoc : (n : ℕ) (acc : List ℕ) → zeros n ++ 0 ∷ acc ≡ 0 ∷ (zeros n ++ acc)
zeros-snoc zero acc = refl
zeros-snoc (suc n) acc = ap (λ r. 0 ∷ r) (zeros-snoc n acc)

reverse_aux-append :
    (xs ys acc : List ℕ) → reverse_aux (xs ++ ys) acc ≡ reverse_aux ys (reverse_aux xs acc)
reverse_aux-append [] ys acc = refl
reverse_aux-append (x ∷ xs) ys acc = reverse_aux-append xs ys (x ∷ acc)

reverse_aux-zeros : (n : ℕ) (acc : List ℕ) → reverse_aux (zeros n) acc ≡ zeros n ++ acc
reverse_aux-zeros zero acc = refl
reverse_aux-zeros (suc n) acc = reverse_aux-zeros n (0 ∷ acc) ∙ zeros-snoc n acc

length-zeros : (n : ℕ) → length (zeros n) ≡ n
length-zeros zero = refl
length-zeros (suc n) = omega (arith, length-zeros n)

position-zeros : (n x : ℕ) (ys : List ℕ) → x ≢ 0 → position (zeros n ++ x ∷ ys) ≡ some n
unfolding position
position-zeros zero x ys h = ground arith
position-zeros (suc n) x ys h = ap later (position-zeros n x ys h)

take-append : (xs ys : List ℕ) → take (length xs) (xs ++ ys) ≡ xs
take-append [] [] = refl
take-append [] (y ∷ ys) = refl
take-append (x ∷ xs) ys = ap (λ r. x ∷ r) (take-append xs ys)

drop-append : (xs ys : List ℕ) → drop (length xs) (xs ++ ys) ≡ ys
drop-append [] ys = refl
drop-append (x ∷ xs) ys = drop-append xs ys

-- The code before its last byte, the last byte, and the padding.
position-padded :
    (code : List ℕ) (x n : ℕ) → x ≢ 0 → position (reverse (code ++ x ∷ zeros n)) ≡ some n
position-padded code x n h =
    ap position (reverse_aux-append code (x ∷ zeros n) [] ∙ reverse_aux-zeros n (x ∷ reverse code))
    ∙ position-zeros n x (reverse code) h

take-less : (xs ys : List ℕ) (n : ℕ) → length ys ≡ n → take (length (xs ++ ys) - n) (xs ++ ys) ≡ xs
take-less xs ys n h =
    ap (λ m. take m (xs ++ ys)) (omega (arith, length-append xs ys)) ∙ take-append xs ys

take-padded :
    (code : List ℕ) (x n : ℕ)
    → take (length (code ++ x ∷ zeros n) - n) (code ++ x ∷ zeros n) ≡ code ++ x ∷ []
take-padded code x n =
    ap (λ l. take (length l - n) l) (sym (append_assoc code (x ∷ []) (zeros n)))
    ∙ take-less (code ++ x ∷ []) (zeros n) n (length-zeros n)

strip-padded : (code : List ℕ) (x n : ℕ) → x ≢ 0 → strip (code ++ x ∷ zeros n) ≡ code ++ x ∷ []
unfolding strip
strip-padded code x n h =
    ap (λ o. take (length (code ++ x ∷ zeros n) - unwrap_or 0 o) (code ++ x ∷ zeros n))
      (position-padded code x n h)
    ∙ take-padded code x n

starts_with-append : (xs ys : List ℕ) → starts_with xs (xs ++ ys) ≡ true
starts_with-append [] ys = refl
starts_with-append (x ∷ xs) ys = ground (arith, starts_with-append xs ys)

drop-end : (xs ys : List ℕ) (n : ℕ) → length xs ≡ n → drop n (xs ++ ys) ≡ ys
drop-end xs ys n h = ap (λ m. drop m (xs ++ ys)) (sym h) ∙ drop-append xs ys

-- Texts of ASCII characters.
abbrev pub IsAscii : List ℕ → Type 0
IsAscii [] = Unit
IsAscii (x ∷ xs) = (x < 128) × IsAscii xs

get_elem?-end : (xs ys : List ℕ) (n : ℕ) → length xs ≡ n → get_elem? (xs ++ ys) n ≡ get_elem? ys 0
get_elem?-end [] ys zero h = refl
get_elem?-end [] ys (suc n) h = ground arith
get_elem?-end (x ∷ xs) ys zero h = ground arith
get_elem?-end (x ∷ xs) ys (suc n) h = get_elem?-end xs ys n (omega arith)

is_char_boundary-end :
    (xs ys : List ℕ) (n : ℕ) → length xs ≡ n → IsAscii ys → is_char_boundary (xs ++ ys) n ≡ true
unfolding is_char_boundary
is_char_boundary-end xs [] n h k = ground (arith, get_elem?-end xs [] n h, length-append xs [])
is_char_boundary-end xs (y ∷ ys) n h k = ground (arith, get_elem?-end xs (y ∷ ys) n h)

bytes_eq_refl : (xs : List ℕ) → bytes_eq xs xs ≡ true
bytes_eq_refl [] = refl
bytes_eq_refl (x ∷ xs) = ground (arith, bytes_eq_refl xs)

read_calldata-good :
    (decode : List ℕ → Option (List ℕ)) (t code file : List ℕ)
    → ltb (length t) 138 ≡ false
    → starts_with method_prefix t ≡ true
    → is_char_boundary t 138 ≡ true
    → decode (drop 138 t) ≡ some code
    → strip code ≡ file
    → read_calldata decode true (text t) ≡ written file
read_calldata-good decode t code file long starts cut decoded stripped =
    rw (long, starts, cut, decoded, stripped)

check_address-good :
    (decode : List ℕ → Option (List ℕ)) (contract : List ℕ) (input : Value)
    → check_address decode true contract (text contract) input ≡ read_calldata decode true input
check_address-good decode contract input = ground (arith, bytes_eq_refl contract)

length-head :
    (prefix word : List ℕ) → length prefix ≡ 74 → length word ≡ 64 → length (prefix ++ word) ≡ 138
length-head prefix word hp hw = omega (arith, length-append prefix word)

long-enough : (head digits : List ℕ) → length head ≡ 138 → ltb (length (head ++ digits)) 138 ≡ false
long-enough head digits h = ground (arith, length-append head digits)

module _ (decode : List ℕ → Option (List ℕ)) where
  -- Where the calldata of a transaction to the contract is the ABI encoding of some code: the selector and
  -- the offset, a word for the length, and the hexadecimal digits of the code with zeros after it: the
  -- file that is written is the code, which ends with another byte than zero.
  pub create_code_file-encoded :
      (contract word digits code : List ℕ) (x n : ℕ)
      → length word ≡ 64
      → IsAscii digits
      → decode digits ≡ some (code ++ x ∷ zeros n)
      → x ≢ 0
      → create_code_file decode true contract
          (some (object (text contract) (text (method_prefix ++ word ++ digits))))
        ≡ written (code ++ x ∷ [])
  unfolding create_code_file
  create_code_file-encoded contract word digits code x n hw ha hd hx =
      let head = method_prefix ++ word in
      let tail = (length-head method_prefix word refl hw) in
      check_address-good decode contract (text (head ++ digits))
      ∙ read_calldata-good decode (head ++ digits) (code ++ x ∷ zeros n) (code ++ x ∷ [])
          (long-enough head digits tail) (starts_with-append method_prefix (word ++ digits))
          (is_char_boundary-end head digits 138 tail ha)
          (ap decode (drop-end head digits 138 tail) ∙ hd) (strip-padded code x n hx)
