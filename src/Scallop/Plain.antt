-- ===== src/Scallop/Plain.antt =====
-- A base that holds its bytes in two lists, and a noise protocol that does not change what it carries: what
-- sdks/rs/src/scallop.rs relies on holds of them.
use mathlib.Core.Path.{subst}
use oyster_monorepo.Base.{
  ℕ, zero, suc, ◌≤◌, ◌≡◌, refl, ap, ◌∙◌, Option, none, some, List, [], ◌∷◌, ◌++◌, length, take,
  drop, length-append, All, arith, leb, if◌then◌else◌, if_elim,
}
use oyster_monorepo.Base.Slices.{
  length-take_bound, take-drop, length-take_le, length-drop, take-append_at,
}
use oyster_monorepo.Scallop.Library.{ready, Noiser, AsyncBase}
use oyster_monorepo.Scallop.Laws.{
  IsPipe, IsPaired, Fits, Decrypts, Wrote, All-append, here, wrote, refused, read,
}

-- What is still to be read, and what was written.
abbrev pub Pipe : Type 0
Pipe = List ℕ × List ℕ

-- It takes three bytes at a time at most.
abbrev pub pipe : AsyncBase Pipe
pipe = record {
  poll_read = λ p n. (ready (take n p.0), (drop n p.0, p.1));
  poll_write = λ p bytes. (ready (length (take 3 bytes)), (p.0, p.1 ++ take 3 bytes));
  poll_flush = λ p. (ready tt, p);
  poll_shutdown = λ p. (ready tt, p);
}

take-length-take : (n : ℕ) (bytes : List ℕ) → take n bytes ≡ take (length (take n bytes)) bytes
take-length-take zero bytes = refl
take-length-take (suc n) [] = refl
take-length-take (suc n) (b ∷ bytes) = ap (λ bs. b ∷ bs) (take-length-take n bytes)

pub pipe-IsPipe : IsPipe pipe (λ p. p.0) (λ p. p.1)
pipe-IsPipe = record {
  read_takes = λ p n. take-drop n p.0;
  read_fits = λ p n. length-take_le n p.0;
  read_sends = λ p n. refl;
  write_sends = λ p bytes. ap (λ bs. p.1 ++ bs) (take-length-take 3 bytes);
  write_fits = λ p bytes. length-take_bound 3 bytes;
  write_keeps = λ p bytes. refl;
  flush_sends = λ p. refl;
  flush_keeps = λ p. refl;
}

-- The bytes are put at the front of the buffer, if they fit.
abbrev pub copy : List ℕ → List ℕ → Option ℕ × (List ℕ × Unit {0})
copy bytes buffer =
    if leb (length bytes) (length buffer)
    then (some (length bytes), (bytes ++ drop (length bytes) buffer, tt))
    else (none, (buffer, tt))

abbrev pub plain : Noiser (Unit {0})
plain = record { read_message = λ u. copy; write_message = λ u. copy }

Same : List ℕ × List ℕ → Type 0
Same (message, payload) = message ≡ payload

copy-Fits : (bytes buffer : List ℕ) → Fits plain (length buffer) (copy bytes buffer)
copy-Fits bytes buffer =
    if_elim (Fits plain (length buffer)) (leb (length bytes) (length buffer))
      (λ h. (
        ground arith,
        ground (
          arith,
          length-append bytes (drop (length bytes) buffer),
          length-drop (length bytes) buffer,
        ),
      ))
      (λ h. tt)

copy_fits :
    (bytes buffer : List ℕ)
    → length bytes ≤ length buffer
    → copy bytes buffer ≡ (some (length bytes), (bytes ++ drop (length bytes) buffer, tt))
copy_fits bytes buffer h =
    if_elim
      (λ (r : Option ℕ × (List ℕ × Unit {0})).
        r ≡ (some (length bytes), (bytes ++ drop (length bytes) buffer, tt)))
      (leb (length bytes) (length buffer)) (λ e. refl) (λ e. absurd (ground arith))

Same-Decrypts : (records : List (List ℕ × List ℕ)) → All Same records → Decrypts plain tt records
unfolding Same
Same-Decrypts [] same = tt
Same-Decrypts ((message, payload) ∷ rest) (same, more) = λ buffer fits.
    let size : length payload ≤ length buffer = omega (arith, ap length same) in
    (
      payload ++ drop (length payload) buffer,
      tt,
      ap (λ m. copy m buffer) same ∙ copy_fits payload buffer size,
      take-append_at (length payload) payload (drop (length payload) buffer) refl,
      Same-Decrypts rest more,
    )

Copied : List ℕ → Option ℕ × (List ℕ × Unit {0}) → Type 0
Copied payload (none, (written, u)) = Unit {0}
Copied payload (some len, (written, u)) = take len written ≡ payload

copy-Copied : (payload buffer : List ℕ) → Copied payload (copy payload buffer)
unfolding Copied
copy-Copied payload buffer =
    if_elim (Copied payload) (leb (length payload) (length buffer))
      (λ h. take-append_at (length payload) payload (drop (length payload) buffer) refl) (λ h. tt)

Wrote-Same :
    (start noise : Unit {0}) (records : List (List ℕ × List ℕ))
    → Wrote plain start records noise
    → All Same records
unfolding Same Copied
Wrote-Same start noise records here = tt
Wrote-Same start noise records (wrote {sofar} {payload = payload} {buffer} {written} {len} w e) =
    All-append Same sofar (take len written, payload) (Wrote-Same start _ sofar w)
      (subst (Copied payload) e (copy-Copied payload buffer))
Wrote-Same start noise records (refused w e) = Wrote-Same start _ _ w
Wrote-Same start noise records (read w) = Wrote-Same start _ _ w

pub plain-IsPaired : IsPaired plain tt tt
plain-IsPaired = record {
  write_fits = λ noise payload buffer. copy-Fits payload buffer;
  decrypts = λ sofar noise w. Same-Decrypts sofar (Wrote-Same tt noise sofar w);
  write_keeps = λ noise rest payload buffer h. h;
}

-- A message that is its own payload.
pub copied-Decrypts : (bytes : List ℕ) → Decrypts plain tt ((bytes, bytes) ∷ [])
unfolding Same
copied-Decrypts bytes = Same-Decrypts ((bytes, bytes) ∷ []) (refl, tt)
