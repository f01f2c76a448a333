-- ===== src/Scallop/Trust.antt =====
-- Whom the handshakes of sdks/rs/src/scallop.rs trust, and where they panic.
use mathlib.Core.Path.{subst}
use oyster_monorepo.Base.{
  ◌-◌, ◌&&◌, not, inl, inr, ℕ, ◌≡◌, refl, sym, ap, ◌∙◌, Bool, true, false, Bool-cases, Option, none,
  some, List, length, drop, get_elem?, ltb, ◌==◌, ==_true, arith, if_elim,
}
use oyster_monorepo.Base.Slices.{slice}
use oyster_monorepo.Scallop.Stream.{ScallopStream}
use oyster_monorepo.Scallop.Peer.{
  Result, ScallopError, protocol_error, failed, panicked, ok, ◌>>=◌, or_error, or_panic, reject_if,
  HandshakeLibrary, Wire, noise_read, remote_key, should_ask, verify_and_set, with_large_buffers,
  is_none,
}
use oyster_monorepo.Scallop.Handshake.{
  client_hello, into_transport, answer_server, read_serverfin, new_client, server_hello,
  answer_client, verify_if, read_clientfin, send_serverfin, new_server, has_size,
}

-- The answer of the first of two steps, where the second has one.
through :
    {X Y P : Type 0} (first : Result X) (next : X → Result Y) {y : Y}
    → (first >>= next) ≡ ok y
    → ((x : X) → first ≡ ok x → next x ≡ ok y → P)
    → P
through (failed error) next e found = absurd (ground arith)
through panicked next e found = absurd (ground arith)
through (ok x) next e found = found x refl e

or_error-ok :
    {A : Type 0} (error : ScallopError) (o : Option A) {a : A}
    → or_error error o ≡ ok a
    → o ≡ some a
or_error-ok error none h = absurd (ground arith)
or_error-ok error (some x) h = ground arith

or_panic-ok : {A : Type 0} (o : Option A) {a : A} → or_panic o ≡ ok a → o ≡ some a
or_panic-ok none h = absurd (ground arith)
or_panic-ok (some x) h = ground arith

ok_injective : {A : Type 0} {a b : A} → ok a ≡ ok b → a ≡ b
ok_injective h = ground arith

module _ {Handshake Noise Base Store Pcrs Auther : Type 0}
    (lib : HandshakeLibrary Handshake Noise Base Store Pcrs Auther) where
  -- Why the key of the other side is trusted, and what the store is afterwards: nobody asks for more, the
  -- store has it, or an attestation for it was verified, and the store then has it.
  pub data IsTrusted (key : List ℕ) : Option Store → Option Store → Type 0 where
    unasked : IsTrusted key none none
    known :
        {store : Store} → lib.contains store key ≡ true → IsTrusted key (some store) (some store)
    attested :
        {store verified : Store} {pcrs : Pcrs} (attestation : List ℕ)
        → lib.contains store key ≡ false
        → lib.verify store attestation key ≡ (some pcrs, verified)
        → IsTrusted key (some store) (some (lib.set verified key pcrs))

  verify_and_set-IsTrusted :
      (store : Store) (attestation key : List ℕ) (auth_store : Option Store)
      → lib.contains store key ≡ false
      → verify_and_set lib (some store) attestation key ≡ ok auth_store
      → IsTrusted key (some store) auth_store
  verify_and_set-IsTrusted store attestation key auth_store new h =
      let answer = lib.verify store attestation key in
      through (or_error (protocol_error "invalid attestation") answer.0) _ h (λ pcrs e h₁.
        subst (IsTrusted key (some store)) (ok_injective h₁) (
          attested attestation new (
            ap (λ o. (o, answer.1))
              (or_error-ok (protocol_error "invalid attestation") answer.0 e))))

  remote_key-some :
      (noise : Handshake) (key : List ℕ)
      → remote_key lib noise ≡ ok key
      → (lib.get_remote_static noise ≡ some key) × (length key ≡ 32)
  remote_key-some noise key h = through (or_panic (lib.get_remote_static noise)) _ h (λ found e h₁.
      if_elim (λ r. r ≡ ok key → (lib.get_remote_static noise ≡ some key) × (length key ≡ 32))
        (length found == 32)
        (λ size same.
          let found_key : found ≡ key = ok_injective same in
          (
            or_panic-ok (lib.get_remote_static noise) e ∙ ap some found_key,
            ap length (sym found_key) ∙ ==_true (length found) 32 size,
          ))
        (λ size same. absurd (ground arith)) h₁)

  verify_if-IsTrusted :
      (auth_store after : Option Store) (attestation key : List ℕ)
      → verify_if lib (should_ask lib auth_store key) auth_store attestation key ≡ ok after
      → IsTrusted key auth_store after
  verify_if-IsTrusted none after attestation key h =
      subst (λ s. IsTrusted key none s) (ok_injective h) unasked
  verify_if-IsTrusted (some store) after attestation key h =
      elim (Bool-cases (lib.contains store key)) [
        | inl has ↦
            subst (λ s. IsTrusted key (some store) s)
              (ok_injective
                (ap (λ b. verify_if lib (not b) (some store) attestation key) (sym has) ∙ h))
              (known has)
        | inr new ↦
            verify_and_set-IsTrusted store attestation key after new
              (ap (λ b. verify_if lib (not b) (some store) attestation key) (sym new) ∙ h)
      ]

  -- The front of `read_clientfin` and of `read_serverfin` makes no difference to the store.
  read_clientfin-IsTrusted :
      (auth_store : Option Store) (key : List ℕ) (w : Wire Noise Base)
      (fin : Bool × (Option Store × Wire Noise Base))
      → read_clientfin lib (should_ask lib auth_store key) auth_store key w ≡ ok fin
      → IsTrusted key auth_store fin.1.0
  unfolding read_clientfin
  read_clientfin-IsTrusted auth_store key w fin h =
      through (noise_read lib lib.transport w) _ h (λ message _ h₁.
        let len = message.0 in
        let noise_buf = message.1.noise_buf in
        let attestation = slice noise_buf 3 len in
        through (reject_if (ltb len 3) "invalid CLIENTFIN length") _ h₁ (λ _ _ h₂.
          through (has_size (drop 1 noise_buf) (len - 3)) _ h₂ (λ sized _ h₃.
            through (reject_if (not sized) "invalid CLIENTFIN payload length") _ h₃ (λ _ _ h₄.
              through (verify_if lib (should_ask lib auth_store key) auth_store attestation key) _
                h₄
                (λ after checked h₅.
                  through (or_panic (get_elem? noise_buf 0)) _ h₅ (λ request _ h₆.
                    through (reject_if (ltb 1 request) "invalid auth request in third payload") _ h₆
                      (λ _ _ h₇.
                        subst
                          (λ (r : Bool × (Option Store × Wire Noise Base)).
                            IsTrusted key auth_store r.1.0)
                          (ok_injective h₇)
                          (verify_if-IsTrusted auth_store after attestation key checked))))))))

  read_serverfin-IsTrusted :
      (auth_store : Option Store) (key : List ℕ) (w : Wire Noise Base)
      (fin : Option Store × Wire Noise Base)
      → read_serverfin lib (should_ask lib auth_store key) auth_store key w ≡ ok fin
      → IsTrusted key auth_store fin.0
  unfolding read_serverfin
  read_serverfin-IsTrusted none key w fin h =
      subst (λ (r : Option Store × Wire Noise Base). IsTrusted key none r.0) (ok_injective h)
        unasked
  read_serverfin-IsTrusted (some store) key w fin h = elim (Bool-cases (lib.contains store key)) [
    | inl has ↦
        subst (λ (r : Option Store × Wire Noise Base). IsTrusted key (some store) r.0)
          (ok_injective (ap (λ b. read_serverfin lib (not b) (some store) key w) (sym has) ∙ h))
          (known has)
    | inr new ↦
        let h₀ = ap (λ b. read_serverfin lib (not b) (some store) key w) (sym new) ∙ h in
        through (noise_read lib lib.transport (with_large_buffers lib w)) _ h₀ (λ message _ h₁.
          let len = message.0 in
          let noise_buf = message.1.noise_buf in
          let attestation = slice noise_buf 2 len in
          through (reject_if (ltb len 2) "invalid SERVERFIN length") _ h₁ (λ _ _ h₂.
            through (has_size noise_buf (len - 2)) _ h₂ (λ sized _ h₃.
              through (reject_if (not sized) "invalid SERVERFIN payload length") _ h₃ (λ _ _ h₄.
                through (verify_and_set lib (some store) attestation key) _ h₄ (λ after checked h₅.
                  subst (λ (r : Option Store × Wire Noise Base). IsTrusted key (some store) r.0)
                    (ok_injective h₅)
                    (verify_and_set-IsTrusted store attestation key after new checked))))))
  ]

  -- A server that ends its handshake with a stream has received the client's static key with the first
  -- message of the noise protocol, and trusts it: it has no store, its store has the key, or an attestation
  -- was verified for the key, and the store has it now.
  pub new_server-IsTrusted :
      (secret : List ℕ) (auth_store after : Option Store) (auther : Option Auther) (stream : Base)
      (s : ScallopStream Noise Base)
      → new_server lib secret auth_store auther stream ≡ ok (after, s)
      → (w : Wire Handshake Base) × (key : List ℕ) × (server_hello lib secret stream ≡ ok w)
        × (lib.get_remote_static w.noise ≡ some key)
        × (length key ≡ 32)
        × IsTrusted key auth_store after
  unfolding new_server
  new_server-IsTrusted secret auth_store after auther stream s h =
      through (server_hello lib secret stream) _ h (λ w hello h₁.
        through (remote_key lib w.noise) _ h₁ (λ key remote h₂.
          let asked = should_ask lib auth_store key in
          through (answer_client lib w asked) _ h₂ (λ w₁ _ h₃.
            through (read_clientfin lib asked auth_store key w₁) _ h₃ (λ fin clientfin h₄.
              through
                (reject_if (fin.0 && is_none lib auther) "auth requested but no auther available") _
                h₄
                (λ _ _ h₅. through (send_serverfin lib fin.0 auther fin.1.1) _ h₅ (λ w₂ _ h₆.
                  let (found, size) = remote_key-some w.noise key remote in
                  (
                    w,
                    key,
                    hello,
                    found,
                    size,
                    subst
                        (λ (r : Option Store × ScallopStream Noise Base).
                          IsTrusted key auth_store r.0)
                        (ok_injective h₆)
                        (read_clientfin-IsTrusted auth_store key w₁ fin clientfin),
                  )))))))

  -- A client that ends its handshake with a stream has received the server's static key with the answer to
  -- its first message of the noise protocol, and trusts it: it has no store, its store has the key, or an
  -- attestation was verified for the key, and the store has it now.
  pub new_client-IsTrusted :
      (secret : List ℕ) (auth_store after : Option Store) (auther : Option Auther) (stream : Base)
      (s : ScallopStream Noise Base)
      → new_client lib secret auth_store auther stream ≡ ok (after, s)
      → (answer : Bool × Wire Handshake Base) × (key : List ℕ) × (client_hello lib secret auther
            stream
          ≡ ok answer)
        × (lib.get_remote_static answer.1.noise ≡ some key)
        × (length key ≡ 32)
        × IsTrusted key auth_store after
  unfolding new_client
  new_client-IsTrusted secret auth_store after auther stream s h =
      through (client_hello lib secret auther stream) _ h (λ answer hello h₁.
        through (remote_key lib answer.1.noise) _ h₁ (λ key remote h₂.
          let asked = should_ask lib auth_store key in
          through (into_transport lib answer.1) _ h₂ (λ w₁ _ h₃.
            through (answer_server lib answer.0 auther w₁ asked) _ h₃ (λ w₂ _ h₄.
              through (read_serverfin lib asked auth_store key w₂) _ h₄ (λ fin serverfin h₅.
                let (found, size) = remote_key-some answer.1.noise key remote in
                (
                  answer,
                  key,
                  hello,
                  found,
                  size,
                  subst
                      (λ (r : Option Store × ScallopStream Noise Base).
                        IsTrusted key auth_store r.0)
                      (ok_injective h₅) (read_serverfin-IsTrusted auth_store key w₂ fin serverfin),
                ))))))
