-- ===== src/Executor/Requests.antt =====
-- What holds of a node whatever requests it is sent, in whatever order.
use oyster_monorepo.Base.{
  ℕ, ◌-◌, ◌≡◌, ◌⊎◌, refl, Bool, true, false, not, Option, none, some, List, [], ◌∷◌, arith, ◌==◌,
  if◌then◌else◌, length, All,
}
use oyster_monorepo.Executor.Jobs.{Signer}
use oyster_monorepo.Executor.Node.{
  Node, Registration, Response, configured, bad_request, internal_server_error, panicked,
  registration, Request, immutable_config, mutable_config, signed_registration_message,
  listener_ends, strip_0x, set_owner, inject_immutable_config, set_client, connect, read_key,
  inject_mutable_config, sign_registration, start_listener, with_client, with_signature,
  export_signed_registration_message, end_listener, handle_request, handle_requests,
}

abbrev pub is_some : Option (List ℕ) → Bool
is_some none = false
is_some (some client) = true

-- At most one listener runs, which the flag says, and only where both parts of the configuration are
-- there; and the client is there where its flag says so.
pub record IsReady (s : Node) : Type 0 where
  pub one : s.listeners ≡ (if s.events_listener_active then 1 else 0)
  pub configured_first :
      (s.events_listener_active ≡ false)
      ⊎ ((s.immutable_params_injected ≡ true) × (s.mutable_params_injected ≡ true))
  pub connected : is_some s.http_rpc_client ≡ s.mutable_params_injected

-- An owner that was set stays.
abbrev pub IsKept : Node → Node → Type 0
IsKept s t =
    (s.immutable_params_injected ≡ false)
    ⊎ ((t.immutable_params_injected ≡ true) × (t.enclave_owner ≡ s.enclave_owner))

module _ (signer : Signer) where
  -- No answer is a panic, and a registration is signed and for the owner of the node.
  abbrev pub IsGood : Node → Response → Type 0
  IsGood t panicked = ⊥
  IsGood t (registration r) =
      (r.owner ≡ t.enclave_owner)
      × (t.immutable_params_injected ≡ true)
      × (sign_registration signer r.owner r.job_capacity r.sign_timestamp ≡ some r.signature)
  IsGood t configured = Unit {0}
  IsGood t bad_request = Unit {0}
  IsGood t internal_server_error = Unit {0}

  -- A request and a run of requests that keep all of this.
  pub record IsStep (s : Node) (x : Response × Node) : Type 0 where
    pub ready : IsReady x.1
    pub kept : IsKept s x.1
    pub good : IsGood x.1 x.0

  pub record IsRun (s : Node) (x : List Response × Node) : Type 0 where
    pub ready : IsReady x.1
    pub kept : IsKept s x.1
    pub good : All (IsGood x.1) x.0

  refused-IsStep : (s : Node) → IsReady s → IsStep s (bad_request, s)
  refused-IsStep s h = ground arith

  failed-IsStep : (s : Node) → IsReady s → IsStep s (internal_server_error, s)
  failed-IsStep s h = ground arith

  module _ (decode : List ℕ → Option (List ℕ)) where
    owned-IsStep :
        (s : Node) (owner : List ℕ)
        → IsReady s
        → s.immutable_params_injected ≡ false
        → IsStep s
            (configured, record s { enclave_owner = owner; immutable_params_injected = true })
    owned-IsStep s owner h new = ground arith

    set_owner-IsStep :
        (s : Node) (o : Option (List ℕ))
        → IsReady s
        → s.immutable_params_injected ≡ false
        → IsStep s (set_owner s o)
    set_owner-IsStep s none h new = refused-IsStep s h
    set_owner-IsStep s (some owner) h new =
        elim (length owner == 20)
          as (λ b. IsStep s (
            if b
            then (configured, record s { enclave_owner = owner; immutable_params_injected = true })
            else (bad_request, s))) [
              | true ↦ owned-IsStep s owner h new
              | false ↦ refused-IsStep s h
            ]

    module _ (wallet_of : List ℕ → Option (List ℕ)) where
      set_client-IsStep :
          (s : Node) (client : List ℕ) (count : Option ℕ)
          → IsReady s
          → IsStep s (set_client s client count)
      set_client-IsStep s client none h = failed-IsStep s h
      set_client-IsStep s client (some nonce) h = ground arith

      connect-IsStep :
          (s : Node) (valid : Bool) (count : Option ℕ) (o : Option (List ℕ))
          → IsReady s
          → IsStep s (connect s valid count o)
      connect-IsStep s valid count none h = refused-IsStep s h
      connect-IsStep s true count (some client) h = set_client-IsStep s client count h
      connect-IsStep s false count (some client) h = failed-IsStep s h

      read_key-IsStep :
          (s : Node) (valid : Bool) (count : Option ℕ) (o : Option (List ℕ))
          → IsReady s
          → IsStep s (read_key decode wallet_of s valid count o)
      read_key-IsStep s valid count none h = refused-IsStep s h
      read_key-IsStep s valid count (some key) h =
          elim (length key == 32)
            as (λ b.
              IsStep s (if b then connect s valid count (wallet_of key) else (bad_request, s))) [
                | true ↦ connect-IsStep s valid count (wallet_of key) h
                | false ↦ refused-IsStep s h
              ]

  started-IsStep :
      (s : Node) (r : Registration) (active : Bool) (block : Option ℕ)
      → IsReady s
      → s.events_listener_active ≡ active
      → s.immutable_params_injected ≡ true
      → s.mutable_params_injected ≡ true
      → r.owner ≡ s.enclave_owner
      → sign_registration signer r.owner r.job_capacity r.sign_timestamp ≡ some r.signature
      → IsStep s (start_listener s r active block)
  started-IsStep s r true block h e i m o g = ground arith
  started-IsStep s r false none h e i m o g = failed-IsStep s h
  started-IsStep s r false (some b) h e i m o g = ground arith

  with_client-IsStep :
      (s : Node) (r : Registration) (block : Option ℕ) (client : Option (List ℕ))
      → IsReady s
      → s.http_rpc_client ≡ client
      → s.immutable_params_injected ≡ true
      → s.mutable_params_injected ≡ true
      → r.owner ≡ s.enclave_owner
      → sign_registration signer r.owner r.job_capacity r.sign_timestamp ≡ some r.signature
      → IsStep s (with_client s r block client)
  with_client-IsStep s r block none h e i m o g = absurd (ground (arith, h.connected))
  with_client-IsStep s r block (some client) h e i m o g =
      started-IsStep s r s.events_listener_active block h refl i m o g

  with_signature-IsStep :
      (s : Node) (sign_timestamp : ℕ) (block : Option ℕ) (signature : Option (List ℕ))
      → IsReady s
      → s.immutable_params_injected ≡ true
      → s.mutable_params_injected ≡ true
      → sign_registration signer s.enclave_owner s.job_capacity sign_timestamp ≡ signature
      → IsStep s (with_signature s sign_timestamp block signature)
  with_signature-IsStep s sign_timestamp block none h i m g = failed-IsStep s h
  with_signature-IsStep s sign_timestamp block (some signature) h i m g =
      with_client-IsStep s _ block s.http_rpc_client h refl i m refl g

  exported-IsStep :
      (s : Node) (sign_timestamp : ℕ) (block : Option ℕ) (i m : Bool)
      → IsReady s
      → s.immutable_params_injected ≡ i
      → s.mutable_params_injected ≡ m
      → IsStep s (
          if not i
          then (bad_request, s)
          else if not m
          then (bad_request, s)
          else with_signature s sign_timestamp block
              (sign_registration signer s.enclave_owner s.job_capacity sign_timestamp))
  exported-IsStep s sign_timestamp block false m h e f = refused-IsStep s h
  exported-IsStep s sign_timestamp block true false h e f = refused-IsStep s h
  exported-IsStep s sign_timestamp block true true h e f =
      with_signature-IsStep s sign_timestamp block
        (sign_registration signer s.enclave_owner s.job_capacity sign_timestamp) h e f refl

  end_listener-IsStep : (s : Node) → IsReady s → IsStep s (configured, end_listener s)
  unfolding end_listener
  end_listener-IsStep s h =
      elim (s.listeners == 0)
        as (λ b. IsStep s (
          configured,
          (if b
              then s
              else record s { events_listener_active = false; listeners = s.listeners - 1 }),
        )) [ true ↦ ground arith | false ↦ ground arith ]

  module _ (decode wallet_of : List ℕ → Option (List ℕ)) where
    immutable_config-IsStep :
        (s : Node) (hex : List ℕ) (b : Bool)
        → IsReady s
        → s.immutable_params_injected ≡ b
        → IsStep s (if b then (bad_request, s) else set_owner s (decode (strip_0x hex)))
    immutable_config-IsStep s hex true h e = refused-IsStep s h
    immutable_config-IsStep s hex false h e = set_owner-IsStep decode s (decode (strip_0x hex)) h e

    handle_request-IsStep :
        (s : Node) (q : Request) → IsReady s → IsStep s (handle_request decode wallet_of signer s q)
    unfolding handle_request inject_immutable_config inject_mutable_config
        export_signed_registration_message
    handle_request-IsStep s (immutable_config hex) h =
        immutable_config-IsStep s hex s.immutable_params_injected h refl
    handle_request-IsStep s (mutable_config hex valid count) h =
        read_key-IsStep decode wallet_of s valid count (decode (strip_0x hex)) h
    handle_request-IsStep s (signed_registration_message sign_timestamp block) h =
        exported-IsStep s sign_timestamp block s.immutable_params_injected s.mutable_params_injected
          h refl refl
    handle_request-IsStep s listener_ends h = end_listener-IsStep s h

    IsKept-trans : (s t u : Node) → IsKept s t → IsKept t u → IsKept s u
    IsKept-trans s t u h k = ground arith

    IsGood-IsKept : (t u : Node) (r : Response) → IsKept t u → IsGood t r → IsGood u r
    IsGood-IsKept t u configured k g = tt
    IsGood-IsKept t u bad_request k g = tt
    IsGood-IsKept t u internal_server_error k g = tt
    IsGood-IsKept t u panicked k g = g
    IsGood-IsKept t u (registration r) k g = ground arith

    -- From a node whose configuration is as its flags say and with a listener exactly where the flag says
    -- so, whatever requests arrive in whatever order: at most one listener runs, and only where both parts
    -- of the configuration were injected; an owner that was injected stays; no handler panics; and every
    -- registration that was answered is signed, for the owner that the node has in the end.
    pub handle_requests-IsRun :
        (requests : List Request) (s : Node)
        → IsReady s
        → IsRun s (handle_requests decode wallet_of signer requests s)
    unfolding handle_requests
    handle_requests-IsRun [] s h = ground arith
    handle_requests-IsRun (q ∷ rest) s h =
        let handled = handle_request decode wallet_of signer s q in
        let first = handle_request-IsStep s q h in
        let later = handle_requests-IsRun rest handled.1 first.ready in
        let after = (handle_requests decode wallet_of signer rest handled.1).1 in
        record {
          ready = later.ready;
          kept = IsKept-trans s handled.1 after first.kept later.kept;
          good = (IsGood-IsKept handled.1 after handled.0 later.kept first.good, later.good);
        }
