-- ===== src/Executor/NodeTests.antt =====
-- Requests to the endpoints of a node.
use oyster_monorepo.Base.{
  ℕ, zero, suc, ◌≡◌, inl, refl, true, false, Option, none, some, List, [], ◌∷◌,
}
use oyster_monorepo.Executor.Jobs.{Signer}
use oyster_monorepo.Executor.Node.{
  Node, Request, immutable_config, mutable_config, signed_registration_message,
  inject_immutable_config, inject_mutable_config, export_signed_registration_message,
  sign_registration, handle_request, handle_requests,
}
use oyster_monorepo.Executor.Requests.{IsRun, handle_requests-IsRun}

-- Hexadecimal digits stand for themselves.
abbrev toy_decode : List ℕ → Option (List ℕ)
toy_decode digits = some digits

abbrev toy_signer : Signer
toy_signer = record {
  keccak256 = λ bytes. bytes;
  encode = λ tokens. 0 ∷ [];
  encode_packed = λ tokens. some [];
  sign_prehash = λ digest. some (8 ∷ [], 1);
}

-- Two addresses that are sent as owner, a key, and two requests for the registration.
abbrev repeat : ℕ → ℕ → List ℕ
repeat zero x = []
repeat (suc n) x = x ∷ repeat n x

abbrev requests : List Request
requests =
    signed_registration_message 5 (some 12)
    ∷ immutable_config (repeat 20 3)
    ∷ immutable_config (repeat 20 4)
    ∷ mutable_config (repeat 32 6) true (some 9)
    ∷ signed_registration_message 6 (some 13)
    ∷ signed_registration_message 7 none
    ∷ []

abbrev new_node : Node
new_node = record {
  job_capacity = 2;
  immutable_params_injected = false;
  mutable_params_injected = false;
  events_listener_active = false;
  enclave_owner = repeat 20 0;
  http_rpc_client = none;
  nonce_to_send = 0;
  listeners = 0;
}

handle_requests-IsRun_example :
    IsRun toy_signer new_node
      (handle_requests toy_decode (λ key. some (repeat 20 8)) toy_signer requests new_node)
handle_requests-IsRun_example =
    handle_requests-IsRun toy_signer toy_decode (λ key. some (repeat 20 8)) requests new_node
      (record { one = refl; configured_first = inl refl; connected = refl })

one_listener :
    (handle_requests toy_decode
      (λ key. some (repeat 20 8))
      toy_signer
      requests
      new_node).1.listeners
    ≡ 1
unfolding handle_requests handle_request inject_immutable_config inject_mutable_config
    export_signed_registration_message sign_registration
one_listener = refl
