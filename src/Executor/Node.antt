-- ===== src/Executor/Node.antt =====
-- The endpoints of node_handler.rs that inject the configuration and start the listener. What the RPC
-- answers and what the clock says is part of a request.
use oyster_monorepo.Base.{
  ℕ, ◌+◌, ◌-◌, Bool, true, false, not, Option, none, some, List, [], ◌∷◌, ◌==◌, if◌then◌else◌,
  length,
}
use oyster_monorepo.Guest.Reader.{codes}
use oyster_monorepo.Executor.State.{execution_env_id}
use oyster_monorepo.Executor.Jobs.{Signer, fixed_bytes, uint, address, text_token, sign_digest}

-- The part of `AppState` that the endpoints use, and how many listeners run. A client stands for the
-- address that it signs for, an address for its bytes.
pub record Node : Type 0 where
  pub job_capacity : ℕ
  pub immutable_params_injected : Bool
  pub mutable_params_injected : Bool
  pub events_listener_active : Bool
  pub enclave_owner : List ℕ
  pub http_rpc_client : Option (List ℕ)
  pub nonce_to_send : ℕ
  pub listeners : ℕ

-- The message that registers the enclave.
pub record Registration : Type 0 where
  pub job_capacity : ℕ
  pub sign_timestamp : ℕ
  pub env : ℕ
  pub owner : List ℕ
  pub signature : List ℕ

-- An answer with its status; `panicked` is that the handler has panicked.
pub data Response : Type 0 where
  configured bad_request internal_server_error panicked : Response
  registration : Registration → Response

pub data Request : Type 0 where
  immutable_config : (owner_address_hex : List ℕ) → Request
  mutable_config :
      (gas_key_hex : List ℕ) → (is_url_valid : Bool) → (transaction_count : Option ℕ) → Request
  signed_registration_message : (sign_timestamp : ℕ) → (current_block_number : Option ℕ) → Request
  listener_ends : Request

-- `strip_prefix("0x").unwrap_or(…)`
abbrev pub strip_0x : List ℕ → List ℕ
strip_0x (c ∷ d ∷ rest) =
    if c == 48 then (if d == 120 then rest else c ∷ d ∷ rest) else c ∷ d ∷ rest
strip_0x short = short

abbrev pub set_owner : Node → Option (List ℕ) → Response × Node
set_owner s none = (bad_request, s)
set_owner s (some owner_address) =
    if length owner_address == 20
    then (configured, record s { enclave_owner = owner_address; immutable_params_injected = true })
    else (bad_request, s)

abbrev pub set_client : Node → List ℕ → Option ℕ → Response × Node
set_client s client none = (internal_server_error, s)
set_client s client (some nonce) = (
  configured,
  record s { nonce_to_send = nonce; http_rpc_client = some client; mutable_params_injected = true },
)

abbrev pub connect : Node → Bool → Option ℕ → Option (List ℕ) → Response × Node
connect s is_url_valid transaction_count none = (bad_request, s)
connect s is_url_valid transaction_count (some client) =
    if is_url_valid then set_client s client transaction_count else (internal_server_error, s)

-- `hex::decode` is an argument.
module _ (decode : List ℕ → Option (List ℕ)) where
  unfoldable pub inject_immutable_config : List ℕ → Node → Response × Node
  inject_immutable_config owner_address_hex s =
      if s.immutable_params_injected
      then (bad_request, s)
      else set_owner s (decode (strip_0x owner_address_hex))

  -- `LocalWallet::from_bytes` is the argument `wallet_of`, which gives the wallet's address.
  module _ (wallet_of : List ℕ → Option (List ℕ)) where
    abbrev pub read_key : Node → Bool → Option ℕ → Option (List ℕ) → Response × Node
    read_key s is_url_valid transaction_count none = (bad_request, s)
    read_key s is_url_valid transaction_count (some bytes32_gas_key) =
        if length bytes32_gas_key == 32
        then connect s is_url_valid transaction_count (wallet_of bytes32_gas_key)
        else (bad_request, s)

    unfoldable pub inject_mutable_config : List ℕ → Bool → Option ℕ → Node → Response × Node
    inject_mutable_config gas_key_hex is_url_valid transaction_count s =
        read_key s is_url_valid transaction_count (decode (strip_0x gas_key_hex))

-- The listener is started where none is active.
abbrev pub start_listener : Node → Registration → Bool → Option ℕ → Response × Node
start_listener s message true current_block_number = (registration message, s)
start_listener s message false none = (internal_server_error, s)
start_listener s message false (some current_block_number) =
    (registration message, record s { events_listener_active = true; listeners = s.listeners + 1 })

-- `http_rpc_client.clone().unwrap()`
abbrev pub with_client : Node → Registration → Option ℕ → Option (List ℕ) → Response × Node
with_client s message current_block_number none = (panicked, s)
with_client s message current_block_number (some client) =
    start_listener s message s.events_listener_active current_block_number

abbrev pub with_signature : Node → ℕ → Option ℕ → Option (List ℕ) → Response × Node
with_signature s sign_timestamp current_block_number none = (internal_server_error, s)
with_signature s sign_timestamp current_block_number (some signature) =
    with_client s
      (record {
        job_capacity = s.job_capacity;
        sign_timestamp = sign_timestamp;
        env = execution_env_id;
        owner = s.enclave_owner;
        signature = signature;
      })
      current_block_number s.http_rpc_client

module _ (signer : Signer) where
  abbrev pub registration_domain : List ℕ
  registration_domain = signer.keccak256 (
      signer.encode (
        fixed_bytes (signer.keccak256 (codes "EIP712Domain(string name,string version)"))
        ∷ fixed_bytes (signer.keccak256 (codes "marlin.oyster.Executors"))
        ∷ fixed_bytes (signer.keccak256 (codes "1"))
        ∷ []))

  abbrev pub registration_hash : List ℕ → ℕ → ℕ → List ℕ
  registration_hash owner job_capacity sign_timestamp = signer.keccak256 (
      signer.encode (
        fixed_bytes (
          signer.keccak256
            (codes "Register(address owner,uint256 jobCapacity,uint8 env,uint256 signTimestamp)"))
        ∷ address owner
        ∷ uint job_capacity
        ∷ uint execution_env_id
        ∷ uint sign_timestamp
        ∷ []))

  unfoldable pub sign_registration : List ℕ → ℕ → ℕ → Option (List ℕ)
  sign_registration owner job_capacity sign_timestamp = sign_digest signer (
      signer.encode_packed (
        text_token (25 ∷ 1 ∷ [])
        ∷ fixed_bytes registration_domain
        ∷ fixed_bytes (registration_hash owner job_capacity sign_timestamp)
        ∷ []))

  unfoldable pub export_signed_registration_message : ℕ → Option ℕ → Node → Response × Node
  export_signed_registration_message sign_timestamp current_block_number s =
      if not s.immutable_params_injected
      then (bad_request, s)
      else if not s.mutable_params_injected
      then (bad_request, s)
      else with_signature s sign_timestamp current_block_number
          (sign_registration s.enclave_owner s.job_capacity sign_timestamp)

-- The end of a listener, by its `defer!`.
unfoldable pub end_listener : Node → Node
end_listener s =
    if s.listeners == 0
    then s
    else record s { events_listener_active = false; listeners = s.listeners - 1 }

module _ (decode wallet_of : List ℕ → Option (List ℕ)) (signer : Signer) where
  unfoldable pub handle_request : Node → Request → Response × Node
  handle_request s (immutable_config owner_address_hex) =
      inject_immutable_config decode owner_address_hex s
  handle_request s (mutable_config gas_key_hex is_url_valid transaction_count) =
      inject_mutable_config decode wallet_of gas_key_hex is_url_valid transaction_count s
  handle_request s (signed_registration_message sign_timestamp current_block_number) =
      export_signed_registration_message signer sign_timestamp current_block_number s
  handle_request s listener_ends = (configured, end_listener s)

  -- The answers to some requests, and the node after them. Each request is handled as a whole: a handler
  -- changes what it has tested under the same lock.
  unfoldable pub handle_requests : List Request → Node → List Response × Node
  handle_requests [] s = ([], s)
  handle_requests (q ∷ rest) s =
      let handled = handle_request s q in
      let later = handle_requests rest handled.1 in (handled.0 ∷ later.0, later.1)
