-- ===== src/Executor/Logs.antt =====
-- The logs that the executor is sent, and the decoder of their data: ethers' ABI, which is not in this
-- repository, and whose functions are the fields of `Abi`.
use oyster_monorepo.Base.{
  ℕ, Bool, true, false, Option, none, some, List, [], ◌∷◌, get_elem?, ◌==◌, ◌||◌,
}

pub data ParamType : Type 0 where
  bytes address : ParamType
  fixed_bytes uint : ℕ → ParamType
  array : ParamType → ParamType

pub record Abi (Token : Type 0) : Type 0 where
  pub decode : List ParamType → List ℕ → Option (List Token)
  pub into_fixed_bytes : Token → Option (List ℕ)
  pub into_bytes : Token → Option (List ℕ)
  pub into_uint : Token → Option ℕ
  pub into_array : Token → Option (List Token)
  pub into_address : Token → Option ℕ

-- A topic stands for the number it is read as.
pub record Log : Type 0 where
  pub removed : Option Bool
  pub block_number : Option ℕ
  pub topics : List ℕ
  pub log_data : List ℕ

-- What reading a log comes to: a value, a log that is passed over, or an index out of range, which panics.
pub data Read (A : Type 0) : Type 0 where
  skipped panicked : Read A
  found : A → Read A

infixl 5 ◌>>=◌ ◌>>◌
abbrev pub ◌>>=◌ : {A B : Type 0} → Read A → (A → Read B) → Read B
skipped >>= f = skipped
panicked >>= f = panicked
found a >>= f = f a

abbrev pub ◌>>◌ : {A B : Type 0} → Read A → Read B → Read B
m >> k = m >>= λ _. k

-- `let Some(x) = … else { continue; }`
abbrev pub or_skip : {A : Type 0} → Option A → Read A
or_skip none = skipped
or_skip (some a) = found a

-- `xs[i]`
abbrev pub at : {A : Type 0} → List A → ℕ → Read A
at xs i = elim (get_elem? xs i) [ none ↦ panicked | some a ↦ found a ]

abbrev pub check : Bool → Read (Unit {0})
check true = found tt
check false = skipped

-- What a `JobCreated` log says.
pub record Created : Type 0 where
  pub job_id : ℕ
  pub code_hash : List ℕ
  pub code_inputs : List ℕ
  pub user_deadline : ℕ
  pub is_node_selected : Bool

module _ {Token : Type 0} (abi : Abi Token) where
  -- `.map(into_address).filter(is_some).any(|addr| addr.unwrap() == app_state.enclave_address)`
  unfoldable pub is_selected : ℕ → List Token → Bool
  is_selected enclave_address [] = false
  is_selected enclave_address (token ∷ tokens) = elim (abi.into_address token) [
    | none ↦ is_selected enclave_address tokens
    | some addr ↦ addr == enclave_address || is_selected enclave_address tokens
  ]

  -- The topics and the data of a `JobCreated` log.
  unfoldable pub read_created : ℕ → ℕ → Log → Read Created
  read_created enclave_address env log = do
    job_id ← at log.topics 1
    env_id ← at log.topics 2
    check (env_id == env)
    tokens ←
        or_skip (abi.decode (fixed_bytes 32 ∷ bytes ∷ uint 256 ∷ array address ∷ []) log.log_data)
    code_hash_token ← at tokens 0
    code_hash ← or_skip (abi.into_fixed_bytes code_hash_token)
    code_inputs_token ← at tokens 1
    code_inputs ← or_skip (abi.into_bytes code_inputs_token)
    deadline_token ← at tokens 2
    user_deadline ← or_skip (abi.into_uint deadline_token)
    nodes_token ← at tokens 3
    selected_nodes ← or_skip (abi.into_array nodes_token)
    found (record {
      job_id = job_id;
      code_hash = code_hash;
      code_inputs = code_inputs;
      user_deadline = user_deadline;
      is_node_selected = is_selected enclave_address selected_nodes;
    })

  -- The job of a `JobResponded` log and the number of its outputs.
  unfoldable pub read_responded : Log → Read (ℕ × ℕ)
  read_responded log = do
    job_id ← at log.topics 1
    tokens ← or_skip (abi.decode (bytes ∷ uint 256 ∷ uint 8 ∷ uint 8 ∷ []) log.log_data)
    count_token ← at tokens 3
    output_count ← or_skip (abi.into_uint count_token)
    found (job_id, output_count)
