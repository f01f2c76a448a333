-- ===== src/Guest/Program.antt =====
-- `main` of the guest, in the order of the source. What it commits is added to the journal, and a proof
-- exists only where it returns.
use oyster_monorepo.Base.{ℕ, ◌+◌, ◌-◌, ◌/◌, ◌%◌, Option, none, some, List, [], ◌∷◌, ◌++◌}
use oyster_monorepo.Guest.Crypto.{Crypto}
use oyster_monorepo.Guest.Reader.{from_be_bytes}
use oyster_monorepo.Guest.Chain.{verify_chain}
use oyster_monorepo.Guest.Fields.{
  read_header, skip_module_id, read_timestamp, open_pcrs, read_pcr, skip_pcrs, read_public_key,
  read_user_data, read_leaf, read_chain_size, read_root, root_key, check_leaf, check_signature,
}

abbrev pub G : Type 0 → Type 0
G A = List ℕ → Option (A × List ℕ)

infixl 5 ◌>>=◌ ◌>>◌
abbrev pub ◌>>=◌ : {A B : Type 0} → G A → (A → G B) → G B
◌>>=◌ m f journal = elim (m journal) [ none ↦ none | some (a, j) ↦ f a j ]

abbrev pub ◌>>◌ : {A B : Type 0} → G A → G B → G B
m >> k = m >>= λ _. k

abbrev pub pure : {A : Type 0} → A → G A
pure a journal = some (a, journal)

-- A step that commits nothing.
abbrev pub read : {A : Type 0} → Option A → G A
read none journal = none
read (some a) journal = some (a, journal)

-- `env::commit_slice`
abbrev pub commit : List ℕ → G (Unit {0})
commit xs journal = some (tt, journal ++ xs)

-- `to_be_bytes` of a u16
abbrev pub to_be_bytes : ℕ → List ℕ
to_be_bytes n = n / 256 ∷ (n % 256) ∷ []

module _ (attestation : List ℕ) where
  -- The timestamp, which is kept in seconds, and the first three registers: where the others begin.
  unfoldable pub commit_state : ℕ → G (ℕ × ℕ)
  commit_state offset = do
    stamp ← read (read_timestamp attestation offset)
    commit stamp
    read (open_pcrs attestation offset)
    pcr0 ← read (read_pcr attestation 0 (offset + 39))
    commit pcr0
    pcr1 ← read (read_pcr attestation 1 (offset + 90))
    commit pcr1
    pcr2 ← read (read_pcr attestation 2 (offset + 141))
    commit pcr2
    pure (from_be_bytes stamp / 1000, offset + 192)

  -- The public key with its length, and the user data with theirs.
  unfoldable pub commit_data : ℕ → G (Unit {0})
  commit_data offset = do
    (pubkey_len, key) ← read (read_public_key attestation offset)
    commit (pubkey_len ∷ [])
    commit key
    (size, user_data) ← read (read_user_data attestation (offset + 13 + pubkey_len))
    commit (to_be_bytes size)
    commit user_data

module _ {Certificate Signature VerifyingKey : Type 0}
    (crypto : Crypto Certificate Signature VerifyingKey) (attestation : List ℕ) where
  -- The certificates, from the leaf on: the leaf, and where the bundle ends.
  unfoldable pub commit_root : ℕ → ℕ → G (Certificate × ℕ)
  commit_root timestamp offset = do
    (leaf, leaf_size) ← read (read_leaf crypto attestation offset)
    let bundle = offset + 15 + leaf_size
    chain_size ← read (read_chain_size crypto attestation bundle)
    (root, size) ← read (read_root crypto attestation timestamp (bundle + 10))
    key ← read (root_key crypto attestation root)
    commit key
    (last, end) ←
        read
          (verify_chain crypto attestation (chain_size - 1) timestamp root (bundle + 10 + 3 + size))
    read (check_leaf crypto attestation timestamp (offset + 15) leaf last)
    pure (leaf, end)

  unfoldable pub main : G (Unit {0})
  main = do
    payload_size ← read (read_header attestation)
    offset ← read (skip_module_id attestation)
    (timestamp, offset) ← commit_state attestation offset
    offset ← read (skip_pcrs attestation 13 3 offset)
    (leaf, offset) ← commit_root timestamp offset
    commit_data attestation offset
    read (check_signature crypto attestation payload_size leaf)
