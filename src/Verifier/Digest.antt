-- ===== src/Verifier/Digest.antt =====
-- The digest of attestation/verifier/src/handler.rs is the one that EIP-712 prescribes.
use oyster_monorepo.Base.{
  ℕ, ◌-◌, ◌≡◌, sym, ap, ◌∙◌, List, [], ◌∷◌, ◌++◌, map, length, take, length-append, arith,
}
use oyster_monorepo.Base.Slices.{concat, append-nil, assoc, take_all, take-append_at}
use oyster_monorepo.Verifier.Handler.{
  VerifierLibrary, domain_separator, attestation_typehash, big_endian, repeated, resize,
  compute_digest,
}

-- A member of a struct: EIP-712 encodes bytes as their hash, and a uint256 as its 32 bytes.
pub data Member : Type 0 where
  bytes : List ℕ → Member
  uint256 : ℕ → Member

regroup :
    (a b c d e w : List ℕ)
    → (a ++ (b ++ (c ++ (d ++ e)))) ++ w ≡ a ++ (b ++ (c ++ (d ++ (e ++ (w ++ [])))))
regroup a b c d e w =
    assoc a (b ++ (c ++ (d ++ e))) w
    ∙ ap (λ bs. a ++ bs)
        (assoc b (c ++ (d ++ e)) w
          ∙ ap (λ bs. b ++ bs)
              (assoc c (d ++ e) w
                ∙ ap (λ bs. c ++ bs)
                    (assoc d e w ∙ ap (λ bs. d ++ (e ++ bs)) (sym (append-nil w)))))

module _ {Secret Message : Type 0} (lib : VerifierLibrary Secret Message) where
  abbrev pub encode_member : Member → List ℕ
  encode_member (bytes b) = lib.keccak256 b
  encode_member (uint256 n) = big_endian 32 n

  abbrev pub struct_hash : List ℕ → List Member → List ℕ
  struct_hash typehash members = lib.keccak256 (typehash ++ concat (map encode_member members))

  abbrev pub typed_data : List ℕ → List ℕ → List Member → List ℕ
  typed_data domain typehash members =
      lib.keccak256 (0x19 ∷ 0x01 ∷ (domain ++ struct_hash typehash members))

  -- Where a hash has 32 bytes: the digest is that of the struct with the key, the registers and the time.
  pub compute_digest_lem :
      (enclave_pubkey pcr0 pcr1 pcr2 : List ℕ) (timestamp : ℕ)
      → ((message : List ℕ) → length (lib.keccak256 message) ≡ 32)
      → compute_digest lib enclave_pubkey pcr0 pcr1 pcr2 timestamp
        ≡ typed_data domain_separator attestation_typehash
            (bytes enclave_pubkey ∷ bytes pcr0 ∷ bytes pcr1 ∷ bytes pcr2 ∷ uint256 timestamp ∷ [])
  unfolding compute_digest
  compute_digest_lem enclave_pubkey pcr0 pcr1 pcr2 timestamp sized =
      let k = lib.keccak256 in
      let last = k pcr1 ++ k pcr2 in
      let hashes = attestation_typehash ++ (k enclave_pubkey ++ (k pcr0 ++ last)) in
      let size : length hashes ≡ 160 = omega (
        arith,
        length-append attestation_typehash (k enclave_pubkey ++ (k pcr0 ++ last)),
        length-append (k enclave_pubkey) (k pcr0 ++ last),
        length-append (k pcr0) last,
        length-append (k pcr1) (k pcr2),
        sized enclave_pubkey,
        sized pcr0,
        sized pcr1,
        sized pcr2,
      ) in
      let padding = repeated (192 - length hashes) in
      let word = big_endian 32 timestamp in
      let kept : take 160 (resize 192 hashes) ≡ hashes =
        ap (λ bs. take 160 (bs ++ padding)) (take_all 192 hashes (omega (arith, size)))
        ∙ take-append_at 160 hashes padding size in
      let grouped =
        regroup attestation_typehash (k enclave_pubkey) (k pcr0) (k pcr1) (k pcr2) word in
      ap (λ bs. k (0x19 ∷ 0x01 ∷ (domain_separator ++ k bs))) (ap (λ bs. bs ++ word) kept ∙ grouped)
