-- ===== src/Guest/Tests.antt =====
-- The guest run on a small document, and its theorem there.
use oyster_monorepo.Base.{ℕ, zero, suc, refl, some, List, [], ◌∷◌, ◌++◌, length, drop}
use oyster_monorepo.Guest.Crypto.{Crypto}
use oyster_monorepo.Guest.Reader.{codes, bytes_eq, range, assert_byte, assert_bytes, size_at}
use oyster_monorepo.Guest.Chain.{check_expiry, parse_cert, signed_part, verify_cert, verify_chain}
use oyster_monorepo.Guest.Fields.{
  read_header, skip_module_id, read_timestamp, open_pcrs, read_pcr, skip_pcrs, read_public_key,
  read_user_data, signed_structure, read_leaf, read_chain_size, read_root, root_key, check_leaf,
  check_signature,
}
use oyster_monorepo.Guest.Program.{to_be_bytes, commit_state, commit_root, commit_data, main}
use oyster_monorepo.Guest.Soundness.{IsAccepted, main-IsAccepted}

abbrev replicate : ℕ → ℕ → List ℕ
replicate zero x = []
replicate (suc n) x = x ∷ replicate n x

-- Certificates are their bytes; one is signed where its signed part stands after its first four bytes.
abbrev toy : Crypto (List ℕ) (List ℕ) (List ℕ)
toy = record {
  from_der = some;
  not_before = λ c. 3;
  not_after = λ c. 9;
  public_key = λ c. 4 ∷ replicate 96 7;
  signature = λ c. drop 4 c;
  signature_from_der = some;
  from_scalars = λ r s. some (r ++ s);
  from_sec1_bytes = some;
  verify = λ key msg sig. bytes_eq msg sig;
  verify_prehash = λ key msg sig. bytes_eq sig (replicate 96 8);
  sha384 = λ x. x;
}

abbrev cert : ℕ → List ℕ
cert n = 0x59 ∷ 0 ∷ 9 ∷ 0x30 ∷ 0x82 ∷ 0 ∷ 5 ∷ 0x30 ∷ 0x82 ∷ 0 ∷ 1 ∷ n ∷ []

abbrev registers : ℕ → ℕ → List ℕ
registers zero n = []
registers (suc count) n = (n ∷ 0x58 ∷ 0x30 ∷ []) ++ (replicate 48 n ++ registers count (suc n))

abbrev stamp : List ℕ
stamp = 0 ∷ 0 ∷ 0 ∷ 0 ∷ 0 ∷ 0 ∷ 16 ∷ 0 ∷ []

abbrev payload : List ℕ
payload =
    (0xa9 ∷ 0x69 ∷ codes "module_id")
    ++ ((0x78 ∷ 2 ∷ codes "i-")
        ++ ((0x66 ∷ codes "digest")
            ++ ((0x66 ∷ codes "SHA384")
                ++ ((0x69 ∷ codes "timestamp")
                    ++ ((0x1b ∷ stamp)
                        ++ ((0x64 ∷ codes "pcrs")
                            ++ ((0xb0 ∷ registers 16 0)
                                ++ ((0x6b ∷ codes "certificate")
                                    ++ (cert 1
                                        ++ ((0x68 ∷ codes "cabundle")
                                            ++ ((0x82 ∷ cert 2)
                                                ++ (cert 3
                                                    ++ ((0x6a ∷ codes "public_key")
                                                        ++ ((0x58 ∷ 2 ∷ 5 ∷ 6 ∷ [])
                                                            ++ ((0x69 ∷ codes "user_data")
                                                            ++ (0x58 ∷ 1 ∷ 42 ∷ []))))))))))))))))

abbrev attestation : List ℕ
attestation =
    (0x84 ∷ 0x44 ∷ 0xa1 ∷ 0x01 ∷ 0x38 ∷ 0x22 ∷ 0xa0 ∷ 0x59 ∷ to_be_bytes (length payload))
    ++ (payload ++ (0x58 ∷ 0x60 ∷ replicate 96 8))

abbrev journal : List ℕ
journal =
    stamp
    ++ (replicate 48 0
        ++ (replicate 48 1
            ++ (replicate 48 2 ++ (replicate 96 7 ++ (2 ∷ 5 ∷ 6 ∷ 0 ∷ 1 ∷ 42 ∷ [])))))

main-IsAccepted_example : IsAccepted toy attestation journal
unfolding main commit_state commit_root commit_data read_header skip_module_id read_timestamp
    open_pcrs read_pcr skip_pcrs read_public_key read_user_data signed_structure read_leaf
    read_chain_size read_root root_key check_leaf check_signature check_expiry parse_cert
    signed_part verify_cert verify_chain range assert_byte assert_bytes size_at
main-IsAccepted_example = main-IsAccepted toy attestation journal refl
