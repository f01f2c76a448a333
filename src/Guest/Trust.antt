-- ===== src/Guest/Trust.antt =====
-- The certificates that the checks of the guest show, from the leaf to the root, at their places.
use oyster_monorepo.Base.{ℕ, ◌+◌, ◌-◌, ◌≡◌, ◌<◌, ◌≤◌, ltb, leb, ◌&&◌, true, some, List, ◌++◌, arith}
use mathlib.Core.Path.{subst}
use oyster_monorepo.Guest.Crypto.{Crypto}
use oyster_monorepo.Guest.Reader.{
  index, assert, assert_byte, assert_bytes, codes, bind-some, then-some,
}
use oyster_monorepo.Guest.Chain.{check_expiry, parse_cert, verify_chain}
use oyster_monorepo.Guest.Fields.{read_leaf, read_chain_size, read_root, root_key, check_leaf}
use oyster_monorepo.Guest.Program.{read, commit_root}
use oyster_monorepo.Guest.Links.{
  read-bind, assert_lem, IsCurrent, check_expiry_lem, IsCertificate, IsSignedBy, Chain,
  parse_cert_lem, verify_cert_lem, verify_chain_lem,
}

module _ {Certificate Signature VerifyingKey : Type 0}
    (crypto : Crypto Certificate Signature VerifyingKey) (attestation : List ℕ) where
  read_root_lem :
      (timestamp offset : ℕ) (root : Certificate) (size : ℕ)
      → read_root crypto attestation timestamp offset ≡ some (root, size)
      → IsCertificate crypto attestation offset size root × IsCurrent crypto timestamp root
  unfolding read_root
  read_root_lem timestamp offset root size h =
      let ((root', size'), parsed, h₁) = bind-some (parse_cert crypto attestation offset) _ h in
      let (_, current, h₂) = bind-some (check_expiry crypto timestamp root') _ h₁ in
      let e : root' ≡ root = ground arith in
      let f : size' ≡ size = ground arith in
      (
        parse_cert_lem crypto attestation offset root size (
            subst (λ n. parse_cert crypto attestation offset ≡ some (root, n)) f
              (subst (λ c. parse_cert crypto attestation offset ≡ some (c, size')) e parsed)),
        subst (λ c. IsCurrent crypto timestamp c) e
            (check_expiry_lem crypto timestamp root' current),
      )

  read_leaf_lem :
      (offset : ℕ) (leaf : Certificate) (size : ℕ)
      → read_leaf crypto attestation offset ≡ some (leaf, size)
      → IsCertificate crypto attestation (offset + 12) size leaf
  unfolding read_leaf
  read_leaf_lem offset leaf size h = parse_cert_lem crypto attestation (offset + 12) leaf size (
      then-some (assert_bytes attestation (offset + 1) (codes "certificate")) _
        (then-some (assert_byte attestation offset 0x6b) _ h))

  -- The byte at `offset` opens an array of so many certificates, 1 to 16 of them.
  abbrev pub IsCount : ℕ → ℕ → Type 0
  IsCount offset n = (index attestation offset ≡ some (0x80 + n)) × (0 < n) × (n ≤ 16)

  read_chain_size_lem :
      (offset n : ℕ) → read_chain_size crypto attestation offset ≡ some n → IsCount (offset + 9) n
  unfolding read_chain_size
  read_chain_size_lem offset n h =
      let h₁ =
        then-some (assert_bytes attestation (offset + 1) (codes "cabundle")) _
          (then-some (assert_byte attestation offset 0x68) _ h) in
      let (m, read, h₂) = bind-some (index attestation (offset + 9)) _ h₁ in
      let (_, bounds, h₃) = bind-some (assert (ltb 0x80 m && leb m 0x90)) _ h₂ in
      let b : ltb 0x80 m && leb m 0x90 ≡ true = assert_lem _ bounds in
      let e : m ≡ 0x80 + n = ground arith in
      (subst (λ k. index attestation (offset + 9) ≡ some k) e read, ground arith, ground arith)

  check_leaf_lem :
      (timestamp der : ℕ) (leaf last : Certificate)
      → check_leaf crypto attestation timestamp der leaf last ≡ some tt
      → IsCurrent crypto timestamp leaf × IsSignedBy crypto attestation der last leaf
  unfolding check_leaf
  check_leaf_lem timestamp der leaf last h =
      let (_, current, h₁) = bind-some (check_expiry crypto timestamp leaf) _ h in
      (
        check_expiry_lem crypto timestamp leaf current,
        verify_cert_lem crypto attestation der leaf last h₁,
      )

  -- The certificates behind a journal, which the document holds from `offset` to `after`: the leaf, then
  -- the bundle with its length, the root, whose key is in the journal, and the rest of the chain, the
  -- last of which has signed the leaf.
  pub record IsTrusted (timestamp offset : ℕ) (root_key_bytes : List ℕ) (leaf : Certificate)
      (after : ℕ) : Type 0 where
    pub leaf_size : ℕ
    pub chain_size : ℕ
    pub root_size : ℕ
    pub root : Certificate
    pub last : Certificate
    pub leaf_at : IsCertificate crypto attestation (offset + 12) leaf_size leaf
    pub counted : IsCount (offset + 15 + leaf_size + 9) chain_size
    pub root_at : IsCertificate crypto attestation (offset + 15 + leaf_size + 10) root_size root
    pub root_current : IsCurrent crypto timestamp root
    pub root_keyed : root_key crypto attestation root ≡ some root_key_bytes
    pub chain :
        Chain crypto attestation timestamp
          (chain_size - 1)
          (offset + 15 + leaf_size + 10 + 3 + root_size)
          root
          last
          after
    pub leaf_signed : IsSignedBy crypto attestation (offset + 15) last leaf
    pub leaf_current : IsCurrent crypto timestamp leaf

  pub commit_root_lem :
      (timestamp offset : ℕ) (leaf : Certificate) (after : ℕ) (j k : List ℕ)
      → commit_root crypto attestation timestamp offset j ≡ some ((leaf, after), k)
      → (key : List ℕ) × (k ≡ j ++ key) × IsTrusted timestamp offset key leaf after
  unfolding commit_root
  commit_root_lem timestamp offset leaf after j k h =
      let ((leaf', leaf_size), leaf_read, h₁) =
        read-bind (read_leaf crypto attestation offset) _ j h in
      let bundle = offset + 15 + leaf_size in
      let (chain_size, counted, h₂) =
        read-bind (read_chain_size crypto attestation bundle) _ j h₁ in
      let ((root, size), root_read, h₃) =
        read-bind (read_root crypto attestation timestamp (bundle + 10)) _ j h₂ in
      let (key, keyed, h₄) = read-bind (root_key crypto attestation root) _ j h₃ in
      let ((last, end), linked, h₅) =
        read-bind
          (verify_chain crypto attestation (chain_size - 1) timestamp root (bundle + 10 + 3 + size))
          _ (j ++ key) h₄ in
      let (_, checked, h₆) =
        read-bind (check_leaf crypto attestation timestamp (offset + 15) leaf' last) _ (j ++ key)
          h₅ in
      let (root_at, root_current) = read_root_lem timestamp (bundle + 10) root size root_read in
      let (leaf_current, leaf_signed) = check_leaf_lem timestamp (offset + 15) leaf' last checked in
      let e : leaf' ≡ leaf = ground arith in
      let g : end ≡ after = ground arith in
      let f : k ≡ j ++ key = ground arith in
      let t : IsTrusted timestamp offset key leaf' end = record {
        leaf_size = leaf_size;
        chain_size = chain_size;
        root_size = size;
        root = root;
        last = last;
        leaf_at = read_leaf_lem offset leaf' leaf_size leaf_read;
        counted = read_chain_size_lem bundle chain_size counted;
        root_at = root_at;
        root_current = root_current;
        root_keyed = keyed;
        chain =
            verify_chain_lem crypto attestation (chain_size - 1) timestamp root
              (bundle + 10 + 3 + size) last end linked;
        leaf_signed = leaf_signed;
        leaf_current = leaf_current;
      } in
      (
        key,
        f,
        subst (λ n. IsTrusted timestamp offset key leaf n) g
            (subst (λ c. IsTrusted timestamp offset key c end) e t),
      )
