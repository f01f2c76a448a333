-- ===== src/Guest/Soundness.antt =====
-- What a proof of the guest's run shows: the journal, and the certificates and signatures behind it.
use mathlib.Core.Path.{subst}
use mathlib.Core.List.{append_assoc}
use oyster_monorepo.Base.{
  ℕ, zero, suc, ◌+◌, ◌*◌, ◌/◌, ◌≡◌, refl, Option, none, some, List, [], ◌∷◌, ◌++◌, ap, ◌∙◌, arith,
  length, ◌==◌, ==_iff,
}
use oyster_monorepo.Guest.Crypto.{Crypto}
use oyster_monorepo.Guest.Reader.{
  from_be_bytes, assert, assert_byte, assert_bytes, index, size_at, bind-some, then-some,
}
use oyster_monorepo.Guest.Fields.{
  read_header, skip_module_id, read_timestamp, open_pcrs, read_pcr, assert_pcr, skip_pcrs,
  read_public_key, read_user_data, check_signature,
}
use oyster_monorepo.Guest.Program.{read, to_be_bytes, commit_state, commit_root, commit_data, main}
use oyster_monorepo.Guest.Links.{assert_lem, read-bind, run-bind, IsSigned, check_signature_lem}
use oyster_monorepo.Guest.Trust.{IsTrusted, commit_root_lem}

read_lem :
    {A : Type 0} (o : Option A) (j : List ℕ) {a : A} {k : List ℕ}
    → read o j ≡ some (a, k)
    → (o ≡ some a) × (k ≡ j)
read_lem none j h = absurd (ground arith)
read_lem (some a) j h = ground arith

regroup : (j a b c d : List ℕ) → (((j ++ a) ++ b) ++ c) ++ d ≡ j ++ ((a ++ b) ++ (c ++ d))
regroup j a b c d = simp append_assoc

module _ (attestation : List ℕ) where
  -- The fields that the journal begins with, from where they stand in the document.
  pub record IsState (offset timestamp : ℕ) (committed : List ℕ) : Type 0 where
    pub stamp : List ℕ
    pub pcr0 : List ℕ
    pub pcr1 : List ℕ
    pub pcr2 : List ℕ
    pub stamped : read_timestamp attestation offset ≡ some stamp
    pub timed : timestamp ≡ from_be_bytes stamp / 1000
    pub first : read_pcr attestation 0 (offset + 39) ≡ some pcr0
    pub second : read_pcr attestation 1 (offset + 90) ≡ some pcr1
    pub third : read_pcr attestation 2 (offset + 141) ≡ some pcr2
    pub layout : committed ≡ ((stamp ++ pcr0) ++ pcr1) ++ pcr2

  -- The fields that the journal ends with, from where they stand in the document.
  pub record IsData (offset : ℕ) (committed : List ℕ) : Type 0 where
    pub pubkey_len : ℕ
    pub pubkey : List ℕ
    pub size : ℕ
    pub user_data : List ℕ
    pub keyed : read_public_key attestation offset ≡ some (pubkey_len, pubkey)
    pub filled : read_user_data attestation (offset + 13 + pubkey_len) ≡ some (size, user_data)
    pub layout : committed ≡ (pubkey_len ∷ pubkey) ++ (to_be_bytes size ++ user_data)

  read_header_lem :
      (payload_size : ℕ)
      → read_header attestation ≡ some payload_size
      → length attestation ≡ 10 + payload_size + 98
  unfolding read_header
  read_header_lem payload_size h =
      let h₁ =
        then-some
          (assert_bytes attestation 0 (0x84 ∷ 0x44 ∷ 0xa1 ∷ 0x01 ∷ 0x38 ∷ 0x22 ∷ 0xa0 ∷ 0x59 ∷ []))
          _ h in
      let (size, _, h₂) = bind-some (size_at attestation 8) _ h₁ in
      let (_, checked, h₃) = bind-some (assert (length attestation == 10 + size + 98)) _ h₂ in
      let e : size ≡ payload_size = ground arith in
      subst (λ n. length attestation ≡ 10 + n + 98) e ((==_iff _ _).0 (assert_lem _ checked))

  commit_state_lem :
      (offset timestamp after : ℕ) (k : List ℕ)
      → commit_state attestation offset [] ≡ some ((timestamp, after), k)
      → IsState offset timestamp k × (after ≡ offset + 192)
  unfolding commit_state
  commit_state_lem offset timestamp after k h =
      let (stamp, stamped, h₁) = read-bind (read_timestamp attestation offset) _ [] h in
      let (_, _, h₂) = read-bind (open_pcrs attestation offset) _ stamp h₁ in
      let (pcr0, first, h₃) = read-bind (read_pcr attestation 0 (offset + 39)) _ stamp h₂ in
      let (pcr1, second, h₄) =
        read-bind (read_pcr attestation 1 (offset + 90)) _ (stamp ++ pcr0) h₃ in
      let (pcr2, third, h₅) =
        read-bind (read_pcr attestation 2 (offset + 141)) _ ((stamp ++ pcr0) ++ pcr1) h₄ in
      let w : IsState offset timestamp k = record {
        stamp = stamp;
        pcr0 = pcr0;
        pcr1 = pcr1;
        pcr2 = pcr2;
        stamped = stamped;
        timed = ground arith;
        first = first;
        second = second;
        third = third;
        layout = ground arith;
      } in
      (w, ground arith)

  skip_pcrs_lem :
      (count n offset after : ℕ)
      → skip_pcrs attestation count n offset ≡ some after
      → after ≡ offset + count * 51
  unfolding skip_pcrs
  skip_pcrs_lem zero n offset after h = ground arith
  skip_pcrs_lem (suc count) n offset after h =
      let h₁ = then-some (assert_pcr attestation n offset) _ h in
      let e = skip_pcrs_lem count (suc n) (offset + 51) after h₁ in omega arith

  skip_module_id_lem :
      (offset : ℕ)
      → skip_module_id attestation ≡ some offset
      → (size : ℕ) × (index attestation 22 ≡ some size) × (offset ≡ 23 + size)
  unfolding skip_module_id
  skip_module_id_lem offset h =
      let h₁ =
        then-some (assert_byte attestation 21 0x78) _
          (then-some (assert_bytes attestation 10 (0xa9 ∷ 0x69 ∷ [])) _ h) in
      let (size, read, h₂) = bind-some (index attestation 22) _ h₁ in
      let h₃ =
        then-some (assert_byte attestation (23 + size + 7) 0x66) _
          (then-some (assert_byte attestation (23 + size) 0x66) _ h₂) in
      (size, read, ground arith)

  commit_data_lem :
      (offset : ℕ) (j k : List ℕ)
      → commit_data attestation offset j ≡ some (tt, k)
      → (rest : List ℕ) × (k ≡ j ++ rest) × IsData offset rest
  unfolding commit_data
  commit_data_lem offset j k h =
      let ((pubkey_len, pubkey), keyed, h₁) =
        read-bind (read_public_key attestation offset) _ j h in
      let ((size, user_data), filled, h₂) =
        read-bind (read_user_data attestation (offset + 13 + pubkey_len)) _
          ((j ++ pubkey_len ∷ []) ++ pubkey) h₁ in
      let e : k ≡ (((j ++ pubkey_len ∷ []) ++ pubkey) ++ to_be_bytes size) ++ user_data =
        ground arith in
      (
        (pubkey_len ∷ pubkey) ++ (to_be_bytes size ++ user_data),
        e ∙ regroup j (pubkey_len ∷ []) pubkey (to_be_bytes size) user_data,
        record {
          pubkey_len = pubkey_len;
          pubkey = pubkey;
          size = size;
          user_data = user_data;
          keyed = keyed;
          filled = filled;
          layout = refl;
        },
      )

module _ {Certificate Signature VerifyingKey : Type 0}
    (crypto : Crypto Certificate Signature VerifyingKey) (attestation : List ℕ) where
  -- The journal of an accepted document, and what is known of it: all that is read is read from its
  -- place, after the module's id and its digest, of `module_size` bytes and 14 with the keys.
  pub record IsAccepted (journal : List ℕ) : Type 0 where
    pub payload_size : ℕ
    pub module_size : ℕ
    pub after : ℕ
    pub timestamp : ℕ
    pub leaf : Certificate
    pub state : List ℕ
    pub root_key : List ℕ
    pub rest : List ℕ
    pub sized : length attestation ≡ 10 + payload_size + 98
    pub identified : index attestation 22 ≡ some module_size
    pub signed : IsSigned crypto attestation payload_size leaf
    pub stated : IsState attestation (23 + module_size) timestamp state
    pub trusted :
        IsTrusted crypto attestation timestamp
          (23 + module_size + 192 + 13 * 51)
          root_key
          leaf
          after
    pub filled : IsData attestation after rest
    pub layout : journal ≡ (state ++ root_key) ++ rest

  -- Where the guest returns, and so has a proof: the certificates in the document's bundle chain from the
  -- root, the first of them, whose key is in the journal, to the leaf, which stands before the bundle,
  -- each valid at the document's time and signed by the one before; the leaf's key verifies the
  -- document's signature over all of the payload; and the journal is the time, the first three
  -- registers, the root's key, and the public key and the user data with their lengths. Each of
  -- these is read from the place that the lengths before it give.
  pub main-IsAccepted :
      (journal : List ℕ) → main crypto attestation [] ≡ some (tt, journal) → IsAccepted journal
  unfolding main
  main-IsAccepted journal h =
      let (payload_size, header, h₁) = read-bind (read_header attestation) _ [] h in
      let (offset, skipped, h₂) = read-bind (skip_module_id attestation) _ [] h₁ in
      let ((timestamp, after), state, stated, h₃) =
        run-bind (commit_state attestation offset) _ [] h₂ in
      let (bundle, passed, h₄) = read-bind (skip_pcrs attestation 13 3 after) _ state h₃ in
      let ((leaf, end), k, rooted, h₅) =
        run-bind (commit_root crypto attestation timestamp bundle) _ state h₄ in
      let (_, j, filled, h₆) = run-bind (commit_data attestation end) _ k h₅ in
      let (signed, same) = read_lem (check_signature crypto attestation payload_size leaf) j h₆ in
      let (key, keyed, trusted) =
        commit_root_lem crypto attestation timestamp bundle leaf end state k rooted in
      let (rest, added, data_of) = commit_data_lem attestation end k j filled in
      let (module_size, identified, at) = skip_module_id_lem attestation offset skipped in
      let (is_state, on) = commit_state_lem attestation offset timestamp after state stated in
      let on_to = skip_pcrs_lem attestation 13 3 after bundle passed in
      record {
        payload_size = payload_size;
        module_size = module_size;
        after = end;
        timestamp = timestamp;
        leaf = leaf;
        state = state;
        root_key = key;
        rest = rest;
        sized = read_header_lem attestation payload_size header;
        identified = identified;
        signed = check_signature_lem crypto attestation payload_size leaf signed;
        stated = subst (λ n. IsState attestation n timestamp state) at is_state;
        trusted =
            subst (λ n. IsTrusted crypto attestation timestamp n key leaf end) (omega arith)
              trusted;
        filled = data_of;
        layout = same ∙ (added ∙ ap (λ x. x ++ rest) keyed);
      }
