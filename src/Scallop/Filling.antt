-- ===== src/Scallop/Filling.antt =====
-- The inner loop of `poll_read` in sdks/rs/src/scallop.rs loses no byte of the base.
use oyster_monorepo.Base.{
  if_elim, ◌==◌, ==_true, ==_false, ℕ, zero, suc, ◌+◌, ◌-◌, ◌≤◌, ◌≡◌, refl, sym, ap, ◌∙◌, Bool,
  true, false, List, [], ◌∷◌, ◌++◌, length, take, drop, length-append, arith,
}
use oyster_monorepo.Base.Slices.{assoc, length-take, length-drop, take-append_at}
use oyster_monorepo.Scallop.Library.{Poll, pending, failed, ready, AsyncBase, overwrite}
use oyster_monorepo.Scallop.Stream.{
  ReadMode, ScallopStream, Outcome, blocked, base_failed, noise_failed, panicked, running, done,
  chunk_read, fill,
}
use oyster_monorepo.Scallop.Laws.{chunk_of, IsPipe}

length-overwrite :
    (buffer bytes : List ℕ) (at : ℕ)
    → at + length bytes ≤ length buffer
    → length (overwrite buffer at bytes) ≡ length buffer
length-overwrite buffer bytes at h = omega (
  arith,
  length-append (take at buffer) (bytes ++ drop (at + length bytes) buffer),
  length-append bytes (drop (at + length bytes) buffer),
  length-take at buffer (omega arith),
  length-drop (at + length bytes) buffer,
)

take-overwrite :
    (buffer bytes : List ℕ) (at : ℕ)
    → at + length bytes ≤ length buffer
    → take (at + length bytes) (overwrite buffer at bytes) ≡ take at buffer ++ bytes
take-overwrite buffer bytes at h =
    let tail : List ℕ = drop (at + length bytes) buffer in
    let front : List ℕ = take at buffer ++ bytes in
    let e : length front ≡ at + length bytes =
      omega (arith, length-append (take at buffer) bytes, length-take at buffer (omega arith)) in
    ap (λ bs. take (at + length bytes) bs) (sym (assoc (take at buffer) bytes tail))
    ∙ take-append_at (at + length bytes) front tail e

-- The loop has ended by itself, and where the buffer is full no byte is missing.
abbrev pub Complete : Outcome Bool → ℕ → Type 0
Complete blocked n = Unit {0}
Complete base_failed n = Unit {0}
Complete noise_failed n = ⊥
Complete panicked n = ⊥
Complete running n = ⊥
Complete (done false) n = Unit {0}
Complete (done true) n = n ≡ 0

module _ {Noise Base : Type 0} (io : AsyncBase Base) (unread sent : Base → List ℕ) where
  -- What is in the read buffer and what comes behind it are these bytes together.
  pub record Loading (future all : List ℕ) (s : ScallopStream Noise Base) : Type 0 where
    pub bounded : s.pending_bytes ≤ length s.rbuf
    pub loaded : take (length s.rbuf - s.pending_bytes) s.rbuf ++ (unread s.stream ++ future) ≡ all

  -- The outcome of the loop.
  pub record Filled (noise : Noise) (mode : ReadMode) (size : ℕ) (future all : List ℕ)
      (answer : Outcome Bool × ScallopStream Noise Base) : Type 0 where
    pub loading : Loading future all (answer.1)
    pub same_noise : answer.1.noise ≡ noise
    pub same_mode : answer.1.mode ≡ mode
    pub same_size : length (answer.1.rbuf) ≡ size
    pub complete : Complete (answer.0) (answer.1.pending_bytes)

  -- Nothing was read.
  same-Filled :
      {noise : Noise} {mode : ReadMode} {size : ℕ} (future all : List ℕ)
      (s : ScallopStream Noise Base) (base : Base) (outcome : Outcome Bool)
      → s.noise ≡ noise
      → s.mode ≡ mode
      → length s.rbuf ≡ size
      → Loading future all s
      → unread base ≡ unread s.stream
      → Complete outcome s.pending_bytes
      → Filled noise mode size future all (outcome, record s { stream = base })
  same-Filled future all s base outcome noises modes sizes before takes complete =
      let n = length s.rbuf - s.pending_bytes in
      record {
        loading = record {
          bounded = before.bounded;
          loaded = ap (λ bs. take n s.rbuf ++ (bs ++ future)) takes ∙ before.loaded;
        };
        same_noise = noises;
        same_mode = modes;
        same_size = sizes;
        complete = complete;
      }

  -- A chunk was put behind what is loaded.
  overwrite-Loading :
      (future all chunk : List ℕ) (s : ScallopStream Noise Base) (base : Base)
      → Loading future all s
      → chunk ++ unread base ≡ unread s.stream
      → length chunk ≤ s.pending_bytes
      → Loading future all (record s {
        stream = base;
        rbuf = overwrite s.rbuf (length s.rbuf - s.pending_bytes) chunk;
        pending_bytes = s.pending_bytes - length chunk;
      })
  overwrite-Loading future all chunk s base before takes fits =
      let bounded = before.bounded in
      let n = length s.rbuf - s.pending_bytes in
      let buffer = overwrite s.rbuf n chunk in
      let size : length buffer ≡ length s.rbuf = length-overwrite s.rbuf chunk n (omega arith) in
      let at : length buffer - (s.pending_bytes - length chunk) ≡ n + length chunk = omega arith in
      record {
        bounded = omega arith;
        loaded =
            ap (λ m. take m buffer ++ (unread base ++ future)) at
            ∙ ap (λ bs. bs ++ (unread base ++ future)) (take-overwrite s.rbuf chunk n (omega arith))
            ∙ assoc (take n s.rbuf) chunk (unread base ++ future)
            ∙ ap (λ bs. take n s.rbuf ++ bs) (sym (assoc chunk (unread base) future))
            ∙ ap (λ bs. take n s.rbuf ++ (bs ++ future)) takes
            ∙ before.loaded;
      }

  chunk-Filled :
      {noise : Noise} {mode : ReadMode} {size : ℕ} (future all : List ℕ)
      (next : ScallopStream Noise Base → Outcome Bool × ScallopStream Noise Base)
      (s : ScallopStream Noise Base) (answer : Poll (List ℕ) × Base)
      → s.noise ≡ noise
      → s.mode ≡ mode
      → length s.rbuf ≡ size
      → Loading future all s
      → chunk_of answer ++ unread (answer.1) ≡ unread s.stream
      → length (chunk_of answer) ≤ s.pending_bytes
      → ((t : ScallopStream Noise Base)
          → suc t.pending_bytes ≤ s.pending_bytes
          → t.noise ≡ noise
          → t.mode ≡ mode
          → length t.rbuf ≡ size
          → Loading future all t
          → Filled noise mode size future all (next t))
      → Filled noise mode size future all (chunk_read next s answer)
  chunk-Filled future all next s (pending, base) noises modes sizes before takes fits after =
      same-Filled future all s base blocked noises modes sizes before takes tt
  chunk-Filled future all next s (failed, base) noises modes sizes before takes fits after =
      same-Filled future all s base base_failed noises modes sizes before takes tt
  chunk-Filled future all next s (ready [], base) noises modes sizes before takes fits after =
      same-Filled future all s base (done false) noises modes sizes before takes tt
  chunk-Filled future all next s (ready (c ∷ cs), base) noises modes sizes before takes fits after =
      let bounded = before.bounded in
      after
        (record s {
          stream = base;
          rbuf = overwrite s.rbuf (length s.rbuf - s.pending_bytes) (c ∷ cs);
          pending_bytes = s.pending_bytes - length (c ∷ cs);
        })
        (omega arith) noises modes
        (length-overwrite s.rbuf (c ∷ cs) (length s.rbuf - s.pending_bytes) (omega arith) ∙ sizes)
        (overwrite-Loading future all (c ∷ cs) s base before takes fits)

  pub fill-Filled :
      {noise : Noise} {mode : ReadMode} {size : ℕ} (future all : List ℕ)
      (laws : IsPipe io unread sent) (fuel : ℕ) (s : ScallopStream Noise Base)
      → s.pending_bytes ≤ fuel
      → s.noise ≡ noise
      → s.mode ≡ mode
      → length s.rbuf ≡ size
      → Loading future all s
      → Filled noise mode size future all (fill io fuel s)
  unfolding fill
  fill-Filled {noise} {mode} {size} future all laws zero s h noises modes sizes before =
      if_elim (Filled noise mode size future all) (s.pending_bytes == 0)
        (λ e.
          same-Filled future all s s.stream (done true) noises modes sizes before refl
            (==_true s.pending_bytes 0 e))
        (λ e. absurd (==_false s.pending_bytes 0 e (omega arith)))
  fill-Filled {noise} {mode} {size} future all laws (suc fuel) s h noises modes sizes before =
      if_elim (Filled noise mode size future all) (s.pending_bytes == 0)
        (λ e.
          same-Filled future all s s.stream (done true) noises modes sizes before refl
            (==_true s.pending_bytes 0 e))
        (λ e.
          chunk-Filled future all (λ next. fill io fuel next) s
            (io.poll_read s.stream s.pending_bytes) noises modes sizes before
            (laws.read_takes s.stream s.pending_bytes) (laws.read_fits s.stream s.pending_bytes)
            (λ t less noises modes sizes loading.
              fill-Filled future all laws fuel t (omega arith) noises modes sizes loading))
