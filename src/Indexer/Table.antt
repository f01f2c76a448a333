-- ===== src/Indexer/Table.antt =====
-- SQL tables with a text primary key, and the statements that the handlers execute on them
-- (contracts/indexer/migrations, and the "target sql" comments of contracts/indexer/src/handlers).
use oyster_monorepo.Base.{
  ℕ, suc, String, ◌≡◌, refl, Bool, ◌&&◌, Option, none, some, List, [], ◌∷◌, arith, if◌then◌else◌,
  str_eq, eq_iff,
}

-- Each row is its primary key and its other columns.
abbrev pub Table : Type 0 → Type 0
Table V = List (String × V)

module _ {V : Type 0} where
  -- SELECT * WHERE id = k
  abbrev pub lookup : String → Table V → Option V
  lookup k [] = none
  lookup k ((j, v) ∷ t) = if str_eq j k then some v else lookup k t

  -- UPDATE SET f WHERE id = k AND p: the number of rows updated, and the table.
  unfoldable pub update_where : String → (V → Bool) → (V → V) → Table V → ℕ × Table V
  update_where k p f [] = (0, [])
  update_where k p f ((j, v) ∷ t) =
      let (n, t') = update_where k p f t in
      if str_eq j k && p v then (suc n, (j, f v) ∷ t') else (n, (j, v) ∷ t')

  -- INSERT VALUES (k, v): `none` where the primary key is taken.
  unfoldable pub insert : String → V → Table V → Option (Table V)
  insert k v t = elim (lookup k t) [ none ↦ some ((k, v) ∷ t) | some _ ↦ none ]

  -- DELETE WHERE id = k
  unfoldable pub delete : String → Table V → Table V
  delete k [] = []
  delete k ((j, v) ∷ t) = if str_eq j k then delete k t else (j, v) ∷ delete k t

  -- The primary key constraint.
  abbrev pub IsKeyed : Table V → Type 0
  IsKeyed [] = Unit
  IsKeyed ((j, v) ∷ t) = (lookup j t ≡ none) × IsKeyed t

  -- What UPDATE makes of the row that it finds.
  abbrev pub updated : Bool → (V → V) → V → V
  updated b f v = if b then f v else v

  abbrev pub lookup_updated : String → (V → Bool) → (V → V) → String → Option V → Option V
  lookup_updated k p f j none = none
  lookup_updated k p f j (some v) = some (updated (str_eq j k && p v) f v)

  -- The number of rows that UPDATE changes, where keys are unique.
  abbrev pub matching : (V → Bool) → Option V → ℕ
  matching p none = 0
  matching p (some v) = if p v then 1 else 0

  pub lookup-update_where :
      (k j : String) (p : V → Bool) (f : V → V) (t : Table V)
      → lookup j (update_where k p f t).1 ≡ lookup_updated k p f j (lookup j t)
  unfolding update_where
  lookup-update_where k j p f [] = refl
  lookup-update_where k j p f ((i, v) ∷ t) =
      ground (arith, eq_iff i k, eq_iff i j, eq_iff j k, lookup-update_where k j p f t)

  pub update_where_count :
      (k : String) (p : V → Bool) (f : V → V) (t : Table V)
      → IsKeyed t
      → (update_where k p f t).0 ≡ matching p (lookup k t)
  unfolding update_where
  update_where_count k p f [] h = refl
  update_where_count k p f ((i, v) ∷ t) h =
      ground (arith, eq_iff i k, update_where_count k p f t h.1)

  -- An UPDATE that counts no row changes nothing.
  pub update_where_none :
      (k : String) (p : V → Bool) (f : V → V) (t : Table V)
      → (update_where k p f t).0 ≡ 0
      → (update_where k p f t).1 ≡ t
  unfolding update_where
  update_where_none k p f [] h = refl
  update_where_none k p f ((i, v) ∷ t) h = ground (arith, update_where_none k p f t)

  pub update_where-IsKeyed :
      (k : String) (p : V → Bool) (f : V → V) (t : Table V)
      → IsKeyed t
      → IsKeyed (update_where k p f t).1
  unfolding update_where
  update_where-IsKeyed k p f [] h = tt
  update_where-IsKeyed k p f ((i, v) ∷ t) h =
      ground (arith, update_where-IsKeyed k p f t h.1, lookup-update_where k i p f t)

  pub lookup-insert :
      (k j : String) (v : V) (t : Table V) {t' : Table V}
      → insert k v t ≡ some t'
      → lookup j t' ≡ (if str_eq k j then some v else lookup j t)
  unfolding insert
  lookup-insert k j v t h = ground arith

  pub insert-IsKeyed :
      (k : String) (v : V) (t : Table V) {t' : Table V}
      → insert k v t ≡ some t'
      → IsKeyed t
      → IsKeyed t'
  unfolding insert
  insert-IsKeyed k v t h i = ground arith

  pub lookup-delete :
      (k j : String) (t : Table V)
      → lookup j (delete k t) ≡ (if str_eq k j then none else lookup j t)
  unfolding delete
  lookup-delete k j [] = ground arith
  lookup-delete k j ((i, v) ∷ t) =
      ground (arith, eq_iff i k, eq_iff i j, eq_iff k j, lookup-delete k j t)

  pub delete-IsKeyed : (k : String) (t : Table V) → IsKeyed t → IsKeyed (delete k t)
  unfolding delete
  delete-IsKeyed k [] h = tt
  delete-IsKeyed k ((i, v) ∷ t) h = ground (arith, delete-IsKeyed k t h.1, lookup-delete k i t)
