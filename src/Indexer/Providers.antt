-- ===== src/Indexer/Providers.antt =====
-- The handlers of the providers' logs (contracts/indexer/src/handlers/provider_added.rs,
-- provider_removed.rs and provider_updated_with_cp.rs).
use oyster_monorepo.Base.{ℕ, String, true, false, not, none, some, ◌∷◌, ◌==◌}
use oyster_monorepo.Chain.{Log, Codec}
use oyster_monorepo.Indexer.Table.{lookup}
use oyster_monorepo.Indexer.Db.{
  M, ok, decode_failed, existing_provider, bad_count, ◌>>=◌, ok_or, ensure, topic, update_providers,
}

-- INSERT ... ON CONFLICT (id) DO UPDATE SET is_active = true, cp WHERE is_active = false: the number
-- of rows written.
unfoldable pub upsert_provider : String → String → M ℕ
upsert_provider id cp db = elim (lookup id db.providers) [
  | none ↦
      (ok 1, record db { providers = (id, record { cp = cp; is_active = true }) ∷ db.providers })
  | some _ ↦
      update_providers id (λ p. not p.is_active) (λ p. record p { is_active = true; cp = cp }) db
]

module _ (c : Codec) where
  open c use {to_checksum, decode_string}

  unfoldable pub handle_provider_added : Log → M (Unit {0})
  handle_provider_added log = do
    w ← topic 1 log
    cp ← ok_or (decode_string log.payload) decode_failed
    count ← upsert_provider (to_checksum w) cp
    ensure (count == 1) existing_provider

  unfoldable pub handle_provider_removed : Log → M (Unit {0})
  handle_provider_removed log = do
    w ← topic 1 log
    count ←
        update_providers (to_checksum w) (λ p. p.is_active) (λ p. record p { is_active = false })
    ensure (count == 1) bad_count

  unfoldable pub handle_provider_updated_with_cp : Log → M (Unit {0})
  handle_provider_updated_with_cp log = do
    w ← topic 1 log
    cp ← ok_or (decode_string log.payload) decode_failed
    count ← update_providers (to_checksum w) (λ p. p.is_active) (λ p. record p { cp = cp })
    ensure (count == 1) bad_count
