-- ===== src/Market/Metadata.antt =====
-- The metadata of a job, a JSON text. Parsing and the accessors of its values are those of serde_json,
-- which is not in this repository: they are the fields of `Serde`.
use oyster_monorepo.Base.{String, ◌^◌, ◌-◌, Bool, ◌&&◌, Option, if◌then◌else◌}
use oyster_monorepo.Base.Int.{ℤ, pos, negsuc, leb_ℤ}

pub record Serde (Value : Type 0) : Type 0 where
  -- `serde_json::from_str`
  pub from_str : String → Option Value
  -- `v[key].as_str()`, `v[key].as_i64()` and `v[key].as_bool()`
  pub as_str : Value → String → Option String
  pub as_int : Value → String → Option ℤ
  pub as_bool : Value → String → Option Bool

abbrev pub i32_max : ℤ
i32_max = pos (2 ^ 31 - 1)

-- `t.try_into().unwrap_or(d)` from i64 to i32.
unfoldable pub to_i32_or : ℤ → ℤ → ℤ
to_i32_or d t = if leb_ℤ (negsuc (2 ^ 31 - 1)) t && leb_ℤ t i32_max then t else d
