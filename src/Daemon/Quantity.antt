-- ===== src/Daemon/Quantity.antt =====
-- crates/lightwatch-daemon/src/quantity.rs: sums that grow, and readings that are replaced.
use lightwatch.Base.{ℕ, saturating_add}

pub record Cumulative : Type 0 where
  pub value : ℕ

abbrev pub zero_total : Cumulative
zero_total = record { value = 0 }

unfoldable pub accumulate : Cumulative → ℕ → Cumulative
accumulate c delta = record { value = saturating_add c.value delta }

unfoldable pub absorb : Cumulative → Cumulative → Cumulative
absorb c other = record { value = saturating_add c.value other.value }

pub record Absolute : Type 0 where
  pub value : ℕ

unfoldable pub reading : ℕ → Absolute
reading v = record { value = v }
