-- ===== src/Probe/Statics.antt =====
-- What a `&'static` reference of the probe's sources points to: a reference is the number of a
-- static, and the statics of one type are a function from their numbers.
use lightwatch.Base.{ℕ, ◌==◌, if◌then◌else◌}

abbrev pub Statics {ℓ} : Type ℓ → Type ℓ
Statics A = ℕ → A

abbrev pub write_static {ℓ} : {A : Type ℓ} → ℕ → A → Statics A → Statics A
write_static at value statics = λ other. if other == at then value else statics other
