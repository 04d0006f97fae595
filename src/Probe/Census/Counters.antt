-- ===== src/Probe/Census/Counters.antt =====
-- An array of counters as a function of the index.
use lightwatch.Base.{
  true, false, ℕ, zero, suc, ◌+◌, ◌≤◌, ◌<◌, ◌%◌, ◌^◌, ◌≡◌, refl, ap, List, [], ◌∷◌, ◌==◌,
  if◌then◌else◌, arith,
}
use lightwatch.Probe.Census.{zeros, add_at}

-- The values of `f` at `n` numbers from `from` on.
abbrev pub table : (ℕ → ℕ) → ℕ → ℕ → List ℕ
table f from zero = []
table f from (suc n) = f from ∷ table f (suc from) n

pub table_cong :
    (f g : ℕ → ℕ) (from n : ℕ)
    → ((i : ℕ) → from ≤ i → i < from + n → f i ≡ g i)
    → table f from n ≡ table g from n
table_cong f g from zero h = refl
table_cong f g from (suc n) h =
    let first : f from ≡ g from = h from (omega arith) (omega arith) in
    let rest : table f (suc from) n ≡ table g (suc from) n =
      table_cong f g (suc from) n (λ i a b. h i (omega arith) (omega arith)) in
    rw (first, rest) refl

pub zeros-table : (from n : ℕ) → zeros n ≡ table (λ i. 0) from n
unfolding zeros
zeros-table from zero = refl
zeros-table from (suc n) = ap (λ ns. 0 ∷ ns) (zeros-table (suc from) n)

abbrev pub added : ℕ → ℕ → (ℕ → ℕ) → ℕ → ℕ
added at by f i = if i == at then (f i + by) % 2 ^ 32 else f i

-- Adding at an index of the table adds to the function there.
pub add_at-table :
    (f : ℕ → ℕ) (by i from n : ℕ)
    → add_at i by (table f from n) ≡ table (added (from + i) by f) from n
unfolding add_at
add_at-table f by i from zero = refl
add_at-table f by zero from (suc n) =
    let hit : (from == from + 0) ≡ true = ground arith in
    let rest : table f (suc from) n ≡ table (added (from + 0) by f) (suc from) n =
      table_cong f (added (from + 0) by f) (suc from) n (λ i a b. ground arith) in
    rw (hit, rest) refl
add_at-table f by (suc i) from (suc n) =
    let miss : (from == from + suc i) ≡ false = ground arith in
    let same : suc from + i ≡ from + suc i = omega arith in
    let rest : add_at i by (table f (suc from) n) ≡ table (added (from + suc i) by f) (suc from) n =
      rw same at (add_at-table f by i (suc from) n) in
    rw (miss, rest) refl
