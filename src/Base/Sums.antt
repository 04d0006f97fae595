-- ===== src/Base/Sums.antt =====
-- Maps in the order of their keys, and sums over their entries.
use Prim.Native.Nat.{ℕ, ◌+◌, ◌≤◌}
use Prim.Native.Nat.Ordering.{lt, eq}
use mathlib.Core.Path.{◌≡◌, refl, sym, subst}
use mathlib.Core.Logic.{◌≢◌, inl, inr}
use mathlib.Core.Bool.{true}
use mathlib.Core.Option.{none, some}
use mathlib.Core.List.{[], ◌∷◌}
use native.Mathlib.Omega.{arith}
use lightwatch.Base.Tests.{Bool-cases}
use lightwatch.Base.Keys.{Key, key_eq}
use lightwatch.Base.Maps.{Map, get, insert}

not_above {ℓ} : {K : Type ℓ} ⦃o : Key K⦄ (k j : K) → o.cmp k j ≡ lt → j ≢ k
not_above ⦃o⦄ k j h e = let same : o.cmp k j ≡ eq = rw e (o.cmp_refl k) in cc

module _ {ℓ κ} {K : Type ℓ} {V : Type κ} ⦃o : Key K⦄ where
  abbrev pub AllAbove : K → Map K V → Type 0
  AllAbove k [] = Unit {0}
  AllAbove k ((j, v) ∷ m) = (o.cmp k j ≡ lt) × AllAbove k m

  abbrev pub IsAscending : Map K V → Type 0
  IsAscending [] = Unit {0}
  IsAscending ((k, v) ∷ m) = AllAbove k m × IsAscending m

  AllAbove-below : (j k : K) (m : Map K V) → o.cmp j k ≡ lt → AllAbove k m → AllAbove j m
  AllAbove-below j k [] h a = tt
  AllAbove-below j k ((i, v) ∷ m) h a = (o.lt_trans j k i h a.0, AllAbove-below j k m h a.1)

  AllAbove-insert :
      (j k : K) (v : V) (m : Map K V) → o.cmp j k ≡ lt → AllAbove j m → AllAbove j (insert k v m)
  unfolding insert
  AllAbove-insert j k v [] h a = (h, tt)
  AllAbove-insert j k v ((i, w) ∷ m) h a = ground (arith, AllAbove-insert j k v m h a.1)

  pub insert-IsAscending :
      (k : K) (v : V) (m : Map K V) → IsAscending m → IsAscending (insert k v m)
  unfolding insert
  insert-IsAscending k v [] a = (tt, tt)
  insert-IsAscending k v ((i, w) ∷ m) a = ground (
    arith,
    insert-IsAscending k v m a.1,
    AllAbove-insert i k v m,
    AllAbove-below k i m,
    o.lt_of_gt k i,
    o.eq_of_cmp k i,
    a.0,
  )

  pub get-AllAbove : (k : K) (m : Map K V) → AllAbove k m → get k m ≡ none
  unfolding get
  get-AllAbove k [] a = refl
  get-AllAbove k ((j, v) ∷ m) a = rw a.0 (get-AllAbove k m a.1)

  pub get-head : (k : K) (v : V) (m : Map K V) → get k ((k, v) ∷ m) ≡ some v
  unfolding get
  get-head k v m = rw (o.cmp_refl k)

  -- An entry of the tail is an entry of the whole.
  pub get-tail :
      (k j : K) (v w : V) (m : Map K V)
      → AllAbove k m
      → get j m ≡ some w
      → get j ((k, v) ∷ m) ≡ some w
  unfolding get
  get-tail k j v w m a e = elim (Bool-cases (key_eq j k)) [
    | inl same ↦
        let is : j ≡ k = ground (arith, o.eq_of_cmp j k) in
        let gone : get j m ≡ none = rw is (get-AllAbove k m a) in absurd (cc)
    | inr other ↦ rw other e
  ]

  abbrev pub sum_map : (K → V → ℕ) → Map K V → ℕ
  sum_map w [] = 0
  sum_map w ((k, v) ∷ m) = w k v + sum_map w m

  pub sum_map-insert_new :
      (w : K → V → ℕ) (k : K) (v : V) (m : Map K V)
      → get k m ≡ none
      → sum_map w (insert k v m) ≡ w k v + sum_map w m
  unfolding get insert
  sum_map-insert_new w k v [] h = refl
  sum_map-insert_new w k v ((j, u) ∷ m) h = ground (arith, sum_map-insert_new w k v m)

  pub sum_map_cong :
      (w w' : K → V → ℕ) (m : Map K V)
      → IsAscending m
      → ((k : K) (v : V) → get k m ≡ some v → w k v ≡ w' k v)
      → sum_map w m ≡ sum_map w' m
  sum_map_cong w w' [] a h = refl
  sum_map_cong w w' ((k, v) ∷ m) a h = omega (
    arith,
    h k v (get-head k v m),
    sum_map_cong w w' m a.1 (λ j u e. h j u (get-tail k j v u m a.0 e)),
  )

  sum_map_above :
      (w w' : K → V → ℕ) (k : K) (m : Map K V)
      → AllAbove k m
      → ((j : K) (u : V) → j ≢ k → w' j u ≡ w j u)
      → sum_map w' m ≡ sum_map w m
  sum_map_above w w' k [] a h = refl
  sum_map_above w w' k ((j, u) ∷ m) a h =
      omega (arith, h j u (not_above k j a.0), sum_map_above w w' k m a.1 h)

  -- A weight that changes at one key changes the sum by as much.
  pub sum_map_change :
      (w w' : K → V → ℕ) (k : K) (v : V) (m : Map K V)
      → IsAscending m
      → get k m ≡ some v
      → ((j : K) (u : V) → j ≢ k → w' j u ≡ w j u)
      → sum_map w' m + w k v ≡ sum_map w m + w' k v
  unfolding get
  sum_map_change w w' k v [] a e h = cc
  sum_map_change w w' k v ((j, u) ∷ m) a e h = elim (Bool-cases (key_eq k j)) [
    | inl same ↦
        let key : k ≡ j = ground (arith, o.eq_of_cmp k j) in
        let found : some u ≡ some v = rw same at e in
        let value : u ≡ v = cc in
        let old : w k v ≡ w j u = cc in
        let new : w' k v ≡ w' j u = cc in
        let above : AllAbove k m = subst (λ i. AllAbove i m) (sym key) a.0 in
        omega (arith, old, new, sum_map_above w w' k m above h)
    | inr other ↦
        let found : get k m ≡ some v = rw other at e in
        let distinct : j ≢ k = λ e'. let hit : key_eq k j ≡ true = rw (e', o.cmp_refl k) in cc in
        omega (arith, h j u distinct, sum_map_change w w' k v m a.1 found h)
  ]

  pub le-sum_map :
      (w : K → V → ℕ) (k : K) (v : V) (m : Map K V) → get k m ≡ some v → w k v ≤ sum_map w m
  unfolding get
  le-sum_map w k v [] e = cc
  le-sum_map w k v ((j, u) ∷ m) e = elim (Bool-cases (key_eq k j)) [
    | inl same ↦
        let key : k ≡ j = ground (arith, o.eq_of_cmp k j) in
        let found : some u ≡ some v = rw same at e in
        let value : u ≡ v = cc in let share : w k v ≡ w j u = cc in omega arith
    | inr other ↦
        let found : get k m ≡ some v = rw other at e in omega (arith, le-sum_map w k v m found)
  ]

  -- An entry replaced changes the sum by the difference.
  pub sum_map-insert_held :
      (w : K → V → ℕ) (k : K) (v u : V) (m : Map K V)
      → IsAscending m
      → get k m ≡ some u
      → sum_map w (insert k v m) + w k u ≡ sum_map w m + w k v
  unfolding get insert
  sum_map-insert_held w k v u [] a e = cc
  sum_map-insert_held w k v u ((j, x) ∷ m) a e = ground (
    arith,
    sum_map-insert_held w k v u m a.1,
    get-AllAbove k m,
    AllAbove-below k j m,
    o.eq_of_cmp k j,
    a.0,
  )
