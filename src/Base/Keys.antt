-- ===== src/Base/Keys.antt =====
-- Rust's `Ord`, for the types that the program keys its maps by.
use Prim.Native.Nat.{ℕ, compare, Ordering}
use Prim.Native.Nat.Ordering.{lt, eq, gt}
use mathlib.Core.Path.{◌≡◌, refl}
use mathlib.Core.Bool.{Bool, true, false, ◌&&◌}
use mathlib.Core.List.{List, [], ◌∷◌}
use native.Mathlib.Omega.{arith}
use lightwatch.Base.Tests.{◌==◌}

pub record Key {ℓ} (K : Type ℓ) : Type ℓ where
  pub cmp : K → K → Ordering
  pub cmp_refl : (a : K) → cmp a a ≡ eq
  pub eq_of_cmp : (a b : K) → cmp a b ≡ eq → a ≡ b
  pub gt_of_lt : (a b : K) → cmp a b ≡ lt → cmp b a ≡ gt
  pub lt_of_gt : (a b : K) → cmp a b ≡ gt → cmp b a ≡ lt
  pub lt_trans : (a b c : K) → cmp a b ≡ lt → cmp b c ≡ lt → cmp a c ≡ lt

abbrev pub is_eq : Ordering → Bool
is_eq eq = true
is_eq _ = false

abbrev pub key_eq {ℓ} : {K : Type ℓ} ⦃o : Key K⦄ → K → K → Bool
key_eq ⦃o⦄ a b = is_eq (o.cmp a b)

pub nat_eq_of_compare : (a b : ℕ) → compare a b ≡ eq → a ≡ b
nat_eq_of_compare a b h = ground arith

pub nat_compare_refl : (a : ℕ) → compare a a ≡ eq
nat_compare_refl a = ground arith

pub nat_gt_of_lt : (a b : ℕ) → compare a b ≡ lt → compare b a ≡ gt
nat_gt_of_lt a b h = ground arith

pub nat_lt_of_gt : (a b : ℕ) → compare a b ≡ gt → compare b a ≡ lt
nat_lt_of_gt a b h = ground arith

pub nat_lt_trans : (a b c : ℕ) → compare a b ≡ lt → compare b c ≡ lt → compare a c ≡ lt
nat_lt_trans a b c h k = ground arith

instance abbrev pub nat_key : Key ℕ
nat_key = record {
  cmp = compare;
  cmp_refl = nat_compare_refl;
  eq_of_cmp = nat_eq_of_compare;
  gt_of_lt = nat_gt_of_lt;
  lt_of_gt = nat_lt_of_gt;
  lt_trans = nat_lt_trans;
}

abbrev pub and_then : Ordering → Ordering → Ordering
and_then eq second = second
and_then lt second = lt
and_then gt second = gt

module _ {ℓ κ} {A : Type ℓ} {B : Type κ} ⦃a : Key A⦄ ⦃b : Key B⦄ where
  -- Pairs compare lexicographically.
  abbrev pub pair_cmp : A × B → A × B → Ordering
  pair_cmp x y = and_then (a.cmp x.0 y.0) (b.cmp x.1 y.1)

  pub pair_refl : (x : A × B) → pair_cmp x x ≡ eq
  pair_refl x = simp (a.cmp_refl, b.cmp_refl)

  pub pair_eq_of_cmp : (x y : A × B) → pair_cmp x y ≡ eq → x ≡ y
  pair_eq_of_cmp x y h = ground (arith, a.eq_of_cmp x.0 y.0, b.eq_of_cmp x.1 y.1)

  pub pair_gt_of_lt : (x y : A × B) → pair_cmp x y ≡ lt → pair_cmp y x ≡ gt
  pair_gt_of_lt x y h =
      ground (arith, a.eq_of_cmp x.0 y.0, a.cmp_refl x.0, a.gt_of_lt x.0 y.0, b.gt_of_lt x.1 y.1)

  pub pair_lt_of_gt : (x y : A × B) → pair_cmp x y ≡ gt → pair_cmp y x ≡ lt
  pair_lt_of_gt x y h =
      ground (arith, a.eq_of_cmp x.0 y.0, a.cmp_refl x.0, a.lt_of_gt x.0 y.0, b.lt_of_gt x.1 y.1)

  pub pair_lt_trans : (x y z : A × B) → pair_cmp x y ≡ lt → pair_cmp y z ≡ lt → pair_cmp x z ≡ lt
  pair_lt_trans x y z h k = ground (
    arith,
    a.eq_of_cmp x.0 y.0,
    a.eq_of_cmp y.0 z.0,
    a.lt_trans x.0 y.0 z.0,
    b.lt_trans x.1 y.1 z.1,
  )

  instance abbrev pub pair_key : Key (A × B)
  pair_key = record {
    cmp = pair_cmp;
    cmp_refl = pair_refl;
    eq_of_cmp = pair_eq_of_cmp;
    gt_of_lt = pair_gt_of_lt;
    lt_of_gt = pair_lt_of_gt;
    lt_trans = pair_lt_trans;
  }

-- A Rust string is the list of its code points: the order of their UTF-8 bytes is the order of
-- the code points.
abbrev pub Text : Type 0
Text = List ℕ

abbrev pub text_cmp : Text → Text → Ordering
text_cmp [] [] = eq
text_cmp [] (d ∷ t) = lt
text_cmp (c ∷ s) [] = gt
text_cmp (c ∷ s) (d ∷ t) = and_then (compare c d) (text_cmp s t)

pub text_refl : (s : Text) → text_cmp s s ≡ eq
text_refl [] = refl
text_refl (c ∷ s) = rw (nat_compare_refl c) (text_refl s)

pub text_eq_of_cmp : (s t : Text) → text_cmp s t ≡ eq → s ≡ t
text_eq_of_cmp [] [] h = refl
text_eq_of_cmp [] (d ∷ t) h = cc
text_eq_of_cmp (c ∷ s) [] h = cc
text_eq_of_cmp (c ∷ s) (d ∷ t) h = ground (arith, nat_eq_of_compare c d, text_eq_of_cmp s t)

pub text_gt_of_lt : (s t : Text) → text_cmp s t ≡ lt → text_cmp t s ≡ gt
text_gt_of_lt [] [] h = cc
text_gt_of_lt [] (d ∷ t) h = refl
text_gt_of_lt (c ∷ s) [] h = cc
text_gt_of_lt (c ∷ s) (d ∷ t) h = ground (arith, text_gt_of_lt s t)

pub text_lt_of_gt : (s t : Text) → text_cmp s t ≡ gt → text_cmp t s ≡ lt
text_lt_of_gt [] [] h = cc
text_lt_of_gt [] (d ∷ t) h = cc
text_lt_of_gt (c ∷ s) [] h = refl
text_lt_of_gt (c ∷ s) (d ∷ t) h = ground (arith, text_lt_of_gt s t)

pub text_lt_trans : (s t u : Text) → text_cmp s t ≡ lt → text_cmp t u ≡ lt → text_cmp s u ≡ lt
text_lt_trans [] t [] h k = ground arith
text_lt_trans [] t (e ∷ u) h k = refl
text_lt_trans (c ∷ s) [] u h k = cc
text_lt_trans (c ∷ s) (d ∷ t) [] h k = cc
text_lt_trans (c ∷ s) (d ∷ t) (e ∷ u) h k = ground (arith, text_lt_trans s t u)

instance abbrev pub text_key : Key Text
text_key = record {
  cmp = text_cmp;
  cmp_refl = text_refl;
  eq_of_cmp = text_eq_of_cmp;
  gt_of_lt = text_gt_of_lt;
  lt_of_gt = text_lt_of_gt;
  lt_trans = text_lt_trans;
}

pub key_eq-== : (a b : ℕ) → key_eq a b ≡ (a == b)
key_eq-== a b = ground arith

pub pair_key_eq : (a b c d : ℕ) → key_eq {K = ℕ × ℕ} (a, b) (c, d) ≡ ((a == c) && (b == d))
pair_key_eq a b c d = ground arith
