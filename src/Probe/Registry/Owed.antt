-- ===== src/Probe/Registry/Owed.antt =====
-- crates/lightwatch-probe/src/registry.rs: the registers that marks leave to be sent, described from the
-- tables alone.
use lightwatch.Base.{
  ℕ, zero, suc, ◌+◌, ◌-◌, ◌%◌, ◌^◌, ◌≤◌, ◌<◌, ◌≡◌, refl, sym, ◌∙◌, ap, inl, inr, List, [], ◌∷◌,
  ◌++◌, none, some, min, ◌==◌, arith, Bool-cases, length, drop,
}
use lightwatch.Proto.Wire
use lightwatch.Probe.Statics.{Statics}
use lightwatch.Probe.Census.{TypeSlot}
use lightwatch.Probe.Registry.{
  Site, Tables, Marks, path_registers, function_registers, type_registers,
}

pub path_registers_mark :
    (l : List (ℕ × ℕ)) (room now offset : ℕ)
    → now ≡ offset
    → (path_registers room now offset l).1 ≡ offset + min room (length l)
unfolding path_registers
path_registers_mark [] room now offset e = omega (arith, e)
path_registers_mark ((parent, func) ∷ l) room now offset e = elim (Bool-cases (room == 0)) [
  | inl full ↦ let key : room ≡ 0 = ground arith in rw full (omega (arith, e, key))
  | inr free ↦
      let pos : 0 < room = ground arith in
      let next : offset + 1 ≡ suc offset = omega arith in
      rw free (omega (arith, path_registers_mark l (room - 1) (offset + 1) (suc offset) next, pos))
]

pub drop_all : {A : Type 0} (xs : List A) → drop (length xs) xs ≡ []
drop_all [] = refl
drop_all (x ∷ xs) = drop_all xs

-- One register for each entry of a list, by its position.
abbrev pub each {ℓ} : {A : Type ℓ} → (ℕ → A → Wire.Register) → ℕ → List A → List Wire.Register
each describe i [] = []
each describe i (x ∷ xs) = describe i x ∷ each describe (suc i) xs

-- The registers of a function, a type and a context, whose id is the position counted from 1.
abbrev pub of_function : Statics Site → ℕ → ℕ → Wire.Register
of_function sites i site =
    Wire.Register.function ((i + 1) % 2 ^ 32) (sites site).name (some (sites site).module_name)
      (some (record { file = (sites site).file; line = (sites site).line; column = none }))

abbrev pub of_type : Statics TypeSlot → ℕ → ℕ → Wire.Register
of_type slots i slot =
    Wire.Register.ty ((i + 1) % 2 ^ 32) (slots slot).name
      (some (record { file = (slots slot).file; line = (slots slot).line; column = none }))

abbrev pub of_context : ℕ → ℕ × ℕ → Wire.Register
of_context i (parent, func) = Wire.Register.path ((i + 1) % 2 ^ 32) parent func

-- What the marks leave to be sent.
abbrev pub owed : Tables → Marks → List Wire.Register
owed t m =
    (each (of_function t.functions.sites) m.functions_sent
        (drop m.functions_sent t.functions.functions)
      ++ each (of_type t.types.slots) m.types_sent (drop m.types_sent t.types.types))
    ++ each of_context m.paths_sent (drop m.paths_sent t.paths.nodes)

pub functions-each :
    (sites : Statics Site) (i : ℕ) (l : List ℕ)
    → function_registers sites i l ≡ each (of_function sites) i l
unfolding function_registers
functions-each sites i [] = refl
functions-each sites i (site ∷ l) =
    ap (λ rs. of_function sites i site ∷ rs) (functions-each sites (suc i) l)

pub types-each :
    (slots : Statics TypeSlot) (i : ℕ) (l : List ℕ)
    → type_registers slots i l ≡ each (of_type slots) i l
unfolding type_registers
types-each slots i [] = refl
types-each slots i (slot ∷ l) = ap (λ rs. of_type slots i slot ∷ rs) (types-each slots (suc i) l)

drop_none : {A : Type 0} (n : ℕ) → drop {A = A} n [] ≡ []
drop_none zero = refl
drop_none (suc n) = refl

drop-drop : {A : Type 0} (n m : ℕ) (xs : List A) → drop n (drop m xs) ≡ drop (m + n) xs
drop-drop n zero xs = let e : 0 + n ≡ n = omega arith in rw e refl
drop-drop n (suc m) [] = drop_none n ∙ sym (drop_none (suc m + n))
drop-drop n (suc m) (x ∷ xs) =
    let e : suc m + n ≡ suc (m + n) = omega arith in rw e (drop-drop n m xs)

-- What a frame sends of the contexts, and what its mark leaves, are the contexts that were left.
paths-each :
    (l : List (ℕ × ℕ)) (room now offset : ℕ)
    → now ≡ offset
    → (let out = path_registers room now offset l in
        out.0 ++ each of_context out.1 (drop (out.1 - offset) l) ≡ each of_context offset l)
unfolding path_registers
paths-each [] room now offset e = ap (each of_context now) (drop_none (now - offset))
paths-each ((parent, func) ∷ l) room now offset e = elim (Bool-cases (room == 0)) [
  | inl full ↦ let start : offset - offset ≡ 0 = omega arith in rw (full, e, start) refl
  | inr free ↦
      let next : offset + 1 ≡ suc offset = omega arith in
      let rest = path_registers (room - 1) (offset + 1) (suc offset) l in
      let mark = path_registers_mark l (room - 1) (offset + 1) (suc offset) next in
      let ahead : rest.1 - offset ≡ suc (rest.1 - suc offset) = omega (arith, mark) in
      rw (free, ahead)
        (ap (λ rs. of_context offset (parent, func) ∷ rs)
          (paths-each l (room - 1) (offset + 1) (suc offset) next))
]

-- The contexts of one frame from `p` on, in whatever room it has, and those that are left then.
pub frame-each :
    (t : Tables) (room p : ℕ)
    → p ≤ length t.paths.nodes
    → (let out = path_registers room p p (drop p t.paths.nodes) in
        out.0 ++ each of_context out.1 (drop out.1 t.paths.nodes)
        ≡ each of_context p (drop p t.paths.nodes))
frame-each t room p low =
    let nodes = t.paths.nodes in
    let out = path_registers room p p (drop p nodes) in
    let mark = path_registers_mark (drop p nodes) room p p refl in
    let sum : p + (out.1 - p) ≡ out.1 = omega (arith, mark) in
    let left : drop (out.1 - p) (drop p nodes) ≡ drop out.1 nodes =
      drop-drop (out.1 - p) p nodes ∙ ap (λ n. drop n nodes) sum in
    ap (λ l. out.0 ++ each of_context out.1 l) (sym left) ∙ paths-each (drop p nodes) room p p refl
