-- ===== src/Probe/Paths/Intern.antt =====
-- crates/lightwatch-probe/src/registry.rs: what the ids of the context table name.
use lightwatch.Base.{
  get_elem?-append, get_elem?_last, ℕ, ◌+◌, ◌-◌, ◌≤◌, ◌<◌, ◌^◌, ◌≡◌, refl, sym, subst, List, [],
  ◌∷◌, ◌++◌, Option, none, some, inl, inr, ◌⊎◌, Bool-cases, arith, leb, length, length-append,
  get_elem?, get, insert, get-insert, nat_key, pair_key, pair_eq_of_cmp, key_eq,
}
use lightwatch.Daemon.Window.{or_default}
use lightwatch.Probe.Paths.{PathTable, Index, intern_path, look_up, grow}

abbrev pub held_index : PathTable → Index
held_index t = or_default [] t.index

-- An id is one more than the position of the pair that it names.
abbrev pub IsName : List (ℕ × ℕ) → ℕ → ℕ × ℕ → Type 0
IsName nodes id pair = (0 < id) × (get_elem? nodes (id - 1) ≡ some pair)

-- Every id in the index names its pair, and the table keeps to its cap.
pub record IsTable (limit : ℕ) (t : PathTable) : Type 0 where
  pub bounded : length t.nodes ≤ limit
  pub names : (pair : ℕ × ℕ) (id : ℕ) → get pair (held_index t) ≡ some id → IsName t.nodes id pair

grown_name :
    (limit : ℕ) (t : PathTable) (m : Index) (pair : ℕ × ℕ)
    → limit < 2 ^ 32
    → length t.nodes < limit
    → (grow t m pair).1 ≡ length t.nodes + 1
grown_name limit t m pair small room = omega (arith, length-append t.nodes (pair ∷ []))

grow-IsName :
    (limit : ℕ) (t : PathTable) (m : Index) (pair : ℕ × ℕ)
    → limit < 2 ^ 32
    → length t.nodes < limit
    → IsName (grow t m pair).0.nodes (grow t m pair).1 pair
grow-IsName limit t m pair small room =
    let e = grown_name limit t m pair small room in
    let back : length t.nodes + 1 - 1 ≡ length t.nodes = omega arith in
    subst (λ id. IsName (t.nodes ++ (pair ∷ [])) id pair) (sym e)
      (omega arith, rw back (get_elem?_last t.nodes pair))

grow-IsTable :
    (limit : ℕ) (t : PathTable) (pair : ℕ × ℕ)
    → limit < 2 ^ 32
    → length t.nodes < limit
    → IsTable limit t
    → IsTable limit (grow t (held_index t) pair).0
grow-IsTable limit t pair small room h = record {
  bounded = omega (arith, length-append t.nodes (pair ∷ []));
  names = names;
}
  where
    names :
        (other : ℕ × ℕ) (id : ℕ)
        → get other (insert pair (grow t (held_index t) pair).1 (held_index t)) ≡ some id
        → IsName (t.nodes ++ (pair ∷ [])) id other
    names other id e = elim (Bool-cases (key_eq other pair)) [
      | inl same ↦
          let key : other ≡ pair = ground (arith, pair_eq_of_cmp other pair) in
          let found : some (grow t (held_index t) pair).1 ≡ some id =
            rw (get-insert pair (grow t (held_index t) pair).1 other (held_index t), same) at e in
          let is : (grow t (held_index t) pair).1 ≡ id = ground arith in
          subst (λ i. IsName (t.nodes ++ (pair ∷ [])) i other) is
            (subst (λ p. IsName (t.nodes ++ (pair ∷ [])) (grow t (held_index t) pair).1 p) (sym key)
              (grow-IsName limit t (held_index t) pair small room))
      | inr new ↦
          let found : get other (held_index t) ≡ some id =
            rw (get-insert pair (grow t (held_index t) pair).1 other (held_index t), new) at e in
          let old = h.names other id found in
          (old.0, get_elem?-append t.nodes (pair ∷ []) (id - 1) other old.1)
    ]

-- What `intern_path` gives for a pair: its name in the table as it is then, or 0 from a full table.
abbrev pub Interned : ℕ → PathTable → ℕ × ℕ → PathTable × ℕ → Type 0
Interned limit t pair (after, id) =
    IsTable limit after × (IsName after.nodes id pair ⊎ ((id ≡ 0) × (limit ≤ length t.nodes)))

look_up-Interned :
    (limit : ℕ) (t : PathTable) (pair : ℕ × ℕ) (o : Option ℕ)
    → limit < 2 ^ 32
    → get pair (held_index t) ≡ o
    → IsTable limit t
    → Interned limit t pair (look_up limit t (held_index t) pair o)
look_up-Interned limit t pair (some id) small e h =
    (record { bounded = h.bounded; names = h.names }, inl (h.names pair id e))
look_up-Interned limit t pair none small e h = elim (Bool-cases (leb limit (length t.nodes))) [
  | inl full ↦ rw full (record { bounded = h.bounded; names = h.names }, inr (refl, ground arith))
  | inr room ↦
      let less : length t.nodes < limit = ground arith in
      rw room (
        grow-IsTable limit t pair small less h,
        inl (grow-IsName limit t (held_index t) pair small less),
      )
]

-- With a cap below 2 ^ 32, in a table whose ids name their pairs and that keeps to its cap: the table
-- after `intern_path` is such a table again, and the result is an id that names the pair in it, or 0
-- where the table was full.
pub intern_path-Interned :
    (limit parent func : ℕ) (t : PathTable)
    → limit < 2 ^ 32
    → IsTable limit t
    → Interned limit t (parent, func) (intern_path limit parent func t)
unfolding intern_path
intern_path-Interned limit parent func t small h =
    look_up-Interned limit t (parent, func) (get (parent, func) (held_index t)) small refl h
