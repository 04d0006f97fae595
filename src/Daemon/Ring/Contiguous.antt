-- ===== src/Daemon/Ring/Contiguous.antt =====
-- Consecutive windows: the shape of the ring, and how its loops keep it.
use lightwatch.Base.{
  ℕ, zero, suc, ◌+◌, ◌-◌, ◌≤◌, ◌<◌, ◌≡◌, refl, sym, subst, List, [], ◌∷◌, ◌++◌, some, ltb, length,
  get_elem?, inl, inr, arith, Bool-cases,
}
use lightwatch.Daemon.Window.{Window}
use lightwatch.Daemon.Ring.{Ring, last_index, first_index, fresh, evict}

-- Consecutive windows of one resolution, the first at `a`.
abbrev pub Runs : ℕ → ℕ → List Window → Type 0
Runs res a [] = Unit {0}
Runs res a (w ∷ ws) = (w.index ≡ a) × (w.resolution_ns ≡ res) × Runs res (suc a) ws

abbrev pub Contiguous : ℕ → List Window → Type 0
Contiguous res [] = Unit {0}
Contiguous res (w ∷ ws) = Runs res w.index (w ∷ ws)

pub record IsValid (r : Ring) : Type 0 where
  pub resolution_pos : 0 < r.resolution_ns
  pub capacity_pos : 0 < r.capacity
  pub bounded : length r.windows ≤ r.capacity
  pub contiguous : Contiguous r.resolution_ns r.windows

pub Runs-append :
    (res a : ℕ) (xs ys : List Window)
    → Runs res a xs
    → Runs res (a + length xs) ys
    → Runs res a (xs ++ ys)
Runs-append res a [] ys h k = let e : a + 0 ≡ a = omega arith in rw e at k
Runs-append res a (x ∷ xs) ys h k =
    let e : a + suc (length xs) ≡ suc a + length xs = omega arith in
    (h.0, h.1, Runs-append res (suc a) xs ys h.2 (rw e at k))

pub last_index-Runs :
    (res a : ℕ) (w : Window) (ws : List Window)
    → Runs res a (w ∷ ws)
    → last_index (w ∷ ws) ≡ some (a + length ws)
last_index-Runs res a w [] h = ground arith
last_index-Runs res a w (v ∷ ws) h =
    let e : a + suc (length ws) ≡ suc a + length ws = omega arith in
    rw e (last_index-Runs res (suc a) v ws h.2)

pub fresh-Runs : (res m n : ℕ) → Runs res m (fresh res m n)
unfolding fresh
fresh-Runs res m zero = tt
fresh-Runs res m (suc n) =
    let e : m + 1 ≡ suc m = omega arith in rw e (refl, refl, fresh-Runs res (suc m) n)

pub length-fresh : (res m n : ℕ) → length (fresh res m n) ≡ n
unfolding fresh
length-fresh res m zero = refl
length-fresh res m (suc n) = omega (arith, length-fresh res (m + 1) n)

pub evict-Runs :
    (res limit a : ℕ) (ws : List Window)
    → Runs res a ws
    → Runs res (a + (length ws - limit)) (evict limit ws)
unfolding evict
evict-Runs res limit a [] h = tt
evict-Runs res limit a (w ∷ ws) h = elim (Bool-cases (ltb limit (length (w ∷ ws)))) [
  | inl over ↦
      let e : a + (suc (length ws) - limit) ≡ suc a + (length ws - limit) = ground arith in
      rw (over, e) (evict-Runs res limit (suc a) ws h.2)
  | inr fits ↦ let e : a + (suc (length ws) - limit) ≡ a = ground arith in rw (fits, e) h
]

pub length-evict :
    (limit : ℕ) (ws : List Window) → length (evict limit ws) ≡ length ws - (length ws - limit)
unfolding evict
length-evict limit [] = omega arith
length-evict limit (w ∷ ws) = ground (arith, length-evict limit ws)

pub get_elem?-Runs :
    (res a i : ℕ) (ws : List Window)
    → Runs res a ws
    → i < length ws
    → (w : Window) × (get_elem? ws i ≡ some w) × (w.index ≡ a + i) × (w.resolution_ns ≡ res)
get_elem?-Runs res a i [] h k = absurd (omega arith)
get_elem?-Runs res a zero (w ∷ ws) h k = (w, refl, omega arith, h.1)
get_elem?-Runs res a (suc i) (w ∷ ws) h k =
    let (v, e, at, same) = get_elem?-Runs res (suc a) i ws h.2 (omega arith) in
    (v, e, omega arith, same)

pub Contiguous-Runs : (res a : ℕ) (ws : List Window) → Runs res a ws → Contiguous res ws
Contiguous-Runs res a [] h = tt
Contiguous-Runs res a (w ∷ ws) h = (refl, h.1, subst (λ b. Runs res (suc b) ws) (sym h.0) h.2)

pub first_index-Runs :
    (res a : ℕ) (ws : List Window) → Runs res a ws → 0 < length ws → first_index ws ≡ some a
first_index-Runs res a [] h k = absurd (omega arith)
first_index-Runs res a (w ∷ ws) h k = ground arith
