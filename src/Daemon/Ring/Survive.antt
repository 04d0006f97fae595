-- ===== src/Daemon/Ring/Survive.antt =====
-- Which windows `window_for` may not drop.
use lightwatch.Base.{
  ℕ, zero, suc, ◌+◌, ◌-◌, ◌≤◌, ◌<◌, ◌≡◌, refl, ◌∙◌, subst, List, [], ◌∷◌, ◌++◌, Option, none, some,
  false, ltb, length, length-append, get_elem?, inl, inr, arith, Bool-cases,
}
use lightwatch.Daemon.Window.{Window}
use lightwatch.Daemon.Ring.{
  Ring, fresh, evict, extend, window_for, index_of, settle, offset_from, window_at,
}
use lightwatch.Daemon.Ring.Contiguous.{
  Runs, IsValid, length-fresh, evict-Runs, length-evict, first_index-Runs, Runs-append, fresh-Runs,
}
use lightwatch.Daemon.Ring.Serve.{Extends, late, held, restart, grow, ring_of, extend-Extends}
use lightwatch.Daemon.Ring.Retained.{lt-length}

get-append : (xs ys : List Window) (i : ℕ) → i < length xs → get_elem? (xs ++ ys) i ≡ get_elem? xs i
get-append [] ys i h = absurd (omega arith)
get-append (x ∷ xs) ys zero h = refl
get-append (x ∷ xs) ys (suc i) h = get-append xs ys i (omega arith)

get-evict :
    (limit : ℕ) (ws : List Window) (i : ℕ)
    → length ws - limit ≤ i
    → get_elem? (evict limit ws) (i - (length ws - limit)) ≡ get_elem? ws i
unfolding evict
get-evict limit [] i h = refl
get-evict limit (w ∷ ws) zero h =
    let fits : ltb limit (length (w ∷ ws)) ≡ false = ground arith in
    let e : zero - (suc (length ws) - limit) ≡ zero = omega arith in rw (fits, e)
get-evict limit (w ∷ ws) (suc i) h = elim (Bool-cases (ltb limit (length (w ∷ ws)))) [
  | inl over ↦
      let e : suc i - (suc (length ws) - limit) ≡ i - (length ws - limit) = ground arith in
      rw (over, e) (get-evict limit ws i (ground arith))
  | inr fits ↦ let e : suc i - (suc (length ws) - limit) ≡ suc i = ground arith in rw (fits, e)
]

-- `w` stands at index `j` in a list that starts at `a`, and is too young to be evicted.
record Survives (res limit a j : ℕ) (w : Window) (ws : List Window) : Type 0 where
  runs : Runs res a ws
  from : a + (length ws - limit) ≤ j
  at : get_elem? ws (j - a) ≡ some w

window_at_inv :
    (res limit j : ℕ) (x w : Window) (ws : List Window)
    → window_at (ring_of res limit (x ∷ ws)) j ≡ some w
    → (x.index ≤ j) × (get_elem? (x ∷ ws) (j - x.index) ≡ some w)
unfolding window_at
window_at_inv res limit j x w ws e = elim (Bool-cases (ltb j x.index)) [
  | inl before ↦ let gone : none ≡ some w = rw before at e in cc
  | inr inside ↦ (ground arith, rw inside at e)
]

module _ (res limit index a j : ℕ) (x w : Window) (ws : List Window) where
  Extends-Survives :
      {o : Option (List Window)} (ws' : List Window)
      → Runs res a (x ∷ ws)
      → length (x ∷ ws) ≤ limit
      → a ≤ j
      → get_elem? (x ∷ ws) (j - a) ≡ some w
      → index < j + limit
      → Extends res limit index a (a + length ws) (x ∷ ws) o
      → o ≡ some ws'
      → Survives res limit a j w ws'
  Extends-Survives ws' runs size le at young (late h e) is = cc
  Extends-Survives ws' runs size le at young (held h k e) is =
      let same : x ∷ ws ≡ ws' = ground arith in
      subst (Survives res limit a j w) same (record { runs = runs; from = omega arith; at = at })
  Extends-Survives ws' runs size le at young (restart h k e) is =
      absurd (omega (arith, lt-length (x ∷ ws) (j - a) w at))
  Extends-Survives ws' runs size le at young (grow h k e) is =
      let n : ℕ = index - (a + length ws) in
      let more : List Window = fresh res (a + length ws + 1) n in
      let same : (x ∷ ws) ++ more ≡ ws' = ground arith in
      let begin : a + length ws + 1 ≡ a + suc (length ws) = omega arith in
      let tail : Runs res (a + suc (length ws)) more =
        subst (λ m. Runs res m more) begin (fresh-Runs res (a + length ws + 1) n) in
      let inside = lt-length (x ∷ ws) (j - a) w at in
      subst (Survives res limit a j w) same (record {
        runs = Runs-append res a (x ∷ ws) more runs tail;
        from = omega (arith, length-append (x ∷ ws) more, length-fresh res (a + length ws + 1) n);
        at = get-append (x ∷ ws) more (j - a) inside ∙ at;
      })

  position : (b : ℕ) → b ≤ j → offset_from j (some b) ≡ some (j - b)
  position b h = ground arith

  Survives-settle :
      (ws' : List Window)
      → 0 < limit
      → a ≤ j
      → Survives res limit a j w ws'
      → window_at (settle (ring_of res limit (x ∷ ws)) index (some ws')).0 j ≡ some w
  unfolding window_at
  Survives-settle ws' pos le s =
      let d : ℕ = length ws' - limit in
      let inside = lt-length ws' (j - a) w s.at in
      let first =
        first_index-Runs res (a + d) (evict limit ws') (evict-Runs res limit a ws' s.runs)
          (omega (arith, length-evict limit ws')) in
      let offset : offset_from j (some (a + d)) ≡ some (j - (a + d)) = position (a + d) s.from in
      let e : j - (a + d) ≡ j - a - d = omega arith in
      rw (first, offset, e) (get-evict limit ws' (j - a) (omega (arith, s.from)) ∙ s.at)

survives_from :
    (res limit index j : ℕ) (x w : Window) (ws : List Window) (o : Option (List Window))
    → IsValid (ring_of res limit (x ∷ ws))
    → window_at (ring_of res limit (x ∷ ws)) j ≡ some w
    → index < j + limit
    → Extends res limit index x.index (x.index + length ws) (x ∷ ws) o
    → window_at (settle (ring_of res limit (x ∷ ws)) index o).0 j ≡ some w
survives_from res limit index j x w ws none v at young e = at
survives_from res limit index j x w ws (some ws') v at young e =
    let (le, found) = window_at_inv res limit j x w ws at in
    Survives-settle res limit index x.index j x w ws ws' v.capacity_pos le (
      Extends-Survives res limit index x.index j x w ws ws' v.contiguous v.bounded le found young e
        refl)

survives :
    (res limit : ℕ) (ws : List Window) (index j : ℕ) (w : Window)
    → IsValid (ring_of res limit ws)
    → window_at (ring_of res limit ws) j ≡ some w
    → index < j + limit
    → window_at (settle (ring_of res limit ws) index (extend (ring_of res limit ws) index)).0 j
      ≡ some w
unfolding window_at
survives res limit [] index j w v at young = cc
survives res limit (x ∷ ws) index j w v at young =
    survives_from res limit index j x w ws (extend (ring_of res limit (x ∷ ws)) index) v at young
      (extend-Extends res limit index x ws v.contiguous)

-- `window_for` drops no window that is less than the ring's capacity older than the instant asked
-- for: such a window is found afterwards as it was.
pub window_for-survives :
    (r : Ring) (t_ns j : ℕ) (w : Window)
    → IsValid r
    → window_at r j ≡ some w
    → index_of r t_ns < j + r.capacity
    → window_at (window_for r t_ns).0 j ≡ some w
unfolding window_for
window_for-survives r t_ns j w v at young =
    survives r.resolution_ns r.capacity r.windows (index_of r t_ns) j w v at young
