-- ===== src/Daemon/Ring/Retained.antt =====
-- What `window_for` does to the windows that the ring already holds.
use lightwatch.Base.{
  ℕ, zero, suc, ◌+◌, ◌-◌, ◌≤◌, ◌<◌, ◌≡◌, refl, subst, List, [], ◌∷◌, ◌++◌, Option, none, some, ltb,
  length, get_elem?, inl, inr, arith, Bool-cases,
}
use lightwatch.Daemon.Window.{Window, new_window, or_default}
use lightwatch.Daemon.Ring.{
  Ring, fresh, evict, extend, window_for, index_of, settle, offset_from, window_at, at_offset,
}
use lightwatch.Daemon.Ring.Contiguous.{Runs, IsValid, get_elem?-Runs}
use lightwatch.Daemon.Ring.Serve.{Extends, late, held, restart, grow, ring_of, extend-Extends}

abbrev Kept : (Window → Type 0) → List Window → Type 0
Kept P ws = (i : ℕ) (w : Window) → get_elem? ws i ≡ some w → P w

Kept-append :
    (P : Window → Type 0) (xs ys : List Window) → Kept P xs → Kept P ys → Kept P (xs ++ ys)
Kept-append P [] ys h k i w e = k i w e
Kept-append P (x ∷ xs) ys h k zero w e = h zero w e
Kept-append P (x ∷ xs) ys h k (suc i) w e = Kept-append P xs ys (λ j. h (suc j)) k i w e

Kept-fresh :
    (P : Window → Type 0) (res m n : ℕ)
    → ((i : ℕ) → m ≤ i → P (new_window i res))
    → Kept P (fresh res m n)
unfolding fresh
Kept-fresh P res m zero h i w e = cc
Kept-fresh P res m (suc n) h zero w e = subst P (ground arith) (h m (omega arith))
Kept-fresh P res m (suc n) h (suc i) w e =
    Kept-fresh P res (m + 1) n (λ j le. h j (omega arith)) i w e

Kept-evict :
    (P : Window → Type 0) (limit : ℕ) (ws : List Window) → Kept P ws → Kept P (evict limit ws)
unfolding evict
Kept-evict P limit [] h = h
Kept-evict P limit (w ∷ ws) h = elim (Bool-cases (ltb limit (length (w ∷ ws)))) [
  | inl over ↦ rw over (Kept-evict P limit ws (λ j. h (suc j)))
  | inr fits ↦ rw fits h
]

-- A window is the one held before for its index, or a new one.
abbrev FromOld : ℕ → ℕ → List Window → Window → Type 0
FromOld res a ws w =
    w ≡ or_default (new_window w.index res) (at_offset ws (offset_from w.index (some a)))

pub lt-length : (ws : List Window) (i : ℕ) (w : Window) → get_elem? ws i ≡ some w → i < length ws
lt-length [] i w e = cc
lt-length (x ∷ ws) zero w e = omega arith
lt-length (x ∷ ws) (suc i) w e = omega (arith, lt-length ws i w e)

old_found : (res a : ℕ) (ws : List Window) → Runs res a ws → Kept (FromOld res a ws) ws
old_found res a ws runs i w e =
    let (x, e', at, same) = get_elem?-Runs res a i ws runs (lt-length ws i w e) in
    let index : w.index ≡ a + i = ground arith in
    let offset : offset_from w.index (some a) ≡ some i = ground arith in rw (offset, e)

new_found :
    (res a i : ℕ) (ws : List Window) → a + length ws ≤ i → FromOld res a ws (new_window i res)
unfolding new_window
new_found res a i ws h =
    let offset : offset_from i (some a) ≡ some (i - a) = ground arith in
    let past : get_elem? ws (i - a) ≡ none = beyond ws (i - a) (omega arith) in rw (offset, past)
  where
    beyond : (ws : List Window) (i : ℕ) → length ws ≤ i → get_elem? ws i ≡ none
    beyond [] i h = refl
    beyond (x ∷ ws) zero h = absurd (omega arith)
    beyond (x ∷ ws) (suc i) h = beyond ws i (omega arith)

one_found : (P : Window → Type 0) (w : Window) → P w → Kept P (w ∷ [])
one_found P w p zero v e = subst P (ground arith) p
one_found P w p (suc i) v e = cc

Kept-same :
    (P : Window → Type 0) (xs ys : List Window) {o : Option (List Window)}
    → o ≡ some xs
    → o ≡ some ys
    → Kept P xs
    → Kept P ys
Kept-same P xs ys d e k = let same : xs ≡ ys = ground arith in subst (Kept P) same k

-- The windows that `extend` passes on, before any eviction.
Extends-FromOld :
    (res limit index a : ℕ) (w : Window) (ws : List Window) {o : Option (List Window)}
    (ws' : List Window)
    → Runs res a (w ∷ ws)
    → Extends res limit index a (a + length ws) (w ∷ ws) o
    → o ≡ some ws'
    → Kept (FromOld res a (w ∷ ws)) ws'
Extends-FromOld res limit index a w ws ws' runs (late h e) is = cc
Extends-FromOld res limit index a w ws ws' runs (held h k e) is =
    Kept-same (FromOld res a (w ∷ ws)) (w ∷ ws) ws' e is (old_found res a (w ∷ ws) runs)
Extends-FromOld res limit index a w ws ws' runs (restart h k e) is =
    let P : Window → Type 0 = FromOld res a (w ∷ ws) in
    Kept-same P (new_window index res ∷ []) ws' e is
      (one_found P (new_window index res) (new_found res a index (w ∷ ws) (omega arith)))
Extends-FromOld res limit index a w ws ws' runs (grow h k e) is =
    let P : Window → Type 0 = FromOld res a (w ∷ ws) in
    let n : ℕ = index - (a + length ws) in
    let more : List Window = fresh res (a + length ws + 1) n in
    Kept-same P ((w ∷ ws) ++ more) ws' e is (
      Kept-append P (w ∷ ws) more (old_found res a (w ∷ ws) runs)
        (Kept-fresh P res (a + length ws + 1) n (λ i le. new_found res a i (w ∷ ws) (omega arith))))

settle-FromOld :
    (res limit index : ℕ) (w : Window) (ws : List Window) (o : Option (List Window))
    → Runs res w.index (w ∷ ws)
    → Extends res limit index w.index (w.index + length ws) (w ∷ ws) o
    → Kept (FromOld res w.index (w ∷ ws)) (settle (ring_of res limit (w ∷ ws)) index o).0.windows
settle-FromOld res limit index w ws none runs x = old_found res w.index (w ∷ ws) runs
settle-FromOld res limit index w ws (some ws') runs x =
    Kept-evict (FromOld res w.index (w ∷ ws)) limit ws'
      (Extends-FromOld res limit index w.index w ws ws' runs x refl)

abbrev pub Old : Ring → Window → Type 0
Old r w = w ≡ or_default (new_window w.index r.resolution_ns) (window_at r w.index)

empty_or_new :
    (res limit index : ℕ)
    → Kept
        (Old (ring_of res limit []))
        (settle (ring_of res limit []) index (extend (ring_of res limit []) index)).0.windows
unfolding window_at new_window extend
empty_or_new res limit index =
    let P : Window → Type 0 = Old (ring_of res limit []) in
    let w : Window = new_window index res in Kept-evict P limit (w ∷ []) (one_found P w refl)

Kept-or_new :
    (res limit : ℕ) (ws : List Window) (index : ℕ)
    → IsValid (ring_of res limit ws)
    → Kept
        (Old (ring_of res limit ws))
        (settle (ring_of res limit ws) index (extend (ring_of res limit ws) index)).0.windows
unfolding window_at
Kept-or_new res limit [] index v = empty_or_new res limit index
Kept-or_new res limit (w ∷ ws) index v =
    settle-FromOld res limit index w ws (extend (ring_of res limit (w ∷ ws)) index) v.contiguous
      (extend-Extends res limit index w ws v.contiguous)

-- Every window in the ring after `window_for` is the one that it held before for the same index, as
-- it was, or a new empty one.
pub window_for-Old :
    (r : Ring) (t_ns i : ℕ) (w : Window)
    → IsValid r
    → get_elem? (window_for r t_ns).0.windows i ≡ some w
    → Old r w
unfolding window_for
window_for-Old r t_ns i w v e =
    Kept-or_new r.resolution_ns r.capacity r.windows (index_of r t_ns) v i w e
