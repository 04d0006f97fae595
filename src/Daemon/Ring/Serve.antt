-- ===== src/Daemon/Ring/Serve.antt =====
-- `window_for`: the ring stays an unbroken time axis and finds the window of every instant it covers.
use lightwatch.Base.{
  ℕ, suc, ◌+◌, ◌-◌, ◌≤◌, ◌<◌, ◌≡◌, refl, sym, subst, List, [], ◌∷◌, ◌++◌, Option, none, some, ltb,
  leb, Bool, true, false, length, length-append, get_elem?, inl, inr, ◌⊎◌, arith, Bool-cases,
}
use lightwatch.Daemon.Window.{Window, new_window}
use lightwatch.Daemon.Ring.{
  Ring, first_index, fresh, evict, extend, window_for, index_of, settle, held_at, offset_from,
}
use lightwatch.Daemon.Ring.Contiguous.{
  Runs, IsValid, Runs-append, last_index-Runs, fresh-Runs, length-fresh, evict-Runs, length-evict,
  get_elem?-Runs, Contiguous-Runs, first_index-Runs,
}

-- A list of windows around `index` that may be too long for the ring.
pub record Reaches (res limit index a : ℕ) (ws : List Window) : Type 0 where
  pub runs : Runs res a ws
  pub lo : a + (length ws - limit) ≤ index
  pub hi : index < a + length ws

-- What `window_for` owes its caller where it finds a window.
abbrev pub Found : Ring → ℕ → Ring × Option ℕ → Type 0
Found r index (r', none) = ⊥
Found r index (r', some i) =
    (w : Window) × (get_elem? r'.windows i ≡ some w)
    × (w.index ≡ index)
    × (w.resolution_ns ≡ r.resolution_ns)

position_at :
    (start index n : ℕ) (ws : List Window)
    → length ws ≡ n
    → start ≤ index
    → index - start < n
    → held_at ws (offset_from index (some start)) ≡ some (index - start)
position_at start index n ws e h k = ground arith

settle-Found :
    (r : Ring) (index a : ℕ) (ws : List Window)
    → 0 < r.resolution_ns
    → 0 < r.capacity
    → Reaches r.resolution_ns r.capacity index a ws
    → IsValid (settle r index (some ws)).0 × Found r index (settle r index (some ws))
settle-Found r index a ws h k c =
    let start : ℕ = a + (length ws - r.capacity) in
    let kept : List Window = evict r.capacity ws in
    let runs : Runs r.resolution_ns start kept =
      evict-Runs r.resolution_ns r.capacity a ws c.runs in
    let size = length-evict r.capacity ws in
    let inside : index - start < length kept = omega (arith, c.lo, c.hi) in
    let first = first_index-Runs r.resolution_ns start kept runs (omega arith) in
    let (w, e, at, same) = get_elem?-Runs r.resolution_ns start (index - start) kept runs inside in
    let position : held_at kept (offset_from index (first_index kept)) ≡ some (index - start) =
      rw first (position_at start index (length kept) kept refl c.lo inside) in
    (
      record {
        resolution_pos = h;
        capacity_pos = k;
        bounded = omega arith;
        contiguous = Contiguous-Runs r.resolution_ns start kept runs;
      },
      rw position (w, e, omega arith, same),
    )

one_new :
    (res limit index : ℕ) → 0 < limit → Reaches res limit index index (new_window index res ∷ [])
unfolding new_window
one_new res limit index h = record { runs = (refl, refl, tt); lo = omega arith; hi = omega arith }

-- The branches of `extend`, over windows from `a` to `last`.
pub data Extends (res limit index a last : ℕ) (ws : List Window) (o : Option (List Window))
    : Type 0 where
  late : index < a → o ≡ none → Extends res limit index a last ws o
  held : a ≤ index → index ≤ last → o ≡ some ws → Extends res limit index a last ws o
  restart :
      last < index
      → limit ≤ index - last
      → o ≡ some (new_window index res ∷ [])
      → Extends res limit index a last ws o
  grow :
      last < index
      → index - last < limit
      → o ≡ some (ws ++ fresh res (last + 1) (index - last))
      → Extends res limit index a last ws o

abbrev pub ring_of : ℕ → ℕ → List Window → Ring
ring_of res limit ws = record { resolution_ns = res; capacity = limit; windows = ws }

pub extend-Extends :
    (res limit index : ℕ) (w : Window) (ws : List Window)
    → Runs res w.index (w ∷ ws)
    → Extends res limit index w.index
        (w.index + length ws)
        (w ∷ ws)
        (extend (ring_of res limit (w ∷ ws)) index)
unfolding extend
extend-Extends res limit index w ws runs =
    let last : ℕ = w.index + length ws in
    let e = last_index-Runs res w.index w ws runs in
    elim (Bool-cases (ltb last index)) [
      | inl newer ↦ elim (Bool-cases (leb limit (index - last))) [
        | inl far ↦ restart (ground arith) (ground arith) (rw (e, newer, far))
        | inr near ↦ grow (ground arith) (ground arith) (rw (e, newer, near))
      ]
      | inr older ↦ elim (Bool-cases (ltb index w.index)) [
        | inl before ↦ late (ground arith) (rw (e, older, before))
        | inr inside ↦ held (ground arith) (ground arith) (rw (e, older, inside))
      ]
    ]

-- Unless the instant is late, `extend` leaves windows that reach it.
pub Extends-Reaches :
    (res limit index : ℕ) (w : Window) (ws : List Window) {o : Option (List Window)}
    → 0 < limit
    → length (w ∷ ws) ≤ limit
    → Runs res w.index (w ∷ ws)
    → Extends res limit index w.index (w.index + length ws) (w ∷ ws) o
    → w.index ≤ index
    → (a : ℕ) × (ws' : List Window) × (o ≡ some ws') × Reaches res limit index a ws'
Extends-Reaches res limit index w ws c b runs (late h e) le = absurd (omega arith)
Extends-Reaches res limit index w ws c b runs (held h k e) le =
    (w.index, w ∷ ws, e, record { runs = runs; lo = omega arith; hi = omega arith })
Extends-Reaches res limit index w ws c b runs (restart h k e) le =
    (index, new_window index res ∷ [], e, one_new res limit index c)
Extends-Reaches res limit index w ws c b runs (grow h k e) le =
    let n : ℕ = index - (w.index + length ws) in
    let more : List Window = fresh res (w.index + length ws + 1) n in
    let size = length-append (w ∷ ws) more in
    let count = length-fresh res (w.index + length ws + 1) n in
    let from : w.index + length ws + 1 ≡ w.index + suc (length ws) = omega arith in
    let tail : Runs res (w.index + suc (length ws)) more =
      subst (λ m. Runs res m more) from (fresh-Runs res (w.index + length ws + 1) n) in
    (
      w.index,
      (w ∷ ws) ++ more,
      e,
      record {
        runs = Runs-append res w.index (w ∷ ws) more runs tail;
        lo = omega arith;
        hi = omega arith;
      },
    )

-- The instant is older than the first window, or it is not.
abbrev pub is_late : ℕ → Option ℕ → Bool
is_late index none = false
is_late index (some a) = ltb index a

abbrev ServedAs : Bool → Ring → ℕ → Ring × Option ℕ → Type 0
ServedAs true r index out = out ≡ (r, none)
ServedAs false r index out = IsValid out.0 × Found r index out

-- The outcome of `window_for`: a late instant leaves the ring alone, any other gets its window.
abbrev pub Served : Ring → ℕ → Ring × Option ℕ → Type 0
Served r index out = ServedAs (is_late index (first_index r.windows)) r index out

late_or_not :
    (res limit index a last : ℕ) (ws : List Window) {o : Option (List Window)}
    → a ≤ last
    → Extends res limit index a last ws o
    → ((index < a) × (o ≡ none)) ⊎ (a ≤ index)
late_or_not res limit index a last ws b (late h e) = inl (h, e)
late_or_not res limit index a last ws b (held h k e) = inr h
late_or_not res limit index a last ws b (restart h k e) = inr (omega arith)
late_or_not res limit index a last ws b (grow h k e) = inr (omega arith)

Served-from :
    (res limit index : ℕ) (w : Window) (ws : List Window) {o : Option (List Window)}
    → IsValid (ring_of res limit (w ∷ ws))
    → Extends res limit index w.index (w.index + length ws) (w ∷ ws) o
    → Served (ring_of res limit (w ∷ ws)) index (settle (ring_of res limit (w ∷ ws)) index o)
Served-from res limit index w ws v x =
    elim (late_or_not res limit index w.index (w.index + length ws) (w ∷ ws) (omega arith) x) [
      | inl (before, e) ↦ let old : ltb index w.index ≡ true = ground arith in rw (old, e) refl
      | inr inside ↦
          let young : ltb index w.index ≡ false = ground arith in
          let (a, ws', e, c) =
            Extends-Reaches res limit index w ws v.capacity_pos v.bounded v.contiguous x inside in
          rw (young, e)
            (settle-Found (ring_of res limit (w ∷ ws)) index a ws' v.resolution_pos v.capacity_pos
              c)
    ]

Served-empty :
    (res limit index : ℕ)
    → IsValid (ring_of res limit [])
    → Served
        (ring_of res limit [])
        index
        (settle (ring_of res limit []) index (extend (ring_of res limit []) index))
unfolding extend
Served-empty res limit index v =
    settle-Found (ring_of res limit []) index index (new_window index res ∷ []) v.resolution_pos
      v.capacity_pos (one_new res limit index v.capacity_pos)

served :
    (res limit : ℕ) (ws : List Window) (index : ℕ)
    → IsValid (ring_of res limit ws)
    → Served
        (ring_of res limit ws)
        index
        (settle (ring_of res limit ws) index (extend (ring_of res limit ws) index))
served res limit [] index v = Served-empty res limit index v
served res limit (w ∷ ws) index v =
    Served-from res limit index w ws v (extend-Extends res limit index w ws v.contiguous)

-- On a contiguous ring within its capacity: an instant before the oldest window gets no window and
-- changes nothing; any other instant gets the window of its own index, at the ring's resolution, in
-- a ring that is again contiguous and within its capacity.
pub window_for-Served :
    (r : Ring) (t_ns : ℕ) → IsValid r → Served r (index_of r t_ns) (window_for r t_ns)
unfolding window_for
window_for-Served r t_ns v = served r.resolution_ns r.capacity r.windows (index_of r t_ns) v

-- Whatever the outcome, the ring stays contiguous and within its capacity.
pub window_for-IsValid : (r : Ring) (t_ns : ℕ) → IsValid r → IsValid (window_for r t_ns).0
window_for-IsValid r t_ns v =
    at (is_late (index_of r t_ns) (first_index r.windows)) (window_for-Served r t_ns v)
  where
    at :
        (late : Bool)
        → ServedAs late r (index_of r t_ns) (window_for r t_ns)
        → IsValid (window_for r t_ns).0
    at true same = subst (λ out. IsValid out.0) (sym same) v
    at false (valid, found) = valid
