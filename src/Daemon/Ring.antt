-- ===== src/Daemon/Ring.antt =====
-- crates/lightwatch-daemon/src/ring.rs: time-bucketed windows, newest at the back. The deque is a
-- list, oldest first. The `&mut Window` that `window_for` returns is a position in that list, which
-- `modify` writes through. A usize has 64 bits, so the casts between it and u64 keep the value.
pub mod Contiguous
pub mod Serve
pub mod Retained
pub mod Survive
mod Tests
use lightwatch.Base.{
  ℕ, zero, suc, ◌+◌, ◌-◌, ◌/◌, ◌&&◌, List, [], ◌∷◌, ◌++◌, Option, none, some, ltb, leb,
  if◌then◌else◌, length, get_elem?, drop,
}
use lightwatch.Daemon.Window.{Window, new_window, or_default}

abbrev pub fine_resolution_ns : ℕ
fine_resolution_ns = 100_000_000

abbrev pub fine_capacity : ℕ
fine_capacity = 600

abbrev pub coarse_resolution_ns : ℕ
coarse_resolution_ns = 1_000_000_000

abbrev pub coarse_capacity : ℕ
coarse_capacity = 900

pub record Ring : Type 0 where
  pub resolution_ns : ℕ
  pub capacity : ℕ
  pub windows : List Window

-- `Ring::new` asserts that both numbers are positive.
unfoldable pub new_ring : ℕ → ℕ → Option Ring
new_ring resolution_ns capacity =
    if ltb 0 resolution_ns && ltb 0 capacity
    then some (record { resolution_ns = resolution_ns; capacity = capacity; windows = [] })
    else none

abbrev pub fine_ring : Ring
fine_ring = record { resolution_ns = fine_resolution_ns; capacity = fine_capacity; windows = [] }

abbrev pub coarse_ring : Ring
coarse_ring = record {
  resolution_ns = coarse_resolution_ns;
  capacity = coarse_capacity;
  windows = [];
}

unfoldable pub index_of : Ring → ℕ → ℕ
index_of r t_ns = t_ns / r.resolution_ns

abbrev pub last_index : List Window → Option ℕ
last_index [] = none
last_index (w ∷ []) = some w.index
last_index (w ∷ v ∷ ws) = last_index (v ∷ ws)

abbrev pub first_index : List Window → Option ℕ
first_index [] = none
first_index (w ∷ ws) = some w.index

unfoldable pub newest_index : Ring → Option ℕ
newest_index r = last_index r.windows

unfoldable pub oldest_index : Ring → Option ℕ
oldest_index r = first_index r.windows

-- The last `count` windows, oldest first.
unfoldable pub most_recent : Ring → ℕ → List Window
most_recent r count = drop (length r.windows - count) r.windows

-- The position of a window's index behind the oldest one: `checked_sub`.
abbrev pub offset_from : ℕ → Option ℕ → Option ℕ
offset_from index none = none
offset_from index (some oldest) = if ltb index oldest then none else some (index - oldest)

abbrev pub at_offset : List Window → Option ℕ → Option Window
at_offset ws none = none
at_offset ws (some i) = get_elem? ws i

unfoldable pub window_at : Ring → ℕ → Option Window
unfolding oldest_index
window_at r index = at_offset r.windows (offset_from index (oldest_index r))

-- The windows from `missing` on, `count` of them: `for missing in (newest + 1)..=index`.
unfoldable pub fresh : ℕ → ℕ → ℕ → List Window
unfolding new_window
fresh resolution_ns missing zero = []
fresh resolution_ns missing (suc count) =
    new_window missing resolution_ns ∷ fresh resolution_ns (missing + 1) count

-- `while len > capacity { pop_front }`.
unfoldable pub evict : ℕ → List Window → List Window
evict capacity [] = []
evict capacity (w ∷ ws) = if ltb capacity (length (w ∷ ws)) then evict capacity ws else w ∷ ws

-- The match of `window_for` on the newest index; `none` is its early return.
unfoldable pub extend : Ring → ℕ → Option (List Window)
unfolding fresh new_window
extend r index = elim (last_index r.windows) [
  | none ↦ some (new_window index r.resolution_ns ∷ [])
  | some newest ↦
      if ltb newest index
      then (if leb r.capacity (index - newest)
          then some (new_window index r.resolution_ns ∷ [])
          else some (r.windows ++ fresh r.resolution_ns (newest + 1) (index - newest)))
      else (if ltb index (or_default index (first_index r.windows)) then none else some r.windows)
]

-- The window that a frame at `t_ns` belongs to, and the ring that holds it.
abbrev pub Position : Type 0
Position = Option ℕ

-- `get_mut(offset)` of the deque.
abbrev pub held_at : List Window → Option ℕ → Position
held_at ws none = none
held_at ws (some i) = if ltb i (length ws) then some i else none

abbrev pub settle : Ring → ℕ → Option (List Window) → Ring × Position
settle r index none = (r, none)
settle r index (some ws) =
    let kept = evict r.capacity ws in
    (record r { windows = kept }, held_at kept (offset_from index (first_index kept)))

unfoldable pub window_for : Ring → ℕ → Ring × Position
unfolding extend evict index_of
window_for r t_ns = settle r (index_of r t_ns) (extend r (index_of r t_ns))

-- A write through the reference.
abbrev pub update_at : List Window → ℕ → (Window → Window) → List Window
update_at [] i f = []
update_at (w ∷ ws) zero f = f w ∷ ws
update_at (w ∷ ws) (suc i) f = w ∷ update_at ws i f

unfoldable pub modify : Ring → Position → (Window → Window) → Ring
modify r none f = r
modify r (some i) f = record r { windows = update_at r.windows i f }
