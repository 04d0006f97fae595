-- ===== src/Daemon/Ring/Tests.antt =====
-- crates/lightwatch-daemon/src/ring.rs: the statements on a small ring.
use lightwatch.Base.{◌+◌, ◌<◌, ◌≡◌, refl, [], ◌∷◌, some, get_elem?, arith}
use lightwatch.Daemon.Window.{new_window}
use lightwatch.Daemon.Ring.{Ring, window_for, window_at, index_of, extend, evict, fresh}
use lightwatch.Daemon.Ring.Contiguous.{IsValid}
use lightwatch.Daemon.Ring.Serve.{Served, window_for-Served}
use lightwatch.Daemon.Ring.Retained.{Old, window_for-Old}
use lightwatch.Daemon.Ring.Survive.{window_for-survives}

-- Room for three windows; 4 and 5 are held.
abbrev small : Ring
small = record {
  resolution_ns = 100;
  capacity = 3;
  windows = new_window 4 100 ∷ new_window 5 100 ∷ [];
}

small-IsValid : IsValid small
unfolding new_window
small-IsValid = record {
  resolution_pos = omega arith;
  capacity_pos = omega arith;
  bounded = omega arith;
  contiguous = (refl, refl, (refl, refl, tt));
}

holds_five : window_at small 5 ≡ some (new_window 5 100)
unfolding window_at new_window
holds_five = refl

near_five : index_of small 799 < 5 + 3
unfolding index_of
near_five = omega arith

-- 799 ns is in window 7: window 4 goes, 6 and 7 come.
after_gap : get_elem? (window_for small 799).0.windows 1 ≡ some (new_window 6 100)
unfolding window_for extend evict fresh index_of new_window
after_gap = refl

window_for-Served_example : Served small (index_of small 799) (window_for small 799)
window_for-Served_example = window_for-Served small 799 small-IsValid

window_for-Old_example : Old small (new_window 6 100)
window_for-Old_example = window_for-Old small 799 1 (new_window 6 100) small-IsValid after_gap

window_for-survives_example : window_at (window_for small 799).0 5 ≡ some (new_window 5 100)
window_for-survives_example =
    window_for-survives small 799 5 (new_window 5 100) small-IsValid holds_five near_five
