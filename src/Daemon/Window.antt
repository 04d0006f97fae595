-- ===== src/Daemon/Window.antt =====
-- crates/lightwatch-daemon/src/ring.rs, the window: one stretch of time and what happened in it.
use lightwatch.Base.{
  ℕ, Bool, true, false, ◌&&◌, List, [], ◌∷◌, Option, none, some, ltb, if◌then◌else◌, Map, nat_key,
  pair_key, saturating_add, saturating_mul,
}
use lightwatch.Base
use lightwatch.Proto.Wire.{FunctionId, PathId, TypeId}
use lightwatch.Proto.Dist.{Buckets}
use lightwatch.Daemon.Quantity.{Cumulative, Absolute, zero_total, accumulate}

pub record CallDelta : Type 0 where
  pub calls : Cumulative
  pub ns : Cumulative

pub record StackDelta : Type 0 where
  pub calls : Cumulative
  pub self_ns : Cumulative

pub record CensusReading : Type 0 where
  pub live : Absolute
  pub bytes : Absolute
  pub size_buckets : Buckets
  pub at_t_ns : ℕ

pub record Window : Type 0 where
  pub index : ℕ
  pub resolution_ns : ℕ
  pub calls : Map FunctionId CallDelta
  pub edges : Map (FunctionId × FunctionId) Cumulative
  pub stacks : Map PathId StackDelta
  pub census : Map TypeId CensusReading

unfoldable pub new_window : ℕ → ℕ → Window
new_window index resolution_ns = record {
  index = index;
  resolution_ns = resolution_ns;
  calls = [];
  edges = [];
  stacks = [];
  census = [];
}

unfoldable pub start_t_ns : Window → ℕ
start_t_ns w = saturating_mul w.index w.resolution_ns

unfoldable pub end_t_ns : Window → ℕ
unfolding start_t_ns
end_t_ns w = saturating_add (start_t_ns w) w.resolution_ns

abbrev is_nil {ℓ} : {A : Type ℓ} → List A → Bool
is_nil [] = true
is_nil (x ∷ xs) = false

-- `Window::is_empty`.
unfoldable pub is_blank : Window → Bool
is_blank w = is_nil w.calls && is_nil w.edges && is_nil w.stacks && is_nil w.census

abbrev pub default_calls : CallDelta
default_calls = record { calls = zero_total; ns = zero_total }

abbrev pub default_stack : StackDelta
default_stack = record { calls = zero_total; self_ns = zero_total }

-- `entry(k).or_default()`, as what the reference is to.
abbrev pub or_default {ℓ} : {V : Type ℓ} → V → Option V → V
or_default d none = d
or_default d (some v) = v

unfoldable pub add_calls : Window → FunctionId → ℕ → ℕ → Window
unfolding accumulate
add_calls w func calls ns =
    let entry = or_default default_calls (Base.get func w.calls) in
    record w {
      calls =
          Base.insert func
            (record { calls = accumulate entry.calls calls; ns = accumulate entry.ns ns }) w.calls;
    }

unfoldable pub add_edge : Window → FunctionId → FunctionId → ℕ → Window
unfolding accumulate
add_edge w from to calls =
    let entry = or_default zero_total (Base.get (from, to) w.edges) in
    record w { edges = Base.insert (from, to) (accumulate entry calls) w.edges }

unfoldable pub add_stack : Window → PathId → ℕ → ℕ → Window
unfolding accumulate
add_stack w path calls self_ns =
    let entry = or_default default_stack (Base.get path w.stacks) in
    record w {
      stacks =
          Base.insert path
            (record {
              calls = accumulate entry.calls calls;
              self_ns = accumulate entry.self_ns self_ns;
            })
            w.stacks;
    }

-- `is_some_and(|held| held.at_t_ns > reading.at_t_ns)`.
abbrev pub newer_held : Option CensusReading → CensusReading → Bool
newer_held none reading = false
newer_held (some held) reading = ltb reading.at_t_ns held.at_t_ns

unfoldable pub record_census : Window → TypeId → CensusReading → Window
record_census w ty reading =
    if newer_held (Base.get ty w.census) reading
    then w
    else record w { census = Base.insert ty reading w.census }
