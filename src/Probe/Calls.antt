-- ===== src/Probe/Calls.antt =====
-- crates/lightwatch-probe/src/calls.rs: `ThreadState`, the stack of one thread's activations. The
-- innermost activation stands first. The global table of contexts and the thread's accumulator are
-- passed along; an instant is a number of nanoseconds, read where the source reads the clock.
pub mod Conserve
pub mod Trace
mod Tests
use lightwatch.Base.{
  ℕ, zero, suc, ◌+◌, ◌-◌, ◌%◌, ◌^◌, Bool, true, false, List, [], ◌∷◌, Option, none, some, ◌==◌,
  if◌then◌else◌, add64, add32, sub64, saturating_add, nat_key, pair_key, get, insert, remove, Map,
}
use lightwatch.Daemon.Window.{or_default}
use lightwatch.Probe.Paths.{PathTable, intern_path}
use lightwatch.Probe.Samples.{Accum, StackStat, CallStat, default_stat, default_call, add}

pub record Activation : Type 0 where
  pub func : ℕ
  pub path : ℕ
  pub start : ℕ
  pub child_ns : ℕ
  pub outermost : Bool
  pub counts_here : Bool

pub record Depth : Type 0 where
  pub count : ℕ
  pub path : ℕ
  pub recursion_path : ℕ

pub record ThreadState : Type 0 where
  pub stack : List Activation
  pub depth : Map ℕ Depth
  pub memo : Map (ℕ × ℕ) ℕ
  pub accum : Accum

-- The memo and the global table, which `context` reads and extends.
pub record Contexts : Type 0 where
  pub memo : Map (ℕ × ℕ) ℕ
  pub table : PathTable

abbrev pub interned : Contexts → ℕ → ℕ → PathTable × ℕ → Contexts × ℕ
interned c parent_path func (table, path) =
    if path == 0
    then (record c { table = table }, parent_path)
    else (record { memo = insert (parent_path, func) path c.memo; table = table }, path)

abbrev pub context_or : ℕ → Contexts → ℕ → ℕ → Option ℕ → Contexts × ℕ
context_or limit c parent_path func (some known) = (c, known)
context_or limit c parent_path func none =
    interned c parent_path func (intern_path limit parent_path func c.table)

unfoldable pub context : ℕ → Contexts → ℕ → ℕ → Contexts × ℕ
unfolding intern_path
context limit c parent_path func =
    context_or limit c parent_path func (get (parent_path, func) c.memo)

-- The match of `open`: where the activation runs, whether it is outermost, whether it counts there,
-- and the table of depths with the recursion's context noted.
pub record Placed : Type 0 where
  pub contexts : Contexts
  pub depth : Map ℕ Depth
  pub path : ℕ
  pub outermost : Bool
  pub counts_here : Bool

abbrev pub place_outermost : Map ℕ Depth → Contexts × ℕ → Placed
place_outermost depth (c, path) = record {
  contexts = c;
  depth = depth;
  path = path;
  outermost = true;
  counts_here = true;
}

abbrev pub place_inner : Map ℕ Depth → ℕ → Depth → Contexts × ℕ → Placed
place_inner depth func held (c, path) = record {
  contexts = c;
  depth = insert func (record held { recursion_path = path }) depth;
  path = path;
  outermost = false;
  counts_here = held.count == 1;
}

abbrev pub recursion : ℕ → Contexts → ℕ → Depth → Contexts × ℕ
recursion limit c func held =
    if held.recursion_path == 0 then context limit c held.path func else (c, held.recursion_path)

abbrev pub place : ℕ → Contexts → Map ℕ Depth → ℕ → ℕ → Option Depth → Placed
place limit c depth parent_path func none = place_outermost depth (context limit c parent_path func)
place limit c depth parent_path func (some held) =
    if held.count == 0
    then place_outermost depth (context limit c parent_path func)
    else place_inner depth func held (recursion limit c func held)

abbrev pub innermost_path : List Activation → ℕ
innermost_path [] = 0
innermost_path (a ∷ stack) = a.path

abbrev pub deepen : Placed → Depth → Depth
deepen p held =
    if p.outermost
    then record { count = add32 held.count 1; path = p.path; recursion_path = 0 }
    else record held { count = add32 held.count 1 }

-- The clock is read last.
abbrev pub push_placed : ThreadState → ℕ → ℕ → Placed → ThreadState × PathTable
push_placed s func now p =
    let entry =
      or_default (record { count = 0; path = p.path; recursion_path = 0 }) (get func p.depth) in
    (
      record s {
        stack =
            record {
              func = func;
              path = p.path;
              start = now;
              child_ns = 0;
              outermost = p.outermost;
              counts_here = p.counts_here;
            }
            ∷ s.stack;
        depth = insert func (deepen p entry) p.depth;
        memo = p.contexts.memo;
      },
      p.contexts.table,
    )

unfoldable pub open_activation : ℕ → ThreadState → PathTable → ℕ → ℕ → ThreadState × PathTable
unfolding context
open_activation limit s table func now = push_placed s func now (
    place limit (record { memo = s.memo; table = table }) s.depth (innermost_path s.stack) func
      (get func s.depth))

abbrev pub charge_caller : ℕ → List Activation → List Activation
charge_caller elapsed [] = []
charge_caller elapsed (a ∷ stack) =
    record a { child_ns = saturating_add a.child_ns elapsed } ∷ stack

abbrev pub leave_at : ℕ → Option Depth → Map ℕ Depth → Map ℕ Depth
leave_at func none depth = depth
leave_at func (some held) depth =
    let left = record held { count = (held.count + 2 ^ 32 - 1) % 2 ^ 32 } in
    let gone = remove func (insert func left depth) in
    if left.count == 0 then gone else insert func left depth

unfoldable pub leave : ℕ → Map ℕ Depth → Map ℕ Depth
leave func depth = leave_at func (get func depth) depth

unfoldable pub note_self : Activation → ℕ → Accum → Accum
note_self a self_ns accum =
    let stat = or_default default_stat (get a.path accum.stacks) in
    record accum {
      stacks =
          insert a.path
            (record {
              self_ns = add64 stat.self_ns self_ns;
              count = if a.counts_here then add64 stat.count 1 else stat.count;
            })
            accum.stacks;
    }

unfoldable pub note_call : Activation → ℕ → Accum → Accum
unfolding add
note_call a elapsed accum =
    let stat = or_default default_call (get a.func accum.calls) in
    if a.outermost
    then record accum {
      calls =
          insert a.func (record { count = add64 stat.count 1; ns = add elapsed stat.ns })
            accum.calls;
    }
    else accum

-- `now.saturating_duration_since(start).as_nanos() as u64`.
abbrev pub elapsed_since : ℕ → ℕ → ℕ
elapsed_since now start = (now - start) % 2 ^ 64

abbrev pub close_on : ThreadState → ℕ → List Activation → ThreadState
close_on s now [] = s
close_on s now (a ∷ stack) =
    let elapsed : ℕ = elapsed_since now a.start in
    record s {
      stack = charge_caller elapsed stack;
      depth = leave a.func s.depth;
      accum = note_call a elapsed (note_self a (elapsed - a.child_ns) s.accum);
    }

unfoldable pub close_activation : ThreadState → ℕ → ThreadState
unfolding leave note_self note_call
close_activation s now = close_on s now s.stack
