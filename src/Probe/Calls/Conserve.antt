-- ===== src/Probe/Calls/Conserve.antt =====
-- crates/lightwatch-probe/src/calls.rs: where the time of a thread goes.
use lightwatch.Base.{
  ℕ, ◌+◌, ◌-◌, ◌≤◌, ◌<◌, ◌^◌, ◌≡◌, sym, ap, ◌∙◌, subst, List, [], ◌∷◌, inl, inr, arith, Bool-cases,
  Option-cases, add64, nat_key, get, insert, Map, IsAscending, insert-IsAscending, sum_map,
  sum_map-insert_new, sum_map-insert_held, le-sum_map,
}
use lightwatch.Daemon.Window.{or_default}
use lightwatch.Probe.Samples.{Accum, StackStat, default_stat}
use lightwatch.Probe.Calls.{
  Activation, ThreadState, note_self, note_call, elapsed_since, charge_caller, close_on,
}

-- The self time that the thread has reported, over all contexts.
abbrev pub self_ns_of : ℕ → StackStat → ℕ
self_ns_of path stat = stat.self_ns

abbrev pub reported : Map ℕ StackStat → ℕ
reported stacks = sum_map self_ns_of stacks

-- The time that the open activations owe to measured callees that have closed.
abbrev pub pending : List Activation → ℕ
pending [] = 0
pending (a ∷ stack) = a.child_ns + pending stack

-- The stack's spans are nested: what closed inside an activation ended before its callee started.
abbrev pub Nested : ℕ → ℕ → List Activation → Type 0
Nested base t [] = base ≤ t
Nested base t (a ∷ stack) = (a.start + a.child_ns ≤ t) × Nested base a.start stack

pub pending_bound :
    (base t : ℕ) (stack : List Activation) → Nested base t stack → base + pending stack ≤ t
pending_bound base t [] h = omega arith
pending_bound base t (a ∷ stack) h = omega (arith, pending_bound base a.start stack h.1)

pub Nested-later :
    (base t u : ℕ) (stack : List Activation) → Nested base t stack → t ≤ u → Nested base u stack
Nested-later base t u [] h k = omega arith
Nested-later base t u (a ∷ stack) h k = (omega arith, h.1)

stat_reported :
    (path n c : ℕ) (m : Map ℕ StackStat)
    → IsAscending m
    → reported m + n < 2 ^ 64
    → reported (
        insert path
          (record { count = c; self_ns = add64 (or_default default_stat (get path m)).self_ns n })
          m)
      ≡ reported m + n
stat_reported path n c m asc h = elim (Option-cases (get path m)) [
  | inl new ↦ rw new (
      omega (
        arith,
        sum_map-insert_new self_ns_of path (record { count = c; self_ns = add64 0 n }) m new,
      ))
  | inr (stat, held) ↦ rw held (
      omega (
        arith,
        sum_map-insert_held self_ns_of path (record { count = c; self_ns = add64 stat.self_ns n })
            stat m asc held,
        le-sum_map self_ns_of path stat m held,
      ))
]

note_self-reported :
    (a : Activation) (n : ℕ) (accum : Accum)
    → IsAscending accum.stacks
    → reported accum.stacks + n < 2 ^ 64
    → reported (note_self a n accum).stacks ≡ reported accum.stacks + n
unfolding note_self
note_self-reported a n accum asc h = stat_reported a.path n _ accum.stacks asc h

note_self-IsAscending :
    (a : Activation) (n : ℕ) (accum : Accum)
    → IsAscending accum.stacks
    → IsAscending (note_self a n accum).stacks
unfolding note_self
note_self-IsAscending a n accum asc = insert-IsAscending a.path _ accum.stacks asc

note_call-stacks :
    (a : Activation) (n : ℕ) (accum : Accum) → (note_call a n accum).stacks ≡ accum.stacks
unfolding note_call
note_call-stacks a n accum = elim (Bool-cases a.outermost) [
  | inl outer ↦ rw outer
  | inr inner ↦ rw inner
]

-- `root` is the time of the activations that had no measured caller and have closed.
pub record Conserves (root t : ℕ) (stack : List Activation) (stacks : Map ℕ StackStat)
    : Type 0 where
  pub ascending : IsAscending stacks
  pub nested : Nested root t stack
  pub sums : reported stacks ≡ root + pending stack

-- What `close_activation` does to the accumulator.
abbrev noted : Activation → ℕ → Accum → Accum
noted a elapsed accum = note_call a elapsed (note_self a (elapsed - a.child_ns) accum)

noted-stacks :
    (a : Activation) (elapsed : ℕ) (accum : Accum)
    → IsAscending accum.stacks
    → reported accum.stacks + (elapsed - a.child_ns) < 2 ^ 64
    → IsAscending (noted a elapsed accum).stacks
      × (reported (noted a elapsed accum).stacks ≡ reported accum.stacks + (elapsed - a.child_ns))
noted-stacks a elapsed accum asc k =
    let n : ℕ = elapsed - a.child_ns in
    let same = note_call-stacks a elapsed (note_self a n accum) in
    (
      subst IsAscending (sym same) (note_self-IsAscending a n accum asc),
      ap reported same ∙ note_self-reported a n accum asc k,
    )

-- What the time of a closed activation adds to `root`: all of it where nobody called it.
abbrev pub root_share : ℕ → List Activation → ℕ
root_share elapsed [] = elapsed
root_share elapsed (b ∷ stack) = 0

charge-Nested :
    (root start now : ℕ) (stack : List Activation)
    → Nested root start stack
    → start ≤ now
    → now < 2 ^ 64
    → Nested (root + root_share (now - start) stack) now (charge_caller (now - start) stack)
      × (pending (charge_caller (now - start) stack) + root_share (now - start) stack
          ≡ pending stack + (now - start))
charge-Nested root start now [] h k l = (omega arith, omega arith)
charge-Nested root start now (b ∷ stack) h k l =
    let same : root ≡ root + 0 = omega arith in
    let h' : Nested (root + 0) start (b ∷ stack) = subst (λ r. Nested r start (b ∷ stack)) same h in
    ((omega (arith, h.0), h'.1), omega (arith, h.0))

pub close-Conserves :
    (root t now : ℕ) (s : ThreadState) (a : Activation) (stack : List Activation)
    → Conserves root t (a ∷ stack) s.accum.stacks
    → t ≤ now
    → now < 2 ^ 64
    → (let after = close_on s now (a ∷ stack) in
        Conserves (root + root_share (now - a.start) stack) now after.stack after.accum.stacks)
close-Conserves root t now s a stack c h l =
    let e : elapsed_since now a.start ≡ now - a.start = omega arith in
    let bound = pending_bound root a.start stack c.nested.1 in
    let (asc, sums) =
      noted-stacks a (now - a.start) s.accum c.ascending (omega (arith, c.sums, c.nested.0)) in
    let (nested, moved) =
      charge-Nested root a.start now stack c.nested.1 (omega (arith, c.nested.0)) l in
    subst
      (λ n.
        Conserves (root + root_share (now - a.start) stack) now (charge_caller n stack)
          (noted a n s.accum).stacks)
      (sym e)
      (record {
        ascending = asc;
        nested = nested;
        sums = omega (arith, sums, moved, c.sums, c.nested.0);
      })
