-- ===== src/Probe/Calls/Trace.antt =====
-- crates/lightwatch-probe/src/calls.rs: a thread's entries and exits, as `Site::enter` and the drop of
-- a `Guard` order them, and where the time of a whole trace goes.
use lightwatch.Base.{
  ℕ, zero, suc, ◌+◌, ◌-◌, ◌≤◌, ◌<◌, ◌^◌, ◌≡◌, refl, sym, subst, false, List, [], ◌∷◌, length, arith,
}
use lightwatch.Probe.Paths.{PathTable}
use lightwatch.Probe.Samples.{empty_accum}
use lightwatch.Probe.Calls.{
  Activation, ThreadState, open_activation, close_activation, close_on, charge_caller,
  elapsed_since,
}
use lightwatch.Probe.Calls.Conserve.{reported, pending, Nested-later, Conserves, close-Conserves}

pub data Step : Type 0 where
  enter : ℕ → ℕ → Step
  leave : ℕ → Step

abbrev pub new_thread : ThreadState
new_thread = record { stack = []; depth = []; memo = []; accum = empty_accum }

unfoldable pub run : ℕ → List Step → ThreadState × PathTable → ThreadState × PathTable
unfolding open_activation close_activation
run limit [] (s, table) = (s, table)
run limit (enter func now ∷ steps) (s, table) =
    run limit steps (open_activation limit s table func now)
run limit (leave now ∷ steps) (s, table) = run limit steps (close_activation s now, table)

-- A clock that never goes back and fits 64 bits.
abbrev pub IsClocked : ℕ → List Step → Type 0
IsClocked t [] = Unit {0}
IsClocked t (enter func now ∷ steps) = (t ≤ now) × (now < 2 ^ 64) × IsClocked now steps
IsClocked t (leave now ∷ steps) = (t ≤ now) × (now < 2 ^ 64) × IsClocked now steps

-- The time in finished outermost spans, read off the trace alone: `depth` spans are open, the
-- outermost one since `since`.
abbrev pub spans : ℕ → ℕ → List Step → ℕ
spans depth since [] = 0
spans zero since (enter func now ∷ steps) = spans 1 now steps
spans (suc depth) since (enter func now ∷ steps) = spans (suc (suc depth)) since steps
spans zero since (leave now ∷ steps) = spans 0 since steps
spans (suc zero) since (leave now ∷ steps) = (now - since) + spans 0 now steps
spans (suc (suc depth)) since (leave now ∷ steps) = spans (suc depth) since steps

-- The outermost open activation started at `since`.
abbrev Since : ℕ → List Activation → Type 0
Since since [] = Unit {0}
Since since (a ∷ []) = since ≡ a.start
Since since (a ∷ b ∷ stack) = Since since (b ∷ stack)

Since-charged :
    (since n : ℕ) (b : Activation) (stack : List Activation)
    → Since since (b ∷ stack)
    → Since since (charge_caller n (b ∷ stack))
Since-charged since n b [] h = h
Since-charged since n b (c ∷ stack) h = h

length-charged : (n : ℕ) (stack : List Activation) → length (charge_caller n stack) ≡ length stack
length-charged n [] = refl
length-charged n (b ∷ stack) = refl

open-Conserves :
    (limit root t func now : ℕ) (s : ThreadState) (table : PathTable)
    → Conserves root t s.stack s.accum.stacks
    → t ≤ now
    → (let after = (open_activation limit s table func now).0 in
        Conserves root now after.stack after.accum.stacks)
unfolding open_activation
open-Conserves limit root t func now s table c h = record {
  ascending = c.ascending;
  nested = (omega arith, Nested-later root t now s.stack c.nested h);
  sums = omega (arith, c.sums);
}

-- What a trace makes of a state that conserves time.
abbrev Settles : ℕ → ℕ → List Step → List Activation → ThreadState → Type 0
Settles root since steps stack after =
    reported after.accum.stacks ≡ root + spans (length stack) since steps + pending after.stack

abbrev innermost : List Activation → Activation
innermost [] = record {
  func = 0;
  path = 0;
  start = 0;
  child_ns = 0;
  outermost = false;
  counts_here = false;
}
innermost (a ∷ stack) = a

enter-Settles :
    (root since func now : ℕ) (steps : List Step) (a : Activation) (stack : List Activation)
    (after : ThreadState)
    → a.start ≡ now
    → Since since stack
    → ((u : ℕ) → Since u (a ∷ stack) → Settles root u steps (a ∷ stack) after)
    → Settles root since (enter func now ∷ steps) stack after
enter-Settles root since func now steps a [] after e from k = k now (sym e)
enter-Settles root since func now steps a (b ∷ stack) after e from k = k since from

-- The statement below, for the rest of a trace.
abbrev Rest : ℕ → List Step → PathTable → Type 0
Rest limit steps table =
    (root t since : ℕ) (s : ThreadState)
    → Conserves root t s.stack s.accum.stacks
    → Since since s.stack
    → IsClocked t steps
    → Settles root since steps s.stack (run limit steps (s, table)).0

later-Conserves :
    (root t now : ℕ) (s : ThreadState)
    → Conserves root t s.stack s.accum.stacks
    → t ≤ now
    → Conserves root now s.stack s.accum.stacks
later-Conserves root t now s c h = record {
  ascending = c.ascending;
  nested = Nested-later root t now s.stack c.nested h;
  sums = c.sums;
}

leave-Settles :
    (limit root t since now : ℕ) (steps : List Step) (s : ThreadState) (table : PathTable)
    (stack : List Activation)
    → s.stack ≡ stack
    → Rest limit steps table
    → Conserves root t stack s.accum.stacks
    → Since since stack
    → IsClocked t (leave now ∷ steps)
    → Settles root since (leave now ∷ steps) stack (run limit steps (close_on s now stack, table)).0
leave-Settles limit root t since now steps s table [] e rest c from h =
    subst (λ stack. Settles root since steps stack (run limit steps (s, table)).0) e
      (rest root now since s
        (later-Conserves root t now s (subst (λ l. Conserves root t l s.accum.stacks) (sym e) c)
          h.0)
        (subst (Since since) (sym e) tt) h.2)
leave-Settles limit root t since now steps s table (a ∷ []) e rest c from h = omega (
  arith,
  from,
  rest (root + (now - a.start)) now now (close_on s now (a ∷ []))
      (close-Conserves root t now s a [] c h.0 h.1) tt h.2,
)
leave-Settles limit root t since now steps s table (a ∷ b ∷ stack) e rest c from h = omega (
  arith,
  rest (root + 0) now since (close_on s now (a ∷ b ∷ stack))
      (close-Conserves root t now s a (b ∷ stack) c h.0 h.1)
      (Since-charged since (elapsed_since now a.start) b stack from) h.2,
)

run-Settles : (limit : ℕ) (steps : List Step) (table : PathTable) → Rest limit steps table
unfolding run open_activation close_activation
run-Settles limit [] table root t since s c from h = omega (arith, c.sums)
run-Settles limit (enter func now ∷ steps) table root t since s c from h =
    let opened = open_activation limit s table func now in
    enter-Settles root since func now steps (innermost opened.0.stack) s.stack
      (run limit steps opened).0 refl from
      (λ u more.
        run-Settles limit steps opened.1 root now u opened.0
          (open-Conserves limit root t func now s table c h.0) more h.2)
run-Settles limit (leave now ∷ steps) table root t since s c from h =
    leave-Settles limit root t since now steps s table s.stack refl (run-Settles limit steps table)
      c from h

-- Where the clock never goes back and stays below 2 ^ 64: after any entries and exits, recursive ones and exits of nothing
-- included, the self times that the thread has reported add up to the time inside finished outermost
-- spans, plus what the activations still open owe to callees that have closed. No time is lost or
-- counted twice.
pub run-reported :
    (limit : ℕ) (steps : List Step) (table : PathTable)
    → IsClocked 0 steps
    → (let after = (run limit steps (new_thread, table)).0 in
        reported after.accum.stacks ≡ spans 0 0 steps + pending after.stack)
run-reported limit steps table h = omega (
  arith,
  run-Settles limit steps table 0 0 0 new_thread
      (record { ascending = tt; nested = omega arith; sums = refl }) tt h,
)
