-- ===== src/Hotpath/Loop/Backoff.antt =====
-- crates/lightwatch-hotpath/src/main.rs: how long the loop waits while the target or the daemon is away.
use lightwatch.Base.{
  ℕ, suc, ◌*◌, ◌^◌, ◌≤◌, ◌≡◌, refl, ◌∙◌, ap, min, List, [], ◌∷◌, Option, none, some, length, Text,
  arith, Bool-cases, inl, inr, leb, leb→le,
}
use native.Mathlib.Nat.{pow-suc, pow-le-pow_right}
use lightwatch.Probe.Emit.{Wires}
use lightwatch.Hotpath.Loop.{
  Trouble, Turn, Looped, loop_turn, run_loop, poll_once, after_poll, max_backoff, Outcome,
}

cut_at :
    (b p : ℕ)
    → 1 ≤ p
    → min (min (b * 2) max_backoff * p) max_backoff ≡ min (b * (p * 2)) max_backoff
cut_at b p pos = elim (Bool-cases (leb (b * 2) max_backoff)) [
  | inl low ↦
      let small = leb→le (b * 2) max_backoff low in
      let same : b * 2 * p ≡ b * (p * 2) = grind arith in
      let first : min (b * 2) max_backoff ≡ b * 2 = omega arith in rw (first, same) refl
  | inr high ↦
      let large : max_backoff ≤ b * 2 = ground arith in
      let one : max_backoff ≤ max_backoff * p = grind arith in
      let two : b * 2 ≤ b * (p * 2) = grind arith in
      let first : min (b * 2) max_backoff ≡ max_backoff = omega arith in rw first (omega arith)
]

cut_doubled :
    (b n : ℕ) → min (min (b * 2) max_backoff * 2 ^ n) max_backoff ≡ min (b * 2 ^ suc n) max_backoff
cut_doubled b n =
    let pos : 2 ^ 0 ≤ 2 ^ n =
      pow-le-pow_right {n = 2} (omega arith) {i = 0} {j = n} (omega arith) in
    let step : 2 ^ suc n ≡ 2 ^ n * 2 = pow-suc 2 n in rw step (cut_at b (2 ^ n) (omega arith))

module _ (wires : Wires) (parse_duration : Text → Option ℕ) (window_ms : ℕ)
    (to_text : Trouble → Text) where
  -- Every turn meets some trouble.
  abbrev pub Fails : List (Turn wires.Stream) → Looped wires parse_duration window_ms → Type 0
  Fails [] l = Unit {0}
  Fails (t ∷ turns) l =
      ((trouble : Trouble) × ((poll_once wires parse_duration window_ms t l.session).1
          ≡ some trouble))
      × Fails turns (loop_turn wires parse_duration window_ms to_text t l)

  turn_backoff :
      (t : Turn wires.Stream) (l : Looped wires parse_duration window_ms)
      (o : Outcome wires parse_duration window_ms) (trouble : Trouble)
      → o.1 ≡ some trouble
      → (after_poll wires parse_duration window_ms to_text t l o).backoff
        ≡ min (l.backoff * 2) max_backoff
  turn_backoff t l (session, none) trouble e = absurd (ground arith)
  turn_backoff t l (session, some other) trouble e = refl

  -- From a wait of at most 5 s on: after a number of turns that all meet trouble, the next wait is that
  -- wait doubled as often, cut at 5 s.
  pub run_loop_backoff :
      (turns : List (Turn wires.Stream)) (l : Looped wires parse_duration window_ms)
      → l.backoff ≤ max_backoff
      → Fails turns l
      → (run_loop wires parse_duration window_ms to_text turns l).backoff
        ≡ min (l.backoff * 2 ^ length turns) max_backoff
  unfolding run_loop loop_turn
  run_loop_backoff [] l low fails = omega arith
  run_loop_backoff (t ∷ turns) l low ((trouble, e), fails) =
      let next = loop_turn wires parse_duration window_ms to_text t l in
      let one : next.backoff ≡ min (l.backoff * 2) max_backoff = turn_backoff t l _ trouble e in
      let rest = run_loop_backoff turns next (omega (arith, one)) fails in
      rest
      ∙ ap (λ (b : ℕ). min (b * 2 ^ length turns) max_backoff) one
      ∙ cut_doubled l.backoff (length turns)
