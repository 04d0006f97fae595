-- ===== src/Hotpath/Bridge/Deltas.antt =====
-- `absorb`: the calls that the frames report against the calls that hotpath counted.
use lightwatch.Base.{
  ℕ, ◌+◌, ◌-◌, ◌≤◌, ◌≡◌, refl, ◌∙◌, true, false, List, [], ◌∷◌, ◌++◌, Option, none, some, inl, inr,
  Bool-cases, arith, ltb, ◌==◌, if◌then◌else◌, Map, Text, nat_key, get, insert, get-insert, key_eq,
}
use lightwatch.Proto.Wire.{Event}
use lightwatch.Proto.Wire
use lightwatch.Hotpath.Bridge.{
  Entry, Report, Reading, Stream, Progress, delta_events, absorb_reading, reading_of,
  absorb_entries, is_priming, absorb_report,
}

-- The calls of `f` that some events report.
abbrev pub calls_in : ℕ → List Event → ℕ
calls_in f [] = 0
calls_in f (Wire.Event.calls func count ns ∷ es) = (if func == f then count else 0) + calls_in f es
calls_in f (Wire.Event.stack path count self_ns ∷ es) = calls_in f es
calls_in f (Wire.Event.census ty live bytes sizes ∷ es) = calls_in f es

-- hotpath's counter of `f` never goes back, from `c` on.
abbrev pub Rises : ℕ → ℕ → List Entry → Type 0
Rises f c [] = Unit {0}
Rises f c (e ∷ es) =
    (if e.id == f then c else 0) ≤ e.calls × Rises f (if e.id == f then e.calls else c) es

-- The counter of `f` in the last entry that names it.
abbrev pub last_calls : ℕ → ℕ → List Entry → ℕ
last_calls f c [] = c
last_calls f c (e ∷ es) = last_calls f (if e.id == f then e.calls else c) es

calls_in-append :
    (f : ℕ) (xs ys : List Event) → calls_in f (xs ++ ys) ≡ calls_in f xs + calls_in f ys
calls_in-append f [] ys = omega arith
calls_in-append f (Wire.Event.calls func count ns ∷ es) ys = omega (arith, calls_in-append f es ys)
calls_in-append f (Wire.Event.stack path count self_ns ∷ es) ys = calls_in-append f es ys
calls_in-append f (Wire.Event.census ty live bytes sizes ∷ es) ys = calls_in-append f es ys

calls_in-delta :
    (f : ℕ) (e : Entry) (now previous : Reading)
    → calls_in f (delta_events e now previous) ≡ (if e.id == f then e.calls - previous.calls else 0)
calls_in-delta f e now previous = elim (Bool-cases (ltb previous.calls e.calls)) [
  | inl more ↦ rw more (omega arith)
  | inr none_new ↦ rw none_new (ground arith)
]

-- What is known of `f` between two entries.
record Tracks (f c : ℕ) (start : ℕ) (p : Progress) : Type 0 where
  held : Reading
  at : get f p.readings ≡ some held
  counter : held.calls ≡ c
  sums : calls_in f p.events + start ≡ c

step_same :
    (f c start : ℕ) (e : Entry) (now : Reading) (p : Progress)
    → now.calls ≡ e.calls
    → (e.id == f) ≡ true
    → c ≤ e.calls
    → Tracks f c start p
    → Tracks f e.calls start (absorb_reading false e now (get e.id p.readings) p)
step_same f c start e now p same is le t =
    let key : e.id ≡ f = ground arith in
    let found : get e.id p.readings ≡ some t.held = rw key t.at in
    let hit : key_eq f e.id ≡ true = ground arith in
    rw found (record {
      held = now;
      at = get-insert e.id now f p.readings ∙ rw hit refl;
      counter = same;
      sums =
          let delta : calls_in f (delta_events e now t.held) ≡ e.calls - t.held.calls =
            calls_in-delta f e now t.held ∙ rw is refl in
          omega (
            arith,
            delta,
            calls_in-append f p.events (delta_events e now t.held),
            t.counter,
            t.sums,
          );
    })

step_other :
    (f c start : ℕ) (e : Entry) (now : Reading) (p : Progress) (o : Option Reading)
    → (e.id == f) ≡ false
    → Tracks f c start p
    → Tracks f c start (absorb_reading false e now o p)
step_other f c start e now p o other t =
    let miss : key_eq f e.id ≡ false = ground arith in
    let still : get f (insert e.id now p.readings) ≡ some t.held =
      get-insert e.id now f p.readings ∙ rw miss t.at in
    at o still
  where
    at :
        (o : Option Reading)
        → get f (insert e.id now p.readings) ≡ some t.held
        → Tracks f c start (absorb_reading false e now o p)
    at none still = record { held = t.held; at = still; counter = t.counter; sums = t.sums }
    at (some previous) still = record {
      held = t.held;
      at = still;
      counter = t.counter;
      sums =
          let delta : calls_in f (delta_events e now previous) ≡ 0 =
            calls_in-delta f e now previous ∙ rw other refl in
          omega (arith, delta, calls_in-append f p.events (delta_events e now previous), t.sums);
    }

primed_by :
    (f : ℕ) (held : Reading) (m : Map ℕ Reading) → get f m ≡ some held → is_priming m ≡ false
unfolding get
primed_by f held [] e = cc
primed_by f held (r ∷ m) e = refl

module _ (parse_duration : Text → Option ℕ) where
  absorb_entries-Tracks :
      (f c start : ℕ) (es : List Entry) (p : Progress)
      → Rises f c es
      → Tracks f c start p
      → Tracks f (last_calls f c es) start (absorb_entries parse_duration false es p)
  unfolding absorb_entries
  absorb_entries-Tracks f c start [] p h t = t
  absorb_entries-Tracks f c start (e ∷ es) p h t =
      let now = reading_of parse_duration e in
      let next = absorb_reading false e now (get e.id p.readings) p in
      elim (Bool-cases (e.id == f)) [
        | inl same ↦
            let h' : (c ≤ e.calls) × Rises f e.calls es = rw same at h in
            rw same (
              absorb_entries-Tracks f e.calls start es next h'.1
                (step_same f c start e now p refl same h'.0 t))
        | inr other ↦
            let h' : (0 ≤ e.calls) × Rises f c es = rw other at h in
            rw other (
              absorb_entries-Tracks f c start es next h'.1
                (step_other f c start e now p (get e.id p.readings) other t))
      ]

  -- For a function that the stream has read before and whose counter does not go back within the
  -- report: the calls that the frame reports, added to the last reading, are the counter of the
  -- report, which is the reading kept for the next time. No call is lost or made up between reports.
  pub absorb_report-calls :
      (s : Stream) (report : Report) (f : ℕ) (held : Reading)
      → get f s.readings ≡ some held
      → Rises f held.calls report.data_entries
      → (let (after, frame) = absorb_report parse_duration s report in
          let c = last_calls f held.calls report.data_entries in
          (calls_in f frame.events + held.calls ≡ c)
          × ((kept : Reading) × (get f after.readings ≡ some kept) × (kept.calls ≡ c)))
  unfolding absorb_report
  absorb_report-calls s report f held at h =
      let primed : is_priming s.readings ≡ false = primed_by f held s.readings at in
      let t =
        absorb_entries-Tracks f held.calls held.calls report.data_entries
          (record { readings = s.readings; registers = []; events = [] }) h
          (record { held = held; at = at; counter = refl; sums = omega arith }) in
      rw primed (t.sums, (t.held, t.at, t.counter))
