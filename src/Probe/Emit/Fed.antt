-- ===== src/Probe/Emit/Fed.antt =====
-- crates/lightwatch-probe/src/emit.rs against crates/lightwatch-daemon/src/store.rs: what a listener
-- has been sent, and what it knows from it.
use lightwatch.Base.{
  ℕ, ◌+◌, ◌-◌, ◌<◌, ◌≤◌, ◌≡◌, refl, sym, ◌∙◌, ap, List, [], ◌∷◌, ◌++◌, map, some, length, get_elem?,
  get_elem?_within, arith, add64, get, nat_key,
}
use lightwatch.Proto.Wire.{Hello, Frame}
use lightwatch.Daemon.Store.State.{ProcessState, ProcessId, new_state}
use lightwatch.Daemon.Store.Register.{register_all}
use lightwatch.Daemon.Store.Apply.{apply_frame, note_frame}
use lightwatch.Daemon.Store.History.{run}
use lightwatch.Daemon.Store.Kept.{apply_frame-paths}
use lightwatch.Daemon.Store.Named.{apply_frame-titles}
use lightwatch.Probe.Registry.{Tables, Marks, no_marks, registers_since}
use lightwatch.Probe.Registry.Running.{Extends}
use lightwatch.Probe.Registry.Accepted.{
  IsSendable, Knows, KnowsPaths-cong, registers_since-accepted,
}

-- What holds at a position of the old list holds there in the new one.
grown-some {ℓ} :
    {A : Type ℓ} (old new : List A) (i : ℕ) (x : A)
    → ((y : A) → get_elem? old i ≡ some y → get_elem? new i ≡ some y)
    → i < length old
    → get_elem? new i ≡ some x
    → get_elem? old i ≡ some x
grown-some old new i x kept low e =
    let (y, there) = get_elem?_within old i low in
    let is : y ≡ x = ground (arith, kept y there, e) in there ∙ ap some is

pub Knows-grown :
    (t t' : Tables) (m : Marks) (s : ProcessState)
    → Extends t t'
    → m.paths_sent ≤ length t.paths.nodes
    → Knows t m s
    → Knows t' m s
Knows-grown t t' m s x range k = record {
  functions = λ i site below e.
      let old =
        grown-some t.functions.functions t'.functions.functions i site
          (λ y at. (x.functions i y at).0) (omega (arith, below, k.functions_in_range)) e in
      k.functions i site below old ∙ ap some (sym (x.functions i site old).1);
  types = λ i slot below e.
      let old =
        grown-some t.types.types t'.types.types i slot (λ y at. (x.types i y at).0)
          (omega (arith, below, k.types_in_range)) e in
      k.types i slot below old ∙ ap some (sym (x.types i slot old).1);
  paths = record {
    sent = λ i pair below at. k.paths.sent i pair below (
        grown-some t.paths.nodes t'.paths.nodes i pair (x.paths i) (omega (arith, below, range))
          at);
    only =
        λ id node at. let (pos, there) = k.paths.only id node at in (pos, x.paths (id - 1) _ there);
  };
  functions_in_range = omega (arith, k.functions_in_range, x.more_functions);
  types_in_range = omega (arith, k.types_in_range, x.more_types);
}

-- A process that takes a frame with the registers from its marks on knows the tables up to the next ones.
pub frame-Knows :
    (t : Tables) (m : Marks) (s : ProcessState) (frame : Frame) (now : ℕ)
    → IsSendable t
    → frame.registers ≡ (registers_since t m).0
    → Knows t m s
    → Knows t (registers_since t m).1 (apply_frame s frame now)
unfolding note_frame
frame-Knows t m s frame now ok e k =
    let noted = note_frame s frame now in
    let taken = registers_since-accepted t m noted ok (record {
      functions = k.functions;
      types = k.types;
      paths = KnowsPaths-cong t.paths.nodes s noted m.paths_sent refl k.paths;
      functions_in_range = k.functions_in_range;
      types_in_range = k.types_in_range;
    }) in
    let after = taken.1 in
    let same : (apply_frame s frame now).paths
        ≡ (register_all noted (registers_since t m).0).paths =
      apply_frame-paths s frame now ∙ ap (λ rs. (register_all noted rs).paths) e in
    record {
      functions = λ i site below at.
          (apply_frame-titles s frame now (i + 1)).0 ∙ rw e (after.functions i site below at);
      types = λ i slot below at.
          (apply_frame-titles s frame now (i + 1)).1 ∙ rw e (after.types i slot below at);
      paths = KnowsPaths-cong t.paths.nodes _ (apply_frame s frame now) _ same after.paths;
      functions_in_range = after.functions_in_range;
      types_in_range = after.types_in_range;
    }

-- Nothing of the tables is known to a process that is new, and nothing is to be.
pub new-Knows :
    (t : Tables) (id : ProcessId) (hello : Hello) → Knows t no_marks (new_state id hello)
unfolding new_state get
new-Knows t id hello = record {
  functions = λ i site below e. absurd (omega arith);
  types = λ i slot below e. absurd (omega arith);
  paths = record {
    sent = λ i pair below at. absurd (omega arith);
    only = λ i node at. absurd (cc);
  };
  functions_in_range = omega arith;
  types_in_range = omega arith;
}

-- Frames with the times at which they are read, as a function of their numbers.
abbrev pub stamped : (ℕ → ℕ) → List Frame → List (Frame × ℕ)
stamped clock frames = map (λ f. (f, clock (Frame.seq f))) frames

pub run-snoc :
    (clock : ℕ → ℕ) (frames : List Frame) (f : Frame) (s : ProcessState)
    → run s (stamped clock (frames ++ (f ∷ [])))
      ≡ apply_frame (run s (stamped clock frames)) f (clock f.seq)
unfolding run
run-snoc clock [] f s = refl
run-snoc clock (g ∷ frames) f s = run-snoc clock frames f (apply_frame s g (clock g.seq))

-- The frames are numbered one by one, from `first` up to before `next`.
abbrev pub Numbered : ℕ → List Frame → ℕ → Type 0
Numbered first [] next = first ≡ next
Numbered first (f ∷ frames) next = (f.seq ≡ first) × Numbered (add64 first 1) frames next

pub Numbered-snoc :
    (first : ℕ) (frames : List Frame) (f : Frame) (next : ℕ)
    → Numbered first frames next
    → f.seq ≡ next
    → Numbered first (frames ++ (f ∷ [])) (add64 next 1)
Numbered-snoc first [] f next h e = (e ∙ sym h, ap (λ n. add64 n 1) h)
Numbered-snoc first (g ∷ frames) f next h e =
    (h.0, Numbered-snoc (add64 first 1) frames f next h.1 e)
