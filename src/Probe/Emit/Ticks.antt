-- ===== src/Probe/Emit/Ticks.antt =====
-- crates/lightwatch-probe/src/emit.rs: the ticks of an emitter, over a socket that loses, breaks and
-- answers again.
use lightwatch.Base.{
  ℕ, ◌≤◌, ◌≡◌, refl, sym, ◌∙◌, ap, subst, inl, inr, List, [], ◌∷◌, ◌++◌, map, Option, none, some,
  length, arith, Text, Option-cases,
}
use mathlib.Core.List.{append_assoc, append-nil}
use lightwatch.Proto.Wire.{Hello, Frame, Message}
use lightwatch.Proto.Wire
use lightwatch.Daemon.Store.State.{ProcessId, new_state}
use lightwatch.Daemon.Store.History.{run}
use lightwatch.Probe.Registry.{Tables, registers_since}
use lightwatch.Probe.Registry.Accepted.{IsSendable, Knows}
use lightwatch.Probe.Registry.CatchUp.{mark_range}
use lightwatch.Probe.Emit.{Wires, Sink, Emitter, Around, sink_send, after_send, frame_of}
use lightwatch.Probe.Emit.Fed.{frame-Knows, stamped, run-snoc, Numbered, Numbered-snoc}

-- What a stream has written so far, and what its operations do to it.
pub record Written (wires : Wires) : Type 0 where
  pub so_far : wires.Stream → Text
  pub wrote :
      (text : Text) (s s' : wires.Stream)
      → wires.write_all text s ≡ some s'
      → so_far s' ≡ so_far s ++ text
  pub flushed : (s s' : wires.Stream) → wires.flush s ≡ some s' → so_far s' ≡ so_far s
  pub timed : (n : ℕ) (s : wires.Stream) → so_far (wires.set_write_timeout n s) ≡ so_far s

module _ (wires : Wires) (written : Written wires) (id : ProcessId) (clock : ℕ → ℕ) where
  open wires use {Stream, to_json_line}
  open written use {so_far}

  abbrev pub line_of : Message → Text
  line_of m = to_json_line m ++ (b'\n' ∷ [])

  abbrev pub lines_of : List Message → Text
  lines_of [] = []
  lines_of (m ∷ ms) = line_of m ++ lines_of ms

  lines_of-snoc :
      (ms : List Message) (m : Message) → lines_of (ms ++ (m ∷ [])) ≡ lines_of ms ++ line_of m
  lines_of-snoc [] m = append-nil (line_of m)
  lines_of-snoc (k ∷ ms) m =
      ap (λ t. line_of k ++ t) (lines_of-snoc ms m)
      ∙ sym (append_assoc (line_of k) (lines_of ms) (line_of m))

  pub sink_send-wrote :
      (sink sink' : Sink Stream) (m : Message)
      → sink_send wires sink m ≡ some sink'
      → so_far sink'.stream ≡ so_far sink.stream ++ line_of m
  unfolding sink_send
  sink_send-wrote sink sink' m e =
      elim (Option-cases (wires.write_all (to_json_line m) sink.stream)) [
        | inl bad ↦ let never : none ≡ some sink' = rw bad at e in absurd (cc)
        | inr (s1, first) ↦ elim (Option-cases (wires.write_all (b'\n' ∷ []) s1)) [
          | inl bad ↦ let never : none ≡ some sink' = rw (first, bad) at e in absurd (cc)
          | inr (s2, second) ↦ elim (Option-cases (wires.flush s2)) [
            | inl bad ↦ let never : none ≡ some sink' = rw (first, second, bad) at e in absurd (cc)
            | inr (s3, third) ↦
                let is : some (record { stream = s3 }) ≡ some sink' =
                  rw (first, second, third) at e in
                let same : s3 ≡ sink'.stream = ground arith in
                ap so_far (sym same)
                ∙ written.flushed s2 s3 third
                ∙ written.wrote _ s1 s2 second
                ∙ ap (λ t. t ++ (b'\n' ∷ [])) (written.wrote _ sink.stream s1 first)
                ∙ append_assoc (so_far sink.stream) (to_json_line m) (b'\n' ∷ [])
          ]
        ]
      ]

  -- What the listener behind the sink has been sent: the hello and then numbered frames, from which a
  -- daemon that is new knows the tables up to the marks.
  pub record Fed (t : Tables) (e : Emitter Stream) (sink : Sink Stream) : Type 0 where
    pub frames : List Frame
    pub first : ℕ
    pub lines :
        so_far sink.stream
        ≡ lines_of (Wire.Message.hello e.hello ∷ map (λ f. Wire.Message.frame f) frames)
    pub numbered : Numbered first frames e.seq
    pub knows : Knows t e.marks (run (new_state id e.hello) (stamped clock frames))
    pub range : e.marks.paths_sent ≤ length t.paths.nodes

  abbrev pub IsFed : Tables → Emitter Stream → Type 0
  IsFed t e = (sink : Sink Stream) → e.sink ≡ some sink → Fed t e sink

  line_of_frames :
      (hello : Hello) (frames : List Frame) (f : Frame)
      → lines_of (Wire.Message.hello hello ∷ map (λ g. Wire.Message.frame g) (frames ++ (f ∷ [])))
        ≡ lines_of (Wire.Message.hello hello ∷ map (λ g. Wire.Message.frame g) frames)
          ++ line_of (Wire.Message.frame f)
  line_of_frames hello frames f =
      ap (λ ms. lines_of (Wire.Message.hello hello ∷ ms)) (map-snoc frames)
      ∙ lines_of-snoc (Wire.Message.hello hello ∷ map (λ g. Wire.Message.frame g) frames)
          (Wire.Message.frame f)
    where
      map-snoc :
          (frames : List Frame)
          → map (λ g. Wire.Message.frame g) (frames ++ (f ∷ []))
            ≡ map (λ g. Wire.Message.frame g) frames ++ (Wire.Message.frame f ∷ [])
      map-snoc [] = refl
      map-snoc (g ∷ frames) = ap (λ ms. Wire.Message.frame g ∷ ms) (map-snoc frames)

  -- One more frame over a sink that the listener has been fed through.
  sent-Fed :
      (a : Around Stream) (e : Emitter Stream) (sink sink' : Sink Stream)
      → IsSendable a.tables
      → sink_send wires sink (Wire.Message.frame (frame_of wires a e)) ≡ some sink'
      → Fed a.tables e sink
      → Fed a.tables (after_send wires e (registers_since a.tables e.marks).1 (some sink')) sink'
  sent-Fed a e sink sink' ready ok fed =
      let f = frame_of wires a e in
      record {
        frames = fed.frames ++ (f ∷ []);
        first = fed.first;
        lines =
            sink_send-wrote sink sink' (Wire.Message.frame f) ok
            ∙ ap (λ t. t ++ line_of (Wire.Message.frame f)) fed.lines
            ∙ sym (line_of_frames e.hello fed.frames f);
        numbered = Numbered-snoc fed.first fed.frames f e.seq fed.numbered refl;
        knows =
            subst (Knows a.tables (registers_since a.tables e.marks).1)
              (sym (run-snoc clock fed.frames f (new_state id e.hello)))
              (frame-Knows a.tables e.marks (run (new_state id e.hello) (stamped clock fed.frames))
                f (clock e.seq) ready refl fed.knows);
        range = (mark_range a.tables e.marks fed.range).1;
      }

  pub send_frame-IsFed :
      (a : Around Stream) (e : Emitter Stream) (sink : Sink Stream) (o : Option (Sink Stream))
      → IsSendable a.tables
      → sink_send wires sink (Wire.Message.frame (frame_of wires a e)) ≡ o
      → Fed a.tables e sink
      → IsFed a.tables (after_send wires e (registers_since a.tables e.marks).1 o)
  send_frame-IsFed a e sink none ready ok fed other at = absurd (cc)
  send_frame-IsFed a e sink (some sink') ready ok fed other at =
      let same : sink' ≡ other = ground arith in
      subst
        (λ k. Fed a.tables (after_send wires e (registers_since a.tables e.marks).1 (some sink')) k)
        same (sent-Fed a e sink sink' ready ok fed)
