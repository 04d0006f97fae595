-- ===== src/Hotpath/Bridge.antt =====
-- crates/lightwatch-hotpath/src/bridge.rs: cumulative reports turned into frames of deltas. hotpath's
-- report is the fields that are read of it, and its `parse_duration` is a parameter.
pub mod Deltas
mod Tests
use lightwatch.Base.{
  ℕ, ◌+◌, ◌-◌, ◌/◌, min, Bool, true, false, ◌&&◌, List, [], ◌∷◌, ◌++◌, Option, none, some, ltb, leb,
  ◌==◌, if◌then◌else◌, add64, u32_max, Map, Text, nat_key, get, insert,
}
use lightwatch.Proto.Wire.{Frame, Location, Event}
use lightwatch.Proto.Wire
use lightwatch.Proto.Dist.{bucket_of}
use lightwatch.Proto.Dist
use lightwatch.Daemon.Window.{or_default}

pub record EntryLocation : Type 0 where
  pub file : Text
  pub line : ℕ
  pub column : ℕ

-- What is read of a `JsonFunctionEntry` and of a `JsonFunctionsList`.
pub record Entry : Type 0 where
  pub id : ℕ
  pub name : Text
  pub calls : ℕ
  pub total_text : Text
  pub location : Option EntryLocation

pub record Report : Type 0 where
  pub data_entries : List Entry
  pub total_elapsed_ns : ℕ

pub record Reading : Type 0 where
  pub calls : ℕ
  pub total_ns : ℕ

pub record Stream : Type 0 where
  pub pid : ℕ
  pub seq : ℕ
  pub elapsed_ns : ℕ
  pub readings : Map ℕ Reading

unfoldable pub new_stream : ℕ → Stream
new_stream pid = record { pid = pid; seq = 0; elapsed_ns = 0; readings = [] }

unfoldable pub same_run : Stream → ℕ → ℕ → Bool
same_run s pid elapsed_ns = (s.pid == pid) && leb s.elapsed_ns elapsed_ns

unfoldable pub window_duration : ℕ → ℕ → Dist.Dist
unfolding bucket_of
window_duration delta_total_ns count =
    if delta_total_ns == 0
    then Dist.empty
    else Dist.buckets ((bucket_of (delta_total_ns / count), min count u32_max) ∷ [])

-- `split_once("::")`.
unfoldable pub split_path : Text → Option (Text × Text)
split_path [] = none
split_path (c ∷ []) = none
split_path (c ∷ d ∷ text) =
    let rest = split_path (d ∷ text) in
    if (c == b':') && (d == b':')
    then some ([], text)
    else elim rest [ none ↦ none | some (before, after) ↦ some (c ∷ before, after) ]

abbrev pub module_of : Option (Text × Text) → Option Text
module_of none = none
module_of (some (crate_name, rest)) = some crate_name

abbrev pub name_of : Text → Option (Text × Text) → Text
name_of name none = name
name_of name (some (crate_name, rest)) = rest

abbrev pub location_of : Option EntryLocation → Option Location
location_of none = none
location_of (some l) = some (record { file = l.file; line = l.line; column = some l.column })

unfoldable pub register_for : Entry → Wire.Register
unfolding split_path
register_for e =
    Wire.Register.function e.id (name_of e.name (split_path e.name)) (module_of (split_path e.name))
      (location_of e.location)

-- What the loop of `absorb` carries.
pub record Progress : Type 0 where
  pub readings : Map ℕ Reading
  pub registers : List Wire.Register
  pub events : List Event

-- The end of the loop's body: a delta that is there and is positive becomes an event.
abbrev pub delta_events : Entry → Reading → Reading → List Event
delta_events e now previous =
    if ltb previous.calls e.calls
    then Wire.Event.calls e.id (e.calls - previous.calls)
        (window_duration (now.total_ns - previous.total_ns) (e.calls - previous.calls))
      ∷ []
    else []

abbrev pub absorb_reading : Bool → Entry → Reading → Option Reading → Progress → Progress
absorb_reading priming e now none p = record p {
  readings = insert e.id now p.readings;
  registers = p.registers ++ (register_for e ∷ []);
}
absorb_reading priming e now (some previous) p = record p {
  readings = insert e.id now p.readings;
  events = p.events ++ (if priming then [] else delta_events e now previous);
}

abbrev pub is_priming : Map ℕ Reading → Bool
is_priming [] = true
is_priming (r ∷ m) = false

module _ (parse_duration : Text → Option ℕ) where
  abbrev pub reading_of : Entry → Reading
  reading_of e = record { calls = e.calls; total_ns = or_default 0 (parse_duration e.total_text) }

  unfoldable pub absorb_entries : Bool → List Entry → Progress → Progress
  unfolding register_for window_duration
  absorb_entries priming [] p = p
  absorb_entries priming (e ∷ es) p =
      absorb_entries priming es (absorb_reading priming e (reading_of e) (get e.id p.readings) p)

  unfoldable pub absorb_report : Stream → Report → Stream × Frame
  unfolding absorb_entries
  absorb_report s report =
      let p =
        absorb_entries (is_priming s.readings) report.data_entries
          (record { readings = s.readings; registers = []; events = [] }) in
      (
        record s {
          elapsed_ns = report.total_elapsed_ns;
          seq = add64 s.seq 1;
          readings = p.readings;
        },
        record {
          seq = s.seq;
          t_ns = report.total_elapsed_ns;
          registers = p.registers;
          events = p.events;
        },
      )

-- `split("::").next()`.
unfoldable pub app_name : Text → Text
unfolding split_path
app_name caller_name = elim (split_path caller_name) [
  | none ↦ caller_name
  | some (before, after) ↦ before
]
