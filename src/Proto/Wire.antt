-- ===== src/Proto/Wire.antt =====
-- crates/lightwatch-proto/src/lib.rs: what goes over the wire. A u32 or u64 is the number it
-- stands for; the JSON text of a message is serde's and is not modelled.
use lightwatch.Base.{ℕ, List, Option, Text}
use lightwatch.Proto.Dist.{Dist}

abbrev pub schema_version : ℕ
schema_version = 2

abbrev pub default_window_ms : ℕ
default_window_ms = 100

abbrev pub FunctionId : Type 0
FunctionId = ℕ

abbrev pub TypeId : Type 0
TypeId = ℕ

-- Zero is the root, which is not a function and is never registered.
abbrev pub PathId : Type 0
PathId = ℕ

pub record Location : Type 0 where
  pub file : Text
  pub line : ℕ
  pub column : Option ℕ

pub data Register : Type 0 where
  function : FunctionId → Text → Option Text → Option Location → Register
  ty : TypeId → Text → Option Location → Register
  path : PathId → PathId → FunctionId → Register

pub data Event : Type 0 where
  calls : FunctionId → ℕ → Dist → Event
  stack : PathId → ℕ → ℕ → Event
  census : TypeId → ℕ → ℕ → Dist → Event

pub record Frame : Type 0 where
  pub seq : ℕ
  pub t_ns : ℕ
  pub registers : List Register
  pub events : List Event

pub record Hello : Type 0 where
  pub schema : ℕ
  pub app : Text
  pub pid : ℕ
  pub started_unix_ms : ℕ
  pub window_ms : ℕ
  pub source : Text

unfoldable pub new_hello : Text → Text → ℕ → ℕ → Hello
new_hello app source pid started_unix_ms = record {
  schema = schema_version;
  app = app;
  pid = pid;
  started_unix_ms = started_unix_ms;
  window_ms = default_window_ms;
  source = source;
}

pub data Message : Type 0 where
  hello : Hello → Message
  frame : Frame → Message
