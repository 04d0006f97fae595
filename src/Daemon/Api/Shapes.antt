-- ===== src/Daemon/Api/Shapes.antt =====
-- crates/lightwatch-daemon/src/api.rs: the shapes of the answers.
use lightwatch.Base.{ℕ, Bool, List, Option, none, some, Text, text_key, key_eq, if◌then◌else◌, []}
use lightwatch.Base.{◌∷◌}

abbrev pub rate_window_ms : ℕ
rate_window_ms = 1_000

pub data Resolution : Type 0 where
  fine : Resolution
  coarse : Resolution

abbrev fine_text : Text
fine_text = b'f' ∷ b'i' ∷ b'n' ∷ b'e' ∷ []

abbrev coarse_text : Text
coarse_text = b'c' ∷ b'o' ∷ b'a' ∷ b'r' ∷ b's' ∷ b'e' ∷ []

unfoldable pub parse_resolution : Text → Option Resolution
parse_resolution raw =
    if key_eq raw fine_text
    then some fine
    else (if key_eq raw coarse_text then some coarse else none)

unfoldable pub resolution_text : Resolution → Text
resolution_text fine = fine_text
resolution_text coarse = coarse_text

pub record SnapshotView : Type 0 where
  pub resolution : Resolution
  pub limit : ℕ

pub record CountsJson : Type 0 where
  pub frames : ℕ
  pub events : ℕ
  pub functions : ℕ
  pub types : ℕ
  pub edges : ℕ
  pub paths : ℕ
  pub missed_frames : ℕ
  pub late_frames : ℕ
  pub unknown_id : ℕ
  pub malformed_lines : ℕ

pub record ProcessSummary : Type 0 where
  pub id : Text
  pub app : Text
  pub pid : ℕ
  pub source : Text
  pub started_unix_ms : ℕ
  pub ended_unix_ms : Option ℕ
  pub connected : Bool
  pub window_ms : ℕ
  pub last_frame_unix_ms : Option ℕ
  pub last_t_ns : ℕ
  pub counts : CountsJson

pub record BucketJson : Type 0 where
  pub lo : ℕ
  pub hi : ℕ
  pub count : ℕ

pub record LocationJson : Type 0 where
  pub file : Text
  pub line : ℕ
  pub column : Option ℕ

pub record PathJson : Type 0 where
  pub id : ℕ
  pub parent : ℕ
  pub func : ℕ
  pub calls_total : ℕ
  pub self_ns_total : ℕ

pub record FunctionJson (Float : Type 0) : Type 0 where
  pub id : ℕ
  pub name : Text
  pub module_name : Option Text
  pub location : Option LocationJson
  pub calls_total : ℕ
  pub ns_total : ℕ
  pub self_ns_total : ℕ
  pub calls_per_sec : Float
  pub ns_per_sec : Float
  pub self_ns_per_sec : Float
  pub ns_buckets : List BucketJson

pub record CensusJson : Type 0 where
  pub live : ℕ
  pub bytes : ℕ
  pub at_t_ns : ℕ
  pub size_buckets : List BucketJson

pub record TypeJson : Type 0 where
  pub id : ℕ
  pub name : Text
  pub location : Option LocationJson
  pub census : Option CensusJson

pub record EdgeJson : Type 0 where
  pub from : ℕ
  pub to : ℕ
  pub calls_total : ℕ

pub record WindowCallJson : Type 0 where
  pub func : ℕ
  pub calls : ℕ
  pub ns : ℕ

pub record WindowEdgeJson : Type 0 where
  pub from : ℕ
  pub to : ℕ
  pub calls : ℕ

pub record WindowStackJson : Type 0 where
  pub path : ℕ
  pub calls : ℕ
  pub self_ns : ℕ

pub record WindowCensusJson : Type 0 where
  pub ty : ℕ
  pub live : ℕ
  pub bytes : ℕ

pub record WindowJson : Type 0 where
  pub index : ℕ
  pub start_t_ns : ℕ
  pub end_t_ns : ℕ
  pub calls : List WindowCallJson
  pub edges : List WindowEdgeJson
  pub stacks : List WindowStackJson
  pub census : List WindowCensusJson

pub record Snapshot (Float : Type 0) : Type 0 where
  pub process : ProcessSummary
  pub taken_unix_ms : ℕ
  pub rate_ms : ℕ
  pub resolution : Text
  pub resolution_ms : ℕ
  pub resolution_capacity : ℕ
  pub functions : List (FunctionJson Float)
  pub types : List TypeJson
  pub edges : List EdgeJson
  pub paths : List PathJson
  pub windows : List WindowJson

pub data StreamMessage : Type 0 where
  window : Text → WindowJson → StreamMessage
  process_ended : Text → ℕ → StreamMessage

pub record MemberJson : Type 0 where
  pub process_id : Text
  pub feed : Text
  pub source : Text
  pub started_unix_ms : ℕ
  pub ended_unix_ms : Option ℕ
  pub connected : Bool
  pub last_frame_unix_ms : Option ℕ

pub record SessionJson : Type 0 where
  pub id : Text
  pub app : Text
  pub pid : ℕ
  pub connected : Bool
  pub cpu : Option MemberJson
  pub memory : Option MemberJson
  pub superseded : List MemberJson

pub record SessionStreamMessage : Type 0 where
  pub session_id : Text
  pub feed : Text
  pub message : StreamMessage
