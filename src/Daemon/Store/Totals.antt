-- ===== src/Daemon/Store/Totals.antt =====
-- crates/lightwatch-daemon/src/store.rs: `accumulate_totals`, one event at a time, and the fold of
-- what survives into a window.
use lightwatch.Base.{
  ℕ, ◌/◌, List, [], ◌∷◌, ◌++◌, Option, none, some, if◌then◌else◌, add64, sub64, saturating_add,
  saturating_mul, nat_key, pair_key, get, insert, Map,
}
use lightwatch.Proto.Wire.{FunctionId, PathId, TypeId, Event}
use lightwatch.Proto.Wire
use lightwatch.Proto.Dist.{Buckets, to_buckets, bucket_range}
use lightwatch.Proto.Dist
use lightwatch.Daemon.Quantity.{zero_total, accumulate, reading}
use lightwatch.Daemon.Window.{
  Window, CensusReading, or_default, newer_held, add_calls, add_edge, add_stack, record_census,
}
use lightwatch.Daemon.Store.State.{ProcessState, PathNode, FunctionState, TypeState, default_totals}
use lightwatch.Daemon.Store.Register.{count_unknown, caller_of}

pub data Applied : Type 0 where
  calls : FunctionId → ℕ → ℕ → Applied
  edge : FunctionId → FunctionId → ℕ → Applied
  stack : PathId → ℕ → ℕ → Applied
  census : TypeId → CensusReading → Applied

unfoldable pub sum_samples : ℕ → List ℕ → ℕ
sum_samples total [] = total
sum_samples total (sample ∷ v) = sum_samples (saturating_add total sample) v

abbrev pub middle : ℕ × ℕ → ℕ
middle r = add64 r.0 (sub64 r.1 r.0 / 2)

unfoldable pub sum_midpoints : ℕ → Buckets → ℕ
unfolding bucket_range
sum_midpoints total [] = total
sum_midpoints total ((index, samples) ∷ b) =
    sum_midpoints (saturating_add total (saturating_mul (middle (bucket_range index)) samples)) b

unfoldable pub duration_total : Dist.Dist → Buckets → ℕ
unfolding sum_samples sum_midpoints
duration_total (Dist.raw v) buckets = sum_samples 0 v
duration_total (Dist.buckets b) buckets = sum_midpoints 0 buckets

unfoldable pub add_samples : Map ℕ ℕ → Buckets → Map ℕ ℕ
add_samples held [] = held
add_samples held ((bucket, samples) ∷ b) =
    add_samples (insert bucket (add64 (or_default 0 (get bucket held)) samples) held) b

abbrev pub Outcome : Type 0
Outcome = ProcessState × List Applied

-- One arm of the match each; `none` is the `let … else` that counts an unknown id.
abbrev pub apply_calls :
    ProcessState → FunctionId → ℕ → ℕ → Buckets → Option FunctionState → Outcome
apply_calls s func count elapsed buckets none = (count_unknown s, [])
apply_calls s func count elapsed buckets (some state) = (
  record s {
    functions =
        insert func
          (record state {
            calls = accumulate state.calls count;
            ns_total = accumulate state.ns_total elapsed;
            ns_buckets = add_samples state.ns_buckets buckets;
          })
          s.functions;
  },
  Applied.calls func count elapsed ∷ [],
)

unfoldable pub add_totals : ProcessState → PathId → ℕ → ℕ → ProcessState
add_totals s path count self_ns =
    let totals = or_default default_totals (get path s.path_totals) in
    record s {
      path_totals =
          insert path
            (record {
              calls = accumulate totals.calls count;
              self_ns = accumulate totals.self_ns self_ns;
            })
            s.path_totals;
    }

abbrev pub charge_state : ProcessState → FunctionId → ℕ → Option FunctionState → ProcessState
charge_state s func self_ns none = s
charge_state s func self_ns (some state) = record s {
  functions =
      insert func (record state { self_ns_total = accumulate state.self_ns_total self_ns })
        s.functions;
}

-- The node's function is charged if it is known.
unfoldable pub charge_function : ProcessState → FunctionId → ℕ → ProcessState
charge_function s func self_ns = charge_state s func self_ns (get func s.functions)

abbrev pub add_caller : ProcessState → PathId → FunctionId → ℕ → ℕ → Option FunctionId → Outcome
add_caller s path func count self_ns none = (s, Applied.stack path count self_ns ∷ [])
add_caller s path func count self_ns (some caller) = (
  record s {
    edges =
        insert (caller, func)
          (accumulate (or_default zero_total (get (caller, func) s.edges)) count) s.edges;
  },
  Applied.stack path count self_ns ∷ Applied.edge caller func count ∷ [],
)

abbrev pub apply_stack : ProcessState → PathId → ℕ → ℕ → Option PathNode → Outcome
apply_stack s path count self_ns none = (count_unknown s, [])
apply_stack s path count self_ns (some node) =
    let charged = charge_function (add_totals s path count self_ns) node.func self_ns in
    add_caller charged path node.func count self_ns (caller_of charged node)

abbrev pub apply_census : ProcessState → TypeId → CensusReading → Option TypeState → Outcome
apply_census s ty taken none = (count_unknown s, [])
apply_census s ty taken (some state) = (
  (if newer_held state.latest taken
      then s
      else record s { types = insert ty (record state { latest = some taken }) s.types }),
  Applied.census ty taken ∷ [],
)

abbrev pub count_event : ProcessState → ProcessState
count_event s = record s { counts = record (s.counts) { events = add64 s.counts.events 1 } }

unfoldable pub apply_event : ProcessState → Event → ℕ → Outcome
unfolding duration_total to_buckets add_samples add_totals charge_function caller_of accumulate
apply_event s (Wire.Event.calls func count ns) t_ns =
    apply_calls (count_event s) func count (duration_total ns (to_buckets ns)) (to_buckets ns)
      (get func s.functions)
apply_event s (Wire.Event.stack path count self_ns) t_ns =
    apply_stack (count_event s) path count self_ns (get path s.paths)
apply_event s (Wire.Event.census ty live bytes sizes) t_ns =
    apply_census (count_event s) ty
      (record {
        live = reading live;
        bytes = reading bytes;
        size_buckets = to_buckets sizes;
        at_t_ns = t_ns;
      })
      (get ty s.types)

unfoldable pub accumulate_totals : ProcessState → List Event → ℕ → Outcome
unfolding apply_event
accumulate_totals s [] t_ns = (s, [])
accumulate_totals s (e ∷ es) t_ns =
    let (s', first) = apply_event s e t_ns in
    let (s'', rest) = accumulate_totals s' es t_ns in (s'', first ++ rest)

unfoldable pub fold_one : Window → Applied → Window
unfolding add_calls add_edge add_stack record_census
fold_one w (Applied.calls func count ns) = add_calls w func count ns
fold_one w (Applied.edge from to count) = add_edge w from to count
fold_one w (Applied.stack path count self_ns) = add_stack w path count self_ns
fold_one w (Applied.census ty taken) = record_census w ty taken

unfoldable pub fold : List Applied → Window → Window
unfolding fold_one
fold [] w = w
fold (item ∷ applied) w = fold applied (fold_one w item)
