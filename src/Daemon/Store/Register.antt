-- ===== src/Daemon/Store/Register.antt =====
-- crates/lightwatch-daemon/src/store.rs: `ProcessState::register` and `caller_of`.
use lightwatch.Base.{
  Bool, not, ◌&&◌, ◌||◌, List, [], ◌∷◌, Option, none, some, leb, ◌==◌, if◌then◌else◌, is_some,
  add64, nat_key, get, insert, Text,
}
use lightwatch.Proto.Wire.{FunctionId, PathId, TypeId, Location}
use lightwatch.Proto.Wire
use lightwatch.Daemon.Window.{or_default}
use lightwatch.Daemon.Store.State.{ProcessState, PathNode, default_function, default_type}

abbrev pub count_unknown : ProcessState → ProcessState
count_unknown s = record s {
  counts = record (s.counts) { unknown_id = add64 s.counts.unknown_id 1 };
}

unfoldable pub register_function :
    ProcessState → FunctionId → Text → Option Text → Option Location → ProcessState
register_function s id name module_name location =
    let entry = or_default default_function (get id s.functions) in
    record s {
      functions =
          insert id (record entry { name = name; module_name = module_name; location = location })
            s.functions;
    }

unfoldable pub register_type : ProcessState → TypeId → Text → Option Location → ProcessState
register_type s id name location =
    let entry = or_default default_type (get id s.types) in
    record s { types = insert id (record entry { name = name; location = location }) s.types }

abbrev pub same_node : PathNode → PathNode → Bool
same_node a b = (a.parent == b.parent) && (a.func == b.func)

-- The two guards: a node that breaks the numbering or names an unknown function, and one whose
-- parent, not being the root, is unknown.
abbrev pub is_misnumbered : ProcessState → PathId → PathId → FunctionId → Bool
is_misnumbered s id parent func = leb id parent || not (is_some (get func s.functions))

abbrev pub is_orphan : ProcessState → PathId → Bool
is_orphan s parent = not (parent == 0) && not (is_some (get parent s.paths))

abbrev pub add_node : ProcessState → PathId → PathNode → Option PathNode → ProcessState
add_node s id node none = record s { paths = insert id node s.paths }
add_node s id node (some existing) = if same_node existing node then s else count_unknown s

unfoldable pub register_path : ProcessState → PathId → PathId → FunctionId → ProcessState
register_path s id parent func =
    if is_misnumbered s id parent func
    then count_unknown s
    else (if is_orphan s parent
        then count_unknown s
        else add_node s id (record { parent = parent; func = func }) (get id s.paths))

unfoldable pub register : ProcessState → Wire.Register → ProcessState
unfolding register_function register_type register_path
register s (Wire.Register.function id name module_name location) =
    register_function s id name module_name location
register s (Wire.Register.ty id name location) = register_type s id name location
register s (Wire.Register.path id parent func) = register_path s id parent func

unfoldable pub register_all : ProcessState → List Wire.Register → ProcessState
unfolding register
register_all s [] = s
register_all s (r ∷ rs) = register_all (register s r) rs

abbrev pub func_of : Option PathNode → Option FunctionId
func_of none = none
func_of (some node) = some node.func

unfoldable pub caller_of : ProcessState → PathNode → Option FunctionId
caller_of s node = if node.parent == 0 then none else func_of (get node.parent s.paths)
