-- ===== src/Probe/Registry.antt =====
-- crates/lightwatch-probe/src/registry.rs: the tables of functions and types, and what a frame sends
-- of all three tables; `Site` of calls.rs. A lock held is one step; two mutexes are two fields.
pub mod Interned
pub mod Knows
pub mod Taken
pub mod Accepted
pub mod Owed
pub mod CatchUp
pub mod Growth
pub mod Running
pub mod Example
mod Tests
use lightwatch.Base.{
  ℕ, suc, ◌+◌, ◌-◌, ◌%◌, ◌^◌, Bool, ◌||◌, List, [], ◌∷◌, ◌++◌, Option, none, some, ltb, leb, ◌==◌,
  if◌then◌else◌, length, drop, get_elem?, Text, text_key, key_eq,
}
use lightwatch.Proto.Wire.{FunctionId, TypeId, Location}
use lightwatch.Proto.Wire
use lightwatch.Probe.Statics.{Statics, write_static}
use lightwatch.Probe.Paths.{PathTable}
use lightwatch.Probe.Census.{TypeSlot, Types}

abbrev pub max_registers_per_frame : ℕ
max_registers_per_frame = 2_048

pub record Site : Type 0 where
  pub name : Text
  pub module_name : Text
  pub file : Text
  pub line : ℕ
  pub id : ℕ

unfoldable pub new_site : Text → Text → Text → ℕ → Site
new_site name module_name file line = record {
  name = name;
  module_name = module_name;
  file = file;
  line = line;
  id = 0;
}

abbrev pub interned_id : Site → Option FunctionId
interned_id site = if site.id == 0 then none else some site.id

unfoldable pub publish_id : FunctionId → Site → Site
publish_id id site = record site { id = id }

unfoldable pub qualified : Site → Text
qualified site = site.module_name ++ (b':' ∷ b':' ∷ site.name)

-- The sites of the program's measured functions, and FUNCTIONS.
pub record Functions : Type 0 where
  pub sites : Statics Site
  pub functions : List ℕ

abbrev pub push_site : ℕ → Functions → Option FunctionId → Functions × FunctionId
push_site site f (some existing) = (f, existing)
push_site site f none =
    let functions = f.functions ++ (site ∷ []) in
    let id : ℕ = length functions % 2 ^ 32 in
    (
      record {
        sites = write_static site (publish_id id (f.sites site)) f.sites;
        functions = functions;
      },
      id,
    )

unfoldable pub intern_function : ℕ → Functions → Functions × FunctionId
unfolding publish_id
intern_function site f = push_site site f (interned_id (f.sites site))

abbrev pub site_id_or : ℕ → Functions → Option FunctionId → Functions × FunctionId
site_id_or site f (some id) = (f, id)
site_id_or site f none = intern_function site f

-- `Site::id`.
unfoldable pub site_id : ℕ → Functions → Functions × FunctionId
unfolding intern_function
site_id site f = site_id_or site f (interned_id (f.sites site))

-- The three tables.
pub record Tables : Type 0 where
  pub functions : Functions
  pub types : Types
  pub paths : PathTable

abbrev pub function_register : ℕ → Site → Wire.Register
function_register index site =
    Wire.Register.function ((index + 1) % 2 ^ 32) site.name (some site.module_name)
      (some (record { file = site.file; line = site.line; column = none }))

unfoldable pub function_registers : Statics Site → ℕ → List ℕ → List Wire.Register
function_registers sites index [] = []
function_registers sites index (site ∷ rest) =
    function_register index (sites site) ∷ function_registers sites (suc index) rest

abbrev pub type_register : ℕ → TypeSlot → Wire.Register
type_register index slot =
    Wire.Register.ty ((index + 1) % 2 ^ 32) slot.name
      (some (record { file = slot.file; line = slot.line; column = none }))

unfoldable pub type_registers : Statics TypeSlot → ℕ → List ℕ → List Wire.Register
type_registers slots index [] = []
type_registers slots index (slot ∷ rest) =
    type_register index (slots slot) ∷ type_registers slots (suc index) rest

-- The loop over the contexts from `offset` on, with the room that is left in the frame, and the mark
-- that it ends with.
unfoldable pub path_registers : ℕ → ℕ → ℕ → List (ℕ × ℕ) → List Wire.Register × ℕ
path_registers room paths_now offset [] = ([], paths_now)
path_registers room paths_now offset ((parent, func) ∷ nodes) =
    let rest = path_registers (room - 1) (offset + 1) (suc offset) nodes in
    if room == 0
    then ([], paths_now)
    else (Wire.Register.path ((offset + 1) % 2 ^ 32) parent func ∷ rest.0, rest.1)

pub record Marks : Type 0 where
  pub functions_sent : ℕ
  pub types_sent : ℕ
  pub paths_sent : ℕ

abbrev pub no_marks : Marks
no_marks = record { functions_sent = 0; types_sent = 0; paths_sent = 0 }

unfoldable pub registers_since : Tables → Marks → List Wire.Register × Marks
unfolding function_registers type_registers path_registers
registers_since t m =
    let functions = t.functions.functions in
    let types = t.types.types in
    let out =
      function_registers t.functions.sites m.functions_sent (drop m.functions_sent functions)
      ++ type_registers t.types.slots m.types_sent (drop m.types_sent types) in
    let paths =
      path_registers (max_registers_per_frame - length out) m.paths_sent m.paths_sent
        (drop m.paths_sent t.paths.nodes) in
    (
      out ++ paths.0,
      record { functions_sent = length functions; types_sent = length types; paths_sent = paths.1 },
    )

unfoldable pub number_types : Statics TypeSlot → ℕ → List ℕ → List (TypeId × TypeSlot)
number_types slots index [] = []
number_types slots index (slot ∷ rest) =
    ((index + 1) % 2 ^ 32, slots slot) ∷ number_types slots (suc index) rest

unfoldable pub tracked_types : Types → List (TypeId × TypeSlot)
unfolding number_types
tracked_types t = number_types t.slots 0 t.types

-- The position of the first site with the name.
abbrev pub has_name : Text → Site → Bool
has_name name site = key_eq site.name name || key_eq (qualified site) name

unfoldable pub position_by_name : Statics Site → Text → ℕ → List ℕ → Option ℕ
unfolding qualified
position_by_name sites name index [] = none
position_by_name sites name index (site ∷ rest) =
    let found = position_by_name sites name (suc index) rest in
    if has_name name (sites site) then some index else found

abbrev pub next_id : Option ℕ → Option FunctionId
next_id none = none
next_id (some index) = some ((index + 1) % 2 ^ 32)

unfoldable pub function_id_by_name : Functions → Text → Option FunctionId
unfolding position_by_name
function_id_by_name f name = next_id (position_by_name f.sites name 0 f.functions)

unfoldable pub type_slot_by_name : Statics TypeSlot → Text → List ℕ → Option ℕ
type_slot_by_name slots name [] = none
type_slot_by_name slots name (slot ∷ rest) =
    let found = type_slot_by_name slots name rest in
    if key_eq (slots slot).name name then some slot else found

abbrev pub name_at : Statics Site → Option ℕ → Option Text
name_at sites none = none
name_at sites (some site) = some (sites site).name

unfoldable pub function_name : Functions → FunctionId → Option Text
function_name f id = if id == 0 then none else name_at f.sites (get_elem? f.functions (id - 1))
