-- ===== src/Listener.antt =====
-- src/listener/BashppListener.h: the listener that turns the syntax tree into shell code. A handler is a
-- function from the listener to how it ended; an error keeps the state that it left behind.
-- `bpp_assert` is the one of a debug build.
pub mod Entities
pub mod Steps
pub mod Conditionals
pub mod Headers
pub mod Blocks
pub mod Strings
pub mod Expressions
pub mod Values
pub mod Assignments
pub mod Classes
pub mod Methods
pub mod Declarations
pub mod Declared
pub mod References
pub mod Walk
use bashpp.Prelude.{
  ℕ, ◌+◌, ◌-◌, Bool, true, false, ◌&&◌, ◌||◌, List, [], ◌∷◌, Option, none, some, map, ◌==◌,
  if◌then◌else◌, length, Text,
}
use bashpp.EntityMap.{FilePosition}
use bashpp.Entities.{Named, Scope as Names, number_of_known_objects, find, get_class as class_named}
use bashpp.Classes.Store.{Store, Datamember}
use bashpp.CodeBuffers.{CodeEntity, fresh}
use bashpp.CommandSequence.{CommandSequence}
use bashpp.Codegen.Program.{Program}

-- What is left of a `bpp_object` for the code that handles it.
pub record Object : Type 0 where
  pub named : Named
  pub address : Text
  pub class : ℕ
  pub pointer : Bool
  pub assignment_value : Text
  pub pre_access_code : Text
  pub post_access_code : Text

-- The header fields of `bash_for_or_select`.
pub record Header : Type 0 where
  pub pre_code : Text
  pub post_code : Text
  pub code : Text

-- `bpp_value_assignment` and `bpp_object_assignment`
pub record ValueAssignment : Type 0 where
  pub nonprimitive_object : Option Object
  pub nonprimitive_assignment : Bool
  pub lvalue_nonprimitive : Bool
  pub array_assignment : Bool
  pub adding : Bool

pub record ObjectAssignment : Type 0 where
  pub lvalue : Text
  pub rvalue : Text
  pub lvalue_object : Option Object
  pub lvalue_nonprimitive : Bool
  pub rvalue_nonprimitive : Bool
  pub rvalue_object : Option Object
  pub adding : Bool
  pub rvalue_array : Bool

-- The class of an entity and the fields that the class adds. Of a loop: the buffers of its condition.
pub data Kind : Type 0 where
  the_program : Kind
  object_entity : Object → Kind
  datamember_entity : Datamember → Kind
  code_entity string_entity if_branch loop_condition cast_target : Kind
  class_entity method_entity : ℕ → Kind
  bash_if : List (Text × Text) → Kind
  bash_loop : Option CodeEntity → Kind
  bash_for_or_select : Header → Kind
  bash_case case_pattern bash_function : Text → Kind
  command_sequence : CommandSequence → Kind
  dynamic_cast object_reference : Text → Kind
  delete_statement : Option Object → Kind
  value_assignment : ValueAssignment → Kind
  object_assignment : ObjectAssignment → Kind

-- `dynamic_pointer_cast<bpp_code_entity>` finds one.
unfoldable pub is_code_entity : Kind → Bool
is_code_entity (class_entity c) = false
is_code_entity (object_entity o) = false
is_code_entity (datamember_entity d) = false
is_code_entity _ = true

-- An entity of the stack. A command sequence has its buffers in its kind. `known` and
-- `known_classes` are `parent_visible_object_count_at_creation` and `program_visible_class_count_at_creation`.
pub record Entity : Type 0 where
  pub kind : Kind
  pub buffers : CodeEntity
  pub local_objects : List Object
  pub known : ℕ
  pub known_classes : ℕ
  pub containing_class : Option ℕ
  pub definition : FilePosition
  pub requires_perfect_forwarding : Bool

-- An argument list of `bpp_program::mark_entity`, without the file, which is `source_file`.
pub record Mark : Type 0 where
  pub begin : FilePosition
  pub end : FilePosition
  pub entity : Entity

-- `ContextExpectations`
pub record Expectations : Type 0 where
  pub can_take_primitive : Bool
  pub can_take_object : Bool

-- `stack` is `entity_stack` without the program at its bottom, the top first: the program's buffers are
-- those of `program`. A stack of `std::monostate` is its height; `marks`,
-- `class_references` (the calls of `add_reference` on a class) and `errors` are the newest first.
pub record Listener : Type 0 where
  pub source_file : Text
  pub stack : List Entity
  pub program : Program
  pub program_objects : List Object
  pub store : Store
  pub next_datamember : ℕ
  pub classes : List Named
  pub class_references : List (ℕ × FilePosition)
  pub marks : List Mark
  pub in_class : Bool
  pub in_method : Bool
  pub supershell_stack : ℕ
  pub bash_function_stack : ℕ
  pub dynamic_cast_stack : ℕ
  pub typeof_stack : ℕ
  pub context_expectations_stack : List Expectations
  pub program_has_errors : Bool
  pub errors : List Text

-- A syntax error, a failed `bpp_assert`, another internal error, or a null pointer followed.
pub data Fault : Type 0 where
  syntax_error internal_error : Text → Fault
  undefined_behaviour : Fault

pub data Outcome : Type 0 where
  done : Listener → Outcome
  failed : Fault → Listener → Outcome

-- One handler behind another.
unfoldable pub and_then : Outcome → (Listener → Outcome) → Outcome
and_then (done l) k = k l
and_then (failed f l) k = failed f l

-- `should_declare_local` and `should_localize_object_instantiation`
unfoldable pub should_declare_local : Listener → Bool
should_declare_local l = l.in_class || (l.in_method || not_empty l.bash_function_stack)
  where
    not_empty : ℕ → Bool
    not_empty n = if n == 0 then false else true

unfoldable pub should_localize_object_instantiation : Listener → Bool
unfolding should_declare_local
should_localize_object_instantiation l = should_declare_local l && (l.supershell_stack == 0)

-- `ExpectationsStack::top`, whose `canTakePrimitive` and `canTakeObject` are its fields.
unfoldable pub expectations : List Expectations → Expectations
expectations [] = record { can_take_primitive = true; can_take_object = false }
expectations (x ∷ xs) = x

unfoldable pub pop_expectations : List Expectations → List Expectations
pop_expectations [] = []
pop_expectations (x ∷ xs) = xs

-- `entity_stack.top()`: with no other entity above it, the program.
unfoldable pub top : Listener → Entity
top l = elim l.stack [
  | e ∷ rest ↦ e
  | [] ↦ record {
    kind = the_program;
    buffers = l.program.output;
    local_objects = l.program_objects;
    known = 0;
    known_classes = 0;
    containing_class = none;
    definition = record { line = 0; column = 0 };
    requires_perfect_forwarding = false;
  }
]

-- What an assignment through the pointer `entity_stack.top()` writes.
unfoldable pub update_top : (Entity → Entity) → Listener → Listener
unfolding top
update_top f l =
    let e' = f (top l) in
    elim l.stack [
      | e ∷ rest ↦ record l { stack = e' ∷ rest }
      | [] ↦ record l {
        program = record l.program { output = e'.buffers };
        program_objects = e'.local_objects;
      }
    ]

abbrev pub push : Entity → Listener → Listener
push e l = record l { stack = e ∷ l.stack }

abbrev named_objects : List Object → List Named
named_objects = map (λ o. o.named)

-- The parents of an entity that saw `known` objects, from the entities below it on the stack.
abbrev pub parents : ℕ → List Entity → List Object → List (List Named × ℕ)
parents known [] program_objects = (named_objects program_objects, known) ∷ []
parents known (e ∷ es) program_objects =
    (named_objects e.local_objects, known) ∷ parents e.known es program_objects

-- The names that the top of the stack sees.
abbrev pub names_of : List Entity → List Object → Names
names_of [] program_objects = record { local_objects = named_objects program_objects; parents = [] }
names_of (e ∷ es) program_objects = record {
  local_objects = named_objects e.local_objects;
  parents = parents e.known es program_objects;
}

abbrev pub is_class_entity : Kind → Bool
is_class_entity (class_entity c) = true
is_class_entity _ = false

-- An entity inherits a code entity of the stack; what is between holds no objects. A class and its
-- methods inherit the program.
unfoldable pub code_entities : List Entity → List Entity
unfolding is_code_entity
code_entities [] = []
code_entities (e ∷ es) =
    let rest = code_entities es in
    if is_class_entity e.kind then [] else if is_code_entity e.kind then e ∷ rest else rest

-- `bpp_program::get_class`, or `bpp_entity::get_class` of the entity on top.
unfoldable pub seen_class : Text → Listener → Option Named
unfolding find class_named
seen_class name l = elim l.stack [
  | [] ↦ find name none l.classes
  | e ∷ rest ↦ class_named name e.known_classes l.classes
]

-- A new entity that has inherited the top of the stack, with its containing class.
unfoldable pub new_entity : Kind → Listener → Entity
unfolding number_of_known_objects code_entities top
new_entity k l = record {
  kind = k;
  buffers = fresh;
  local_objects = [];
  known = number_of_known_objects (names_of (code_entities l.stack) l.program_objects);
  known_classes = length l.classes;
  containing_class = (top l).containing_class;
  definition = record { line = 0; column = 0 };
  requires_perfect_forwarding = false;
}
