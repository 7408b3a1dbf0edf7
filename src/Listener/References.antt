-- ===== src/Listener/References.antt =====
-- src/listener/handlers/ObjectReference.cpp. Warnings are left out, and the message about a missing member
-- begins behind the name of the entity without it.
pub mod Exit
use bashpp.Prelude.{
  ℕ, ◌+◌, ◌%◌, Bool, true, false, not, ◌&&◌, ◌||◌, List, [], ◌∷◌, ◌++◌, Option, none, some, map,
  leb, if◌then◌else◌, Text, lit, concat, is_empty, same_text,
}
use bashpp.Entities.{find}
use bashpp.Classes.Store.{Store}
use bashpp.Classes.Members.{to_primitive}
use bashpp.Codegen.Program.{Program}
use bashpp.Codegen.Segments.{CodeSegment, generate_method_call_code, generate_supershell_code}
use bashpp.Codegen.Resolve.{
  Object as Found, Entity as Referenced, EntityReference, ReferenceError, Resolution,
  object_entity as found_object, class_entity as found_class, datamember_entity as found_datamember,
  method_entity as found_method, object_not_found, no_parent_class, after_primitive, after_method,
  invalid_identifier, is_inaccessible, no_member, resolved, failed as unresolved, indirection_level,
  get_encased_ref, resolve_reference_impl,
}
use bashpp.Listener.{
  Listener, Entity, Kind, Object, Outcome, object_reference, delete_statement, object_assignment,
  value_assignment, done, failed, syntax_error, internal_error, undefined_behaviour, top,
  update_top, push, new_entity, code_entities, should_declare_local, expectations,
}
use bashpp.Listener.Entities.{
  on_kind, add_code, add_code_to_previous_line, add_code_to_next_line, get_code, get_pre_code,
  get_post_code,
}
use bashpp.Listener.Steps.{
  asserting, refusing, in_code_entity, popping, on_code_entity, write, write_around,
}
use bashpp.Listener.Expressions.{is_object_reference}

-- The node: its identifiers as text, and its flags.
pub record Reference : Type 0 where
  pub first : Text
  pub ids : List Text
  pub lvalue : Bool
  pub self_reference : Bool
  pub pointer_dereference : Bool
  pub object_address : Bool
  pub has_hashkey : Bool

-- `get_object`, which answers the object itself.
unfoldable pub first_named : Text → List Object → Option Object
first_named name [] = none
first_named name (o ∷ os) = if same_text o.named.name name then some o else first_named name os

abbrev find_object : Text → Option ℕ → List Object → Option Object
find_object name limit os = elim (find name limit (map (λ o. o.named) os)) [
  | none ↦ none
  | some n ↦ first_named name os
]

unfoldable pub object_below : Text → ℕ → List Entity → List Object → Option Object
object_below name known [] program_objects = find_object name (some known) program_objects
object_below name known (e ∷ es) program_objects =
    elim (find_object name (some known) e.local_objects) [
      | some o ↦ some o
      | none ↦ object_below name e.known es program_objects
    ]

unfoldable pub object_named : Text → List Entity → List Object → Option Object
object_named name [] program_objects = find_object name none program_objects
object_named name (e ∷ es) program_objects = elim (find_object name none e.local_objects) [
  | some o ↦ some o
  | none ↦ object_below name e.known es program_objects
]

abbrev as_found : Object → Found
as_found o = record {
  name = o.named.name;
  type = o.class;
  pointer = o.pointer;
  address = o.address;
}

-- `resolve_reference` in the context of the entity on top.
unfoldable pub resolve_here : Text → List Text → Listener → Resolution EntityReference
resolve_here first ids l =
    let object_of = λ (name : Text).
      (elim (object_named name (code_entities l.stack) l.program_objects) as (λ x. Option Found) [
        | none ↦ none
        | some o ↦ some (as_found o)
      ]) in
    resolve_reference_impl l.store object_of (top l).containing_class (should_declare_local l) first
      ids

abbrev pub class_name : Option ℕ → Store → Text
class_name none s = []
class_name (some c) s = (s.class_at c).name

unfoldable pub reference_message : Text → Text → ReferenceError → Text
reference_message first own object_not_found = lit "Object not found: " ++ first
reference_message first own no_parent_class =
    own ++ lit " has no parent class to reference with @super"
reference_message first own after_primitive =
    lit "Unexpected identifier after primitive object reference"
reference_message first own after_method = lit "Unexpected identifier after method reference"
reference_message first own (invalid_identifier id) = concat (
    lit "Invalid identifier: "
    ∷ id
    ∷ lit "\nBash++ identifiers cannot contain double underscores"
    ∷ [])
reference_message first own (is_inaccessible id) = id ++ lit " is inaccessible in this context"
reference_message first own (no_member id) = lit " has no member named " ++ id

-- `reference_type` with `method`, `object`, or neither.
pub data Target : Type 0 where
  a_method : ℕ → Target
  a_primitive : Target
  an_object : Object → Target

abbrev object_at : Text → ℕ → Text → Bool → Object
object_at name c address pointer = record {
  named = record { name = name; id = c };
  address = address;
  class = c;
  pointer = pointer;
  assignment_value = [];
  pre_access_code = [];
  post_access_code = [];
}

-- The referenced entity; `none` for a class that is no self-reference.
unfoldable pub target_of : Store → Bool → Referenced → Option Target
target_of s self_reference (found_method m) = some (a_method m)
target_of s self_reference (found_datamember d) = elim (s.datamember d).type [
  | none ↦ some a_primitive
  | some c ↦
      let name = (s.datamember d).name in
      some (an_object (object_at name c (lit "${__this}__" ++ name) (s.datamember d).pointer))
]
target_of s self_reference (found_object o) =
    some (an_object (object_at o.name o.type o.address o.pointer))
target_of s self_reference (found_class c) =
    if self_reference then some (an_object (object_at [] c (lit "__this") true)) else none

abbrev pub is_object_assignment : Kind → Bool
is_object_assignment (object_assignment a) = true
is_object_assignment _ = false

abbrev pub is_found_class : Referenced → Bool
is_found_class (found_class c) = true
is_found_class _ = false

-- A dereferenced pointer counts as the object that it points to.
unfoldable pub dereferenced : Bool → Target → Target
dereferenced pointer_dereference (an_object o) =
    if o.pointer && pointer_dereference
    then an_object (record o { pointer = false })
    else an_object o
dereferenced pointer_dereference t = t

unfoldable pub wants_primitive : Bool → Bool → Target → Bool
wants_primitive object_address can_take_object (an_object o) =
    not o.pointer && (not object_address && not can_take_object)
wants_primitive object_address can_take_object t = false

-- Code in front of, behind, and in the entity of the reference.
abbrev pub surround : Text → Text → Entity → Entity
surround pre post e = add_code_to_next_line post (add_code_to_previous_line pre e)

-- A method's call, in a supershell when its output is the value.
unfoldable pub call_method :
    Reference → EntityReference → ℕ → Store → Entity → Program → Option (Entity × Program)
call_method q r m s e p =
    let code = r.reference_code.code in
    let this = if same_text code (lit "__this") then lit "${__this}" else code in
    elim r.class_containing_the_method [
      | none ↦ none
      | some c ↦
          elim (generate_method_call_code s this (s.method m).name c
            (same_text q.first (lit "super")) p) [
              | none ↦ none
              | some (call, p') ↦
                  let called = surround call.pre_code call.post_code e in
                  let (shell, p'') = generate_supershell_code call.code p' in
                  if not q.lvalue && not q.object_address
                  then some (
                    add_code shell.code true (surround shell.pre_code shell.post_code called),
                    p'',
                  )
                  else some (add_code call.code true called, p')
            ]
    ]

-- What the reference to the object `o` sets in the entity below, and whether its code is added.
unfoldable pub set_object : Object → Text → Kind → Kind
set_object o code (delete_statement old) = delete_statement (some o)
set_object o code (object_assignment a) =
    if o.pointer
    then object_assignment a
    else object_assignment
        (record a { lvalue_object = some o; lvalue_nonprimitive = true; lvalue = code })
set_object o code (value_assignment v) =
    if o.pointer
    then value_assignment v
    else value_assignment
        (record v { nonprimitive_object = some o; nonprimitive_assignment = true })
set_object o code k = k

unfoldable pub takes_code : Kind → Bool
takes_code (delete_statement o) = true
takes_code (object_assignment a) = true
takes_code (value_assignment v) = true
takes_code _ = false
