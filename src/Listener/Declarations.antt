-- ===== src/Listener/Declarations.antt =====
-- src/listener/handlers/ObjectInstantiation.cpp and PointerDeclaration.cpp, with `add_object` of
-- src/bpp_include/bpp_code_entity.cpp and bpp_method.cpp. No code sets the object that `add_object` copies
-- from, so its branch is left out. A data member counts as a `bpp_object`, but what a declaration leaves
-- is the object that it pushed.
use bashpp.Prelude.{
  ℕ, suc, Bool, true, false, not, ◌&&◌, ◌||◌, List, [], ◌∷◌, ◌++◌, Option, none, some,
  if◌then◌else◌, length, Text, lit, concat, is_empty, same_text,
}
use bashpp.EntityMap.{FilePosition}
use bashpp.Entities.{Named, is_valid_identifier, get_object}
use bashpp.CodeBuffers.{fresh}
use bashpp.Codegen.Segments.{full_code, generate_constructor_call_code}
use bashpp.Codegen.SystemMethods.{Generated, generate_new_code}
use bashpp.Listener.{
  Listener, Entity, Kind, Object, Outcome, datamember_entity, object_entity, done, failed,
  syntax_error, undefined_behaviour, is_code_entity, is_class_entity, code_entities, top,
  update_top, push, names_of, seen_class, should_localize_object_instantiation,
}
use bashpp.Listener.Steps.{refusing, popping, write_around, is_known}
use bashpp.Listener.Expressions.{refer_to_class}
use bashpp.Listener.Classes.{invalid_name}
use bashpp.Listener.Methods.{is_method_entity}

-- The stack with `latest_code_entity()` on top.
unfoldable pub from_latest : List Entity → List Entity
from_latest [] = []
from_latest (e ∷ es) = if is_code_entity e.kind then e ∷ es else from_latest es

abbrev pub latest : Listener → Listener
latest l = record l { stack = from_latest l.stack }

-- What `get_object` and `get_class` of the entity on top find.
abbrev sees_object : Text → Listener → Bool
sees_object name l = is_known (get_object name (names_of (code_entities l.stack) l.program_objects))

abbrev sees_class : Text → Listener → Bool
sees_class name l = is_known (seen_class name l)

-- The checks of a new object's name against what the latest code entity sees.
abbrev declaring : Text → Listener → Outcome → Outcome
declaring name l k =
    refusing (not (is_valid_identifier name)) (invalid_name (lit "object") name) l (
      refusing (sees_class name (latest l)) (lit "Class already exists: " ++ name) l
        (refusing (sees_object name (latest l)) (lit "Object already exists: " ++ name) l k))

-- A declared object at an address that begins with `prefix`; it inherits nothing.
abbrev declared : Text → Bool → Text → Named → Option ℕ → FilePosition → Listener → Entity
declared prefix pointer name c containing_class position l = record {
  kind = object_entity (record {
    named = record { name = name; id = c.id };
    address = concat (prefix ∷ (l.store.class_at c.id).name ∷ lit "__" ∷ name ∷ []);
    class = c.id;
    pointer = pointer;
    assignment_value = [];
    pre_access_code = [];
    post_access_code = [];
  });
  buffers = fresh;
  local_objects = [];
  known = 0;
  known_classes = 0;
  containing_class = containing_class;
  definition = position;
  requires_perfect_forwarding = false;
}

unfoldable pub enter_object_instantiation :
    Text → FilePosition → Text → FilePosition → Listener → Outcome
enter_object_instantiation object_type type_position object_name position l =
    refusing (is_class_entity (top l).kind)
      (lit
        "Stray object instantiation inside class body.\nDid you mean to declare a data member?\nIf so, start by declaring the data member with a visibility keyword (@public, @private, @protected)")
      l
      (elim (seen_class object_type (latest l)) [
        | none ↦ failed (syntax_error (lit "Class not found: " ++ object_type)) l
        | some c ↦
            let l' = refer_to_class c type_position l in
            declaring object_name l' (
              done (
                push
                  (declared (lit "bpp__") false object_name c (top (latest l)).containing_class
                    position l')
                  l'))
      ])

unfoldable pub enter_pointer_declaration :
    Text → FilePosition → Text → FilePosition → Listener → Outcome
enter_pointer_declaration object_type type_position object_name position l =
    refusing (is_class_entity (top l).kind)
      (lit
        "Stray pointer declaration inside class body.\nDid you mean to declare a data member?\nIf so, start by declaring the data member with a visibility keyword (@public, @private, @protected)")
      l
      (elim (seen_class object_type (latest l)) [
        | none ↦ failed (syntax_error (lit "Class not found: " ++ object_type)) l
        | some c ↦
            let l' = refer_to_class c type_position l in
            declaring object_name l' (
              done (
                push
                  (declared (lit "bpp____ptr__") true object_name c (top l).containing_class
                    position l')
                  l'))
      ])

-- The checks of `add_object` on the entity on top; a method takes objects of its own class.
unfoldable pub takes_object : Object → Listener → Bool
takes_object o l =
    let type = (l.store.class_at o.class).name in
    let own : Text = elim (top l).containing_class [
      | none ↦ []
      | some k ↦ (l.store.class_at k).name
    ] in
    not (sees_object o.named.name l)
    && (not (sees_class o.named.name l)
        && (sees_class type l || (is_method_entity (top l).kind && same_text type own)))

-- Member objects nest at most as deep as there are classes, unless a class contains itself.
abbrev nesting_fuel : Listener → ℕ
nesting_fuel l = suc (length l.classes)

-- The code that `add_object` writes.
unfoldable pub object_code : Object → Bool → Listener → Generated
object_code o make_local l =
    let in_a_method = is_method_entity (top l).kind in
    if o.pointer
    then some (
      concat (
          (if make_local then lit "local " else [])
          ∷ o.address
          ∷ lit "="
          ∷ o.assignment_value
          ∷ lit "\n"
          ∷ []),
      l.program,
    )
    else elim (generate_new_code (nesting_fuel l) l.store o.address o.class
        (in_a_method || make_local) (not in_a_method) l.program) [
          | none ↦ none
          | some (made, p) ↦ some (
            concat (
                full_code (record { pre_code = made; code = []; post_code = [] })
                ∷ lit "\n"
                ∷ full_code (generate_constructor_call_code l.store o.address o.class)
                ∷ []),
            p,
          )
        ]

abbrev pub with_object : Object → Text → Entity → Entity
with_object o text e = record e {
  local_objects = e.local_objects ++ o ∷ [];
  buffers = record e.buffers { code = e.buffers.code ++ text };
}

-- `add_object` of the entity on top, whose answer is not looked at. A class that contains itself is
-- inlined without end.
unfoldable pub add_object : Object → Bool → Listener → Outcome
add_object o make_local l =
    if takes_object o l
    then elim (object_code o make_local l) [
      | none ↦ failed undefined_behaviour l
      | some (text, p) ↦ done (update_top (with_object o text) (record l { program = p }))
    ]
    else done l

abbrev is_object : Kind → Bool
is_object (object_entity o) = true
is_object _ = false

abbrev no_object : Object
no_object = record {
  named = record { name = []; id = 0 };
  address = [];
  class = 0;
  pointer = false;
  assignment_value = [];
  pre_access_code = [];
  post_access_code = [];
}

abbrev object_of : Kind → Object
object_of (object_entity o) = o
object_of _ = no_object

-- The data of the declared object, for the data member on top.
unfoldable pub give_type : Object → Kind → Kind
give_type o (datamember_entity d) =
    datamember_entity (record d { type = some o.class; name = o.named.name })
give_type o k = k

unfoldable pub give_pointer : Object → Kind → Kind
give_pointer o (datamember_entity d) = datamember_entity (record d {
  type = some o.class;
  name = o.named.name;
  pointer = true;
  pre_access_code = o.pre_access_code;
  post_access_code = o.post_access_code;
  default_value = o.assignment_value;
})
give_pointer o k = k

abbrev pub is_datamember : Kind → Bool
is_datamember (datamember_entity d) = true
is_datamember _ = false

abbrev pub to_member : (Kind → Kind) → FilePosition → Entity → Entity
to_member f position e = record e { kind = f e.kind; definition = position }

unfoldable pub exit_object_instantiation : Listener → Outcome
exit_object_instantiation l =
    popping is_object (lit "Object instantiation context was not found in the entity stack") l
      λ e l'.
        let o = object_of e.kind in
        if is_datamember (top l').kind
        then done (update_top (to_member (give_type o) e.definition) l')
        else if is_code_entity (top l').kind
        then add_object o (should_localize_object_instantiation l') l'
        else done l'

-- `set_nullptr`
abbrev null_unless_set : Object → Object
null_unless_set o =
    if is_empty o.assignment_value then record o { assignment_value = lit "0" } else o

unfoldable pub exit_pointer_declaration : Listener → Outcome
exit_pointer_declaration l =
    popping is_object (lit "Pointer declaration context was not found in the entity stack") l
      λ e l'.
        let o = null_unless_set (object_of e.kind) in
        if is_datamember (top l').kind
        then done (update_top (to_member (give_pointer o) e.definition) l')
        else if is_code_entity (top l').kind
        then add_object o (should_localize_object_instantiation l')
            (write_around o.pre_access_code o.post_access_code l')
        else failed (syntax_error (lit "Pointer declaration outside of code entity")) l'
