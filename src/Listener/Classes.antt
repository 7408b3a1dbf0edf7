-- ===== src/Listener/Classes.antt =====
-- src/listener/handlers/ClassDefinition.cpp and DatamemberDeclaration.cpp. The number of a class is the
-- number of classes before it.
use bashpp.Prelude.{
  ℕ, suc, Bool, true, false, not, List, [], ◌∷◌, ◌++◌, Option, none, some, map, if◌then◌else◌,
  length, Text, lit, concat, contains,
}
use bashpp.EntityMap.{FilePosition}
use bashpp.Entities.{Named, is_valid_identifier, find}
use bashpp.CodeBuffers.{fresh}
use bashpp.Classes.Store.{
  Store, Scope, Method, Datamember, Class, write_class, write_method, write_datamember,
  scope_public,
}
use bashpp.Classes.Members.{
  set_name, add_method, add_datamember, find_method, find_datamember, methods_of, datamembers_of,
}
use bashpp.Classes.Inherit.{inherit}
use bashpp.Codegen.Program.{Program}
use bashpp.Codegen.ClassCode.{prepare_class, add_class}
use bashpp.Codegen.SystemMethods.{generate_new_method}
use bashpp.Codegen.SystemMethods.Copy.{generate_copy_method}
use bashpp.Codegen.SystemMethods.Delete.{generate_delete_method}
use bashpp.Listener.{
  Listener, Entity, Kind, Object, Outcome, class_entity, datamember_entity, done, failed,
  syntax_error, internal_error, undefined_behaviour, top, push, is_class_entity,
}
use bashpp.Listener.Steps.{refusing, popping, mark_entity}
use bashpp.Listener.Expressions.{refer_to_class}

-- A new entity that inherits the program, in a class.
abbrev pub program_child : Kind → ℕ → FilePosition → Listener → Entity
program_child k c position l = record {
  kind = k;
  buffers = fresh;
  local_objects = [];
  known = length l.program_objects;
  known_classes = length l.classes;
  containing_class = some c;
  definition = position;
  requires_perfect_forwarding = false;
}

abbrev named_in_program : Text → List Object → Bool
named_in_program name objects = elim (find name none (map (λ o. o.named) objects)) [
  | none ↦ false
  | some o ↦ true
]

abbrev is_class : Text → List Named → Bool
is_class name classes = elim (find name none classes) [ none ↦ false | some c ↦ true ]

-- The message for a name that is not an identifier.
abbrev pub invalid_name : Text → Text → Text
invalid_name what name =
    if contains (lit "__") name
    then concat (
        lit "Invalid "
        ∷ what
        ∷ lit " name: "
        ∷ name
        ∷ lit "\nBash++ identifiers cannot contain double underscores"
        ∷ [])
    else concat (lit "Invalid " ∷ what ∷ lit " name: " ∷ name ∷ [])

abbrev unnamed_class : Class
unnamed_class = record {
  name = [];
  methods = [];
  datamembers = [];
  parents = [];
  has_custom_to_primitive = false;
}

-- From `set_name` on; a class whose parent is unknown stays among the prepared ones.
unfoldable pub inherit_parent : ℕ → Option (Text × FilePosition) → Entity → Listener → Outcome
inherit_parent c none e l = done (push e l)
inherit_parent c (some (parent_name, position)) e l = elim (find parent_name none l.classes) [
  | none ↦ failed (syntax_error (lit "Parent class not found: " ++ parent_name)) l
  | some parent ↦
      done
        (push e (refer_to_class parent position (record l { store = inherit c parent.id l.store })))
]

-- A class that is refused leaves the stack, but `in_class` stays set.
unfoldable pub enter_class_definition :
    Text → FilePosition → Option (Text × FilePosition) → Listener → Outcome
enter_class_definition class_name position parent l0 =
    let c = length l0.classes in
    let e = program_child (class_entity c) c position l0 in
    let l = record l0 { in_class = true } in
    refusing (not (is_valid_identifier class_name)) (invalid_name (lit "class") class_name) l (
      refusing (is_class class_name l.classes) (lit "Class already exists: " ++ class_name) l (
        refusing (named_in_program class_name l.program_objects)
          (lit "Object already exists: " ++ class_name) l
          (let s = set_name class_name c (write_class l.store c unnamed_class) in
            let prepared = (prepare_class s c l.classes).0 in
            inherit_parent c parent e (record l { store = s; classes = prepared }))))

-- `add_method` of a generated method; its answer is not looked at.
abbrev pub add_generated : ℕ → Method → Store → Store
add_generated c m s =
    let n = s.next_method in
    (add_method c n (record (write_method s n m) { next_method = suc n })).0

abbrev pub class_number : Kind → ℕ
class_number (class_entity c) = c
class_number _ = 0

-- The generation of one method, and `add_method`.
unfoldable pub generating :
    (Store → ℕ → Program → Option (Method × Program))
    → ℕ
    → Text
    → Listener
    → (Listener → Outcome)
    → Outcome
generating generate c message l k = elim (generate l.store c l.program) [
  | none ↦ failed (internal_error message) l
  | some (m, p) ↦ k (record l { program = p; store = add_generated c m l.store })
]

unfoldable pub exit_class_definition : FilePosition → Listener → Outcome
exit_class_definition end l =
    popping is_class_entity (lit "entity_stack top is not a bpp_class") l λ e l1.
      let c = class_number e.kind in
      let message = lit "Method not found" in
      generating generate_copy_method c message l1 λ l2.
        generating generate_new_method c message l2 λ l3.
          generating generate_delete_method c message l3 λ l4.
            let output = (add_class l4.store c l4.classes l4.program.output).0 in
            let written = record l4 { program = record l4.program { output = output } } in
            done (record (mark_entity end e written) { in_class = false })

abbrev fresh_datamember : Scope → Datamember
fresh_datamember scope = record {
  name = [];
  scope = scope;
  containing_class = none;
  type = none;
  pointer = false;
  array = false;
  default_value = [];
  pre_access_code = [];
  post_access_code = [];
}

-- `identifier`: the name of a primitive member and its position.
unfoldable pub enter_datamember_declaration :
    Scope → Option (Text × FilePosition) → Listener → Outcome
enter_datamember_declaration scope identifier l =
    refusing (not (is_class_entity (top l).kind)) (lit "Member declaration outside of class") l (
      let c = class_number (top l).kind in
      elim identifier [
        | none ↦ done (
            push
              (program_child (datamember_entity (fresh_datamember scope)) c
                (record { line = 0; column = 0 }) l)
              l)
        | some (name, position) ↦
            refusing (contains (lit "__") name)
              (concat (
                lit "Invalid member name: "
                ∷ name
                ∷ lit "\nBash++ identifiers cannot contain double underscores"
                ∷ []))
              l
              (let d = record (fresh_datamember scope) { name = name } in
                done (push (program_child (datamember_entity d) c position l) l))
      ])

abbrev is_datamember : Kind → Bool
is_datamember (datamember_entity d) = true
is_datamember _ = false

abbrev datamember_of : Kind → Datamember
datamember_of (datamember_entity d) = d
datamember_of _ = fresh_datamember scope_public

-- With what the name of a refused member conflicts.
abbrev member_conflict : Store → ℕ → Text → Text
member_conflict s c name =
    let place = concat (lit "@" ∷ (s.class_at c).name ∷ lit "." ∷ name ∷ []) in
    elim (find_datamember s name (datamembers_of s c)) [
      | some d ↦ lit "Data member name has already been used: " ++ place
      | none ↦ elim (find_method s name (methods_of s c)) [
        | some m ↦ lit "Data member name conflicts with existing method name: " ++ place
        | none ↦ lit "Failed to add data member: " ++ name
      ]
    ]

unfoldable pub exit_datamember_declaration : Listener → Outcome
exit_datamember_declaration l =
    popping is_datamember (lit "Data member declaration context was not found in the entity stack")
      l
      λ e l1.
        if is_class_entity (top l1).kind
        then (let c = class_number (top l1).kind in
            let n = l1.next_datamember in
            let d = datamember_of e.kind in
            let (s, added) = add_datamember c n (write_datamember l1.store n d) in
            let l2 = record l1 { store = s; next_datamember = suc n } in
            refusing (not added) (member_conflict s c d.name) l2 (done l2))
        else failed undefined_behaviour l1
