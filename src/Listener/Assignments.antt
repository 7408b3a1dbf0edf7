-- ===== src/Listener/Assignments.antt =====
-- src/listener/handlers/ObjectAssignment.cpp and DeleteStatement.cpp.
use bashpp.Prelude.{
  Bool, true, false, not, ◌&&◌, List, [], ◌∷◌, ◌++◌, Option, none, some, if◌then◌else◌, Text, lit,
  concat, same_text,
}
use bashpp.Codegen.Program.{increment_assignment_counter}
use bashpp.Codegen.Segments.{CodeSegment, numbered, generate_method_call_code, generate_delete_code}
use bashpp.Listener.{
  Listener, Entity, Kind, Object, ObjectAssignment, Expectations, Outcome, delete_statement,
  object_assignment, done, failed, syntax_error, internal_error, is_code_entity, top, update_top,
  push, new_entity, pop_expectations,
}
use bashpp.Listener.Entities.{
  add_code, get_code, get_pre_code, get_post_code, add_code_to_previous_line, add_code_to_next_line,
}
use bashpp.Listener.Blocks.{is_object_assignment}
use bashpp.Listener.Steps.{popping, write, write_around}

abbrev both : Expectations
both = record { can_take_primitive = true; can_take_object = true }

unfoldable pub enter_delete_statement : Listener → Outcome
enter_delete_statement l =
    let e = new_entity (delete_statement none) l in
    done (push e (record l { context_expectations_stack = both ∷ l.context_expectations_stack }))

abbrev pub is_delete_statement : Kind → Bool
is_delete_statement (delete_statement o) = true
is_delete_statement _ = false

abbrev pub object_to_delete : Kind → Option Object
object_to_delete (delete_statement o) = o
object_to_delete _ = none

-- `latest_code_entity()`, and a write through the pointer that it answers; at the bottom is the program.
unfoldable pub in_latest : (Entity → Entity) → List Entity → Option (List Entity)
unfolding is_code_entity
in_latest f [] = none
in_latest f (e ∷ es) = elim (is_code_entity e.kind) [
  | true ↦ some (f e ∷ es)
  | false ↦ elim (in_latest f es) [ none ↦ none | some rest ↦ some (e ∷ rest) ]
]

unfoldable pub update_latest : (Entity → Entity) → Listener → Listener
update_latest f l = elim (in_latest f l.stack) [
  | some es ↦ record l { stack = es }
  | none ↦ record (update_top f (record l { stack = [] })) { stack = l.stack }
]

-- The statement's access code around the line, then the deletion.
abbrev pub written_by_delete : Entity → CodeSegment → Entity → Entity
written_by_delete e segment c = add_code segment.code true (
    add_code_to_next_line segment.post_code (
      add_code_to_previous_line segment.pre_code
        (add_code_to_next_line (get_post_code e) (add_code_to_previous_line (get_pre_code e) c))))

-- `reference`: the first child as it is written, if it is an object reference.
unfoldable pub exit_delete_statement : Option Text → Listener → Outcome
exit_delete_statement reference l =
    popping is_delete_statement (lit "Delete statement context was not found in the entity stack") l
      λ e l1.
        let l2 = record l1 {
          context_expectations_stack = pop_expectations l1.context_expectations_stack;
        } in
        elim (object_to_delete e.kind) [
          | none ↦ elim reference [
            | none ↦
                failed
                  (internal_error
                    (lit "Delete statement does not contain a valid object reference"))
                  l2
            | some name ↦ failed (syntax_error (lit "Object not found: " ++ name)) l2
          ]
          | some o ↦
              if same_text o.address (lit "__this")
              then failed (syntax_error (lit "Cannot call @delete on '@this'")) l2
              else elim (generate_delete_code l2.store o.class (get_code e) l2.program) [
                | none ↦ failed (internal_error (lit "Method __delete not found")) l2
                | some (segment, p) ↦
                    done (update_latest (written_by_delete e segment) (record l2 { program = p }))
              ]
        ]

abbrev no_assignment : ObjectAssignment
no_assignment = record {
  lvalue = [];
  rvalue = [];
  lvalue_object = none;
  lvalue_nonprimitive = false;
  rvalue_nonprimitive = false;
  rvalue_object = none;
  adding = false;
  rvalue_array = false;
}

unfoldable pub enter_object_assignment : Listener → Outcome
enter_object_assignment l =
    let e = new_entity (object_assignment no_assignment) l in
    done (push e (record l { context_expectations_stack = both ∷ l.context_expectations_stack }))

abbrev pub assignment_of : Kind → ObjectAssignment
assignment_of (object_assignment a) = a
assignment_of _ = no_assignment

-- `eval` of the assignment of the variable's value, or of all its elements.
abbrev pub evaluation : ObjectAssignment → Text → Text
evaluation a variable =
    let operator = if a.adding then lit "+=" else lit "=" in
    if a.rvalue_array
    then concat (
        lit "eval \"" ∷ a.lvalue ∷ operator ∷ lit "(\\\"\\${" ∷ variable ∷ lit "[@]}\\\")\"\n" ∷ [])
    else concat (lit "eval " ∷ a.lvalue ∷ operator ∷ lit "\\$" ∷ variable ∷ lit "\n" ∷ [])

-- The part for everything but a copy of an object. Nothing is written outside of a code entity.
unfoldable pub assign_object : ObjectAssignment → Entity → Listener → Outcome
assign_object a e l =
    if a.lvalue_nonprimitive && not a.rvalue_nonprimitive
    then failed (syntax_error (lit "Cannot assign a primitive value to a nonprimitive object")) l
    else (let variable = numbered (lit "____assignment") l.program.assignment_counter in
        let l' = record l { program = increment_assignment_counter l.program } in
        let pre = concat (get_pre_code e ∷ variable ∷ lit "=" ∷ a.rvalue ∷ lit "\n" ∷ []) in
        let post = concat (get_post_code e ∷ lit "unset " ∷ variable ∷ lit "\n" ∷ []) in
        if is_code_entity (top l').kind
        then done (write (evaluation a variable) (write_around pre post l'))
        else done l')

-- The call of `__copy`; an object of the model has a class.
unfoldable pub copy_object : ObjectAssignment → Entity → Object → Object → Listener → Outcome
copy_object a e lvalue_object rvalue_object l =
    if not (
      same_text (l.store.class_at lvalue_object.class).name
        (l.store.class_at rvalue_object.class).name)
    then failed (syntax_error (lit "Cannot copy objects of different classes")) l
    else elim (generate_method_call_code l.store a.lvalue (lit "__copy") lvalue_object.class false
        l.program) [
          | none ↦ failed (internal_error (lit "Method __copy not found")) l
          | some (copy_call, p) ↦
              let l' = record l { program = p } in
              let call = concat (
                copy_call.pre_code
                ∷ lit "\n"
                ∷ copy_call.code
                ∷ lit " "
                ∷ a.rvalue
                ∷ lit "\n"
                ∷ copy_call.post_code
                ∷ lit "\n"
                ∷ []) in
              if is_code_entity (top l').kind
              then done (write call (write_around (get_pre_code e) (get_post_code e) l'))
              else assign_object a e l'
        ]

unfoldable pub copy_objects :
    ObjectAssignment → Entity → Option Object → Option Object → Listener → Outcome
copy_objects a e (some x) (some y) l = copy_object a e x y l
copy_objects a e _ _ l = failed (internal_error (lit "Objects are null")) l

unfoldable pub exit_object_assignment : Listener → Outcome
exit_object_assignment l =
    popping is_object_assignment (lit "Object assignment context was not found in the entity stack")
      l
      λ e l1.
        let a = assignment_of e.kind in
        let l2 = record l1 {
          context_expectations_stack = pop_expectations l1.context_expectations_stack;
        } in
        if a.lvalue_nonprimitive && a.rvalue_nonprimitive
        then copy_objects a e a.lvalue_object a.rvalue_object l2
        else assign_object a e l2
