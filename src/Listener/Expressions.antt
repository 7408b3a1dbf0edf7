-- ===== src/Listener/Expressions.antt =====
-- src/listener/handlers/ArrayAssignment.cpp, ArrayIndex.cpp, TypeofExpression.cpp, DynamicCast.cpp,
-- DynamicCastTarget.cpp, NewStatement.cpp, DeleteStatement.cpp and ValueAssignment.cpp. The warning about
-- an unknown class of a cast is left out.
use bashpp.Prelude.{
  ◌+◌, ◌-◌, Bool, true, false, [], ◌∷◌, ◌++◌, Option, none, some, if◌then◌else◌, Text, lit, concat,
  is_empty,
}
use bashpp.EntityMap.{FilePosition}
use bashpp.Entities.{Named}
use bashpp.Classes.Members.{find_method, methods_of}
use bashpp.Codegen.Program.{increment_assignment_counter}
use bashpp.Codegen.Segments.{
  CodeSegment, full_code, numbered, generate_supershell_code, generate_constructor_call_code,
  generate_dynamic_cast_code, generate_typeof_code,
}
use bashpp.Listener.{
  Listener, Entity, Kind, Outcome, string_entity, cast_target, dynamic_cast, object_reference,
  value_assignment, done, failed, syntax_error, is_code_entity, top, update_top, push, new_entity,
  seen_class,
}
use bashpp.Listener.Entities.{
  on_kind, is_string, get_code, get_pre_code, get_post_code, add_code_to_previous_line,
  add_code_to_next_line,
}
use bashpp.Listener.Steps.{
  asserting, in_code_entity, popping, on_code_entity, on_any_entity, mark_entity, defined_at, write,
  write_around,
}

unfoldable pub enter_array_assignment : FilePosition → Listener → Outcome
enter_array_assignment begin l = in_code_entity (lit "Array assignment outside of code entity") l (
    let e = record (defined_at begin (new_entity string_entity l)) {
      requires_perfect_forwarding = true;
    } in
    done (push e l))

-- `set_array_assignment(true)` if the entity is a value assignment
unfoldable pub assign_array : Kind → Kind
assign_array (value_assignment v) = value_assignment (record v { array_assignment = true })
assign_array k = k

unfoldable pub exit_array_assignment : FilePosition → Listener → Outcome
exit_array_assignment end l =
    popping is_string (lit "Array assignment context was not found in the entity stack") l λ e l'.
      on_any_entity l' (
        let around =
          write_around (get_pre_code e) (lit "\n" ++ get_post_code e)
            (update_top (on_kind assign_array) l') in
        done (mark_entity end e (write (concat (lit "(" ∷ get_code e ∷ lit ")" ∷ [])) around)))

unfoldable pub enter_array_index : Listener → Outcome
enter_array_index l =
    asserting (is_code_entity (top l).kind)
      (lit "Current code entity was not found in the entity stack") l
      (done (push (new_entity string_entity l) l))

abbrev pub is_object_reference : Kind → Bool
is_object_reference (object_reference i) = true
is_object_reference _ = false

unfoldable pub set_array_index : Text → Kind → Kind
set_array_index index (object_reference old) = object_reference index
set_array_index index k = k

unfoldable pub exit_array_index : Listener → Outcome
exit_array_index l =
    popping is_string (lit "Array index context was not found in the entity stack") l λ e l'.
      let index = concat (lit "[" ∷ get_code e ∷ lit "]" ∷ []) in
      if is_object_reference (top l').kind
      then (let set = update_top (on_kind (set_array_index index)) l' in
          done (write_around (get_pre_code e) (get_post_code e) set))
      else on_code_entity (lit "Current code entity was not found in the entity stack") l'
          (done (write index (write_around (get_pre_code e) (get_post_code e) l')))

unfoldable pub enter_typeof_expression : Listener → Outcome
enter_typeof_expression l = in_code_entity (lit "Typeof expression outside of code entity") l (
    let e = new_entity string_entity l in
    done (push e (record l { typeof_stack = l.typeof_stack + 1 })))

-- Pre- and post-code of the entity and of the generated segment, then the segment's code.
abbrev pub write_segment : Entity → CodeSegment → Listener → Listener
write_segment e segment l =
    let pre =
      update_top
        (λ t.
          add_code_to_previous_line segment.pre_code (add_code_to_previous_line (get_pre_code e) t))
        l in
    let post =
      update_top
        (λ t. add_code_to_next_line segment.post_code (add_code_to_next_line (get_post_code e) t))
        pre in
    write segment.code post

unfoldable pub exit_typeof_expression : Listener → Outcome
exit_typeof_expression l =
    popping is_string (lit "Typeof context was not found in the entity stack") l λ e l1.
      let l2 = record l1 { typeof_stack = l1.typeof_stack - 1 } in
      on_code_entity (lit "Current code entity was not found in the entity stack") l2 (
        let (segment, p) = generate_typeof_code (get_code e) l2.program in
        done (write_segment e segment (record l2 { program = p })))

abbrev pub is_dynamic_cast : Kind → Bool
is_dynamic_cast (dynamic_cast t) = true
is_dynamic_cast _ = false

abbrev pub is_cast_target : Kind → Bool
is_cast_target cast_target = true
is_cast_target _ = false

-- `get_cast_to`
abbrev pub cast_to : Kind → Text
cast_to (dynamic_cast t) = t
cast_to _ = []

unfoldable pub set_cast_to : Text → Kind → Kind
set_cast_to t (dynamic_cast old) = dynamic_cast t
set_cast_to t k = k

unfoldable pub enter_dynamic_cast : Listener → Outcome
enter_dynamic_cast l = in_code_entity (lit "Dynamic cast statement outside of code entity") l (
    let e = new_entity (dynamic_cast []) l in
    done (push e (record l { dynamic_cast_stack = l.dynamic_cast_stack + 1 })))

unfoldable pub exit_dynamic_cast : Listener → Outcome
exit_dynamic_cast l =
    popping is_dynamic_cast (lit "Dynamic cast context was not found in the entity stack") l λ e l1.
      let l2 = record l1 { dynamic_cast_stack = l1.dynamic_cast_stack - 1 } in
      on_code_entity (lit "Current code entity was not found in the entity stack") l2 (
        if is_empty (cast_to e.kind)
        then failed (syntax_error (lit "Dynamic cast target not specified")) l2
        else (let (segment, p) =
              generate_dynamic_cast_code (get_code e) (cast_to e.kind) l2.program in
            done (write_segment e segment (record l2 { program = p }))))

unfoldable pub enter_dynamic_cast_target : Listener → Outcome
enter_dynamic_cast_target l =
    asserting (is_dynamic_cast (top l).kind)
      (lit "Dynamic cast context was not found in the entity stack") l
      (done (push (new_entity cast_target l) l))

abbrev pub refer_to_class : Named → FilePosition → Listener → Listener
refer_to_class c position l = record l { class_references = (c.id, position) ∷ l.class_references }

-- `TARGETTYPE()`: the class's name and where it stands, if the target is an identifier.
unfoldable pub exit_dynamic_cast_target : Option (Text × FilePosition) → Listener → Outcome
exit_dynamic_cast_target target l =
    popping is_cast_target (lit "Dynamic cast target context was not found in the entity stack") l
      λ e l'.
        asserting (is_dynamic_cast (top l').kind)
          (lit "Dynamic cast context was not found in the entity stack") l'
          (elim target [
            | some (class_name, position) ↦
                let set = update_top (on_kind (set_cast_to class_name)) l' in
                elim (seen_class class_name l') [
                  | none ↦ done set
                  | some c ↦ done (refer_to_class c position set)
                ]
            | none ↦
                let set = update_top (on_kind (set_cast_to (get_code e))) l' in
                done (write_around (get_pre_code e) (get_post_code e) set)
          ])

-- The text that constructs the object whose address is in `variable`, for a class with a constructor.
abbrev pub construct_new : Text → Named → Listener → Listener
construct_new variable c l =
    elim (find_method l.store (lit "__constructor") (methods_of l.store c.id)) [
      | none ↦ l
      | some m ↦
          update_top
            (add_code_to_previous_line
              (full_code (generate_constructor_call_code l.store variable c.id)))
            l
    ]

unfoldable pub enter_new_statement : Text → FilePosition → Listener → Outcome
enter_new_statement class_name position l =
    in_code_entity (lit "New statement outside of code entity") l (elim (seen_class class_name l) [
      | none ↦ failed (syntax_error (lit "Class not found: " ++ class_name)) l
      | some c ↦
          let l1 = refer_to_class c position l in
          let (segment, p) =
            generate_supershell_code (concat (lit "bpp__" ∷ class_name ∷ lit "____new" ∷ []))
              l1.program in
          let l2 =
            update_top (add_code_to_previous_line segment.pre_code) (record l1 { program = p }) in
          let variable = numbered (lit "__newAssignment") l2.program.assignment_counter in
          let assignment = concat (variable ∷ lit "=" ∷ segment.code ∷ lit "\n" ∷ []) in
          let removal = concat (lit "unset " ∷ variable ∷ lit "\n" ∷ []) in
          let l3 = write_around assignment removal l2 in
          let l4 = record l3 { program = increment_assignment_counter l3.program } in
          let l5 =
            update_top (add_code_to_next_line segment.post_code) (construct_new variable c l4) in
          done (write (concat (lit "${" ∷ variable ∷ lit "}" ∷ [])) l5)
    ])
