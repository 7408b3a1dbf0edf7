-- ===== src/Listener/Steps.antt =====
-- The steps that the handlers of src/listener/handlers share, with `destruct_local_objects` and `adopt` of
-- src/bpp_include/bpp_code_entity.cpp.
use bashpp.Prelude.{
  Bool, true, false, List, [], ◌∷◌, ◌++◌, Option, none, some, if◌then◌else◌, Text, lit,
}
use bashpp.Entities.{Named, get_object}
use bashpp.Classes.Store.{Store}
use bashpp.Codegen.Program.{Program}
use bashpp.EntityMap.{FilePosition}
use bashpp.Codegen.Segments.{full_code, generate_delete_code}
use bashpp.Listener.{
  Listener, Entity, Kind, Object, Outcome, the_program, done, failed, syntax_error, internal_error,
  undefined_behaviour, is_code_entity, code_entities, top, update_top, names_of,
}
use bashpp.Listener.Entities.{add_code, add_code_to_previous_line, add_code_to_next_line}

-- What `destruct_local_objects` writes; `none` when a class has no `__delete`.
unfoldable pub deletions : Store → List Object → Program → Option (Text × Program)
unfolding generate_delete_code full_code
deletions s [] p = some ([], p)
deletions s (o ∷ os) p = elim o.pointer [
  | true ↦ deletions s os p
  | false ↦ elim (generate_delete_code s o.class o.address p) [
    | none ↦ none
    | some (segment, p') ↦ elim (deletions s os p') [
      | none ↦ none
      | some (text, p'') ↦ some (full_code segment ++ (lit "\n" ++ text), p'')
    ]
  ]
]

-- `e->destruct_local_objects(program)` for an entity that has left the stack, then the rest of the handler.
-- A counter's first use writes a helper into the program's buffers.
unfoldable pub destruct_local_objects : Entity → Listener → (Entity → Listener → Outcome) → Outcome
unfolding deletions
destruct_local_objects e l k = elim (deletions l.store e.local_objects l.program) [
  | none ↦ failed (internal_error (lit "Method __delete not found")) l
  | some (text, p) ↦
      k (record e { buffers = record e.buffers { code = e.buffers.code ++ text } })
        (record l { program = p })
]

abbrev pub is_known : Option Named → Bool
is_known none = false
is_known (some o) = true

-- `add` of the object list appends: by then the name is not in the list.
unfoldable pub adopt_objects : List Object → Listener → Outcome
unfolding get_object update_top code_entities
adopt_objects [] l = done l
adopt_objects (o ∷ os) l =
    elim (is_known (get_object o.named.name (names_of (code_entities l.stack) l.program_objects))) [
      | true ↦
          failed
            (internal_error
              (lit "Name conflict when adopting local objects from supershell: " ++ o.named.name))
            l
      | false ↦
          adopt_objects os
            (update_top (λ e. record e { local_objects = e.local_objects ++ o ∷ [] }) l)
    ]

-- `current_code_entity->adopt(entity)`
unfoldable pub adopt : Entity → Listener → Outcome
unfolding adopt_objects
adopt entity l = adopt_objects entity.local_objects l

-- How the handlers end: `bpp_assert`, and the `throw` of a handler that needs a code entity.
unfoldable pub asserting : Bool → Text → Listener → Outcome → Outcome
asserting ok message l k = if ok then k else failed (internal_error message) l

unfoldable pub in_code_entity : Text → Listener → Outcome → Outcome
unfolding top is_code_entity
in_code_entity message l k =
    if is_code_entity (top l).kind then k else failed (syntax_error message) l

-- `bpp_assert(topmost_entity_is<...>(), ...)`, `entity_stack.top()` and `entity_stack.pop()`. The program
-- is on the stack below every other entity; behind it there is no top.
unfoldable pub popping : (Kind → Bool) → Text → Listener → (Entity → Listener → Outcome) → Outcome
popping is_expected message l k = elim l.stack [
  | [] ↦ failed (if is_expected the_program then undefined_behaviour else internal_error message) l
  | e ∷ rest ↦
      if is_expected e.kind
      then k e (record l { stack = rest })
      else failed (internal_error message) l
]

-- A check whose failure is a syntax error.
unfoldable pub refusing : Bool → Text → Listener → Outcome → Outcome
refusing wrong message l k = if wrong then failed (syntax_error message) l else k

-- The same for the code entity below: `bpp_assert(topmost_entity_is<bpp_code_entity>(), message)`.
unfoldable pub on_code_entity : Text → Listener → Outcome → Outcome
unfolding asserting top is_code_entity
on_code_entity message l k = asserting (is_code_entity (top l).kind) message l k

-- A null `current_code_entity` that is used without a test.
unfoldable pub on_any_entity : Listener → Outcome → Outcome
unfolding top is_code_entity
on_any_entity l k = if is_code_entity (top l).kind then k else failed undefined_behaviour l

-- `program->mark_entity(source_file, ...)`, from the entity's definition and from another position.
unfoldable pub mark_between : FilePosition → FilePosition → Entity → Listener → Listener
mark_between begin end e l = record l {
  marks = record { begin = begin; end = end; entity = e } ∷ l.marks;
}

unfoldable pub mark_entity : FilePosition → Entity → Listener → Listener
unfolding mark_between
mark_entity end e l = mark_between e.definition end e l

-- `set_definition_position`
abbrev pub defined_at : FilePosition → Entity → Entity
defined_at begin e = record e { definition = begin }

-- `current_code_entity->add_code(...)` and the like.
abbrev pub write : Text → Listener → Listener
write text l = update_top (add_code text true) l

abbrev pub write_inline : Text → Listener → Listener
write_inline text l = update_top (add_code text false) l

-- The pre- and post-code of an entity go in front of and behind the line.
abbrev pub write_around : Text → Text → Listener → Listener
write_around pre post l =
    update_top (λ e. add_code_to_next_line post (add_code_to_previous_line pre e)) l
