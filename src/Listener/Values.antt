-- ===== src/Listener/Values.antt =====
-- src/listener/handlers/ValueAssignment.cpp.
use bashpp.Prelude.{
  Bool, true, false, not, ◌||◌, ◌∷◌, ◌++◌, Option, none, some, if◌then◌else◌, Text, lit, same_text,
}
use bashpp.Listener.{
  Listener, Entity, Kind, Object, ValueAssignment, Expectations, Outcome, object_entity,
  datamember_entity, value_assignment, object_assignment, done, failed, syntax_error, top,
  update_top, push, new_entity, pop_expectations,
}
use bashpp.Listener.Entities.{on_kind, get_code, get_pre_code, get_post_code}
use bashpp.Listener.Steps.{asserting, popping, on_code_entity, write, write_around}

-- The entity on top is an object assignment with a nonprimitive lvalue, or a `bpp_object`: a data member
-- is one, too.
abbrev pub lvalue_is_nonprimitive : Kind → Bool
lvalue_is_nonprimitive (object_assignment a) = a.lvalue_nonprimitive
lvalue_is_nonprimitive (object_entity o) = true
lvalue_is_nonprimitive (datamember_entity d) = true
lvalue_is_nonprimitive _ = false

unfoldable pub enter_value_assignment : Text → Listener → Outcome
enter_value_assignment operator l =
    let nonprimitive = lvalue_is_nonprimitive (top l).kind in
    let v : ValueAssignment = record {
      nonprimitive_object = none;
      nonprimitive_assignment = false;
      lvalue_nonprimitive = nonprimitive;
      array_assignment = false;
      adding = same_text operator (lit "+=");
    } in
    let x : Expectations = record {
      can_take_primitive = not nonprimitive;
      can_take_object = nonprimitive;
    } in
    let e = new_entity (value_assignment v) l in
    done (push e (record l { context_expectations_stack = x ∷ l.context_expectations_stack }))

abbrev pub is_value_assignment : Kind → Bool
is_value_assignment (value_assignment v) = true
is_value_assignment _ = false

abbrev no_value : ValueAssignment
no_value = record {
  nonprimitive_object = none;
  nonprimitive_assignment = false;
  lvalue_nonprimitive = false;
  array_assignment = false;
  adding = false;
}

abbrev pub value_of : Kind → ValueAssignment
value_of (value_assignment v) = v
value_of _ = no_value

abbrev is_some : Option Object → Bool
is_some none = false
is_some (some o) = true

-- What the value assignment `e` sets in a data member, an object assignment, or a pointer.
unfoldable pub set_value : Entity → Kind → Kind
unfolding get_code get_pre_code get_post_code
set_value e (datamember_entity d) = datamember_entity (record d {
  default_value = get_code e;
  pre_access_code = get_pre_code e;
  post_access_code = get_post_code e;
  array = (value_of e.kind).array_assignment || d.array;
})
set_value e (object_assignment a) =
    let v = value_of e.kind in
    object_assignment (record a {
      adding = v.adding;
      rvalue_array = v.array_assignment;
      rvalue = get_code e;
      rvalue_nonprimitive = v.nonprimitive_assignment || a.rvalue_nonprimitive;
      rvalue_object = if v.nonprimitive_assignment then v.nonprimitive_object else a.rvalue_object;
    })
set_value e (object_entity o) = object_entity (record o {
  pre_access_code = get_pre_code e;
  post_access_code = get_post_code e;
  assignment_value = get_code e;
})
set_value e k = k

-- The value for the declaration, assignment or object on top; `e` is the value assignment's entity.
unfoldable pub assign_value : Text → Entity → Listener → Outcome
assign_value operator e l =
    let v = value_of e.kind in
    elim (top l).kind [
      | datamember_entity d ↦ done (update_top (on_kind (set_value e)) l)
      | object_assignment a ↦
          let l' =
            write_around (get_pre_code e) (get_post_code e)
              (update_top (on_kind (set_value e)) l) in
          asserting (not v.nonprimitive_assignment || is_some v.nonprimitive_object)
            (lit "Rvalue object not found for copy") l' (done l')
      | object_entity o ↦
          if o.pointer
          then done (update_top (on_kind (set_value e)) l)
          else if not v.nonprimitive_assignment
          then failed
              (syntax_error (lit "Cannot assign a primitive value to a nonprimitive object")) l
          else done l
      | _ ↦ on_code_entity (lit "Current code entity was not found in the entity stack") l (
          done (write (operator ++ get_code e) (write_around (get_pre_code e) (get_post_code e) l)))
    ]

unfoldable pub exit_value_assignment : Text → Listener → Outcome
exit_value_assignment operator l =
    popping is_value_assignment (lit "Value assignment context was not found in the entity stack") l
      λ e l'.
        assign_value operator e (record l' {
          context_expectations_stack = pop_expectations l'.context_expectations_stack;
        })
