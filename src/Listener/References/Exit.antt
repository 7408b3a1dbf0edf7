-- ===== src/Listener/References/Exit.antt =====
-- src/listener/handlers/ObjectReference.cpp: the values of primitives and pointers with their array
-- indices, and the two handlers.
use bashpp.Prelude.{
  ℕ, ◌+◌, ◌%◌, Bool, true, false, not, ◌&&◌, ◌||◌, [], ◌∷◌, ◌++◌, Option, none, some, leb,
  if◌then◌else◌, Text, lit, concat, is_empty,
}
use bashpp.Classes.Members.{to_primitive}
use bashpp.Codegen.Resolve.{
  EntityReference, Resolution, Entity as Referenced, resolved, failed as unresolved,
  object_entity as found_object, method_entity as found_method, indirection_level, get_encased_ref,
}
use bashpp.Listener.{
  Listener, Entity, Kind, Object, Outcome, object_reference, object_assignment, done, failed,
  syntax_error, internal_error, undefined_behaviour, top, update_top, push, new_entity,
  should_declare_local, expectations,
}
use bashpp.Listener.Entities.{on_kind, add_code, get_code, get_pre_code, get_post_code}
use bashpp.Listener.Steps.{
  asserting, refusing, in_code_entity, popping, on_code_entity, write, write_around,
}
use bashpp.Listener.Expressions.{is_object_reference}
use bashpp.Listener.References.{
  Reference, Target, a_method, a_primitive, an_object, resolve_here, reference_message, class_name,
  target_of, is_object_assignment, is_found_class, dereferenced, wants_primitive, surround,
  call_method, set_object, takes_code,
}

-- `indirection_level--` on a `uint8_t`
abbrev less : ℕ → ℕ
less level = (level + 255) % 256

abbrev index_of_reference : Kind → Text
index_of_reference (object_reference index) = index
index_of_reference _ = []

-- What holds the value: its variable, how often it is dereferenced, and the entity with the code for it.
pub record Place : Type 0 where
  pub code : Text
  pub level : ℕ
  pub entity : Entity

-- An array index is read through temporary variables.
unfoldable pub indexed : Reference → Text → Bool → Bool → EntityReference → Entity → Place
indexed q index declare_local first_object_is_pointer r e =
    let level = indirection_level r in
    let code = r.reference_code.code in
    let counting = if q.has_hashkey then lit "#" else [] in
    let local_decl = if declare_local then lit "local " else [] in
    let indirection = if r.created_second_temporary_variable then lit "!" else [] in
    let dereference = (first_object_is_pointer || q.self_reference) || leb 2 level in
    let in_string = code ++ lit "____arrayIndexString" in
    let value : Text =
      if dereference
      then concat (counting ∷ lit "${" ∷ code ∷ lit "}" ∷ index ∷ [])
      else if q.lvalue
      then concat (counting ∷ code ∷ index ∷ [])
      else concat (lit "${" ∷ counting ∷ indirection ∷ code ∷ index ∷ lit "}" ∷ []) in
    let level' = if not dereference && q.lvalue then 2 else level in
    let read =
      surround (concat (local_decl ∷ in_string ∷ lit "=" ∷ value ∷ lit "\n" ∷ []))
        (concat (lit "unset " ∷ in_string ∷ lit "\n" ∷ [])) e in
    let plain = concat (lit "${" ∷ in_string ∷ lit "}" ∷ []) in
    let again : Text =
      if q.has_hashkey then concat (lit "\\${" ∷ plain ∷ lit "}" ∷ []) else plain in
    let in_index = code ++ lit "____arrayIndex" in
    let evaluated =
      surround (concat (lit "eval " ∷ local_decl ∷ in_index ∷ lit "=\"" ∷ again ∷ lit "\"\n" ∷ []))
        (concat (lit "unset " ∷ in_index ∷ lit "\n" ∷ [])) read in
    record {
      code = if dereference then in_index else in_string;
      level = if q.has_hashkey && leb 2 level' then less level' else level';
      entity = if dereference then evaluated else read;
    }

-- The first identifier alone is a pointer.
unfoldable pub first_is_pointer : Reference → Listener → Bool
first_is_pointer q l = elim (resolve_here q.first [] l) [
  | unresolved err ↦ false
  | resolved r ↦ elim r.entity [ found_object o ↦ o.pointer | _ ↦ false ]
]

unfoldable pub place : Reference → EntityReference → Entity → Listener → Place
place q r e l =
    let index = index_of_reference e.kind in
    if is_empty index
    then record { code = r.reference_code.code; level = indirection_level r; entity = e }
    else indexed q index (should_declare_local l) (first_is_pointer q l) r e

unfoldable pub set_lvalue : Text → Kind → Kind
set_lvalue code (object_assignment a) =
    object_assignment (record a { lvalue = code; lvalue_nonprimitive = false })
set_lvalue code k = k

-- The end of the handler: the entity's code goes to the one on top.
abbrev pub hand_over : Entity → Listener → Outcome
hand_over e l = done (write (get_code e) (write_around (get_pre_code e) (get_post_code e) l))

-- A primitive or a pointer: its value, or what is assigned to.
unfoldable pub refer_to_value : Reference → EntityReference → Entity → Listener → Outcome
refer_to_value q r e l =
    let p = place q r e l in
    let level = if q.object_address then less p.level else p.level in
    let encased : Text =
      get_encased_ref p.code (if is_object_assignment (top l).kind then less level else level) in
    hand_over (add_code encased true p.entity) (update_top (on_kind (set_lvalue encased)) l)

-- An object that is no pointer: accepted by the entity on top, or its address.
unfoldable pub refer_to_object : Reference → EntityReference → Object → Entity → Listener → Outcome
refer_to_object q r o e l =
    if q.object_address
    then hand_over (add_code o.address true e) l
    else (let code = r.reference_code.code in
        hand_over (if takes_code (top l).kind then add_code code true e else e)
          (update_top (on_kind (set_object o code)) l))

-- A pointer is set in a delete statement; otherwise it is a value.
abbrev pub note_pointer : Bool → Object → Text → Listener → Listener
note_pointer object_address o code l =
    if object_address then l else update_top (on_kind (set_object o code)) l

unfoldable pub refer : Reference → EntityReference → Target → Entity → Listener → Outcome
refer q r (a_method m) e l = elim (call_method q r m l.store e l.program) [
  | none ↦
      failed
        (internal_error (
          concat (
            lit "Method "
            ∷ (l.store.method m).name
            ∷ lit " not found in class "
            ∷ class_name r.class_containing_the_method l.store
            ∷ [])))
        l
  | some (called, p) ↦ hand_over called (record l { program = p })
]
refer q r a_primitive e l = refer_to_value q r e l
refer q r (an_object o) e l =
    if o.pointer
    then refer_to_value q r e (note_pointer q.object_address o r.reference_code.code l)
    else refer_to_object q r o e l

-- Behind the choice of the target: the code that resolves it, and its own.
abbrev refer_around : Reference → EntityReference → Target → Entity → Listener → Outcome
refer_around q r t e l =
    refer q r t (surround r.reference_code.pre_code r.reference_code.post_code e) l

-- Every class has the method that gives an object as a primitive.
unfoldable pub no_to_primitive : Listener → Outcome
no_to_primitive l = elim (top l).containing_class [
  | none ↦ failed undefined_behaviour l
  | some c ↦
      failed
        (internal_error
          (lit "toPrimitive method not found for class " ++ (l.store.class_at c).name))
        l
]

unfoldable pub method_of : Referenced → Option ℕ
method_of (found_method m) = some m
method_of _ = none

unfoldable pub refer_to_method :
    Reference → EntityReference → Option ℕ → Entity → Listener → Outcome
refer_to_method q r none e l = no_to_primitive l
refer_to_method q r (some m) e l = refer_around q r (a_method m) e l

unfoldable pub resolve_primitive : Reference → Listener → Resolution EntityReference
resolve_primitive q l = resolve_here q.first (q.ids ++ to_primitive ∷ []) l

unfoldable pub refer_to_primitive : Reference → Entity → Listener → Outcome
refer_to_primitive q e l = elim (resolve_primitive q l) [
  | unresolved err ↦ no_to_primitive l
  | resolved r ↦ refer_to_method q r (method_of r.entity) e l
]

unfoldable pub enter_object_reference : Listener → Outcome
enter_object_reference l =
    in_code_entity (lit "Object reference outside of code entity") l
      (done (push (new_entity (object_reference []) l) l))

abbrev is_nowhere : Option ℕ → Bool
is_nowhere none = true
is_nowhere (some c) = false

-- The choice of what the reference stands for.
unfoldable pub resolve_and_refer : Reference → Entity → Listener → Outcome
resolve_and_refer q e l = elim (resolve_here q.first q.ids l) [
  | unresolved err ↦
      failed
        (syntax_error (reference_message q.first (class_name (top l).containing_class l.store) err))
        l
  | resolved r ↦ elim (target_of l.store q.self_reference r.entity) [
    | none ↦
        failed (internal_error (lit "Referenced entity is not an object, datamember or method")) l
    | some found ↦
        refusing (is_found_class r.entity && is_object_assignment (top l).kind)
          (lit "Cannot assign to '@this'") l
          (let t = dereferenced q.pointer_dereference found in
            let x = expectations l.context_expectations_stack in
            if wants_primitive q.object_address x.can_take_object t
            then refer_to_primitive q e l
            else refer_around q r t e l)
  ]
]

unfoldable pub exit_object_reference : Reference → Listener → Outcome
exit_object_reference q l =
    popping is_object_reference (lit "Object reference context was not found in the entity stack") l
      λ e l'. on_code_entity (lit "Current code entity was not found in the entity stack") l' (
        asserting (not (q.pointer_dereference && q.object_address))
          (lit "Detected simultaneous pointer dereference and object address") l'
          (refusing (q.self_reference && is_nowhere (top l').containing_class)
            (lit "Self-reference outside of a class context") l' (resolve_and_refer q e l')))
