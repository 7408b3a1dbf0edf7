-- ===== src/Listener/Methods.antt =====
-- src/listener/handlers/MethodDefinition.cpp, with
-- `add_parameter` and `add_object_as_parameter` of src/bpp_include/bpp_method.cpp. A method's code stands
-- in its entity until the method is left, and then in the store.
pub mod Lifetime
use bashpp.Prelude.{
  ℕ, suc, Bool, true, false, not, ◌&&◌, ◌||◌, List, [], ◌∷◌, ◌++◌, Option, none, some,
  if◌then◌else◌, last, Text, lit, concat, contains, same_text, mem_text,
}
use bashpp.EntityMap.{FilePosition}
use bashpp.Entities.{is_valid_identifier, find, get_object, get_class}
use bashpp.Classes.Store.{Scope, Method, scope_public, write_method, modify_method, set_virtual}
use bashpp.Classes.Members.{add_method, find_method, methods_of, is_public, to_primitive}
use bashpp.Codegen.Segments.{
  full_code, generate_dynamic_cast_code, generate_constructor_call_code,
  generate_destructor_call_code,
}
use bashpp.Listener.{
  Listener, Entity, Kind, Object, Outcome, method_entity, done, failed, syntax_error,
  undefined_behaviour, top, push, is_class_entity, named_objects,
}
use bashpp.Listener.Entities.{
  add_code, add_code_to_previous_line, add_code_to_next_line, flush_entity,
}
use bashpp.Listener.Steps.{asserting, refusing, popping, destruct_local_objects, mark_entity}
use bashpp.Listener.Expressions.{refer_to_class}
use bashpp.Listener.Classes.{program_child, class_number, invalid_name}

-- A parameter as it is written: `type` is the name of its class.
pub record Parameter : Type 0 where
  pub name : Text
  pub type : Option Text
  pub pointer : Bool
  pub position : FilePosition

-- A name that the method sees: its own parameters and the program's objects.
abbrev sees_object : Text → Entity → Listener → Bool
sees_object name e l =
    elim (get_object name (record {
      local_objects = named_objects e.local_objects;
      parents = (named_objects l.program_objects, e.known) ∷ [];
    })) [ none ↦ false | some o ↦ true ]

abbrev sees_class : Text → Entity → Listener → Bool
sees_class name e l = elim (get_class name e.known_classes l.classes) [
  | none ↦ false
  | some c ↦ true
]

-- The three checks of `add_object_as_parameter`.
abbrev pub object_is_refused : Text → ℕ → Entity → Listener → Bool
object_is_refused name c e l =
    let class_name = (l.store.class_at c).name in
    let own : Text = elim e.containing_class [ none ↦ [] | some k ↦ (l.store.class_at k).name ] in
    sees_object name e l
    || (sees_class name e l || not (sees_class class_name e l || same_text class_name own))

-- `add_parameter` of the method `m` with the entity `e`, and whether it was added.
unfoldable pub add_parameter : Text → Option ℕ → ℕ → Entity → Listener → (Entity × Listener) × Bool
add_parameter name type m e l =
    let push_parameter : Listener = record l {
      store = modify_method (λ v. record v { parameters = v.parameters ++ name ∷ [] }) m l.store;
    } in
    if mem_text name (l.store.method m).parameters then ((e, l), false) else elim type [
      | none ↦ ((e, push_parameter), true)
      | some c ↦
          let o : Object = record {
            named = record { name = name; id = c };
            address = name;
            class = c;
            pointer = true;
            assignment_value = [];
            pre_access_code = [];
            post_access_code = [];
          } in
          if object_is_refused name c e l
          then ((e, l), false)
          else ((record e { local_objects = e.local_objects ++ o ∷ [] }, push_parameter), true)
    ]

-- The implicit cast of an argument to the parameter's class.
abbrev pub cast_argument : Text → ℕ → Entity → Listener → Entity × Listener
cast_argument name c e l =
    let (segment, p) = generate_dynamic_cast_code name (l.store.class_at c).name l.program in
    let line = concat (name ∷ lit "=" ∷ segment.code ∷ lit "\n" ∷ []) in
    (
      add_code line true
          (add_code_to_next_line segment.post_code (add_code_to_previous_line segment.pre_code e)),
      record l { program = p },
    )

-- Why a parameter was not added.
abbrev parameter_conflict : Text → Option ℕ → Entity → Listener → Text
parameter_conflict name type e l = elim type [
  | none ↦ lit "Duplicate parameter: " ++ name
  | some c ↦
      if sees_object name e l
      then lit "Parameter name conflicts with existing object: " ++ name
      else if sees_class name e l
      then lit "Parameter name conflicts with existing class: " ++ name
      else lit "Duplicate parameter: " ++ name
]

abbrev pub place_parameter :
    Text → Option ℕ → ℕ → Entity → Listener → (Entity → Listener → Outcome) → Outcome
place_parameter name type m e l k =
    let ((e', l'), added) = add_parameter name type m e l in
    refusing (not added) (parameter_conflict name type e' l') l' (k e' l')

-- The loop over the parameters; the method's entity is not on the stack yet.
unfoldable pub add_parameters :
    List Parameter → ℕ → Entity → Listener → (Entity → Listener → Outcome) → Outcome
add_parameters [] m e l k = k e l
add_parameters (q ∷ qs) m e l k =
    let rest : Entity → Listener → Outcome = λ e' l'. add_parameters qs m e' l' k in
    elim q.type [
      | none ↦ place_parameter q.name none m e l rest
      | some type_name ↦ elim (find type_name none l.classes) [
        | none ↦ failed (syntax_error (lit "Unknown class: " ++ type_name)) l
        | some c ↦
            let l1 = refer_to_class c q.position l in
            refusing (not q.pointer)
              (lit "Methods can only accept pointers as parameters, not objects") l1
              (refusing (not (is_valid_identifier q.name)) (invalid_name (lit "parameter") q.name)
                l1
                (let (e', l2) = cast_argument q.name c.id e l1 in
                  place_parameter q.name (some c.id) m e' l2 rest))
      ]
    ]

-- A new method object at the next address.
abbrev pub new_method : Text → Scope → FilePosition → ℕ → Listener → Method
new_method name scope position c l = record {
  name = name;
  scope = scope;
  virtual = false;
  overridable = false;
  inherited = false;
  last_override = [];
  containing_class = some c;
  overridden_method = none;
  initial_definition = record {
    file = l.source_file;
    line = position.line;
    column = position.column;
  };
  references = [];
  code = [];
  parameters = [];
}

abbrev pub store_method : Method → Listener → Listener
store_method v l = record l {
  store = record (write_method l.store l.store.next_method v) {
    next_method = suc l.store.next_method;
  };
}

-- The method is added to the class before its parameters are looked at.
unfoldable pub enter_method_definition :
    Text → FilePosition → Scope → Bool → List Parameter → Listener → Outcome
enter_method_definition name position scope virtual parameters l =
    refusing (not (is_class_entity (top l).kind)) (lit "Method definition outside of class body") l
      (let c = class_number (top l).kind in
        let m = l.store.next_method in
        let plain = new_method name scope position c l in
        let v = if virtual then set_virtual true plain else plain in
        refusing (same_text name to_primitive && not (is_public scope))
          (lit "toPrimitive method must be public") l
          (refusing (contains (lit "__") name)
            (concat (
              lit "Invalid method name: "
              ∷ name
              ∷ lit "\nBash++ identifiers cannot contain double underscores"
              ∷ []))
            l
            (let l1 = store_method v l in
              let (s, added) = add_method c m l1.store in
              let l2 = record l1 { store = s } in
              refusing (not added) (lit "Method redefinition: " ++ name) l2 (
                add_parameters parameters m (program_child (method_entity m) c position l2) l2
                  λ e l3. done (push e (record l3 { in_method = true }))))))

abbrev pub is_method_entity : Kind → Bool
is_method_entity (method_entity m) = true
is_method_entity _ = false

abbrev pub method_number : Kind → ℕ
method_number (method_entity m) = m
method_number _ = 0

-- The flushed buffers of the entity are the method's code.
abbrev pub store_code : ℕ → Entity → Listener → Listener
store_code m e l = record l {
  store = modify_method (λ v. record v { code = e.buffers.code }) m l.store;
}

-- Without a method on top, a null pointer is followed after the pop.
unfoldable pub exit_method_definition : FilePosition → Listener → Outcome
exit_method_definition end l = elim l.stack [
  | [] ↦ failed undefined_behaviour l
  | e ∷ rest ↦
      if is_method_entity e.kind
      then (destruct_local_objects e (record l { stack = rest })
          λ e' l'.
            let body = flush_entity e' in
            let stored = store_code (method_number e.kind) body l' in
            done (mark_entity end body (record stored { in_method = false })))
      else failed undefined_behaviour l
]
