-- ===== src/Listener/Methods/Lifetime.antt =====
-- src/listener/handlers/ConstructorDefinition.cpp and DestructorDefinition.cpp.
use bashpp.Prelude.{ℕ, true, not, ◌++◌, none, some, last, Text, lit}
use bashpp.EntityMap.{FilePosition}
use bashpp.Classes.Store.{scope_public, set_virtual}
use bashpp.Classes.Members.{add_method, find_method, methods_of}
use bashpp.Codegen.Segments.{
  full_code, generate_constructor_call_code, generate_destructor_call_code,
}
use bashpp.Listener.{Listener, Entity, Outcome, method_entity, done, top, push, is_class_entity}
use bashpp.Listener.Entities.{add_code, flush_entity}
use bashpp.Listener.Steps.{asserting, refusing, popping, destruct_local_objects, mark_entity}
use bashpp.Listener.Classes.{program_child, class_number}
use bashpp.Listener.Methods.{new_method, store_method, method_number, store_code, is_method_entity}

-- The call of the parent class's constructor, if it has one.
abbrev pub call_parent_constructor : ℕ → Entity → Listener → Entity
call_parent_constructor c e l = elim (last (l.store.class_at c).parents) [
  | none ↦ e
  | some parent ↦ elim (find_method l.store (lit "__constructor") (methods_of l.store parent)) [
    | none ↦ e
    | some k ↦
        add_code
          (full_code (generate_constructor_call_code l.store (lit "${__this}") parent) ++ lit "\n")
          true e
  ]
]

unfoldable pub enter_constructor_definition : FilePosition → Listener → Outcome
enter_constructor_definition position l =
    refusing (not (is_class_entity (top l).kind)) (lit "Constructor definition outside of class") l
      (let c = class_number (top l).kind in
        let m = l.store.next_method in
        let v = record (new_method (lit "__constructor") scope_public position c l) {
          overridable = true;
        } in
        let e = program_child (method_entity m) c position l in
        done (push (call_parent_constructor c e l) (store_method v l)))

-- `add_method` for the method that has just been left; the class is on top.
abbrev pub add_left_method : ℕ → Text → Listener → Outcome
add_left_method m message l =
    let (s, added) = add_method (class_number (top l).kind) m l.store in
    let l' = record l { store = s } in refusing (not added) message l' (done l')

unfoldable pub exit_constructor_definition : FilePosition → Listener → Outcome
exit_constructor_definition end l =
    popping is_method_entity (lit "Constructor definition not found on the entity stack") l λ e l1.
      destruct_local_objects e l1 λ e' l2.
        asserting (is_class_entity (top l2).kind) (lit "Class not found on the entity stack") l2 (
          let body = flush_entity e' in
          let m = method_number e.kind in
          add_left_method m (lit "Constructor already defined")
            (mark_entity end body (store_code m body l2)))

unfoldable pub enter_destructor_definition : FilePosition → Listener → Outcome
enter_destructor_definition position l =
    refusing (not (is_class_entity (top l).kind)) (lit "Destructor definition outside of class") l (
      let c = class_number (top l).kind in
      let m = l.store.next_method in
      let v = set_virtual true (new_method (lit "__destructor") scope_public position c l) in
      done (push (program_child (method_entity m) c position l) (store_method v l)))

-- The call of the parent class's destructor, if it has one, and the listener afterwards.
abbrev pub call_parent_destructor : ℕ → Entity → Listener → Entity × Listener
call_parent_destructor c e l = elim (last (l.store.class_at c).parents) [
  | none ↦ (e, l)
  | some parent ↦ elim (find_method l.store (lit "__destructor") (methods_of l.store parent)) [
    | none ↦ (e, l)
    | some k ↦
        let (segment, p) =
          generate_destructor_call_code l.store (lit "${__this}") parent true l.program in
        (add_code (full_code segment ++ lit "\n") true e, record l { program = p })
  ]
]

abbrev containing_number : Entity → ℕ
containing_number e = elim e.containing_class [ none ↦ 0 | some c ↦ c ]

unfoldable pub exit_destructor_definition : FilePosition → Listener → Outcome
exit_destructor_definition end l =
    popping is_method_entity (lit "Destructor definition not found on the entity stack") l λ e l1.
      destruct_local_objects e l1 λ e' l2.
        let (called, l3) = call_parent_destructor (containing_number e) e' l2 in
        asserting (is_class_entity (top l3).kind) (lit "Class not found on the entity stack") l3 (
          let body = flush_entity called in
          let m = method_number e.kind in
          add_left_method m (lit "Destructor already defined")
            (mark_entity end body (store_code m body l3)))
