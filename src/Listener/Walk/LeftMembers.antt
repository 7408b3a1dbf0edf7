-- ===== src/Listener/Walk/LeftMembers.antt =====
-- What the handlers that leave a class or a member do to the entity stack.
use bashpp.Prelude.{
  ℕ, List, [], ◌∷◌, Option, ◌≡◌, refl, sym, ◌∙◌, ap, Text, lit, last, Bool-cases, Option-cases, inl,
  inr,
}
use bashpp.EntityMap.{FilePosition}
use bashpp.Classes.Store.{Store, Method}
use bashpp.Classes.Members.{find_method, methods_of}
use bashpp.Codegen.Program.{Program}
use bashpp.Codegen.SystemMethods.{generate_new_method}
use bashpp.Codegen.SystemMethods.Copy.{generate_copy_method}
use bashpp.Codegen.SystemMethods.Delete.{generate_delete_method}
use bashpp.Listener.{Listener, Entity, Outcome, top, is_class_entity}
use bashpp.Listener.Classes.{
  exit_class_definition, exit_datamember_declaration, generating, class_number, add_generated,
}
use bashpp.Listener.Methods.{is_method_entity, exit_method_definition}
use bashpp.Listener.Methods.Lifetime.{
  call_parent_destructor, exit_constructor_definition, exit_destructor_definition, add_left_method,
}
use bashpp.Listener.Walk.Stack.{
  shape, shapes, shapes_of, Leaves, Keeps, popping-Keeps, asserting-Leaves, refusing-Leaves,
  destruct-Keeps, mark-shapes,
}

generating-Keeps :
    (generate : Store → ℕ → Program → Option (Method × Program)) (c : ℕ) (message : Text)
    (l : Listener) (k : Listener → Outcome) (ks : List ℕ)
    → shapes l ≡ ks
    → ((l' : Listener) → shapes l' ≡ ks → Keeps ks (k l'))
    → Keeps ks (generating generate c message l k)
unfolding generating Leaves
generating-Keeps generate c message l k ks s cont =
    elim (Option-cases (generate l.store c l.program)) [
      | inl h ↦ rw (h, Leaves) tt
      | inr ((m, p), h) ↦
          rw (h, Leaves) (cont (record l { program = p; store = add_generated c m l.store }) s)
    ]

pub exit_class-Keeps :
    (end : FilePosition) (l : Listener) (ks : List ℕ)
    → shapes l ≡ 1 ∷ ks
    → Keeps ks (exit_class_definition end l)
unfolding exit_class_definition Leaves
exit_class-Keeps end l ks s = popping-Keeps _ _ _ _ s λ e l1 x s1.
    let message = lit "Method not found" in
    generating-Keeps generate_copy_method (class_number e.kind) message l1 _ ks s1 λ l2 s2.
      generating-Keeps generate_new_method (class_number e.kind) message l2 _ ks s2 λ l3 s3.
        generating-Keeps generate_delete_method (class_number e.kind) message l3 _ ks s3
          λ l4 s4. mark-shapes _ _ _ ∙ s4

pub exit_datamember-Keeps :
    (l : Listener) (ks : List ℕ) → shapes l ≡ 3 ∷ ks → Keeps ks (exit_datamember_declaration l)
unfolding exit_datamember_declaration Leaves
exit_datamember-Keeps l ks s = popping-Keeps _ _ _ _ s λ e l1 x s1.
    elim (Bool-cases (is_class_entity (top l1).kind)) [
      | inl t ↦ rw t (refusing-Leaves _ _ _ _ _ _ s1 s1)
      | inr t ↦ rw t tt
    ]

add_left-Keeps :
    (m : ℕ) (message : Text) (l : Listener) (ks : List ℕ)
    → shapes l ≡ ks
    → Keeps ks (add_left_method m message l)
unfolding Leaves
add_left-Keeps m message l ks s = refusing-Leaves _ _ _ _ ks ks s s

method_stack :
    (end : FilePosition) (l : Listener) (ks : List ℕ) (es : List Entity)
    → l.stack ≡ es
    → shapes l ≡ 9 ∷ ks
    → Keeps ks (exit_method_definition end l)
unfolding exit_method_definition Leaves
method_stack end l ks [] h s = rw h tt
method_stack end l ks (e ∷ es) h s = rw h (elim (Bool-cases (is_method_entity e.kind)) [
  | inl t ↦
      let both : shape e.kind ∷ shapes_of es ≡ 9 ∷ ks = ap shapes_of (sym h) ∙ s in
      rw t (destruct-Keeps _ (record l { stack = es }) _ ks (cc) λ e' l' s'. mark-shapes _ _ _ ∙ s')
  | inr t ↦ rw t tt
])

pub exit_method-Keeps :
    (end : FilePosition) (l : Listener) (ks : List ℕ)
    → shapes l ≡ 9 ∷ ks
    → Keeps ks (exit_method_definition end l)
exit_method-Keeps end l ks s = method_stack end l ks l.stack refl s

pub exit_constructor-Keeps :
    (end : FilePosition) (l : Listener) (ks : List ℕ)
    → shapes l ≡ 9 ∷ ks
    → Keeps ks (exit_constructor_definition end l)
unfolding exit_constructor_definition
exit_constructor-Keeps end l ks s = popping-Keeps _ _ _ _ s λ e l1 x s1.
    destruct-Keeps _ _ _ _ s1
      λ e' l2 s2. asserting-Leaves _ _ _ _ _ _ (add_left-Keeps _ _ _ _ (mark-shapes _ _ _ ∙ s2))

destructor_call-shapes :
    (c : ℕ) (e : Entity) (l : Listener) → shapes (call_parent_destructor c e l).1 ≡ shapes l
destructor_call-shapes c e l = elim (Option-cases (last (l.store.class_at c).parents)) [
  | inl t ↦ rw (t, call_parent_destructor) refl
  | inr (p, t) ↦
      elim (Option-cases (find_method l.store (lit "__destructor") (methods_of l.store p))) [
        | inl n ↦ rw (t, call_parent_destructor) (rw n refl)
        | inr (k, n) ↦ rw (t, call_parent_destructor) (rw n refl)
      ]
]

pub exit_destructor-Keeps :
    (end : FilePosition) (l : Listener) (ks : List ℕ)
    → shapes l ≡ 9 ∷ ks
    → Keeps ks (exit_destructor_definition end l)
unfolding exit_destructor_definition
exit_destructor-Keeps end l ks s = popping-Keeps _ _ _ _ s λ e l1 x s1.
    destruct-Keeps _ _ _ _ s1 λ e' l2 s2.
      asserting-Leaves _ _ _ _ _ _
        (add_left-Keeps _ _ _ _ (mark-shapes _ _ _ ∙ destructor_call-shapes _ e' l2 ∙ s2))
