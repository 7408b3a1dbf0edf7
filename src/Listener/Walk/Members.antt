-- ===== src/Listener/Walk/Members.antt =====
-- What the handlers of classes and their members do to the entity stack.
use bashpp.Prelude.{
  ℕ, Bool, true, List, [], ◌∷◌, Option, none, some, ◌≡◌, refl, ◌∙◌, ap, Text, lit, last, mem_text,
  Bool-cases, Option-cases, inl, inr,
}
use bashpp.EntityMap.{FilePosition}
use bashpp.Entities.{find}
use bashpp.Classes.Store.{Scope}
use bashpp.Classes.Members.{find_method, methods_of}
use bashpp.Listener.{Listener, Entity, Outcome, top}
use bashpp.Listener.Expressions.{refer_to_class}
use bashpp.Listener.Classes.{
  enter_class_definition, inherit_parent, enter_datamember_declaration, class_number,
}
use bashpp.Listener.Methods.{
  Parameter, object_is_refused, cast_argument, add_parameter, add_parameters, place_parameter,
  enter_method_definition,
}
use bashpp.Listener.Methods.Lifetime.{call_parent_constructor, enter_constructor_definition}
use bashpp.Listener.Walk.Stack.{
  shape, shapes, Leaves, refusing-Leaves, add_code-KeepsShape, add_previous-KeepsShape,
  add_next-KeepsShape,
}

inherit_parent-Leaves :
    (c : ℕ) (parent : Option (Text × FilePosition)) (e : Entity) (l : Listener) (before : List ℕ)
    → shape e.kind ≡ 1
    → shapes l ≡ before
    → Leaves (1 ∷ before) before (inherit_parent c parent e l)
unfolding inherit_parent Leaves
inherit_parent-Leaves c none e l before x s = ap (λ k. k ∷ shapes l) x ∙ ap (λ ks. 1 ∷ ks) s
inherit_parent-Leaves c (some (name, p)) e l before x s =
    elim (Option-cases (find name none l.classes)) [
      | inl n ↦ rw (n, Leaves) s
      | inr (parent, n) ↦ rw (n, Leaves) (ap (λ k. k ∷ shapes l) x ∙ ap (λ ks. 1 ∷ ks) s)
    ]

pub class-Leaves :
    (name : Text) (position : FilePosition) (parent : Option (Text × FilePosition)) (l : Listener)
    → Leaves (1 ∷ shapes l) (shapes l) (enter_class_definition name position parent l)
unfolding enter_class_definition shape
class-Leaves name position parent l = refusing-Leaves _ _ _ _ _ _ refl (
    refusing-Leaves _ _ _ _ _ _ refl
      (refusing-Leaves _ _ _ _ _ _ refl (inherit_parent-Leaves _ parent _ _ _ refl refl)))

-- The method's entity stays a method, and the stack what it is.
abbrev SameStack : Entity → Listener → (Entity × Listener) × Bool → Type 0
SameStack e l ((e', l'), added) = (shape e'.kind ≡ shape e.kind) × (shapes l' ≡ shapes l)

add_parameter-SameStack :
    (name : Text) (type : Option ℕ) (m : ℕ) (e : Entity) (l : Listener)
    → SameStack e l (add_parameter name type m e l)
unfolding add_parameter
add_parameter-SameStack name none m e l =
    elim (Bool-cases (mem_text name (l.store.method m).parameters)) [
      | inl t ↦ rw t (refl, refl)
      | inr t ↦ rw t (refl, refl)
    ]
add_parameter-SameStack name (some c) m e l =
    elim (Bool-cases (mem_text name (l.store.method m).parameters)) [
      | inl t ↦ rw t (refl, refl)
      | inr t ↦ rw t (elim (Bool-cases (object_is_refused name c e l)) [
        | inl u ↦ rw u (refl, refl)
        | inr u ↦ rw u (refl, refl)
      ])
    ]

-- What a handler does behind the method's parameters.
abbrev Continues : List ℕ → List ℕ → (Entity → Listener → Outcome) → Type 0
Continues after before k =
    (e : Entity) (l : Listener) → shape e.kind ≡ 9 → shapes l ≡ before → Leaves after before (k e l)

cast_argument-shape :
    (name : Text) (c : ℕ) (e : Entity) (l : Listener)
    → shape (cast_argument name c e l).0.kind ≡ shape e.kind
cast_argument-shape name c e l =
    add_code-KeepsShape _ true _ ∙ add_next-KeepsShape _ _ ∙ add_previous-KeepsShape _ e

place_parameter-Leaves :
    (name : Text) (type : Option ℕ) (m : ℕ) (e : Entity) (l : Listener)
    (k : Entity → Listener → Outcome) (after before : List ℕ)
    → shape e.kind ≡ 9
    → shapes l ≡ before
    → Continues after before k
    → Leaves after before (place_parameter name type m e l k)
place_parameter-Leaves name type m e l k after before x s cont =
    let (x', s') = add_parameter-SameStack name type m e l in
    refusing-Leaves _ _ _ _ _ _ (s' ∙ s) (cont _ _ (x' ∙ x) (s' ∙ s))

add_parameters-Leaves :
    (qs : List Parameter) (m : ℕ) (e : Entity) (l : Listener) (k : Entity → Listener → Outcome)
    (after before : List ℕ)
    → shape e.kind ≡ 9
    → shapes l ≡ before
    → Continues after before k
    → Leaves after before (add_parameters qs m e l k)
unfolding add_parameters Leaves
add_parameters-Leaves [] m e l k after before x s cont = cont e l x s
add_parameters-Leaves (q ∷ qs) m e l k after before x s cont =
    let rest : Continues after before (λ e' l'. add_parameters qs m e' l' k) =
      λ e' l' x' s'. add_parameters-Leaves qs m e' l' k after before x' s' cont in
    elim (Option-cases q.type) [
      | inl t ↦ rw (t, Leaves) (place_parameter-Leaves _ _ _ _ _ _ _ _ x s rest)
      | inr (type_name, t) ↦
          rw (t, Leaves)
            (elim (Option-cases (find type_name none l.classes)) [
              | inl n ↦ rw (n, Leaves) s
              | inr (c, n) ↦
                  let l1 = refer_to_class c q.position l in
                  let cast = cast_argument q.name c.id e l1 in
                  rw (n, Leaves)
                    (refusing-Leaves _ _ _ _ after before s (
                      refusing-Leaves _ _ _ _ after before s (
                        place_parameter-Leaves q.name (some c.id) m cast.0 cast.1 _ after before
                          (cast_argument-shape q.name c.id e l1 ∙ x) s rest)))
            ])
    ]

pub method-Leaves :
    (name : Text) (position : FilePosition) (scope : Scope) (virtual : Bool)
    (parameters : List Parameter) (l : Listener)
    → Leaves
        (9 ∷ shapes l)
        (shapes l)
        (enter_method_definition name position scope virtual parameters l)
unfolding enter_method_definition Leaves shape
method-Leaves name position scope virtual parameters l = refusing-Leaves _ _ _ _ _ _ refl (
    refusing-Leaves _ _ _ _ _ _ refl (
      refusing-Leaves _ _ _ _ _ _ refl (
        refusing-Leaves _ _ _ _ _ _ refl (
          add_parameters-Leaves parameters _ _ _ _ _ _ refl refl
            λ e l' x s. ap (λ k. k ∷ shapes l') x ∙ ap (λ ks. 9 ∷ ks) s))))

parent_constructor-shape :
    (c : ℕ) (e : Entity) (l : Listener) → shape (call_parent_constructor c e l).kind ≡ shape e.kind
parent_constructor-shape c e l = elim (Option-cases (last (l.store.class_at c).parents)) [
  | inl t ↦ rw (t, call_parent_constructor) refl
  | inr (p, t) ↦
      elim (Option-cases (find_method l.store (lit "__constructor") (methods_of l.store p))) [
        | inl n ↦ rw (t, call_parent_constructor) (rw n refl)
        | inr (k, n) ↦ rw (t, call_parent_constructor) (rw n (add_code-KeepsShape _ true e))
      ]
]

pub constructor-Leaves :
    (begin : FilePosition) (l : Listener)
    → Leaves (9 ∷ shapes l) (shapes l) (enter_constructor_definition begin l)
unfolding enter_constructor_definition Leaves shape
constructor-Leaves begin l =
    refusing-Leaves _ _ _ _ _ _ refl
      (ap (λ k. k ∷ shapes l) (parent_constructor-shape (class_number (top l).kind) _ l))

pub datamember-Leaves :
    (scope : Scope) (identifier : Option (Text × FilePosition)) (l : Listener)
    → Leaves (3 ∷ shapes l) (shapes l) (enter_datamember_declaration scope identifier l)
unfolding enter_datamember_declaration Leaves shape
datamember-Leaves scope none l = refusing-Leaves _ _ _ _ _ _ refl refl
datamember-Leaves scope (some (name, p)) l =
    refusing-Leaves _ _ _ _ _ _ refl (refusing-Leaves _ _ _ _ _ _ refl refl)
