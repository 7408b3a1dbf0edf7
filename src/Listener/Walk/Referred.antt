-- ===== src/Listener/Walk/Referred.antt =====
-- What the handler that leaves a reference does to the entity stack.
use bashpp.Prelude.{
  ℕ, Bool, true, false, List, ◌∷◌, Option, none, some, ◌≡◌, refl, ◌∙◌, Text, Bool-cases,
  Option-cases, inl, inr, ◌⊎◌, if◌then◌else◌,
}
use bashpp.Codegen.Resolve.{
  EntityReference, ReferenceError, Resolution, resolved, failed as unresolved,
}
use bashpp.Listener.{
  Listener, Entity, Object, Outcome, top, delete_statement, object_assignment, value_assignment,
  expectations, new_entity,
}
use bashpp.Listener.References.{
  Reference, Target, a_method, a_primitive, an_object, resolve_here, target_of, dereferenced,
  wants_primitive, call_method, set_object,
}
use bashpp.Listener.References.Exit.{
  enter_object_reference, set_lvalue, hand_over, refer_to_value, refer_to_object, note_pointer,
  refer, refer_to_primitive, no_to_primitive, refer_to_method, resolve_primitive, resolve_and_refer,
  exit_object_reference,
}
use bashpp.Listener.Walk.Stack.{
  shape, shapes, Leaves, Keeps, SameShape, popping-Keeps, refusing-Leaves, asserting-Leaves,
  on_code_entity-Keeps, in_code_entity-Leaves, on_kind-shapes, write-shapes, write_around-shapes,
}

set_lvalue-SameShape : (t : Text) → SameShape (set_lvalue t)
unfolding set_lvalue shape
set_lvalue-SameShape t (object_assignment a) = refl
set_lvalue-SameShape t _ = refl

set_object-SameShape : (o : Object) (t : Text) → SameShape (set_object o t)
unfolding set_object shape
set_object-SameShape o t (delete_statement old) = refl
set_object-SameShape o t (object_assignment a) = elim (Bool-cases o.pointer) [
  | inl h ↦ rw h refl
  | inr h ↦ rw h refl
]
set_object-SameShape o t (value_assignment v) = elim (Bool-cases o.pointer) [
  | inl h ↦ rw h refl
  | inr h ↦ rw h refl
]
set_object-SameShape o t _ = refl

hand_over-Keeps :
    (e : Entity) (l : Listener) (ks : List ℕ) → shapes l ≡ ks → Keeps ks (hand_over e l)
unfolding Leaves
hand_over-Keeps e l ks s = write-shapes _ true _ ∙ write_around-shapes _ _ l ∙ s

refer_to_value-Keeps :
    (q : Reference) (r : EntityReference) (e : Entity) (l : Listener) (ks : List ℕ)
    → shapes l ≡ ks
    → Keeps ks (refer_to_value q r e l)
unfolding refer_to_value
refer_to_value-Keeps q r e l ks s =
    hand_over-Keeps _ _ ks (on_kind-shapes _ l (set_lvalue-SameShape _) ∙ s)

refer_to_object-Keeps :
    (q : Reference) (r : EntityReference) (o : Object) (e : Entity) (l : Listener) (ks : List ℕ)
    → shapes l ≡ ks
    → Keeps ks (refer_to_object q r o e l)
unfolding refer_to_object
refer_to_object-Keeps q r o e l ks s = elim (Bool-cases q.object_address) [
  | inl t ↦ rw t (hand_over-Keeps _ l ks s)
  | inr t ↦ rw t (hand_over-Keeps _ _ ks (on_kind-shapes _ l (set_object-SameShape o _) ∙ s))
]

note_pointer-shapes :
    (b : Bool) (o : Object) (code : Text) (l : Listener)
    → shapes (note_pointer b o code l) ≡ shapes l
note_pointer-shapes true o code l = refl
note_pointer-shapes false o code l = on_kind-shapes _ l (set_object-SameShape o code)

if-Keeps :
    (b : Bool) (x y : Outcome) (ks : List ℕ)
    → Keeps ks x
    → Keeps ks y
    → Keeps ks (if b then x else y)
if-Keeps true x y ks hx hy = hx
if-Keeps false x y ks hx hy = hy

refer-Keeps :
    (q : Reference) (r : EntityReference) (t : Target) (e : Entity) (l : Listener) (ks : List ℕ)
    → shapes l ≡ ks
    → Keeps ks (refer q r t e l)
unfolding refer Leaves
refer-Keeps q r (a_method m) e l ks s =
    elim (Option-cases (call_method q r m l.store e l.program)) [
      | inl n ↦ rw (n, Leaves) tt
      | inr ((called, p), n) ↦
          rw (n, Leaves) (hand_over-Keeps called (record l { program = p }) ks s)
    ]
refer-Keeps q r a_primitive e l ks s = refer_to_value-Keeps q r e l ks s
refer-Keeps q r (an_object o) e l ks s =
    if-Keeps o.pointer _ _ ks
      (refer_to_value-Keeps q r e _ ks (note_pointer-shapes q.object_address o _ l ∙ s))
      (refer_to_object-Keeps q r o e l ks s)

missing-Keeps : (l : Listener) (ks : List ℕ) → Keeps ks (no_to_primitive l)
unfolding no_to_primitive Leaves
missing-Keeps l ks = elim (Option-cases (top l).containing_class) [
  | inl n ↦ rw (n, Leaves) tt
  | inr (c, n) ↦ rw (n, Leaves) tt
]

Resolution-cases :
    (x : Resolution EntityReference)
    → ((err : ReferenceError) × (x ≡ unresolved err)) ⊎ ((r : EntityReference) × (x ≡ resolved r))
Resolution-cases (unresolved err) = inl (err, refl)
Resolution-cases (resolved r) = inr (r, refl)

refer_to_method-Keeps :
    (q : Reference) (r : EntityReference) (x : Option ℕ) (e : Entity) (l : Listener) (ks : List ℕ)
    → shapes l ≡ ks
    → Keeps ks (refer_to_method q r x e l)
unfolding refer_to_method
refer_to_method-Keeps q r none e l ks s = missing-Keeps l ks
refer_to_method-Keeps q r (some m) e l ks s = refer-Keeps q r (a_method m) _ l ks s

refer_to_primitive-Keeps :
    (q : Reference) (e : Entity) (l : Listener) (ks : List ℕ)
    → shapes l ≡ ks
    → Keeps ks (refer_to_primitive q e l)
unfolding refer_to_primitive
refer_to_primitive-Keeps q e l ks s = elim (Resolution-cases (resolve_primitive q l)) [
  | inl (err, h) ↦ rw (h, refer_to_primitive) (missing-Keeps l ks)
  | inr (r, h) ↦ rw (h, refer_to_primitive) (refer_to_method-Keeps q r _ e l ks s)
]

resolve-Keeps :
    (q : Reference) (e : Entity) (l : Listener) (ks : List ℕ)
    → shapes l ≡ ks
    → Keeps ks (resolve_and_refer q e l)
unfolding resolve_and_refer Leaves
resolve-Keeps q e l ks s = elim (Resolution-cases (resolve_here q.first q.ids l)) [
  | inl (err, h) ↦ rw (h, Leaves) s
  | inr (r, h) ↦
      rw (h, Leaves)
        (elim (Option-cases (target_of l.store q.self_reference r.entity)) [
          | inl n ↦ rw (n, Leaves) tt
          | inr (found, n) ↦
              rw (n, Leaves)
                (let t = dereferenced q.pointer_dereference found in
                  refusing-Leaves _ _ _ _ ks ks s
                    (elim (Bool-cases (
                      wants_primitive q.object_address
                        (expectations l.context_expectations_stack).can_take_object t)) [
                          | inl u ↦ rw u (refer_to_primitive-Keeps q e l ks s)
                          | inr u ↦ rw u (refer-Keeps q r t _ l ks s)
                        ]))
        ])
]

pub exit_reference-Keeps :
    (q : Reference) (l : Listener) (ks : List ℕ)
    → shapes l ≡ 18 ∷ ks
    → Keeps ks (exit_object_reference q l)
unfolding exit_object_reference
exit_reference-Keeps q l ks s = popping-Keeps _ _ _ _ s λ e l' x s'.
    on_code_entity-Keeps _ _ _ _
      (asserting-Leaves _ _ _ _ _ _ (refusing-Leaves _ _ _ _ _ _ s' (resolve-Keeps q e l' _ s')))

pub reference-Leaves : (l : Listener) → Leaves (18 ∷ shapes l) (shapes l) (enter_object_reference l)
unfolding enter_object_reference shape Leaves new_entity
reference-Leaves l = in_code_entity-Leaves _ _ _ _ _ refl refl
