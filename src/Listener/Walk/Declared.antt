-- ===== src/Listener/Walk/Declared.antt =====
-- What the handlers of declarations do to the entity stack.
use bashpp.Prelude.{ℕ, Bool, List, ◌∷◌, ◌≡◌, refl, ◌∙◌, Text, Bool-cases, Option-cases, inl, inr}
use bashpp.EntityMap.{FilePosition}
use bashpp.Listener.{
  Listener, Kind, Object, datamember_entity, top, update_top, is_code_entity, seen_class,
}
use bashpp.Listener.Declarations.{
  latest, enter_object_instantiation, enter_pointer_declaration, exit_object_instantiation,
  exit_pointer_declaration, add_object, takes_object, object_code, with_object, is_datamember,
  give_type, give_pointer, to_member,
}
use bashpp.Listener.Walk.Stack.{
  shape, shapes, Leaves, Keeps, SameShape, popping-Keeps, refusing-Leaves, update_top-shapes,
  write_around-shapes,
}

pub instantiation-Leaves :
    (type : Text) (at : FilePosition) (name : Text) (position : FilePosition) (l : Listener)
    → Leaves (2 ∷ shapes l) (shapes l) (enter_object_instantiation type at name position l)
unfolding enter_object_instantiation Leaves shape
instantiation-Leaves type at name position l =
    refusing-Leaves _ _ _ _ _ _ refl (elim (Option-cases (seen_class type (latest l))) [
      | inl n ↦ rw (n, Leaves) refl
      | inr (c, n) ↦
          rw (n, Leaves)
            (refusing-Leaves _ _ _ _ _ _ refl
              (refusing-Leaves _ _ _ _ _ _ refl (refusing-Leaves _ _ _ _ _ _ refl refl)))
    ])

pub pointer-Leaves :
    (type : Text) (at : FilePosition) (name : Text) (position : FilePosition) (l : Listener)
    → Leaves (2 ∷ shapes l) (shapes l) (enter_pointer_declaration type at name position l)
unfolding enter_pointer_declaration Leaves shape
pointer-Leaves type at name position l =
    refusing-Leaves _ _ _ _ _ _ refl (elim (Option-cases (seen_class type (latest l))) [
      | inl n ↦ rw (n, Leaves) refl
      | inr (c, n) ↦
          rw (n, Leaves)
            (refusing-Leaves _ _ _ _ _ _ refl
              (refusing-Leaves _ _ _ _ _ _ refl (refusing-Leaves _ _ _ _ _ _ refl refl)))
    ])

add_object-Keeps :
    (o : Object) (make_local : Bool) (l : Listener) (ks : List ℕ)
    → shapes l ≡ ks
    → Keeps ks (add_object o make_local l)
unfolding add_object Leaves
add_object-Keeps o make_local l ks s = elim (Bool-cases (takes_object o l)) [
  | inl t ↦ rw t (elim (Option-cases (object_code o make_local l)) [
    | inl n ↦ rw (n, Leaves) tt
    | inr ((text, p), n) ↦
        rw (n, Leaves)
          (update_top-shapes (with_object o text) (record l { program = p }) (λ e. refl) ∙ s)
  ])
  | inr t ↦ rw t s
]

give_type-SameShape : (o : Object) → SameShape (give_type o)
unfolding give_type shape
give_type-SameShape o (datamember_entity d) = refl
give_type-SameShape o _ = refl

give_pointer-SameShape : (o : Object) → SameShape (give_pointer o)
unfolding give_pointer shape
give_pointer-SameShape o (datamember_entity d) = refl
give_pointer-SameShape o _ = refl

to_member-shapes :
    (f : Kind → Kind) (position : FilePosition) (l : Listener)
    → SameShape f
    → shapes (update_top (to_member f position) l) ≡ shapes l
to_member-shapes f position l h = update_top-shapes (to_member f position) l (λ e. h e.kind)

pub exit_instantiation-Keeps :
    (l : Listener) (ks : List ℕ) → shapes l ≡ 2 ∷ ks → Keeps ks (exit_object_instantiation l)
unfolding exit_object_instantiation Leaves
exit_instantiation-Keeps l ks s = popping-Keeps _ _ _ _ s λ e l' x s'.
    elim (Bool-cases (is_datamember (top l').kind)) [
      | inl t ↦ rw t (to_member-shapes _ _ l' (give_type-SameShape _) ∙ s')
      | inr t ↦ rw t (elim (Bool-cases (is_code_entity (top l').kind)) [
        | inl u ↦ rw u (add_object-Keeps _ _ _ _ s')
        | inr u ↦ rw u s'
      ])
    ]

pub exit_pointer-Keeps :
    (l : Listener) (ks : List ℕ) → shapes l ≡ 2 ∷ ks → Keeps ks (exit_pointer_declaration l)
unfolding exit_pointer_declaration Leaves
exit_pointer-Keeps l ks s = popping-Keeps _ _ _ _ s λ e l' x s'.
    elim (Bool-cases (is_datamember (top l').kind)) [
      | inl t ↦ rw t (to_member-shapes _ _ l' (give_pointer-SameShape _) ∙ s')
      | inr t ↦ rw t (elim (Bool-cases (is_code_entity (top l').kind)) [
        | inl u ↦ rw u (add_object-Keeps _ _ _ _ (write_around-shapes _ _ l' ∙ s'))
        | inr u ↦ rw u s'
      ])
    ]
