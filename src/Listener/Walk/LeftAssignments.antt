-- ===== src/Listener/Walk/LeftAssignments.antt =====
-- What the handlers that leave an assignment or a delete statement do to the entity stack.
use bashpp.Prelude.{
  ℕ, true, false, not, ◌&&◌, List, [], ◌∷◌, Option, none, some, ◌≡◌, refl, ◌∙◌, ap, subst, Text,
  lit, same_text, Bool-cases, Option-cases, inl, inr,
}
use bashpp.Codegen.Segments.{CodeSegment, generate_delete_code, generate_method_call_code}
use bashpp.Listener.{
  Listener, Entity, Kind, Object, ObjectAssignment, top, is_code_entity, object_assignment,
  datamember_entity, object_entity,
}
use bashpp.Listener.Entities.{get_pre_code, get_post_code, get_code}
use bashpp.Listener.Values.{assign_value, value_of}
use bashpp.Listener.Assignments.{
  update_latest, in_latest, assign_object, copy_object, object_to_delete, copy_objects,
  written_by_delete, assignment_of,
}
use bashpp.Listener.Values.{exit_value_assignment}
use bashpp.Listener.Assignments.{exit_delete_statement, exit_object_assignment}
use bashpp.Listener.Walk.Stack.{
  shape, shapes, shapes_of, KeepsShape, add_code-KeepsShape, add_next-KeepsShape,
  add_previous-KeepsShape, Leaves, Keeps, popping-Keeps, asserting-Leaves, on_code_entity-Keeps,
  write-shapes, write_around-shapes, on_kind-shapes, set_value-SameShape,
}
use bashpp.Listener.Walk.LeftStatements.{quoted-Keeps}

assign_value-Keeps :
    (operator : Text) (e : Entity) (l : Listener) (ks : List ℕ) (k : Kind)
    → (top l).kind ≡ k
    → shapes l ≡ ks
    → Keeps ks (assign_value operator e l)
unfolding assign_value Leaves
assign_value-Keeps operator e l ks (datamember_entity d) h s =
    rw (h, Leaves) (on_kind-shapes _ l (set_value-SameShape e) ∙ s)
assign_value-Keeps operator e l ks (object_assignment a) h s =
    rw (h, Leaves)
      (asserting-Leaves _ _ _ _ ks ks
        (write_around-shapes _ _ _ ∙ on_kind-shapes _ l (set_value-SameShape e) ∙ s))
assign_value-Keeps operator e l ks (object_entity o) h s =
    rw (h, Leaves)
      (elim (Bool-cases o.pointer) [
        | inl t ↦ rw t (on_kind-shapes _ l (set_value-SameShape e) ∙ s)
        | inr t ↦ rw t (elim (Bool-cases (value_of e.kind).nonprimitive_assignment) [
          | inl n ↦ rw n s
          | inr n ↦ rw n s
        ])
      ])
assign_value-Keeps operator e l ks _ h s =
    rw (h, Leaves)
      (on_code_entity-Keeps _ _ _ ks (write-shapes _ _ _ ∙ write_around-shapes _ _ _ ∙ s))

pub exit_value-Keeps :
    (operator : Text) (l : Listener) (ks : List ℕ)
    → shapes l ≡ 20 ∷ ks
    → Keeps ks (exit_value_assignment operator l)
unfolding exit_value_assignment
exit_value-Keeps operator l ks s =
    popping-Keeps _ _ _ _ s λ e l' x s'. assign_value-Keeps operator e _ ks _ refl s'

unfoldable SameShapes : List Entity → Option (List Entity) → Type 0
SameShapes es none = Unit
SameShapes es (some rest) = shapes_of rest ≡ shapes_of es

in_latest-SameShapes :
    (f : Entity → Entity) (es : List Entity) → KeepsShape f → SameShapes es (in_latest f es)
unfolding in_latest SameShapes
in_latest-SameShapes f [] k = tt
in_latest-SameShapes f (e ∷ es) k = elim (Bool-cases (is_code_entity e.kind)) [
  | inl t ↦ rw (t, in_latest) (ap (λ x. x ∷ shapes_of es) (k e))
  | inr t ↦ elim (Option-cases (in_latest f es)) [
    | inl n ↦ rw (t, in_latest) (rw (n, SameShapes) tt)
    | inr (rest, n) ↦
        let below : shapes_of rest ≡ shapes_of es =
          subst (SameShapes es) n (in_latest-SameShapes f es k) in
        rw (t, in_latest) (rw (n, SameShapes) (ap (λ xs. shape e.kind ∷ xs) below))
  ]
]

update_latest-shapes :
    (f : Entity → Entity) (l : Listener) → KeepsShape f → shapes (update_latest f l) ≡ shapes l
unfolding update_latest SameShapes
update_latest-shapes f l k = elim (Option-cases (in_latest f l.stack)) [
  | inl n ↦ rw (n, update_latest) refl
  | inr (es, n) ↦
      rw (n, update_latest) (subst (SameShapes l.stack) n (in_latest-SameShapes f l.stack k))
]

written-KeepsShape : (e : Entity) (segment : CodeSegment) → KeepsShape (written_by_delete e segment)
written-KeepsShape e segment c =
    add_code-KeepsShape segment.code true _
    ∙ add_next-KeepsShape segment.post_code _
    ∙ add_previous-KeepsShape segment.pre_code _
    ∙ add_next-KeepsShape (get_post_code e) _
    ∙ add_previous-KeepsShape (get_pre_code e) c

pub exit_delete-Keeps :
    (reference : Option Text) (l : Listener) (ks : List ℕ)
    → shapes l ≡ 19 ∷ ks
    → Keeps ks (exit_delete_statement reference l)
unfolding exit_delete_statement Leaves
exit_delete-Keeps reference l ks s = popping-Keeps _ _ _ _ s λ e l' x s'.
    elim (Option-cases (object_to_delete e.kind)) [
      | inl n ↦ elim (Option-cases reference) [
        | inl r ↦ rw (n, Leaves) (rw (r, Leaves) tt)
        | inr (name, r) ↦ rw (n, Leaves) (rw (r, Leaves) s')
      ]
      | inr (o, n) ↦ elim (Bool-cases (same_text o.address (lit "__this"))) [
        | inl t ↦ rw (n, Leaves) (rw (t, Leaves) s')
        | inr t ↦
            elim (Option-cases (generate_delete_code l'.store o.class (get_code e) l'.program)) [
              | inl g ↦ rw (n, Leaves) (rw (t, Leaves) (rw (g, Leaves) tt))
              | inr ((segment, p), g) ↦
                  rw (n, Leaves)
                    (rw (t, Leaves)
                      (rw (g, Leaves)
                        (update_latest-shapes _ _ (λ c. written-KeepsShape e segment c) ∙ s')))
            ]
      ]
    ]

assign_object-Keeps :
    (a : ObjectAssignment) (e : Entity) (l : Listener) (ks : List ℕ)
    → shapes l ≡ ks
    → Keeps ks (assign_object a e l)
unfolding assign_object Leaves
assign_object-Keeps a e l ks s =
    elim (Bool-cases (a.lvalue_nonprimitive && not a.rvalue_nonprimitive)) [
      | inl t ↦ rw (t, Leaves) s
      | inr t ↦
          rw (t, Leaves)
            (quoted-Keeps _ _ _ ks (write-shapes _ _ _ ∙ write_around-shapes _ _ _ ∙ s) s)
    ]

copy_object-Keeps :
    (a : ObjectAssignment) (e : Entity) (x y : Object) (l : Listener) (ks : List ℕ)
    → shapes l ≡ ks
    → Keeps ks (copy_object a e x y l)
unfolding copy_object Leaves
copy_object-Keeps a e x y l ks s =
    elim (Bool-cases (same_text (l.store.class_at x.class).name (l.store.class_at y.class).name)) [
      | inl t ↦
          elim (Option-cases
            (generate_method_call_code l.store a.lvalue (lit "__copy") x.class false l.program)) [
              | inl g ↦ rw (t, Leaves) (rw (g, Leaves) tt)
              | inr ((c, p), g) ↦
                  rw (t, Leaves)
                    (rw (g, Leaves)
                      (elim (Bool-cases (is_code_entity (top (record l { program = p })).kind)) [
                        | inl n ↦
                            rw (n, Leaves) (write-shapes _ _ _ ∙ write_around-shapes _ _ _ ∙ s)
                        | inr n ↦
                            rw (n, Leaves) (assign_object-Keeps a e (record l { program = p }) ks s)
                      ]))
            ]
      | inr t ↦ rw (t, Leaves) s
    ]

copied-Keeps :
    (a : ObjectAssignment) (e : Entity) (l : Listener) (ks : List ℕ) (x y : Option Object)
    → shapes l ≡ ks
    → Keeps ks (copy_objects a e x y l)
unfolding copy_objects Leaves
copied-Keeps a e l ks none y s = tt
copied-Keeps a e l ks (some x) none s = tt
copied-Keeps a e l ks (some x) (some y) s = copy_object-Keeps a e x y l ks s

pub exit_object-Keeps :
    (l : Listener) (ks : List ℕ) → shapes l ≡ 21 ∷ ks → Keeps ks (exit_object_assignment l)
unfolding exit_object_assignment Leaves
exit_object-Keeps l ks s = popping-Keeps _ _ _ _ s λ e l' x s'.
    elim (Bool-cases
      ((assignment_of e.kind).lvalue_nonprimitive && (assignment_of e.kind).rvalue_nonprimitive)) [
        | inl t ↦ rw (t, Leaves) (copied-Keeps _ e _ ks _ _ s')
        | inr t ↦ rw (t, Leaves) (assign_object-Keeps _ e _ ks s')
      ]
