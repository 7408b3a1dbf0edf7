-- ===== src/Listener/Walk/LeftStatements.antt =====
-- What the handlers that leave a statement or a string do to the entity stack.
use bashpp.Prelude.{
  ℕ, Bool, true, false, List, [], ◌∷◌, Option, none, some, ◌≡◌, refl, ◌∙◌, ap, Text, if◌then◌else◌,
  Bool-cases, Option-cases, inl, inr, is_empty,
}
use bashpp.EntityMap.{FilePosition}
use bashpp.Codegen.Segments.{CodeSegment}
use bashpp.Listener.{Listener, Entity, done, top, is_code_entity, seen_class}
use bashpp.Listener.Entities.{
  add_code_to_next_line, add_code_to_previous_line, get_pre_code, get_post_code,
}
use bashpp.Listener.Steps.{adopt, mark_between}
use bashpp.Listener.Conditionals.{
  Branches, update_if_statement, write_branches, close_branch, exit_loop, condition_of,
}
use bashpp.Listener.Headers.{update_below}
use bashpp.Listener.Blocks.{
  is_larger_construct, write_out, set_rvalue_or_write, is_object_assignment,
}
use bashpp.Listener.Expressions.{write_segment, is_object_reference, cast_to}
use bashpp.Listener.Walk.Handlers.{block}
use bashpp.Listener.Blocks.{exit_block, exit_subshell_substitution, exit_supershell}
use bashpp.Listener.Expressions.{exit_array_index, exit_dynamic_cast, exit_dynamic_cast_target}
use bashpp.Listener.Walk.Stack.{
  mark-shapes, shape, shapes, shapes_of, and_then-Leaves, add_next-KeepsShape,
  add_previous-KeepsShape, Leaves, Keeps, popping-Keeps, asserting-Leaves, on_code_entity-Keeps,
  on_any_entity-Keeps, destruct-Keeps, adopt_objects-Keeps, update_top-shapes, write-shapes,
  write_around-shapes, on_kind-shapes, on_branches-SameShape, set_rvalue-SameShape,
  set_array_index-SameShape, set_cast_to-SameShape,
}
use bashpp.Listener.Walk.Enter.{opens, larger_top, head_shape, is_larger_shape}

pub write_branches-shapes : (bs : Branches) (l : Listener) → shapes (write_branches bs l) ≡ shapes l
unfolding write_branches
write_branches-shapes [] l = refl
write_branches-shapes ((c, b) ∷ bs) l =
    write_branches-shapes bs _ ∙ write-shapes b true _ ∙ write-shapes c true l

pub write_out-shapes : (e : Entity) (l : Listener) → shapes (write_out e l) ≡ shapes l
write_out-shapes e l = write-shapes _ _ _ ∙ write-shapes _ _ _ ∙ write-shapes _ _ l

below_shapes :
    (f : Entity → Entity) (l : Listener) (es : List Entity)
    → l.stack ≡ es
    → ((e : Entity) → shape (f e).kind ≡ shape e.kind)
    → shapes (update_below f l) ≡ shapes l
unfolding update_below
below_shapes f l [] h k = rw h refl
below_shapes f l (p ∷ []) h k = rw h refl
below_shapes f l (p ∷ (e ∷ es)) h k = rw h (ap (λ x. shape p.kind ∷ (x ∷ shapes_of es)) (k e))

pub if_statement_shapes :
    (f : Branches → Branches) (l : Listener) (es : List Entity)
    → l.stack ≡ es
    → shapes (update_if_statement f l) ≡ shapes l
unfolding update_if_statement
if_statement_shapes f l [] h = rw h refl
if_statement_shapes f l (p ∷ []) h = rw h refl
if_statement_shapes f l (p ∷ (e ∷ es)) h =
    rw h (ap (λ x. shape p.kind ∷ (x ∷ shapes_of es)) (on_branches-SameShape f e.kind))

pub close_branch-Keeps :
    (m : Text) (end : FilePosition) (l : Listener) (ks : List ℕ)
    → shapes l ≡ 6 ∷ ks
    → Keeps ks (close_branch m end l)
unfolding close_branch Leaves
close_branch-Keeps m end l ks s = popping-Keeps _ _ _ _ s λ e l' x s'.
    asserting-Leaves _ _ _ _ _ _ (
      destruct-Keeps _ _ _ _ s'
        λ e' l'' s''. mark-shapes _ _ _ ∙ on_kind-shapes _ l'' (on_branches-SameShape _) ∙ s'')

pub exit_loop-Keeps :
    (w m : Text) (end : FilePosition) (l : Listener) (ks : List ℕ)
    → shapes l ≡ 11 ∷ ks
    → Keeps ks (exit_loop w m end l)
unfolding exit_loop Leaves
exit_loop-Keeps w m end l ks s = popping-Keeps _ _ _ _ s λ e l' x s'. on_code_entity-Keeps _ _ _ _ (
    destruct-Keeps _ _ _ _ s' λ e' l'' s''. elim (Option-cases (condition_of e.kind)) [
      | inl h ↦ rw (h, Leaves) tt
      | inr (c, h) ↦
          rw (h, Leaves) (mark-shapes _ _ _ ∙ write-shapes _ _ _ ∙ write_around-shapes _ _ _ ∙ s'')
    ])

set_rvalue_or_write-shapes : (t : Text) (l : Listener) → shapes (set_rvalue_or_write t l) ≡ shapes l
set_rvalue_or_write-shapes t l = elim (Bool-cases (is_object_assignment (top l).kind)) [
  | inl h ↦ rw (h, set_rvalue_or_write) (on_kind-shapes _ l (set_rvalue-SameShape t))
  | inr h ↦ rw (h, set_rvalue_or_write) (write-shapes t true l)
]

pub write_segment-shapes :
    (e : Entity) (c : CodeSegment) (l : Listener) → shapes (write_segment e c l) ≡ shapes l
write_segment-shapes e c l =
    write-shapes c.code true _
    ∙ update_top-shapes
        (λ t. add_code_to_next_line c.post_code (add_code_to_next_line (get_post_code e) t)) _
        (λ t. add_next-KeepsShape c.post_code _ ∙ add_next-KeepsShape (get_post_code e) t)
    ∙ update_top-shapes
        (λ t. add_code_to_previous_line c.pre_code (add_code_to_previous_line (get_pre_code e) t)) l
        (λ t. add_previous-KeepsShape c.pre_code _ ∙ add_previous-KeepsShape (get_pre_code e) t)

pub quoted-Keeps :
    (l : Listener) (a b : Listener) (ks : List ℕ)
    → shapes a ≡ ks
    → shapes b ≡ ks
    → Keeps ks (if is_code_entity (top l).kind then done a else done b)
unfolding Leaves
quoted-Keeps l a b ks x y = elim (Bool-cases (is_code_entity (top l).kind)) [
  | inl h ↦ rw h x
  | inr h ↦ rw h y
]

pub mark_between-shapes :
    (begin end : FilePosition) (e : Entity) (l : Listener)
    → shapes (mark_between begin end e l) ≡ shapes l
unfolding mark_between
mark_between-shapes begin end e l = refl

pub around_below-shapes :
    (pre post : Text) (l : Listener)
    → shapes (update_below (λ c. add_code_to_next_line post (add_code_to_previous_line pre c)) l)
      ≡ shapes l
around_below-shapes pre post l =
    below_shapes _ l l.stack refl (λ e. add_next-KeepsShape post _ ∙ add_previous-KeepsShape pre e)

pub adopt-Keeps : (e : Entity) (l : Listener) (ks : List ℕ) → shapes l ≡ ks → Keeps ks (adopt e l)
unfolding adopt
adopt-Keeps e l ks s = adopt_objects-Keeps e.local_objects l ks s

pub exit_block-Keeps :
    (l : Listener) (ks : List ℕ) → shapes l ≡ opens block ks → Keeps ks (exit_block l)
unfolding exit_block Leaves opens head_shape is_larger_shape
exit_block-Keeps l ks s = elim (Bool-cases (is_larger_shape (head_shape ks))) [
  | inl t ↦
      let same : shapes l ≡ ks = s ∙ (rw t refl) in
      let larger : is_larger_construct (top l).kind ≡ true =
        larger_top l ∙ ap (λ q. is_larger_shape (head_shape q)) same ∙ t in
      rw (larger, exit_block, Leaves) same
  | inr t ↦
      let same : shapes l ≡ 4 ∷ ks = s ∙ (rw t refl) in
      let smaller : is_larger_construct (top l).kind ≡ false =
        larger_top l ∙ ap (λ q. is_larger_shape (head_shape q)) same in
      rw (smaller, exit_block, Leaves)
        (popping-Keeps _ _ _ _ same λ e l' x s'.
          on_code_entity-Keeps _ _ _ _ (
            destruct-Keeps _ _ _ _ s'
              λ e' l'' s''. write-shapes _ _ _ ∙ write_out-shapes _ _ ∙ s''))
]

pub exit_subshell-Keeps :
    (is_cat : Bool) (end : FilePosition) (l : Listener) (ks : List ℕ)
    → shapes l ≡ 5 ∷ ks
    → Keeps ks (exit_subshell_substitution is_cat end l)
unfolding exit_subshell_substitution Leaves
exit_subshell-Keeps true end l ks s = popping-Keeps _ _ _ _ s λ e l' x s'.
    on_any_entity-Keeps _ _ _ (
      destruct-Keeps _ _ _ _ (write-shapes _ _ _ ∙ write_around-shapes _ _ _ ∙ s')
        λ e' l'' s''. mark-shapes _ _ _ ∙ write_out-shapes _ _ ∙ s'')
exit_subshell-Keeps false end l ks s = popping-Keeps _ _ _ _ s λ e l' x s'.
    on_any_entity-Keeps _ _ _ (
      destruct-Keeps _ _ _ _ s' λ e' l'' s''.
        mark-shapes _ _ _ ∙ write-shapes _ _ _ ∙ write_out-shapes _ _ ∙ write-shapes _ _ _ ∙ s'')

pub exit_supershell-Keeps :
    (end : FilePosition) (l : Listener) (ks : List ℕ)
    → shapes l ≡ 5 ∷ ks
    → Keeps ks (exit_supershell end l)
unfolding exit_supershell Leaves
exit_supershell-Keeps end l ks s = popping-Keeps _ _ _ _ s λ e l' x s'.
    on_code_entity-Keeps _ _ _ _ (
      and_then-Leaves _ _ ks ks ks (adopt-Keeps _ _ ks (mark-shapes _ _ _ ∙ s'))
        λ l2 s2. (set_rvalue_or_write-shapes _ _ ∙ write_around-shapes _ _ _ ∙ s2))

pub exit_array_index-Keeps :
    (l : Listener) (ks : List ℕ) → shapes l ≡ 5 ∷ ks → Keeps ks (exit_array_index l)
unfolding exit_array_index Leaves
exit_array_index-Keeps l ks s = popping-Keeps _ _ _ _ s λ e l' x s'.
    elim (Bool-cases (is_object_reference (top l').kind)) [
      | inl t ↦
          rw (t, Leaves)
            (write_around-shapes _ _ _ ∙ on_kind-shapes _ l' (set_array_index-SameShape _) ∙ s')
      | inr t ↦
          rw (t, Leaves)
            (on_code_entity-Keeps _ _ _ ks (write-shapes _ _ _ ∙ write_around-shapes _ _ _ ∙ s'))
    ]

pub exit_dynamic_cast-Keeps :
    (l : Listener) (ks : List ℕ) → shapes l ≡ 17 ∷ ks → Keeps ks (exit_dynamic_cast l)
unfolding exit_dynamic_cast Leaves
exit_dynamic_cast-Keeps l ks s = popping-Keeps _ _ _ _ s λ e l' x s'.
    on_code_entity-Keeps _ _ _ _ (elim (Bool-cases (is_empty (cast_to e.kind))) [
      | inl t ↦ rw (t, Leaves) s'
      | inr t ↦ rw (t, Leaves) (write_segment-shapes _ _ _ ∙ s')
    ])

pub exit_dynamic_cast_target-Keeps :
    (target : Option (Text × FilePosition)) (l : Listener) (ks : List ℕ)
    → shapes l ≡ 8 ∷ ks
    → Keeps ks (exit_dynamic_cast_target target l)
unfolding exit_dynamic_cast_target Leaves
exit_dynamic_cast_target-Keeps none l ks s = popping-Keeps _ _ _ _ s λ e l' x s'.
    asserting-Leaves _ _ _ _ _ _
      (write_around-shapes _ _ _ ∙ on_kind-shapes _ l' (set_cast_to-SameShape _) ∙ s')
exit_dynamic_cast_target-Keeps (some (name, position)) l ks s = popping-Keeps _ _ _ _ s λ e l' x s'.
    asserting-Leaves _ _ _ _ _ _ (elim (Option-cases (seen_class name l')) [
      | inl n ↦ rw (n, Leaves) (on_kind-shapes _ l' (set_cast_to-SameShape _) ∙ s')
      | inr (c, n) ↦ rw (n, Leaves) (on_kind-shapes _ l' (set_cast_to-SameShape _) ∙ s')
    ])
