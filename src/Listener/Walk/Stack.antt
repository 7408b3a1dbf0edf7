-- ===== src/Listener/Walk/Stack.antt =====
-- What the walk does to the entity stack.
use bashpp.Prelude.{
  ℕ, Bool, true, false, List, [], ◌∷◌, ◌++◌, ◌≡◌, refl, sym, ◌∙◌, ap, map, Text, Bool-cases,
  Option-cases, inl, inr,
}
use bashpp.CodeBuffers.{CodeEntity}
use bashpp.CommandSequence.{CommandSequence}
use bashpp.Listener.{
  Listener, Entity, Kind, Header, Outcome, the_program, class_entity, object_entity,
  datamember_entity, code_entity, string_entity, if_branch, loop_condition, cast_target,
  method_entity, bash_if, bash_loop, bash_for_or_select, bash_case, case_pattern, bash_function,
  command_sequence, dynamic_cast, object_reference, delete_statement, value_assignment,
  object_assignment, done, failed, syntax_error, internal_error, undefined_behaviour, top,
  update_top, and_then, is_code_entity, names_of, code_entities, Object,
}
use bashpp.Listener.Entities.{
  on_kind, on_sequence, add_code, add_code_to_previous_line, add_code_to_next_line,
}
use bashpp.Listener.Steps.{
  mark_entity, mark_between, write_around, asserting, refusing, in_code_entity, popping,
  on_code_entity, on_any_entity, destruct_local_objects, deletions, adopt_objects, is_known,
}
use bashpp.EntityMap.{FilePosition}
use bashpp.Entities.{get_object}
use bashpp.Listener.Conditionals.{Branches, on_branches, set_condition}
use bashpp.Listener.Headers.{set_header, add_case, set_pattern}
use bashpp.Listener.Blocks.{set_rvalue}
use bashpp.Listener.Expressions.{set_array_index, assign_array, set_cast_to}
use bashpp.Listener.Values.{set_value}

-- The class of an entity as a number.
unfoldable pub shape : Kind → ℕ
shape the_program = 0
shape (class_entity c) = 1
shape (object_entity o) = 2
shape (datamember_entity d) = 3
shape code_entity = 4
shape string_entity = 5
shape if_branch = 6
shape loop_condition = 7
shape cast_target = 8
shape (method_entity m) = 9
shape (bash_if b) = 10
shape (bash_loop c) = 11
shape (bash_for_or_select h) = 12
shape (bash_case t) = 13
shape (case_pattern t) = 14
shape (bash_function t) = 15
shape (command_sequence q) = 16
shape (dynamic_cast t) = 17
shape (object_reference t) = 18
shape (delete_statement o) = 19
shape (value_assignment v) = 20
shape (object_assignment a) = 21

abbrev pub shapes_of : List Entity → List ℕ
shapes_of = map (λ e. shape e.kind)

abbrev pub shapes : Listener → List ℕ
shapes l = shapes_of l.stack

-- Unless the handler stops the walk, it leaves a stack of the classes `after`, and one of the classes
-- `before` when it ends with a syntax error.
unfoldable pub Leaves : List ℕ → List ℕ → Outcome → Type 0
Leaves after before (done l) = shapes l ≡ after
Leaves after before (failed (syntax_error m) l) = shapes l ≡ before
Leaves after before (failed _ l) = Unit

abbrev pub Keeps : List ℕ → Outcome → Type 0
Keeps ks = Leaves ks ks

abbrev pub SameShape : (Kind → Kind) → Type 0
SameShape f = (k : Kind) → shape (f k) ≡ shape k

pub on_sequence-SameShape : (f : CommandSequence → CommandSequence) → SameShape (on_sequence f)
unfolding on_sequence shape
on_sequence-SameShape f (command_sequence q) = refl
on_sequence-SameShape f _ = refl

pub on_branches-SameShape : (f : Branches → Branches) → SameShape (on_branches f)
unfolding on_branches shape
on_branches-SameShape f (bash_if bs) = refl
on_branches-SameShape f _ = refl

pub set_condition-SameShape : (c : CodeEntity) → SameShape (set_condition c)
unfolding set_condition shape
set_condition-SameShape c (bash_loop old) = refl
set_condition-SameShape c _ = refl

pub set_header-SameShape : (f : Header → Header) → SameShape (set_header f)
unfolding set_header shape
set_header-SameShape f (bash_for_or_select h) = refl
set_header-SameShape f _ = refl

pub add_case-SameShape : (t : Text) → SameShape (add_case t)
unfolding add_case shape
add_case-SameShape t (bash_case cases) = refl
add_case-SameShape t _ = refl

pub set_pattern-SameShape : (t : Text) → SameShape (set_pattern t)
unfolding set_pattern shape
set_pattern-SameShape t (case_pattern p) = refl
set_pattern-SameShape t _ = refl

pub set_rvalue-SameShape : (t : Text) → SameShape (set_rvalue t)
unfolding set_rvalue shape
set_rvalue-SameShape t (object_assignment a) = refl
set_rvalue-SameShape t _ = refl

pub set_array_index-SameShape : (t : Text) → SameShape (set_array_index t)
unfolding set_array_index shape
set_array_index-SameShape t (object_reference i) = refl
set_array_index-SameShape t _ = refl

pub assign_array-SameShape : SameShape assign_array
unfolding assign_array shape
assign_array-SameShape (value_assignment v) = refl
assign_array-SameShape _ = refl

pub set_cast_to-SameShape : (t : Text) → SameShape (set_cast_to t)
unfolding set_cast_to shape
set_cast_to-SameShape t (dynamic_cast old) = refl
set_cast_to-SameShape t _ = refl

pub set_value-SameShape : (e : Entity) → SameShape (set_value e)
unfolding set_value shape
set_value-SameShape e (object_entity o) = refl
set_value-SameShape e (datamember_entity d) = refl
set_value-SameShape e (object_assignment a) = refl
set_value-SameShape e _ = refl

abbrev pub KeepsShape : (Entity → Entity) → Type 0
KeepsShape f = (e : Entity) → shape (f e).kind ≡ shape e.kind

pub add_code-KeepsShape : (t : Text) (b : Bool) → KeepsShape (add_code t b)
unfolding add_code
add_code-KeepsShape t b e = on_sequence-SameShape _ e.kind

pub add_previous-KeepsShape : (t : Text) → KeepsShape (add_code_to_previous_line t)
unfolding add_code_to_previous_line
add_previous-KeepsShape t e = on_sequence-SameShape _ e.kind

pub add_next-KeepsShape : (t : Text) → KeepsShape (add_code_to_next_line t)
unfolding add_code_to_next_line
add_next-KeepsShape t e = on_sequence-SameShape _ e.kind

update_stack :
    (f : Entity → Entity) (l : Listener) (es : List Entity)
    → l.stack ≡ es
    → KeepsShape f
    → shapes (update_top f l) ≡ shapes l
unfolding update_top top
update_stack f l [] h k = rw h refl
update_stack f l (e ∷ es) h k = rw h (ap (λ x. x ∷ shapes_of es) (k e))

pub update_top-shapes :
    (f : Entity → Entity) (l : Listener) → KeepsShape f → shapes (update_top f l) ≡ shapes l
update_top-shapes f l k = update_stack f l l.stack refl k

pub on_kind-shapes :
    (f : Kind → Kind) (l : Listener) → SameShape f → shapes (update_top (on_kind f) l) ≡ shapes l
on_kind-shapes f l h = update_top-shapes (on_kind f) l (λ e. h e.kind)

pub write-shapes :
    (t : Text) (b : Bool) (l : Listener) → shapes (update_top (add_code t b) l) ≡ shapes l
write-shapes t b l = update_top-shapes _ l (add_code-KeepsShape t b)

pub previous-shapes :
    (t : Text) (l : Listener) → shapes (update_top (add_code_to_previous_line t) l) ≡ shapes l
previous-shapes t l = update_top-shapes (add_code_to_previous_line t) l (add_previous-KeepsShape t)

pub next-shapes :
    (t : Text) (l : Listener) → shapes (update_top (add_code_to_next_line t) l) ≡ shapes l
next-shapes t l = update_top-shapes (add_code_to_next_line t) l (add_next-KeepsShape t)

pub write_around-shapes :
    (pre post : Text) (l : Listener) → shapes (write_around pre post l) ≡ shapes l
write_around-shapes pre post l =
    update_top-shapes _ l λ e. add_next-KeepsShape post _ ∙ add_previous-KeepsShape pre e

-- What a handler does with the entity that it pops.
abbrev Handles : ℕ → List ℕ → (Entity → Listener → Outcome) → Type 0
Handles x ks k = (e : Entity) (l : Listener) → shape e.kind ≡ x → shapes l ≡ ks → Keeps ks (k e l)

popping_stack :
    (test : Kind → Bool) (m : Text) (l : Listener) (k : Entity → Listener → Outcome) (x : ℕ)
    (ks : List ℕ) (es : List Entity)
    → l.stack ≡ es
    → shapes l ≡ x ∷ ks
    → Handles x ks k
    → Keeps ks (popping test m l k)
unfolding popping Leaves
popping_stack test m l k x ks [] h s cont =
    rw h (elim (Bool-cases (test the_program)) [ inl t ↦ rw t tt | inr t ↦ rw t tt ])
popping_stack test m l k x ks (e ∷ es) h s cont = rw h (elim (Bool-cases (test e.kind)) [
  | inl t ↦
      let both : shape e.kind ∷ shapes_of es ≡ x ∷ ks = ap shapes_of (sym h) ∙ s in
      rw t (cont e (record l { stack = es }) (cc) (cc))
  | inr t ↦ rw t tt
])

pub popping-Keeps :
    (test : Kind → Bool) (m : Text) (l : Listener) (k : Entity → Listener → Outcome) {x : ℕ}
    {ks : List ℕ}
    → shapes l ≡ x ∷ ks
    → Handles x ks k
    → Keeps ks (popping test m l k)
popping-Keeps test m l k {x} {ks} s cont = popping_stack test m l k x ks l.stack refl s cont

pub asserting-Leaves :
    (b : Bool) (m : Text) (l : Listener) (k : Outcome) (after before : List ℕ)
    → Leaves after before k
    → Leaves after before (asserting b m l k)
unfolding asserting Leaves
asserting-Leaves true m l k after before h = h
asserting-Leaves false m l k after before h = tt

pub on_code_entity-Keeps :
    (m : Text) (l : Listener) (k : Outcome) (ks : List ℕ)
    → Keeps ks k
    → Keeps ks (on_code_entity m l k)
unfolding on_code_entity
on_code_entity-Keeps m l k ks h = asserting-Leaves _ m l k ks ks h

pub on_any_entity-Keeps :
    (l : Listener) (k : Outcome) (ks : List ℕ) → Keeps ks k → Keeps ks (on_any_entity l k)
unfolding on_any_entity Leaves
on_any_entity-Keeps l k ks h = elim (Bool-cases (is_code_entity (top l).kind)) [
  | inl t ↦ rw t h
  | inr t ↦ rw t tt
]

pub in_code_entity-Leaves :
    (m : Text) (l : Listener) (k : Outcome) (after before : List ℕ)
    → shapes l ≡ before
    → Leaves after before k
    → Leaves after before (in_code_entity m l k)
unfolding in_code_entity Leaves
in_code_entity-Leaves m l k after before s h = elim (Bool-cases (is_code_entity (top l).kind)) [
  | inl t ↦ rw t h
  | inr t ↦ rw t s
]

pub refusing-Leaves :
    (wrong : Bool) (m : Text) (l : Listener) (k : Outcome) (after before : List ℕ)
    → shapes l ≡ before
    → Leaves after before k
    → Leaves after before (refusing wrong m l k)
unfolding refusing Leaves
refusing-Leaves true m l k after before s h = s
refusing-Leaves false m l k after before s h = h

pub destruct-Keeps :
    (e : Entity) (l : Listener) (k : Entity → Listener → Outcome) (ks : List ℕ)
    → shapes l ≡ ks
    → ((e' : Entity) (l' : Listener) → shapes l' ≡ ks → Keeps ks (k e' l'))
    → Keeps ks (destruct_local_objects e l k)
unfolding destruct_local_objects Leaves
destruct-Keeps e l k ks s cont = elim (Option-cases (deletions l.store e.local_objects l.program)) [
  | inl h ↦ rw (h, Leaves) tt
  | inr ((text, p), h) ↦
      rw (h, Leaves)
        (cont (record e { buffers = record e.buffers { code = e.buffers.code ++ text } })
          (record l { program = p }) s)
]

pub adopt_objects-Keeps :
    (os : List Object) (l : Listener) (ks : List ℕ) → shapes l ≡ ks → Keeps ks (adopt_objects os l)
unfolding adopt_objects Leaves
adopt_objects-Keeps [] l ks s = s
adopt_objects-Keeps (o ∷ os) l ks s =
    elim (Bool-cases
      (is_known (get_object o.named.name (names_of (code_entities l.stack) l.program_objects)))) [
        | inl t ↦ rw (t, Leaves) tt
        | inr t ↦
            rw (t, Leaves)
              (adopt_objects-Keeps os _ ks (
                update_top-shapes (λ e. record e { local_objects = e.local_objects ++ o ∷ [] }) l
                  (λ e. refl)
                ∙ s))
      ]

-- One handler behind another.
pub and_then-Leaves :
    (o : Outcome) (k : Listener → Outcome) (middle after before : List ℕ)
    → Leaves middle before o
    → ((l : Listener) → shapes l ≡ middle → Leaves after before (k l))
    → Leaves after before (and_then o k)
unfolding and_then Leaves
and_then-Leaves (done l) k middle after before h cont = cont l h
and_then-Leaves (failed (syntax_error m) l) k middle after before h cont = h
and_then-Leaves (failed (internal_error m) l) k middle after before h cont = tt
and_then-Leaves (failed undefined_behaviour l) k middle after before h cont = tt

pub mark-shapes :
    (end : FilePosition) (e : Entity) (l : Listener) → shapes (mark_entity end e l) ≡ shapes l
unfolding mark_entity mark_between
mark-shapes end e l = refl
