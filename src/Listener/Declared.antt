-- ===== src/Listener/Declared.antt =====
-- What a declaration adds to the names that the entity on top sees: `add_object` of
-- src/bpp_include/bpp_code_entity.cpp and bpp_method.cpp, and of bpp_entity.cpp.
use bashpp.Prelude.{
  ℕ, Bool, true, false, List, [], ◌∷◌, ◌++◌, none, some, ◌≡◌, refl, sym, ◌∙◌, ap, map, Text,
  Bool-cases, Option-cases, inl, inr, same_text, zero, suc, get_elem?,
}
use bashpp.Entities.{Named, Scope, find, index_of, get_object, add, add_object as add_to_scope}
use bashpp.Codegen.Program.{Program}
use bashpp.Listener.{
  Listener, Entity, Object, done, names_of, parents, Kind, class_entity, code_entities, update_top,
  top, is_code_entity, is_class_entity,
}
use bashpp.Listener.Declarations.{add_object, takes_object, object_code, with_object}

-- The names that the entity on top sees.
abbrev pub scope_of : Listener → Scope
scope_of l = names_of (code_entities l.stack) l.program_objects

map-append :
    (os : List Object) (o : Object)
    → map (λ x. x.named) (os ++ o ∷ []) ≡ map (λ x. x.named) os ++ o.named ∷ []
map-append [] o = refl
map-append (x ∷ os) o = ap (λ ns. x.named ∷ ns) (map-append os o)

add_to_scope-new :
    (n : Named) (s : Scope)
    → get_object n.name s ≡ none
    → (add_to_scope n s).0 ≡ record s { local_objects = (add n s.local_objects).0 }
unfolding add_to_scope add
add_to_scope-new n s h = rw (add_to_scope, h) refl

index-found :
    (name : Text) (es : List Named) (i : ℕ) → index_of name es ≡ some i → get_elem? es i ≡ none → ⊥
unfolding index_of
index-found name [] i h k = cc
index-found name (x ∷ es) zero h k = cc
index-found name (x ∷ es) (suc i) h k = elim (Bool-cases (same_text x.name name)) [
  | inl t ↦ let bad = rw t at h in cc
  | inr t ↦ elim (Option-cases (index_of name es)) [
    | inl n ↦ let bad = rw (t, n) at h in cc
    | inr (j, n) ↦
        let next : some (suc j) ≡ some (suc i) = rw (t, n) at h in
        index-found name es i (n ∙ ap (λ x. some x) (cc)) k
  ]
]

not_local :
    (n : Named) (s : Scope) → get_object n.name s ≡ none → index_of n.name s.local_objects ≡ none
unfolding get_object find
not_local n s h = elim (Option-cases (index_of n.name s.local_objects)) [
  | inl e ↦ e
  | inr (i, e) ↦ elim (Option-cases (get_elem? s.local_objects i)) [
    | inl k ↦ absurd (index-found n.name s.local_objects i e k)
    | inr (o, k) ↦ let bad = rw (get_object, find, e, k) at h in cc
  ]
]

add-new :
    (n : Named) (s : Scope)
    → get_object n.name s ≡ none
    → (add_to_scope n s).0 ≡ record s { local_objects = s.local_objects ++ n ∷ [] }
unfolding add
add-new n s h = add_to_scope-new n s h ∙ rw (add, not_local n s h) refl

scope-add :
    (o : Object) (text : Text) (p : Program) (l : Listener) (e : Entity) (es : List Entity)
    → l.stack ≡ e ∷ es
    → is_code_entity e.kind ≡ true
    → is_class_entity e.kind ≡ false
    → scope_of (update_top (with_object o text) (record l { program = p }))
      ≡ record (scope_of l) { local_objects = (scope_of l).local_objects ++ o.named ∷ [] }
unfolding update_top top code_entities
scope-add o text p l e es h c k = rw h (
    rw c (
      rw k (
        ap
          (λ ns. record {
            local_objects = ns;
            parents = parents e.known (code_entities es) l.program_objects;
          })
          (map-append e.local_objects o))))

code-class : (k : Kind) → is_code_entity k ≡ true → is_class_entity k ≡ false
unfolding is_code_entity
code-class (class_entity c) h = cc
code-class _ h = refl

taken-new :
    (o : Object) (l : Listener)
    → takes_object o l ≡ true
    → get_object o.named.name (scope_of l) ≡ none
unfolding takes_object
taken-new o l h = elim (Option-cases (get_object o.named.name (scope_of l))) [
  | inl e ↦ e
  | inr (n, e) ↦ let bad = rw (takes_object, e) at h in cc
]

-- When `add_object` takes an object for a code entity on the stack and ends, the names that the entity sees
-- are those that `add_object` of bpp_entity.cpp makes of the names that it saw before.
pub add_object-scope :
    (o : Object) (make_local : Bool) (l l' : Listener) (e : Entity) (es : List Entity)
    → l.stack ≡ e ∷ es
    → is_code_entity e.kind ≡ true
    → takes_object o l ≡ true
    → add_object o make_local l ≡ done l'
    → scope_of l' ≡ (add_to_scope o.named (scope_of l)).0
unfolding add_object
add_object-scope o make_local l l' e es s c t h = elim (Option-cases (object_code o make_local l)) [
  | inl n ↦ let bad = rw (add_object, t, n) at h in cc
  | inr ((text, p), n) ↦
      let same : done (update_top (with_object o text) (record l { program = p })) ≡ done l' =
        rw (add_object, t, n) at h in
      let after : l' ≡ update_top (with_object o text) (record l { program = p }) = cc in
      ap scope_of after
      ∙ scope-add o text p l e es s c (code-class e.kind c)
      ∙ sym (add-new o.named (scope_of l) (taken-new o l t))
]
