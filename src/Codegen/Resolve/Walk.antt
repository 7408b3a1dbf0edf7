-- ===== src/Codegen/Resolve/Walk.antt =====
-- What a resolved reference names: a walk along its identifiers.
use bashpp.Prelude.{
  ℕ, Bool, List, [], ◌∷◌, Option, some, ◌≡◌, ◌⊎◌, inl, inr, arith, refl, sym, ◌∙◌, ap, subst, Text,
  lit, contains, Bool-cases, Option-cases,
}
use bashpp.Classes.Store.{Store}
use bashpp.Classes.Lookup.{Access, not_found, inaccessible, member, get_method, get_datamember}
use bashpp.Codegen.Resolve.{
  Object, Entity, datamember_entity, method_entity, ReferenceType, ref_object, ref_primitive,
  ref_method, Resolution, resolved, failed, EntityReference, class_of, enter_datamember,
  enter_method, enter, resolve_step, resolve_rest, start, StartingPoint, starting_point,
  resolve_reference_impl,
}

-- A walk from an entity along member names, each found and open to the class that uses it; a method
-- ends it.
pub data Reaches (s : Store) (current : Option ℕ) : Entity → List Text → Entity → Type 0 where
  here : {e : Entity} → Reaches s current e [] e
  through_datamember :
      {e e' : Entity} {id : Text} {ids : List Text} {c d : ℕ}
      → class_of s e ≡ some c
      → get_datamember s id c current ≡ member d
      → Reaches s current (datamember_entity d) ids e'
      → Reaches s current e (id ∷ ids) e'
  at_method :
      {e : Entity} {id : Text} {c m : ℕ}
      → class_of s e ≡ some c
      → get_method s id c current ≡ member m
      → Reaches s current e (id ∷ []) (method_entity m)

-- A round of the loop went into a data member or into a method.
abbrev pub Stepped : Store → Bool → Option ℕ → Text → EntityReference → EntityReference → Type 0
Stepped s declare_local current id r r' =
    (c : ℕ) × (class_of s r.entity ≡ some c)
    × (((d : ℕ) × (get_datamember s id c current ≡ member d)
          × (r' ≡ enter_datamember s declare_local id d r))
        ⊎ ((m : ℕ) × (get_method s id c current ≡ member m) × (r' ≡ enter_method m c r)))

enter-cases :
    (s : Store) (dl : Bool) (id : Text) (c : ℕ) (data_access method_access : Access)
    (r r' : EntityReference)
    → enter s dl id c data_access method_access r ≡ resolved r'
    → ((d : ℕ) × (data_access ≡ member d) × (r' ≡ enter_datamember s dl id d r))
      ⊎ ((m : ℕ) × (method_access ≡ member m) × (r' ≡ enter_method m c r))
unfolding enter
enter-cases s dl id c inaccessible a r r' e = cc
enter-cases s dl id c not_found inaccessible r r' e = cc
enter-cases s dl id c not_found not_found r r' e = cc
enter-cases s dl id c not_found (member m) r r' e = inr (m, refl, cc)
enter-cases s dl id c (member d) inaccessible r r' e = cc
enter-cases s dl id c (member d) not_found r r' e = inl (d, refl, cc)
enter-cases s dl id c (member d) (member m) r r' e = inr (m, refl, cc)

pub resolve_step-Stepped :
    (s : Store) (dl : Bool) (current : Option ℕ) (id : Text) (r r' : EntityReference)
    → resolve_step s dl current id r ≡ resolved r'
    → (r.last_reference_type ≡ ref_object) × Stepped s dl current id r r'
unfolding resolve_step
resolve_step-Stepped s dl current id r r' e = by_type r.last_reference_type refl
  where
    by_type :
        (t : ReferenceType)
        → r.last_reference_type ≡ t
        → (r.last_reference_type ≡ ref_object) × Stepped s dl current id r r'
    by_type ref_primitive t = let bad = rw (resolve_step, t) at e in cc
    by_type ref_method t = let bad = rw (resolve_step, t) at e in cc
    by_type ref_object t =
        let looked = rw (resolve_step, t) at e in
        (
          t,
          elim (Bool-cases (contains (lit "__") id)) [
            | inl bad ↦ let refused = rw bad at looked in cc
            | inr good ↦
                let entered = rw good at looked in
                elim (Option-cases (class_of s r.entity)) [
                  | inl nothing ↦ let refused = rw nothing at entered in cc
                  | inr (c, found) ↦ (
                    c,
                    found,
                    enter-cases s dl id c (get_datamember s id c current)
                        (get_method s id c current) r r' (rw found at entered),
                  )
                ]
          ],
        )

-- A resolution that starts from a primitive or a method takes no further identifier.
stops :
    (s : Store) (dl : Bool) (current : Option ℕ) (ids : List Text) (r r' : EntityReference)
    → r.last_reference_type ≡ ref_method
    → resolve_rest s dl current ids r ≡ resolved r'
    → (ids ≡ []) × (r' ≡ r)
unfolding resolve_rest
stops s dl current [] r r' t e = (refl, cc)
stops s dl current (id ∷ ids) r r' t e = split (resolve_step s dl current id r) refl
  where
    split :
        (o : Resolution EntityReference)
        → resolve_step s dl current id r ≡ o
        → ((id ∷ ids) ≡ []) × (r' ≡ r)
    split (failed w) h = let bad = rw (resolve_rest, h) at e in cc
    split (resolved q) h = let (is_object, rest) = resolve_step-Stepped s dl current id r q h in cc

pub resolve_rest-step :
    (s : Store) (dl : Bool) (current : Option ℕ) (id : Text) (ids : List Text)
    (r r' : EntityReference)
    → resolve_rest s dl current (id ∷ ids) r ≡ resolved r'
    → (q : EntityReference) × (resolve_step s dl current id r ≡ resolved q)
      × (resolve_rest s dl current ids q ≡ resolved r')
unfolding resolve_rest
resolve_rest-step s dl current id ids r r' e = split (resolve_step s dl current id r) refl
  where
    split :
        (o : Resolution EntityReference)
        → resolve_step s dl current id r ≡ o
        → (q : EntityReference) × (resolve_step s dl current id r ≡ resolved q)
          × (resolve_rest s dl current ids q ≡ resolved r')
    split (failed w) h = let bad = rw (resolve_rest, h) at e in cc
    split (resolved q) h = (q, h, rw (resolve_rest, h) at e)

enter_datamember_entity :
    (s : Store) (dl : Bool) (id : Text) (d : ℕ) (r : EntityReference)
    → (enter_datamember s dl id d r).entity ≡ datamember_entity d
unfolding enter_datamember
enter_datamember_entity s dl id d r = ground arith

-- The loop walks.
pub resolve_rest-Reaches :
    (s : Store) (declare_local : Bool) (current : Option ℕ) (ids : List Text)
    (r r' : EntityReference)
    → resolve_rest s declare_local current ids r ≡ resolved r'
    → Reaches s current r.entity ids r'.entity
unfolding resolve_rest enter_datamember enter_method
resolve_rest-Reaches s dl current [] r r' e =
    subst (λ q. Reaches s current r.entity [] q.entity) (same e) here
  where
    same : {q : EntityReference} → resolved r ≡ resolved q → r ≡ q
    same h = cc
resolve_rest-Reaches s dl current (id ∷ ids) r r' e =
    let (q, step, rest) = resolve_rest-step s dl current id ids r r' e in
    let (c, found, how) = (resolve_step-Stepped s dl current id r q step).1 in
    elim how [
      | inl (d, access, is_q) ↦ through_datamember found access (
          subst (λ x. Reaches s current x ids r'.entity)
            (ap (λ x. x.entity) is_q ∙ enter_datamember_entity s dl id d r)
            (resolve_rest-Reaches s dl current ids q r' rest))
      | inr (m, access, is_q) ↦
          let (none_left, is_last) =
            stops s dl current ids q r' (ap (λ x. x.last_reference_type) is_q) rest in
          subst (λ is. Reaches s current r.entity (id ∷ is) r'.entity) (sym none_left)
            (subst (λ x. Reaches s current r.entity (id ∷ []) x)
              (sym (ap (λ x. x.entity) (is_last ∙ is_q))) (at_method found access))
    ]

pub resolve_reference_impl-start :
    (s : Store) (object_of : Text → Option Object) (current : Option ℕ) (dl : Bool) (first : Text)
    (ids : List Text) (r : EntityReference)
    → resolve_reference_impl s object_of current dl first ids ≡ resolved r
    → (p : StartingPoint) × (starting_point s object_of current first ≡ resolved p)
      × (resolve_rest s dl p.current_class ids (start current p) ≡ resolved r)
unfolding resolve_reference_impl
resolve_reference_impl-start s object_of current dl first ids r e =
    split (starting_point s object_of current first) refl
  where
    split :
        (o : Resolution StartingPoint)
        → starting_point s object_of current first ≡ o
        → (p : StartingPoint) × (starting_point s object_of current first ≡ resolved p)
          × (resolve_rest s dl p.current_class ids (start current p) ≡ resolved r)
    split (failed w) h = let bad = rw (resolve_reference_impl, h) at e in cc
    split (resolved p) h = (p, h, rw (resolve_reference_impl, h) at e)

-- A resolved reference names what a walk along its identifiers reaches from the starting point, each
-- identifier found and open to the class in whose code the reference stands, or to its parent for a
-- reference by `super`.
pub resolve_reference_impl-Reaches :
    (s : Store) (object_of : Text → Option Object) (current : Option ℕ) (declare_local : Bool)
    (first : Text) (ids : List Text) (r : EntityReference)
    → resolve_reference_impl s object_of current declare_local first ids ≡ resolved r
    → (p : StartingPoint) × (starting_point s object_of current first ≡ resolved p)
      × Reaches s p.current_class p.entity ids r.entity
resolve_reference_impl-Reaches s object_of current dl first ids r e =
    let (p, found, rest) = resolve_reference_impl-start s object_of current dl first ids r e in
    (p, found, resolve_rest-Reaches s dl p.current_class ids (start current p) r rest)
