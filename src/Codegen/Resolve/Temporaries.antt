-- ===== src/Codegen/Resolve/Temporaries.antt =====
-- The temporaries that the code of a resolved reference declares and removes.
use bashpp.Prelude.{
  ℕ, Bool, true, false, List, [], ◌∷◌, ◌++◌, Option, ◌≡◌, inl, inr, refl, sym, ◌∙◌, ap, subst,
  if◌then◌else◌, Text, lit, concat, append-nil, append_assoc,
}
use bashpp.Classes.Store.{Store}
use bashpp.Codegen.Segments.{CodeSegment}
use bashpp.Codegen.Resolve.{
  Object, resolved, EntityReference, lvalue, rvalue, prefix, declaration, removal, enter_datamember,
  enter_method, resolve_rest, start, resolve_reference_impl,
}
use bashpp.Codegen.Resolve.Walk.{
  resolve_step-Stepped, resolve_rest-step, resolve_reference_impl-start,
}

-- The lines that declare temporaries, each a name and a value, and those that remove them.
abbrev pub declarations : Bool → List (Text × Text) → Text
declarations dl [] = []
declarations dl ((name, value) ∷ ts) =
    concat (prefix dl ∷ name ∷ lit "=" ∷ value ∷ lit "\n" ∷ []) ++ declarations dl ts

abbrev pub removals : List (Text × Text) → Text
removals [] = []
removals ((name, value) ∷ ts) = concat (lit "unset " ∷ name ∷ lit "\n" ∷ []) ++ removals ts

-- The pre-code of a segment declares some temporaries, and its post-code removes the same ones.
abbrev pub Balanced : Bool → CodeSegment → Type 0
Balanced dl c =
    (ts : List (Text × Text)) × (c.pre_code ≡ declarations dl ts) × (c.post_code ≡ removals ts)

declarations-push :
    (dl : Bool) (ts : List (Text × Text)) (name value : Text)
    → declarations dl (ts ++ (name, value) ∷ [])
      ≡ declarations dl ts ++ concat (prefix dl ∷ name ∷ lit "=" ∷ value ∷ lit "\n" ∷ [])
declarations-push dl [] name value = append-nil _
declarations-push dl ((n, v) ∷ ts) name value =
    ap (λ rest. concat (prefix dl ∷ n ∷ lit "=" ∷ v ∷ lit "\n" ∷ []) ++ rest)
      (declarations-push dl ts name value)
    ∙ sym
        (append_assoc (concat (prefix dl ∷ n ∷ lit "=" ∷ v ∷ lit "\n" ∷ [])) (declarations dl ts) _)

removals-push :
    (ts : List (Text × Text)) (name value : Text)
    → removals (ts ++ (name, value) ∷ [])
      ≡ removals ts ++ concat (lit "unset " ∷ name ∷ lit "\n" ∷ [])
removals-push [] name value = append-nil _
removals-push ((n, v) ∷ ts) name value =
    ap (λ rest. concat (lit "unset " ∷ n ∷ lit "\n" ∷ []) ++ rest) (removals-push ts name value)
    ∙ sym (append_assoc (concat (lit "unset " ∷ n ∷ lit "\n" ∷ [])) (removals ts) _)

either-Balanced :
    (dl b : Bool) (x y : EntityReference)
    → Balanced dl x.reference_code
    → Balanced dl y.reference_code
    → Balanced dl (if b then x else y).reference_code
either-Balanced dl true x y h k = h
either-Balanced dl false x y h k = k

enter_datamember-Balanced :
    (s : Store) (dl : Bool) (id : Text) (d : ℕ) (r : EntityReference)
    → Balanced dl r.reference_code
    → Balanced dl (enter_datamember s dl id d r).reference_code
unfolding enter_datamember
enter_datamember-Balanced s dl id d r (ts, pre, post) =
    either-Balanced dl r.created_first_temporary_variable _ _
      (
        ts ++ (lvalue id r, rvalue id r) ∷ [],
        ap (λ x. x ++ declaration dl id r) pre
            ∙ sym (declarations-push dl ts (lvalue id r) (rvalue id r)),
        ap (λ x. x ++ removal id r) post ∙ sym (removals-push ts (lvalue id r) (rvalue id r)),
      )
      (ts, pre, post)

resolve_rest-Balanced :
    (s : Store) (dl : Bool) (current : Option ℕ) (ids : List Text) (r r' : EntityReference)
    → Balanced dl r.reference_code
    → resolve_rest s dl current ids r ≡ resolved r'
    → Balanced dl r'.reference_code
unfolding resolve_rest enter_method
resolve_rest-Balanced s dl current [] r r' b e =
    subst (λ q. Balanced dl q.reference_code) (same e) b
  where
    same : {q : EntityReference} → resolved r ≡ resolved q → r ≡ q
    same h = cc
resolve_rest-Balanced s dl current (id ∷ ids) r r' b e =
    let (q, step, rest) = resolve_rest-step s dl current id ids r r' e in
    let (c, found, how) = (resolve_step-Stepped s dl current id r q step).1 in
    resolve_rest-Balanced s dl current ids q r'
      (elim how [
        | inl (d, access, is_q) ↦
            subst (λ x. Balanced dl x.reference_code) (sym is_q)
              (enter_datamember-Balanced s dl id d r b)
        | inr (m, access, is_q) ↦ subst (λ x. Balanced dl x.reference_code) (sym is_q) b
      ])
      rest

-- The code of a resolved reference declares its temporaries in the pre-code and unsets exactly those,
-- in the same order, in the post-code.
pub resolve_reference_impl-Balanced :
    (s : Store) (object_of : Text → Option Object) (current : Option ℕ) (declare_local : Bool)
    (first : Text) (ids : List Text) (r : EntityReference)
    → resolve_reference_impl s object_of current declare_local first ids ≡ resolved r
    → Balanced declare_local r.reference_code
resolve_reference_impl-Balanced s object_of current dl first ids r e =
    let (p, _, rest) = resolve_reference_impl-start s object_of current dl first ids r e in
    resolve_rest-Balanced s dl p.current_class ids (start current p) r ([], refl, refl) rest
