-- ===== src/Classes/Members/Frame.antt =====
-- What the operations on a class leave alone: the name, the scope and the origin of every method,
-- all data members, and every other class.
use bashpp.Prelude.{
  ℕ, zero, suc, Bool, true, false, not, ◌&&◌, List, [], ◌∷◌, ◌++◌, ◌≡◌, refl, ◌∙◌, arith, ◌≢◌,
  if◌then◌else◌, same_text, Option-cases, Bool-cases, inl, inr,
}
use bashpp.Classes.Store.{
  Store, Method, SymbolPosition, set_containing_class, set_last_override, modify_method,
  add_reference, update,
}
use bashpp.Classes.Members.{
  find_method, find_datamember, erase_first, methods_of, datamembers_of,
  remove_default_to_primitive, is_public, settle_last_override, settle_containing_class,
  claim_to_primitive, claim_override, take_over_to_primitive, override_method, append_method,
  place_method, add_method, to_primitive, may_override,
}

pub record Keeps (c : ℕ) (s t : Store) : Type 0 where
  pub names : (k : ℕ) → (t.method k).name ≡ (s.method k).name
  pub scopes : (k : ℕ) → (t.method k).scope ≡ (s.method k).scope
  pub origins : (k : ℕ) → (t.method k).inherited ≡ (s.method k).inherited
  pub data_kept : (k : ℕ) → t.datamember k ≡ s.datamember k
  pub fields_kept : datamembers_of t c ≡ datamembers_of s c
  pub class_name : (t.class_at c).name ≡ (s.class_at c).name
  pub others : (k : ℕ) → k ≢ c → t.class_at k ≡ s.class_at k

pub Keeps-refl : (c : ℕ) (s : Store) → Keeps c s s
Keeps-refl c s = record {
  names = λ k. refl;
  scopes = λ k. refl;
  origins = λ k. refl;
  data_kept = λ k. refl;
  fields_kept = refl;
  class_name = refl;
  others = λ k ne. refl;
}

pub Keeps-trans : {c : ℕ} {s t u : Store} → Keeps c s t → Keeps c t u → Keeps c s u
Keeps-trans p q = record {
  names = λ k. q.names k ∙ p.names k;
  scopes = λ k. q.scopes k ∙ p.scopes k;
  origins = λ k. q.origins k ∙ p.origins k;
  data_kept = λ k. q.data_kept k ∙ p.data_kept k;
  fields_kept = q.fields_kept ∙ p.fields_kept;
  class_name = q.class_name ∙ p.class_name;
  others = λ k ne. q.others k ne ∙ p.others k ne;
}

-- A change of one method's other fields.
abbrev Harmless : (Method → Method) → Type 0
Harmless f =
    ((v : Method) → (f v).name ≡ v.name)
    × ((v : Method) → (f v).scope ≡ v.scope)
    × ((v : Method) → (f v).inherited ≡ v.inherited)

modify_method-Keeps :
    (c m : ℕ) (f : Method → Method) (s : Store) → Harmless f → Keeps c s (modify_method f m s)
modify_method-Keeps c m f s h = record {
  names = λ k. ground (arith, h.0 (s.method m));
  scopes = λ k. ground (arith, h.1 (s.method m));
  origins = λ k. ground (arith, h.2 (s.method m));
  data_kept = λ k. refl;
  fields_kept = refl;
  class_name = refl;
  others = λ k ne. refl;
}

write_class-Keeps :
    (c : ℕ) (s : Store) (ms : List ℕ) (custom : Bool)
    → Keeps c s (record s {
      class_at =
          update s.class_at c
            (record (s.class_at c) { methods = ms; has_custom_to_primitive = custom });
    })
write_class-Keeps c s ms custom = record {
  names = λ k. refl;
  scopes = λ k. refl;
  origins = λ k. refl;
  data_kept = λ k. refl;
  fields_kept = ground arith;
  class_name = ground arith;
  others = λ k ne. ground arith;
}

add_reference-Keeps :
    (c fuel : ℕ) (p : SymbolPosition) (m : ℕ) (s : Store) → Keeps c s (add_reference fuel p m s)
unfolding add_reference
add_reference-Keeps c zero p m s = Keeps-refl c s
add_reference-Keeps c (suc fuel) p m s =
    let f = λ (v : Method). record v { references = v.references ++ p ∷ [] } in
    let here = modify_method-Keeps c m f s ((λ v. refl), (λ v. refl), λ v. refl) in
    elim (Option-cases (s.method m).overridden_method) [
      | inl e ↦ rw (e, add_reference) here
      | inr (o, e) ↦
          rw (e, add_reference)
            (Keeps-trans here (add_reference-Keeps c fuel p o (modify_method f m s)))
    ]

remove_default_to_primitive-Keeps :
    (c : ℕ) (s : Store) → Keeps c s (remove_default_to_primitive c s)
unfolding remove_default_to_primitive
remove_default_to_primitive-Keeps c s = elim (Bool-cases (s.class_at c).has_custom_to_primitive) [
  | inl e ↦ rw e (Keeps-refl c s)
  | inr e ↦ rw e (write_class-Keeps c s _ _)
]

pub take_over_to_primitive-Keeps : (c m : ℕ) (s : Store) → Keeps c s (take_over_to_primitive c m s)
unfolding take_over_to_primitive
take_over_to_primitive-Keeps c m s =
    let f = claim_to_primitive (s.class_at c).name c in
    let s1 = modify_method f m s in
    let s2 = remove_default_to_primitive c s1 in
    Keeps-trans (modify_method-Keeps c m f s ((λ v. refl), (λ v. refl), λ v. refl)) (
      Keeps-trans (remove_default_to_primitive-Keeps c s1)
        (write_class-Keeps c s2 (methods_of s2 c) true))

pub override_method-Keeps : (c m old : ℕ) (s : Store) → Keeps c s (override_method c m old s)
unfolding override_method
override_method-Keeps c m old s =
    let f = claim_override (s.method old).virtual (s.class_at c).name c old in
    let s1 = modify_method f m s in
    let p = (s.method m).initial_definition in
    let s2 = add_reference (suc old) p old s1 in
    let ms = erase_first s (s.method m).name (methods_of s c) in
    Keeps-trans (modify_method-Keeps c m f s ((λ v. refl), (λ v. refl), λ v. refl)) (
      Keeps-trans (add_reference-Keeps c (suc old) p old s1)
        (write_class-Keeps c s2 ms (s2.class_at c).has_custom_to_primitive))

if-Keeps :
    {c : ℕ} {s : Store} (b : Bool) (t u : Store)
    → Keeps c s t
    → Keeps c s u
    → Keeps c s (if b then t else u)
if-Keeps true t u p q = p
if-Keeps false t u p q = q

settle_last_override-Keeps : (c m : ℕ) (s : Store) → Keeps c s (settle_last_override c m s)
settle_last_override-Keeps c m s =
    let f = set_last_override (s.class_at c).name in
    if-Keeps (not (s.method m).inherited && (s.method m).overridable) (modify_method f m s) s
      (modify_method-Keeps c m f s ((λ v. refl), (λ v. refl), λ v. refl)) (Keeps-refl c s)

settle_containing_class-Keeps : (c m : ℕ) (s : Store) → Keeps c s (settle_containing_class c m s)
settle_containing_class-Keeps c m s =
    let f = set_containing_class c in
    if-Keeps (s.method m).inherited s (modify_method f m s) (Keeps-refl c s)
      (modify_method-Keeps c m f s ((λ v. refl), (λ v. refl), λ v. refl))

pub append_method-Keeps : (c m : ℕ) (s : Store) → Keeps c s (append_method c m s).0
unfolding append_method
append_method-Keeps c m s =
    let s1 = settle_last_override c m s in
    let s2 = settle_containing_class c m s1 in
    elim (Option-cases (find_datamember s (s.method m).name (datamembers_of s c))) [
      | inl e ↦
          rw (e, append_method)
            (Keeps-trans (settle_last_override-Keeps c m s) (
              Keeps-trans (settle_containing_class-Keeps c m s1) (
                write_class-Keeps c s2 (methods_of s2 c ++ m ∷ [])
                  (s2.class_at c).has_custom_to_primitive)))
      | inr (d, e) ↦ rw (e, append_method) (settle_last_override-Keeps c m s)
    ]

pub place_method-Keeps : (c m : ℕ) (s : Store) → Keeps c s (place_method c m s).0
unfolding place_method
place_method-Keeps c m s = elim (Option-cases (find_method s (s.method m).name (methods_of s c))) [
  | inl e ↦ rw (e, place_method) (append_method-Keeps c m s)
  | inr (old, e) ↦ elim (Bool-cases (may_override s c old)) [
    | inl may ↦
        rw (e, place_method)
          (rw may (
            Keeps-trans (override_method-Keeps c m old s)
              (append_method-Keeps c m (override_method c m old s))))
    | inr may_not ↦ rw (e, place_method) (rw may_not (Keeps-refl c s))
  ]
]

-- Adding a method to a class changes no name, scope or origin of any method, no data member and no
-- other class, whether it succeeds or not.
pub add_method-Keeps : (c m : ℕ) (s : Store) → Keeps c s (add_method c m s).0
unfolding add_method
add_method-Keeps c m s =
    let tested =
      same_text (s.method m).name to_primitive && not (s.class_at c).has_custom_to_primitive in
    elim (Bool-cases tested) [
      | inl e ↦ elim (Bool-cases (is_public (s.method m).scope)) [
        | inl public ↦ rw e (
            rw public (
              Keeps-trans (take_over_to_primitive-Keeps c m s)
                (place_method-Keeps c m (take_over_to_primitive c m s))))
        | inr hidden ↦ rw e (rw hidden (Keeps-refl c s))
      ]
      | inr e ↦ rw e (place_method-Keeps c m s)
    ]
