-- ===== src/Entities/Visibility.antt =====
-- Which of the entities of a list a lookup sees.
use bashpp.Prelude.{
  Bool, sym, ℕ, zero, suc, ◌<◌, true, false, List, [], ◌∷◌, ◌++◌, Option, none, some, ◌≡◌, refl,
  ◌∙◌, ap, arith, length, length-append, get_elem?, ltb, leb, if◌then◌else◌, Text, same_text,
  same_text_iff, same_text_refl, Bool-cases, Option-cases, inl, inr,
}
use bashpp.Entities.{Named, index_of, add, find, get_class, get_all_known_classes, take}

abbrev index_after : Option ℕ → Text → Named → ℕ → Option ℕ
index_after (some i) name e n = some i
index_after none name e n = if same_text e.name name then some n else none

index_of-append :
    (name : Text) (e : Named) (es : List Named)
    → index_of name (es ++ e ∷ []) ≡ index_after (index_of name es) name e (length es)
unfolding index_of
index_of-append name e [] = ground arith
index_of-append name e (x ∷ es) = ground (arith, index_of-append name e es)

index_of-bound : (name : Text) (es : List Named) (i : ℕ) → index_of name es ≡ some i → i < length es
unfolding index_of
index_of-bound name [] i h = cc
index_of-bound name (x ∷ es) i h = elim (Option-cases (index_of name es)) [
  | inl e ↦ ground arith
  | inr (j, e) ↦ let below = index_of-bound name es j e in ground (arith, below)
]

get_elem?-append :
    (es : List Named) (e : Named) (i : ℕ)
    → i < length es
    → get_elem? (es ++ e ∷ []) i ≡ get_elem? es i
get_elem?-append [] e i h = absurd (omega arith)
get_elem?-append (x ∷ es) e zero h = refl
get_elem?-append (x ∷ es) e (suc i) h = get_elem?-append es e i (omega arith)

get_elem?-last : (es : List Named) (e : Named) → get_elem? (es ++ e ∷ []) (length es) ≡ some e
get_elem?-last [] e = refl
get_elem?-last (x ∷ es) e = get_elem?-last es e

take-all : (es : List Named) (e : Named) → take (length es) (es ++ e ∷ []) ≡ es
unfolding take
take-all [] e = refl
take-all (x ∷ es) e = ap (λ r. x ∷ r) (take-all es e)

add_accepts :
    (e : Named) (es : List Named)
    → (add e es).1 ≡ true
    → (index_of e.name es ≡ none) × ((add e es).0 ≡ es ++ e ∷ [])
unfolding add
add_accepts e es h = elim (Option-cases (index_of e.name es)) [
  | inl none_yet ↦ (none_yet, rw (add, none_yet) refl)
  | inr (i, taken) ↦ let bad = rw (add, taken) at h in cc
]

-- After an accepted `add`, the new name is found as the new entity, and every other name as before.
pub find-added :
    (e : Named) (es : List Named) (name : Text)
    → (add e es).1 ≡ true
    → find name none (add e es).0 ≡ (if same_text e.name name then some e else find name none es)
unfolding find
find-added e es name h =
    let (fresh, is_push) = add_accepts e es h in
    let last = get_elem?-last es e in
    let place = index_of-append name e es in
    ap (find name none) is_push ∙ elim (Option-cases (index_of name es)) [
      | inl unknown ↦ elim (Bool-cases (same_text e.name name)) [
        | inl same ↦
            let at_end : index_of name (es ++ e ∷ []) ≡ some (length es) =
              place ∙ ap (λ o. index_after o name e (length es)) unknown ∙ rw same refl in
            rw (find, at_end) (rw same last)
        | inr differs ↦
            let nowhere : index_of name (es ++ e ∷ []) ≡ none =
              place ∙ ap (λ o. index_after o name e (length es)) unknown ∙ rw differs refl in
            rw (find, nowhere) (rw differs (rw (find, unknown) refl))
      ]
      | inr (i, known) ↦
          let kept : index_of name (es ++ e ∷ []) ≡ some i =
            place ∙ ap (λ o. index_after o name e (length es)) known in
          let differs : same_text e.name name ≡ false = other_name name i known fresh in
          rw (find, kept)
            (rw differs
              (rw (find, known) (get_elem?-append es e i (index_of-bound name es i known))))
    ]
  where
    other_name :
        (n : Text) (i : ℕ)
        → index_of n es ≡ some i
        → index_of e.name es ≡ none
        → same_text e.name n ≡ false
    other_name n i known fresh = elim (Bool-cases (same_text e.name n)) [
      | inl same ↦ let equal = (same_text_iff e.name n).0 same in let bad = rw equal at fresh in cc
      | inr differs ↦ differs
    ]

elem_at-index :
    (name : Text) (es : List Named) (i : ℕ)
    → index_of name es ≡ some i
    → (o : Named) × (find name none es ≡ some o)
unfolding find
elem_at-index name es i h =
    let (o, e) = below es i (index_of-bound name es i h) in (o, rw (find, h) e)
  where
    below : (es : List Named) (i : ℕ) → i < length es → (o : Named) × (get_elem? es i ≡ some o)
    below [] i h = absurd (omega arith)
    below (x ∷ es) zero h = (x, refl)
    below (x ∷ es) (suc i) h = below es i (omega arith)

abbrev pub is_missing : Option Named → Bool
is_missing none = true
is_missing (some o) = false

abbrev pub or_else : Option Named → Option Named → Option Named
or_else none y = y
or_else (some o) y = some o

or_else-none : (x : Option Named) → or_else x none ≡ x
or_else-none none = refl
or_else-none (some o) = refl

new-or_else :
    (e : Named) (es : List Named) (name : Text)
    → index_of e.name es ≡ none
    → (if same_text e.name name then some e else find name none es)
      ≡ or_else (find name none es) (if same_text e.name name then some e else none)
unfolding find
new-or_else e es name fresh = elim (Bool-cases (same_text e.name name)) [
  | inl same ↦
      let equal : e.name ≡ name = (same_text_iff e.name name).0 same in
      let missing : find name none es ≡ none =
        ap (λ n. find n none es) (sym equal) ∙ rw (find, fresh) refl in
      rw same (rw missing refl)
  | inr differs ↦ rw differs (sym (or_else-none (find name none es)))
]

old-or_else :
    (e o : Named) (es : List Named) (name : Text)
    → find e.name none es ≡ some o
    → find name none es
      ≡ or_else (find name none es) (if same_text e.name name then some e else none)
old-or_else e o es name found = elim (Bool-cases (same_text e.name name)) [
  | inl same ↦
      let equal : e.name ≡ name = (same_text_iff e.name name).0 same in
      let known : find name none es ≡ some o = ap (λ n. find n none es) (sym equal) ∙ found in
      rw same (rw known refl)
  | inr differs ↦ rw differs (sym (or_else-none (find name none es)))
]

-- A list accepts an entity exactly if its name is not found in it. Afterwards, whether it was accepted or
-- not, a name that was found is found as before, and of the others the entity's own name is found, as the
-- entity, and no more.
pub find-add :
    (e : Named) (es : List Named) (name : Text)
    → ((add e es).1 ≡ is_missing (find e.name none es))
      × (find name none (add e es).0
          ≡ or_else (find name none es) (if same_text e.name name then some e else none))
unfolding add find
find-add e es name = elim (Option-cases (index_of e.name es)) [
  | inl fresh ↦
      let accepted : (add e es).1 ≡ true = rw (add, fresh) refl in
      (rw (add, find, fresh) refl, find-added e es name accepted ∙ new-or_else e es name fresh)
  | inr (i, known) ↦
      let (o, found) = elem_at-index e.name es i known in
      (rw (add, known) (ap is_missing (sym found)), rw (add, known) (old-or_else e o es name found))
]

-- The class that is added right after an entity was made is visible to the entity by its name, although
-- the list of the classes that the entity knows leaves it out.
pub get_class-add :
    (c : Named) (cs : List Named)
    → (add c cs).1 ≡ true
    → (get_class c.name (length cs) (add c cs).0 ≡ some c)
      × (get_all_known_classes (length cs) (add c cs).0 ≡ cs)
unfolding get_class get_all_known_classes find
get_class-add c cs h =
    let (fresh, is_push) = add_accepts c cs h in
    let longer : ltb (length cs) (length (cs ++ c ∷ [])) ≡ true =
      ground (arith, length-append cs (c ∷ [])) in
    let at_end : index_of c.name (cs ++ c ∷ []) ≡ some (length cs) =
      index_of-append c.name c cs
      ∙ ap (λ o. index_after o c.name c (length cs)) fresh
      ∙ rw (same_text_refl c.name) refl in
    let allowed : leb (length cs) (length cs) ≡ true = ground arith in
    (
      ap (find c.name (some (length cs))) is_push
          ∙ rw (find, at_end) (rw allowed (get_elem?-last cs c)),
      ap (get_all_known_classes (length cs)) is_push ∙ rw longer (take-all cs c),
    )

get_elem?-total :
    (es : List Named) (i : ℕ) → i < length es → (e : Named) × (get_elem? es i ≡ some e)
get_elem?-total [] i h = absurd (omega arith)
get_elem?-total (x ∷ es) zero h = (x, refl)
get_elem?-total (x ∷ es) (suc i) h = get_elem?-total es i (omega arith)

-- A name that is not found is open to a new entity.
pub add-find-none : (e : Named) (es : List Named) → find e.name none es ≡ none → (add e es).1 ≡ true
unfolding find add
add-find-none e es h = elim (Option-cases (index_of e.name es)) [
  | inl unknown ↦ rw (add, unknown) refl
  | inr (i, known) ↦
      let (x, at_i) = get_elem?-total es i (index_of-bound e.name es i known) in
      let read = rw (find, known) at h in absurd (cc)
]
