-- ===== src/Classes/Members/Insert.antt =====
-- A successful `add_method` is an insertion into the map from names to methods.
use bashpp.Prelude.{
  ℕ, true, false, not, ◌&&◌, List, [], ◌∷◌, ◌++◌, none, some, ◌≡◌, sym, ◌∙◌, ap, subst, arith, inl,
  inr, if◌then◌else◌, Text, same_text, same_text_iff, Option-cases, Bool-cases,
}
use bashpp.Classes.Store.{Store, modify_method}
use bashpp.Classes.Members.{
  find_method, find_datamember, erase_first, erase_all, methods_of, datamembers_of, to_primitive,
  remove_default_to_primitive, take_over_to_primitive, claim_to_primitive, override_method,
  append_method, place_method, add_method, may_override, is_public, settle_last_override,
  settle_containing_class,
}
use bashpp.Classes.Members.Lists.{Distinct}
use bashpp.Classes.Members.Frame.{
  Keeps, take_over_to_primitive-Keeps, override_method-Keeps, add_method-Keeps,
}
use bashpp.Classes.Members.Clears.{
  SameNames, find_method-ext, Distinct-ext, Clears, find_datamember-ext, erase_all-ext, Clears-refl,
  Clears-erase_first, Clears-erase_all, find_pushed, Clears-trans,
}

-- The method `m` was pushed behind a cleared list, and no data member has its name.
pub record Added (c m : ℕ) (s t : Store) : Type 0 where
  pub base : List ℕ
  pub pushed : methods_of t c ≡ base ++ m ∷ []
  pub cleared : Clears s (s.method m).name (methods_of s c) base
  pub no_data : find_datamember s (s.method m).name (datamembers_of s c) ≡ none

settle_methods :
    (c m : ℕ) (s : Store)
    → methods_of (settle_containing_class c m (settle_last_override c m s)) c ≡ methods_of s c
settle_methods c m s = ground arith

append_method_lists :
    (c m : ℕ) (s : Store)
    → (append_method c m s).1 ≡ true
    → (methods_of (append_method c m s).0 c ≡ methods_of s c ++ m ∷ [])
      × (find_datamember s (s.method m).name (datamembers_of s c) ≡ none)
unfolding append_method
append_method_lists c m s h = ground (arith, settle_methods c m s)

override_methods :
    (c m old : ℕ) (s : Store)
    → methods_of (override_method c m old s) c ≡ erase_first s (s.method m).name (methods_of s c)
unfolding override_method
override_methods c m old s = ground arith

take_over_methods :
    (c m : ℕ) (s : Store)
    → (s.class_at c).has_custom_to_primitive ≡ false
    → methods_of (take_over_to_primitive c m s) c
      ≡ erase_all
          (modify_method (claim_to_primitive (s.class_at c).name c) m s)
          to_primitive
          (methods_of s c)
unfolding take_over_to_primitive remove_default_to_primitive
take_over_methods c m s h = ground arith

append_method-Added :
    (c m : ℕ) (s : Store)
    → find_method s (s.method m).name (methods_of s c) ≡ none
    → (append_method c m s).1 ≡ true
    → Added c m s (append_method c m s).0
append_method-Added c m s e h =
    let (list, no_data) = append_method_lists c m s h in
    record {
      base = methods_of s c;
      pushed = list;
      cleared = Clears-refl s _ _ e;
      no_data = no_data;
    }

data_lookup-Keeps :
    (c m : ℕ) (s t : Store)
    → Keeps c s t
    → find_datamember t (t.method m).name (datamembers_of t c)
      ≡ find_datamember s (s.method m).name (datamembers_of s c)
data_lookup-Keeps c m s t k =
    rw (k.names m)
      (rw k.fields_kept (find_datamember-ext s t _ _ λ j. ap (λ v. v.name) (k.data_kept j)))

-- A push onto a store that came from `s` by clearing the list of the class.
Added-after :
    (c m : ℕ) (s u : Store) (base : List ℕ)
    → Keeps c s u
    → methods_of u c ≡ base
    → Clears s (s.method m).name (methods_of s c) base
    → (append_method c m u).1 ≡ true
    → Added c m s (append_method c m u).0
Added-after c m s u base k e cleared h =
    let (list, no_data) = append_method_lists c m u h in
    record {
      base = base;
      pushed = list ∙ ap (λ b. b ++ m ∷ []) e;
      cleared = cleared;
      no_data = sym (data_lookup-Keeps c m s u k) ∙ no_data;
    }

place_method_override :
    (c m old : ℕ) (s : Store)
    → find_method s (s.method m).name (methods_of s c) ≡ some old
    → place_method c m s
      ≡ (if may_override s c old then append_method c m (override_method c m old s) else (s, false))
unfolding place_method
place_method_override c m old s e = rw (e, place_method)

place_method-Added :
    (c m : ℕ) (s : Store)
    → Distinct s (methods_of s c)
    → (place_method c m s).1 ≡ true
    → Added c m s (place_method c m s).0
place_method-Added c m s d h =
    elim (Option-cases (find_method s (s.method m).name (methods_of s c))) [
      | inl e ↦
          unfold place_method in
          rw (e, place_method) (append_method-Added c m s e (rw (e, place_method) at h))
      | inr (old, e) ↦ elim (Bool-cases (may_override s c old)) [
        | inl may ↦
            let step : place_method c m s ≡ append_method c m (override_method c m old s) =
              ground (arith, place_method_override c m old s e) in
            rw step (
              Added-after c m s (override_method c m old s)
                (erase_first s (s.method m).name (methods_of s c)) (override_method-Keeps c m old s)
                (override_methods c m old s) (Clears-erase_first s _ _ d) (rw step at h))
        | inr may_not ↦ absurd (ground (arith, place_method_override c m old s e))
      ]
    ]

Clears-ext :
    (s u : Store) (k : Text) (ms base : List ℕ)
    → SameNames s u
    → Clears u k ms base
    → Clears s k ms base
Clears-ext s u k ms base h cl = record {
  gone = sym (find_method-ext s u k base h) ∙ cl.gone;
  rest = λ n ne. sym (find_method-ext s u n base h) ∙ cl.rest n ne ∙ find_method-ext s u n ms h;
  distinct = λ d. Distinct-ext u s base (λ j. sym (h j)) (cl.distinct (Distinct-ext s u ms h d));
}

Added-trans :
    (c m : ℕ) (s u t : Store)
    → Keeps c s u
    → Clears s (s.method m).name (methods_of s c) (methods_of u c)
    → Added c m u t
    → Added c m s t
Added-trans c m s u t k cleared a = record {
  base = a.base;
  pushed = a.pushed;
  cleared = Clears-trans cleared (
      Clears-ext s u _ _ _ k.names
        (subst (λ n. Clears u n (methods_of u c) a.base) (k.names m) a.cleared));
  no_data = sym (data_lookup-Keeps c m s u k) ∙ a.no_data;
}

take_over-Clears :
    (c m : ℕ) (s : Store)
    → same_text (s.method m).name to_primitive ≡ true
    → (s.class_at c).has_custom_to_primitive ≡ false
    → Clears s (s.method m).name (methods_of s c) (methods_of (take_over_to_primitive c m s) c)
take_over-Clears c m s e custom =
    rw (take_over_methods c m s custom ∙ erase_all-ext s _ to_primitive _ (λ k. ground arith))
      (rw ((same_text_iff _ _).0 e) (Clears-erase_all s to_primitive (methods_of s c)))

-- Once a class accepts a method, its methods are those it had under other names, and the new one.
pub add_method-Added :
    (c m : ℕ) (s : Store)
    → Distinct s (methods_of s c)
    → (add_method c m s).1 ≡ true
    → Added c m s (add_method c m s).0
unfolding add_method
add_method-Added c m s d h =
    let is_to_primitive = same_text (s.method m).name to_primitive in
    let custom = (s.class_at c).has_custom_to_primitive in
    let u = take_over_to_primitive c m s in
    elim (Bool-cases (is_to_primitive && not custom)) [
      | inl first ↦ elim (Bool-cases (is_public (s.method m).scope)) [
        | inl public ↦
            let step : add_method c m s ≡ place_method c m u = ground arith in
            let k = take_over_to_primitive-Keeps c m s in
            let cleared = take_over-Clears c m s (ground arith) (ground arith) in
            rw step (
              Added-trans c m s u _ k cleared (
                place_method-Added c m u (Distinct-ext s u _ k.names (cleared.distinct d))
                  (rw step at h)))
        | inr hidden ↦ absurd (ground arith)
      ]
      | inr later ↦
          let step : add_method c m s ≡ place_method c m s = ground arith in
          rw step (place_method-Added c m s d (rw step at h))
    ]

-- In a class whose method names are distinct, a successful `add_method` is an insertion: a lookup
-- of the new method's name finds the new method, and a lookup of any other name finds what it
-- found before.
pub find_method-add_method :
    (c m : ℕ) (s : Store) (n : Text)
    → Distinct s (methods_of s c)
    → (add_method c m s).1 ≡ true
    → find_method (add_method c m s).0 n (methods_of (add_method c m s).0 c)
      ≡ (if same_text (s.method m).name n then some m else find_method s n (methods_of s c))
find_method-add_method c m s n d h =
    let t = (add_method c m s).0 in
    let a = add_method-Added c m s d h in
    find_method-ext s t n (methods_of t c) (add_method-Keeps c m s).names
    ∙ ap (find_method s n) a.pushed
    ∙ find_pushed s n m (methods_of s c) a.base a.cleared
