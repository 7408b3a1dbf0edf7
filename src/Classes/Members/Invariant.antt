-- ===== src/Classes/Members/Invariant.antt =====
-- Within a class every name is taken once, by a method or by a data member.
use bashpp.Prelude.{
  ℕ, true, List, [], ◌∷◌, ◌++◌, none, some, ◌≡◌, refl, sym, ◌∙◌, ap, subst, arith, ◌⊎◌,
  if◌then◌else◌, Text, same_text, same_text_iff,
}
use bashpp.Classes.Store.{Store}
use bashpp.Classes.Members.{
  find_method, find_datamember, methods_of, datamembers_of, add_method, add_datamember,
}
use bashpp.Classes.Members.Lists.{Distinct, Distinct-concat}
use bashpp.Classes.Members.Frame.{Keeps, add_method-Keeps}
use bashpp.Classes.Members.Insert.{add_method-Added, find_method-add_method}
use bashpp.Classes.Members.Clears.{Distinct-ext, find_datamember-ext, SameNames, find_method-ext}

abbrev pub DistinctData : Store → List ℕ → Type 0
DistinctData s [] = Unit {0}
DistinctData s (d ∷ ds) = (find_datamember s (s.datamember d).name ds ≡ none) × DistinctData s ds

pub record IsClass (s : Store) (c : ℕ) : Type 0 where
  pub methods_distinct : Distinct s (methods_of s c)
  pub data_distinct : DistinctData s (datamembers_of s c)
  pub disjoint :
      (n : Text)
      → (find_method s n (methods_of s c) ≡ none)
        ⊎ (find_datamember s n (datamembers_of s c) ≡ none)

abbrev SameDataNames : Store → Store → Type 0
SameDataNames s t = (k : ℕ) → (t.datamember k).name ≡ (s.datamember k).name

DistinctData-ext :
    (s t : Store) (ds : List ℕ) → SameDataNames s t → DistinctData s ds → DistinctData t ds
DistinctData-ext s t [] h d = tt
DistinctData-ext s t (k ∷ ds) h d =
    (rw (h k) (find_datamember-ext s t _ ds h ∙ d.0), DistinctData-ext s t ds h d.1)

data_names : {c : ℕ} {s t : Store} → Keeps c s t → SameDataNames s t
data_names k j = ap (λ v. v.name) (k.data_kept j)

-- A class with distinct member names that accepts a method keeps them distinct.
pub add_method-IsClass :
    (c m : ℕ) (s : Store)
    → IsClass s c
    → (add_method c m s).1 ≡ true
    → IsClass (add_method c m s).0 c
add_method-IsClass c m s v h =
    let t = (add_method c m s).0 in
    let k = add_method-Keeps c m s in
    let a = add_method-Added c m s v.methods_distinct h in
    let law = λ (n : Text). find_method-add_method c m s n v.methods_distinct h in
    record {
      methods_distinct = subst (Distinct t) (sym a.pushed) (
          Distinct-ext s t _ k.names
            (Distinct-concat s m a.base (a.cleared.distinct v.methods_distinct) a.cleared.gone));
      data_distinct =
          subst (DistinctData t) (sym k.fields_kept)
            (DistinctData-ext s t _ (data_names k) v.data_distinct);
      disjoint = λ n.
          let fields : find_datamember t n (datamembers_of t c)
              ≡ find_datamember s n (datamembers_of s c) =
            rw k.fields_kept (find_datamember-ext s t n _ (data_names k)) in
          ground (arith, law n, fields, v.disjoint n, a.no_data, same_text_iff (s.method m).name n);
    }

find_datamember-concat :
    (s : Store) (n : Text) (d : ℕ) (ds : List ℕ)
    → find_datamember s n ds ≡ none
    → find_datamember s n (ds ++ d ∷ [])
      ≡ (if same_text (s.datamember d).name n then some d else none)
unfolding find_datamember
find_datamember-concat s n d [] h = refl
find_datamember-concat s n d (k ∷ ds) h = ground (arith, find_datamember-concat s n d ds)

DistinctData-concat :
    (s : Store) (d : ℕ) (ds : List ℕ)
    → DistinctData s ds
    → find_datamember s (s.datamember d).name ds ≡ none
    → DistinctData s (ds ++ d ∷ [])
unfolding find_datamember
DistinctData-concat s d [] v h = (refl, tt)
DistinctData-concat s d (k ∷ ds) v h = ground (
  arith,
  find_datamember-concat s (s.datamember k).name d ds v.0,
  same_text_iff (s.datamember d).name (s.datamember k).name,
  same_text_iff (s.datamember k).name (s.datamember d).name,
  DistinctData-concat s d ds v.1,
)

-- What `add_datamember` does when it accepts.
add_datamember_accepts :
    (c d : ℕ) (s : Store)
    → (add_datamember c d s).1 ≡ true
    → (find_datamember s (s.datamember d).name (datamembers_of s c) ≡ none)
      × (find_method s (s.datamember d).name (methods_of s c) ≡ none)
      × (datamembers_of (add_datamember c d s).0 c ≡ datamembers_of s c ++ d ∷ [])
      × (methods_of (add_datamember c d s).0 c ≡ methods_of s c)
unfolding add_datamember
add_datamember_accepts c d s h = ground arith

add_datamember_names :
    (c d : ℕ) (s : Store)
    → SameNames s (add_datamember c d s).0 × SameDataNames s (add_datamember c d s).0
unfolding add_datamember
add_datamember_names c d s = ((λ k. ground arith), λ k. ground arith)

-- A class with distinct member names that accepts a data member keeps them distinct.
pub add_datamember-IsClass :
    (c d : ℕ) (s : Store)
    → IsClass s c
    → (add_datamember c d s).1 ≡ true
    → IsClass (add_datamember c d s).0 c
add_datamember-IsClass c d s v h =
    let t = (add_datamember c d s).0 in
    let (fresh, unused, fields, methods) = add_datamember_accepts c d s h in
    let (names, data_names) = add_datamember_names c d s in
    record {
      methods_distinct = rw methods (Distinct-ext s t _ names v.methods_distinct);
      data_distinct =
          rw fields
            (DistinctData-ext s t _ data_names (DistinctData-concat s d _ v.data_distinct fresh));
      disjoint = λ n.
          rw (methods, fields)
            (ground (
              arith,
              find_method-ext s t n (methods_of s c) names,
              find_datamember-ext s t n (datamembers_of s c ++ d ∷ []) data_names,
              find_datamember-concat s n d (datamembers_of s c),
              same_text_iff (s.datamember d).name n,
              v.disjoint n,
            ));
    }
