-- ===== src/Classes/Members/Clears.antt =====
-- Clearing a name from a list of methods, and lookups in stores with the same names.
use bashpp.Prelude.{
  ℕ, List, [], ◌∷◌, ◌++◌, none, some, ◌≡◌, refl, ◌∙◌, subst, arith, ◌≢◌, inl, inr, if◌then◌else◌,
  Text, same_text, same_text_iff, Bool-cases,
}
use bashpp.Classes.Store.{Store}
use bashpp.Classes.Members.{find_method, find_datamember, erase_first, erase_all}
use bashpp.Classes.Members.Lists.{
  Distinct, find_method-concat, find_method-concat_ne, find_method-erase_first_ne,
  find_method-erase_all_ne, find_method-erase_all_self, find_method-erase_first_self,
  Distinct-erase_first, Distinct-erase_all,
}

abbrev pub SameNames : Store → Store → Type 0
SameNames s t = (k : ℕ) → (t.method k).name ≡ (s.method k).name

pub find_method-ext :
    (s t : Store) (n : Text) (ms : List ℕ) → SameNames s t → find_method t n ms ≡ find_method s n ms
unfolding find_method
find_method-ext s t n [] h = refl
find_method-ext s t n (m ∷ ms) h = rw (h m) (rw (find_method-ext s t n ms h))

pub erase_first-ext :
    (s t : Store) (n : Text) (ms : List ℕ) → SameNames s t → erase_first t n ms ≡ erase_first s n ms
unfolding erase_first
erase_first-ext s t n [] h = refl
erase_first-ext s t n (m ∷ ms) h = rw (h m) (rw (erase_first-ext s t n ms h))

pub erase_all-ext :
    (s t : Store) (n : Text) (ms : List ℕ) → SameNames s t → erase_all t n ms ≡ erase_all s n ms
unfolding erase_all
erase_all-ext s t n [] h = refl
erase_all-ext s t n (m ∷ ms) h = rw (h m) (rw (erase_all-ext s t n ms h))

pub Distinct-ext : (s t : Store) (ms : List ℕ) → SameNames s t → Distinct s ms → Distinct t ms
Distinct-ext s t [] h d = tt
Distinct-ext s t (m ∷ ms) h d =
    (rw (h m) (find_method-ext s t _ ms h ∙ d.0), Distinct-ext s t ms h d.1)

-- `base` is `ms` with nothing left under the name `k`, and unchanged elsewhere.
pub record Clears (s : Store) (k : Text) (ms base : List ℕ) : Type 0 where
  pub gone : find_method s k base ≡ none
  pub rest : (n : Text) → n ≢ k → find_method s n base ≡ find_method s n ms
  pub distinct : Distinct s ms → Distinct s base

pub Clears-refl :
    (s : Store) (k : Text) (ms : List ℕ) → find_method s k ms ≡ none → Clears s k ms ms
Clears-refl s k ms e = record { gone = e; rest = λ n ne. refl; distinct = λ d. d }

pub Clears-erase_first :
    (s : Store) (k : Text) (ms : List ℕ) → Distinct s ms → Clears s k ms (erase_first s k ms)
Clears-erase_first s k ms d = record {
  gone = find_method-erase_first_self s k ms d;
  rest = λ n ne. find_method-erase_first_ne s n k ms ne;
  distinct = Distinct-erase_first s k ms;
}

pub Clears-erase_all : (s : Store) (k : Text) (ms : List ℕ) → Clears s k ms (erase_all s k ms)
Clears-erase_all s k ms = record {
  gone = find_method-erase_all_self s k ms;
  rest = λ n ne. find_method-erase_all_ne s n k ms ne;
  distinct = Distinct-erase_all s k ms;
}

pub find_pushed :
    (s : Store) (n : Text) (m : ℕ) (ms base : List ℕ)
    → Clears s (s.method m).name ms base
    → find_method s n (base ++ m ∷ [])
      ≡ (if same_text (s.method m).name n then some m else find_method s n ms)
find_pushed s n m ms base cl = elim (Bool-cases (same_text (s.method m).name n)) [
  | inl e ↦
      let same = (same_text_iff (s.method m).name n).0 e in
      rw e (
        find_method-concat s n m base (subst (λ k. find_method s k base ≡ none) same cl.gone)
        ∙ rw e)
  | inr e ↦
      let other : n ≢ (s.method m).name = λ q. ground (arith, same_text_iff (s.method m).name n) in
      rw e (find_method-concat_ne s n m base e ∙ cl.rest n other)
]

pub Clears-trans :
    {s : Store} {k : Text} {ms base final : List ℕ}
    → Clears s k ms base
    → Clears s k base final
    → Clears s k ms final
Clears-trans p q = record {
  gone = q.gone;
  rest = λ n ne. q.rest n ne ∙ p.rest n ne;
  distinct = λ d. q.distinct (p.distinct d);
}

pub find_datamember-ext :
    (s t : Store) (n : Text) (ds : List ℕ)
    → ((k : ℕ) → (t.datamember k).name ≡ (s.datamember k).name)
    → find_datamember t n ds ≡ find_datamember s n ds
unfolding find_datamember
find_datamember-ext s t n [] h = refl
find_datamember-ext s t n (d ∷ ds) h = rw (h d) (rw (find_datamember-ext s t n ds h))
