-- ===== src/Classes/Members/Lists.antt =====
-- Searching and erasing by name in a list of methods.
use bashpp.Prelude.{
  ℕ, true, false, List, [], ◌∷◌, ◌++◌, none, some, ◌≡◌, refl, sym, ◌∙◌, arith, inl, inr,
  if◌then◌else◌, Text, same_text, same_text_iff, ◌≢◌, Bool-cases,
}
use bashpp.Classes.Store.{Store}
use bashpp.Classes.Members.{find_method, erase_first, erase_all}

module _ (s : Store) where
  pub find_method-concat :
      (n : Text) (m : ℕ) (ms : List ℕ)
      → find_method s n ms ≡ none
      → find_method s n (ms ++ m ∷ []) ≡ (if same_text (s.method m).name n then some m else none)
  unfolding find_method
  find_method-concat n m [] h = refl
  find_method-concat n m (k ∷ ms) h = ground (arith, find_method-concat n m ms)

  pub find_method-concat_some :
      (n : Text) (m o : ℕ) (ms : List ℕ)
      → find_method s n ms ≡ some o
      → find_method s n (ms ++ m ∷ []) ≡ some o
  unfolding find_method
  find_method-concat_some n m o [] h = cc
  find_method-concat_some n m o (k ∷ ms) h = ground (arith, find_method-concat_some n m o ms)

  pub find_method-concat_ne :
      (n : Text) (m : ℕ) (ms : List ℕ)
      → same_text (s.method m).name n ≡ false
      → find_method s n (ms ++ m ∷ []) ≡ find_method s n ms
  unfolding find_method
  find_method-concat_ne n m [] h = ground arith
  find_method-concat_ne n m (k ∷ ms) h = ground (arith, find_method-concat_ne n m ms h)

  -- Two tests against one text exclude each other when the texts differ.
  pub same_text_ne : (t n k : Text) → n ≢ k → same_text t k ≡ true → same_text t n ≡ false
  same_text_ne t n k ne e = elim (Bool-cases (same_text t n)) [
    | inl also ↦ absurd (ne (sym ((same_text_iff t n).0 also) ∙ (same_text_iff t k).0 e))
    | inr not_it ↦ not_it
  ]

  pub find_method-erase_first_ne :
      (n k : Text) (ms : List ℕ) → n ≢ k → find_method s n (erase_first s k ms) ≡ find_method s n ms
  unfolding find_method erase_first
  find_method-erase_first_ne n k [] ne = refl
  find_method-erase_first_ne n k (m ∷ ms) ne =
      ground (arith, same_text_ne (s.method m).name n k ne, find_method-erase_first_ne n k ms ne)

  pub find_method-erase_all_ne :
      (n k : Text) (ms : List ℕ) → n ≢ k → find_method s n (erase_all s k ms) ≡ find_method s n ms
  unfolding find_method erase_all
  find_method-erase_all_ne n k [] ne = refl
  find_method-erase_all_ne n k (m ∷ ms) ne =
      ground (arith, same_text_ne (s.method m).name n k ne, find_method-erase_all_ne n k ms ne)

  pub find_method-erase_all_self :
      (k : Text) (ms : List ℕ) → find_method s k (erase_all s k ms) ≡ none
  unfolding find_method erase_all
  find_method-erase_all_self k [] = refl
  find_method-erase_all_self k (m ∷ ms) = ground (arith, find_method-erase_all_self k ms)

  -- The names of the methods are distinct.
  abbrev pub Distinct : List ℕ → Type 0
  Distinct [] = Unit {0}
  Distinct (m ∷ ms) = (find_method s (s.method m).name ms ≡ none) × Distinct ms

  -- No erasing brings a name back.
  pub find_method-erase_first-none :
      (n k : Text) (ms : List ℕ)
      → find_method s n ms ≡ none
      → find_method s n (erase_first s k ms) ≡ none
  unfolding find_method erase_first
  find_method-erase_first-none n k [] h = h
  find_method-erase_first-none n k (m ∷ ms) h = ground (arith, find_method-erase_first-none n k ms)

  pub find_method-erase_all-none :
      (n k : Text) (ms : List ℕ)
      → find_method s n ms ≡ none
      → find_method s n (erase_all s k ms) ≡ none
  unfolding find_method erase_all
  find_method-erase_all-none n k [] h = h
  find_method-erase_all-none n k (m ∷ ms) h = ground (arith, find_method-erase_all-none n k ms)

  pub find_method-erase_first_self :
      (k : Text) (ms : List ℕ) → Distinct ms → find_method s k (erase_first s k ms) ≡ none
  unfolding find_method erase_first
  find_method-erase_first_self k [] d = refl
  find_method-erase_first_self k (m ∷ ms) d =
      ground (arith, same_text_iff (s.method m).name k, find_method-erase_first_self k ms d.1)

  pub Distinct-erase_first : (k : Text) (ms : List ℕ) → Distinct ms → Distinct (erase_first s k ms)
  unfolding erase_first
  Distinct-erase_first k [] d = d
  Distinct-erase_first k (m ∷ ms) d = ground (
    arith,
    find_method-erase_first-none (s.method m).name k ms d.0,
    Distinct-erase_first k ms d.1,
  )

  pub Distinct-erase_all : (k : Text) (ms : List ℕ) → Distinct ms → Distinct (erase_all s k ms)
  unfolding erase_all
  Distinct-erase_all k [] d = d
  Distinct-erase_all k (m ∷ ms) d =
      ground
        (arith, find_method-erase_all-none (s.method m).name k ms d.0, Distinct-erase_all k ms d.1)

  pub Distinct-concat :
      (m : ℕ) (ms : List ℕ)
      → Distinct ms
      → find_method s (s.method m).name ms ≡ none
      → Distinct (ms ++ m ∷ [])
  unfolding find_method
  Distinct-concat m [] d h = (refl, tt)
  Distinct-concat m (k ∷ ms) d h = ground (
    arith,
    find_method-concat (s.method k).name m ms d.0,
    same_text_iff (s.method m).name (s.method k).name,
    same_text_iff (s.method k).name (s.method m).name,
    Distinct-concat m ms d.1,
  )
