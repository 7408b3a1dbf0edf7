-- ===== src/IntervalTree/Innermost.antt =====
-- The backward scan stops at the innermost interval around the point.
use bashpp.Prelude.{
  ℕ, ◌≤◌, true, false, List, [], ◌∷◌, Option, none, some, ◌⊎◌, inl, inr, ◌≡◌, refl, arith,
  Bool-cases, All, All-mem, All-of_mem, IsIn, ltb,
}
use bashpp.IntervalTree.{
  Interval, FlatIntervalTree, contains_point, ensure_sorted, before_upper_bound, scan_back,
  best_interval, find_innermost_overlap, payload_of,
}
use bashpp.IntervalTree.Order.{
  Precedes, IsSorted, IsValid, ensure_sorted-IsSorted, ensure_sorted-mem, ensure_sorted-All_back,
}

module _ {ℓ} {T : Type ℓ} where
  -- `i` holds the point, and an interval that holds it too begins no later, and at the same
  -- beginning ends no earlier.
  abbrev pub IsInnermost : ℕ → Interval T → List (Interval T) → Type 0
  IsInnermost point i is =
      (contains_point i point ≡ true) × All (λ j. contains_point j point ≡ true → Precedes j i) is

  -- The visited list: nearest first, each behind the ones after it, none beginning after the point.
  abbrev Visits : ℕ → List (Interval T) → Type 0
  Visits point [] = Unit {0}
  Visits point (i ∷ is) = (i.low ≤ point) × All (λ j. Precedes j i) is × Visits point is

  -- No interval of the list begins after `b`, so none replaces it.
  scan_back_keeps :
      (point : ℕ) (b : Interval T) (is : List (Interval T))
      → All (λ j. Precedes j b) is
      → scan_back point (some b) is ≡ some b
  unfolding scan_back
  scan_back_keeps point b [] h = refl
  scan_back_keeps point b (i ∷ is) h = ground (arith, scan_back_keeps point b is h.1)

  Vacuous :
      (point : ℕ) (i : Interval T) (is : List (Interval T))
      → All (λ j. Precedes j i) is
      → All (λ j. contains_point j point ≡ true → Precedes j i) is
  Vacuous point i [] h = tt
  Vacuous point i (j ∷ is) h = ((λ _. h.0), Vacuous point i is h.1)

  -- What a search of the intervals may answer: an innermost one of them, or nothing if none of them
  -- holds the point.
  abbrev Found : ℕ → List (Interval T) → Option (Interval T) → Type ℓ
  Found point is none = (j : Interval T) → IsIn j is → contains_point j point ≡ false
  Found point is (some i) = IsIn i is × IsInnermost point i is

  Found-cons :
      (point : ℕ) (i : Interval T) (is : List (Interval T)) (r : Option (Interval T))
      → contains_point i point ≡ false
      → Found point is r
      → Found point (i ∷ is) r
  Found-cons point i is none e f = λ j m. elim m [ inl same ↦ rw same e | inr later ↦ f j later ]
  Found-cons point i is (some b) e f = (inr f.0, (f.1.0, ((λ h. cc), f.1.1)))

  scan_back-Found :
      (point : ℕ) (is : List (Interval T))
      → Visits point is
      → Found point is (scan_back point none is)
  unfolding scan_back
  scan_back-Found point [] v = λ j m. elim m [ ]
  scan_back-Found point (i ∷ is) v = elim (Bool-cases (contains_point i point)) [
    | inl holds ↦
        let stays : scan_back point none (i ∷ is) ≡ some i =
          ground (arith, scan_back_keeps point i is v.1) in
        rw stays
          (inl refl, (holds, ((λ _. (omega arith, λ _. omega arith)), Vacuous point i is v.1)))
    | inr misses ↦
        let goes_on : scan_back point none (i ∷ is) ≡ scan_back point none is = ground arith in
        rw goes_on (Found-cons point i is _ misses (scan_back-Found point is v.2))
  ]

  -- `seen` may stand before `is`.
  abbrev Behind : List (Interval T) → List (Interval T) → Type 0
  Behind seen is = All (λ i. All (λ j. Precedes j i) seen) is

  Behind-cons :
      (i : Interval T) (seen is : List (Interval T))
      → All (λ j. Precedes i j) is
      → Behind seen is
      → Behind (i ∷ seen) is
  Behind-cons i seen [] p b = tt
  Behind-cons i seen (k ∷ is) p b = ((p.0, b.0), Behind-cons i seen is p.1 b.1)

  before_upper_bound-Visits :
      (point : ℕ) (seen is : List (Interval T))
      → Visits point seen
      → IsSorted is
      → Behind seen is
      → Visits point (before_upper_bound point seen is)
  unfolding before_upper_bound
  before_upper_bound-Visits point seen [] v s b = v
  before_upper_bound-Visits point seen (i ∷ is) v s b = elim (Bool-cases (ltb point i.low)) [
    | inl past ↦ rw past v
    | inr reached ↦ rw reached (
        before_upper_bound-Visits point (i ∷ seen) is (ground arith, b.0, v) s.1
          (Behind-cons i seen is s.0 b.1))
  ]

  past_misses :
      (point : ℕ) (i j : Interval T) (is : List (Interval T))
      → ltb point i.low ≡ true
      → All (λ k. Precedes i k) is
      → IsIn j (i ∷ is)
      → contains_point j point ≡ false
  past_misses point i j is e p (inl same) = ground arith
  past_misses point i j is e p (inr later) =
      let q = All-mem (λ k. Precedes i k) is p later in ground arith

  before_upper_bound-seen :
      (point : ℕ) (j : Interval T) (seen is : List (Interval T))
      → IsIn j seen
      → IsIn j (before_upper_bound point seen is)
  unfolding before_upper_bound
  before_upper_bound-seen point j seen [] m = m
  before_upper_bound-seen point j seen (i ∷ is) m = elim (Bool-cases (ltb point i.low)) [
    | inl past ↦ rw past m
    | inr reached ↦ rw reached (before_upper_bound-seen point j (i ∷ seen) is (inr m))
  ]

  before_upper_bound-mem :
      (point : ℕ) (j : Interval T) (seen is : List (Interval T))
      → IsSorted is
      → IsIn j is
      → (contains_point j point ≡ false) ⊎ IsIn j (before_upper_bound point seen is)
  unfolding before_upper_bound
  before_upper_bound-mem point j seen [] s m = elim m [ ]
  before_upper_bound-mem point j seen (i ∷ is) s m = elim (Bool-cases (ltb point i.low)) [
    | inl past ↦ inl (past_misses point i j is past s.0 m)
    | inr reached ↦ rw reached (elim m [
      | inl same ↦ inr (before_upper_bound-seen point j (i ∷ seen) is (inl same))
      | inr later ↦ before_upper_bound-mem point j (i ∷ seen) is s.1 later
    ])
  ]

  before_upper_bound-mem_back :
      (point : ℕ) (j : Interval T) (seen is : List (Interval T))
      → IsIn j (before_upper_bound point seen is)
      → IsIn j seen ⊎ IsIn j is
  unfolding before_upper_bound
  before_upper_bound-mem_back point j seen [] m = inl m
  before_upper_bound-mem_back point j seen (i ∷ is) m = elim (Bool-cases (ltb point i.low)) [
    | inl past ↦ inl (rw (past, before_upper_bound) at m)
    | inr reached ↦ ground (
      arith,
      before_upper_bound-mem_back point j (i ∷ seen) is (rw (reached, before_upper_bound) at m),
    )
  ]

  Found-before_upper_bound :
      (point : ℕ) (is : List (Interval T)) (r : Option (Interval T))
      → IsSorted is
      → Found point (before_upper_bound point [] is) r
      → Found point is r
  Found-before_upper_bound point is none s f =
      λ j m. elim (before_upper_bound-mem point j [] is s m) [ inl e ↦ e | inr v ↦ f j v ]
  Found-before_upper_bound point is (some i) s f = (
    elim (before_upper_bound-mem_back point i [] is f.0) [ inl n ↦ elim n [ ] | inr m ↦ m ],
    (
      f.1.0,
      All-of_mem (λ j. contains_point j point ≡ true → Precedes j i) is
          λ j m. elim (before_upper_bound-mem point j [] is s m) [
            | inl e ↦ λ h. cc
            | inr v ↦ All-mem (λ j. contains_point j point ≡ true → Precedes j i) _ f.1.1 v
          ],
    ),
  )

  best_interval-Found :
      (point : ℕ) (is : List (Interval T)) → IsSorted is → Found point is (best_interval is point)
  unfolding best_interval
  best_interval-Found point is s = Found-before_upper_bound point is _ s (
      scan_back-Found point _
        (before_upper_bound-Visits point [] is tt s (All-of_mem _ is (λ i m. tt))))

  -- The answer of a search, as a statement about the intervals of the tree.
  abbrev pub Answers : ℕ → List (Interval T) → Option T → Type ℓ
  Answers point is none = (j : Interval T) → IsIn j is → contains_point j point ≡ false
  Answers point is (some p) =
      (i : Interval T) × IsIn i is × IsInnermost point i is × (i.payload ≡ p)

  Found-ensure_sorted :
      (point : ℕ) (t : FlatIntervalTree T) (r : Option (Interval T))
      → Found point (ensure_sorted t).intervals r
      → Answers point t.intervals (payload_of r)
  Found-ensure_sorted point t none f =
      λ j m. All-mem Misses t.intervals (ensure_sorted-All_back Misses t (All-of_mem Misses _ f)) m
    where
      Misses : Interval T → Type 0
      Misses j = contains_point j point ≡ false
  Found-ensure_sorted point t (some i) f =
      (i, ensure_sorted-mem t i f.0, (f.1.0, ensure_sorted-All_back _ t f.1.1), refl)

  -- A search of a tree whose `sorted` flag is honest answers an interval of the tree that holds the
  -- point, where every other interval that holds it begins earlier, or begins with it and ends no
  -- earlier; it answers nothing only if no interval holds the point; and the flag stays honest.
  pub find_innermost_overlap-Answers :
      (t : FlatIntervalTree T) (point : ℕ)
      → IsValid t
      → IsValid (find_innermost_overlap t point).0
        × Answers point t.intervals (find_innermost_overlap t point).1
  unfolding find_innermost_overlap
  find_innermost_overlap-Answers t point v = (
    (λ _. ensure_sorted-IsSorted t v),
    Found-ensure_sorted point t _ (best_interval-Found point _ (ensure_sorted-IsSorted t v)),
  )
