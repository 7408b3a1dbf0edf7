-- ===== src/IntervalTree/Order.antt =====
-- The sort puts the intervals in the order of the scan, and keeps exactly those it was given.
use bashpp.Prelude.{◌≤◌, true, List, [], ◌∷◌, inl, inr, ◌≡◌, arith, Bool-cases, All, IsIn}
use bashpp.IntervalTree.{Interval, FlatIntervalTree, comes_before, place, sort, ensure_sorted}

module _ {ℓ} {T : Type ℓ} where
  -- `i` may stand in front of `j`: it begins no later, and is no narrower at the same beginning.
  abbrev pub Precedes : Interval T → Interval T → Type 0
  Precedes i j = (i.low ≤ j.low) × (i.low ≡ j.low → j.high ≤ i.high)

  abbrev pub IsSorted : List (Interval T) → Type 0
  IsSorted [] = Unit {0}
  IsSorted (i ∷ is) = All (λ j. Precedes i j) is × IsSorted is

  Precedes-trans : (i j k : Interval T) → Precedes i j → Precedes j k → Precedes i k
  Precedes-trans i j k p q = ground arith

  Precedes-All :
      (i j : Interval T) (is : List (Interval T))
      → Precedes i j
      → All (λ k. Precedes j k) is
      → All (λ k. Precedes i k) is
  Precedes-All i j [] p h = tt
  Precedes-All i j (k ∷ is) p h = (Precedes-trans i j k p h.0, Precedes-All i j is p h.1)

  place-All :
      (i a : Interval T) (is : List (Interval T))
      → Precedes i a
      → All (λ k. Precedes i k) is
      → All (λ k. Precedes i k) (place a is)
  unfolding place
  place-All i a [] p h = (p, tt)
  place-All i a (b ∷ is) p h = ground (arith, place-All i a is p h.1)

  place-IsSorted : (a : Interval T) (is : List (Interval T)) → IsSorted is → IsSorted (place a is)
  unfolding place
  place-IsSorted a [] h = (tt, tt)
  place-IsSorted a (b ∷ is) h = elim (Bool-cases (comes_before b a)) [
    | inl e ↦ rw e (place-All b a is (ground arith) h.0, place-IsSorted a is h.1)
    | inr e ↦ rw e ((ground arith, Precedes-All a b is (ground arith) h.0), h)
  ]

  pub sort-IsSorted : (is : List (Interval T)) → IsSorted (sort is)
  unfolding sort
  sort-IsSorted [] = tt
  sort-IsSorted (i ∷ is) = place-IsSorted i (sort is) (sort-IsSorted is)

  place-mem : (i a : Interval T) (is : List (Interval T)) → IsIn i (place a is) → IsIn i (a ∷ is)
  unfolding place
  place-mem i a [] m = m
  place-mem i a (b ∷ is) m = ground (arith, place-mem i a is)

  pub sort-mem : (i : Interval T) (is : List (Interval T)) → IsIn i (sort is) → IsIn i is
  unfolding sort
  sort-mem i [] m = m
  sort-mem i (a ∷ is) m = ground (arith, place-mem i a (sort is) m, sort-mem i is)

  module _ (P : Interval T → Type 0) where
    place-All_back : (a : Interval T) (is : List (Interval T)) → All P (place a is) → P a × All P is
    unfolding place
    place-All_back a [] h = h
    place-All_back a (b ∷ is) h = elim (Bool-cases (comes_before b a)) [
      | inl e ↦
          let k : P b × All P (place a is) = rw e at h in
          let r = place-All_back a is k.1 in (r.0, (k.0, r.1))
      | inr e ↦ rw e at h
    ]

    pub sort-All_back : (is : List (Interval T)) → All P (sort is) → All P is
    unfolding sort
    sort-All_back [] h = tt
    sort-All_back (a ∷ is) h = let r = place-All_back a (sort is) h in (r.0, sort-All_back is r.1)

  -- What holds of a tree that was built by insertions and searches.
  abbrev pub IsValid : FlatIntervalTree T → Type 0
  IsValid t = t.sorted ≡ true → IsSorted t.intervals

  pub ensure_sorted-IsSorted :
      (t : FlatIntervalTree T) → IsValid t → IsSorted (ensure_sorted t).intervals
  unfolding ensure_sorted
  ensure_sorted-IsSorted t v = elim (Bool-cases t.sorted) [
    | inl e ↦ rw e (v e)
    | inr e ↦ rw e (sort-IsSorted t.intervals)
  ]

  pub ensure_sorted-mem :
      (t : FlatIntervalTree T) (i : Interval T)
      → IsIn i (ensure_sorted t).intervals
      → IsIn i t.intervals
  unfolding ensure_sorted
  ensure_sorted-mem t i m = elim (Bool-cases t.sorted) [
    | inl e ↦ rw (e, ensure_sorted) at m
    | inr e ↦ sort-mem i t.intervals (rw (e, ensure_sorted) at m)
  ]

  pub ensure_sorted-All_back :
      (P : Interval T → Type 0) (t : FlatIntervalTree T)
      → All P (ensure_sorted t).intervals
      → All P t.intervals
  unfolding ensure_sorted
  ensure_sorted-All_back P t h = elim (Bool-cases t.sorted) [
    | inl e ↦ rw (e, ensure_sorted) at h
    | inr e ↦ sort-All_back P t.intervals (rw (e, ensure_sorted) at h)
  ]
