-- ===== src/IntervalTree.antt =====
-- src/include/IntervalTree.h: the flat interval tree that answers which entity encloses a point of
-- a source file. `T()`, the null pointer of the payload type, is `none`. `std::sort` may put equal
-- intervals in any order; the model's sort keeps the one inserted last in front.
pub mod Order
pub mod Innermost
use bashpp.Prelude.{
  ℕ, Bool, true, false, ◌&&◌, ◌||◌, List, [], ◌∷◌, ◌++◌, Option, none, some, ltb, leb, ◌==◌,
  if◌then◌else◌,
}

pub record Interval {ℓ} (T : Type ℓ) : Type ℓ where
  pub low : ℕ
  pub high : ℕ
  pub payload : T

pub record FlatIntervalTree {ℓ} (T : Type ℓ) : Type ℓ where
  pub intervals : List (Interval T)
  pub sorted : Bool

abbrev pub empty {ℓ} : {T : Type ℓ} → FlatIntervalTree T
empty = record { intervals = []; sorted = false }

module _ {ℓ} {T : Type ℓ} where
  -- `Interval::contains(uint64_t)`
  abbrev pub contains_point : Interval T → ℕ → Bool
  contains_point i point = leb i.low point && leb point i.high

  -- The comparison of the sort: by low, then by high in descending order.
  abbrev pub comes_before : Interval T → Interval T → Bool
  comes_before a b = ltb a.low b.low || (a.low == b.low && ltb b.high a.high)

  pub place : Interval T → List (Interval T) → List (Interval T)
  place a [] = a ∷ []
  place a (b ∷ bs) = if comes_before b a then b ∷ place a bs else a ∷ (b ∷ bs)

  pub sort : List (Interval T) → List (Interval T)
  sort [] = []
  sort (a ∷ rest) = place a (sort rest)

  pub ensure_sorted : FlatIntervalTree T → FlatIntervalTree T
  unfolding sort place
  ensure_sorted t = if t.sorted then t else record { intervals = sort t.intervals; sorted = true }

  unfoldable pub insert : FlatIntervalTree T → ℕ → ℕ → T → FlatIntervalTree T
  insert t low high payload = record {
    intervals = t.intervals ++ record { low = low; high = high; payload = payload } ∷ [];
    sorted = false;
  }

  -- The intervals in front of `std::upper_bound(…, point, …)`, the last one first, which is the
  -- order in which the loop visits them.
  pub before_upper_bound : ℕ → List (Interval T) → List (Interval T) → List (Interval T)
  before_upper_bound point seen [] = seen
  before_upper_bound point seen (i ∷ is) =
      let rest = before_upper_bound point (i ∷ seen) is in if ltb point i.low then seen else rest

  -- The body of the loop: the new `best`.
  abbrev better : ℕ → Option (Interval T) → Interval T → Option (Interval T)
  better point none i = if contains_point i point then some i else none
  better point (some b) i = if contains_point i point && ltb b.low i.low then some i else some b

  pub scan_back : ℕ → Option (Interval T) → List (Interval T) → Option (Interval T)
  scan_back point best [] = best
  scan_back point best (i ∷ is) =
      let rest = scan_back point (better point best i) is in if leb i.low point then rest else best

  abbrev payload_of : Option (Interval T) → Option T
  payload_of none = none
  payload_of (some i) = some i.payload

  pub best_interval : List (Interval T) → ℕ → Option (Interval T)
  unfolding before_upper_bound scan_back
  best_interval is point = scan_back point none (before_upper_bound point [] is)

  -- The tree afterwards, and the payload found.
  unfoldable pub find_innermost_overlap : FlatIntervalTree T → ℕ → FlatIntervalTree T × Option T
  unfolding ensure_sorted best_interval
  find_innermost_overlap t point =
      let t' = ensure_sorted t in (t', payload_of (best_interval t'.intervals point))
