-- ===== src/EntityMap/Regions.antt =====
-- The entity map seen as a list of marked regions, nested or disjoint as the tree's comment wants.
use bashpp.Prelude.{
  true, List, [], ◌∷◌, ◌++◌, map, Option, none, some, ◌⊎◌, inl, inr, ◌≡◌, ◌↔◌, refl, sym, ◌∙◌, ap,
  subst, arith, All-mem, IsIn, append-nil, append_assoc,
}
use bashpp.IntervalTree.{Interval, FlatIntervalTree, empty, contains_point}
use bashpp.IntervalTree.Order.{IsValid, Precedes}
use bashpp.IntervalTree.Innermost.{IsInnermost, Answers, find_innermost_overlap-Answers}
use bashpp.EntityMap.{
  FilePosition, position_key, IsPosition, AtOrBefore, position_key-le, insert, find,
}

pub record Region {ℓ} (T : Type ℓ) : Type ℓ where
  pub start : FilePosition
  pub end : FilePosition
  pub entity : T

module _ {ℓ} {T : Type ℓ} where
  abbrev pub IsRegion : Region T → Type 0
  IsRegion r = IsPosition r.start × IsPosition r.end

  abbrev pub Encloses : Region T → FilePosition → Type 0
  Encloses r p = AtOrBefore r.start p × AtOrBefore p r.end

  -- `s` begins no later than `r` and ends no earlier.
  abbrev pub Within : Region T → Region T → Type 0
  Within r s = AtOrBefore s.start r.start × AtOrBefore r.end s.end

  -- Two regions that share a position are nested.
  abbrev pub NestedOrDisjoint : Region T → Region T → Type 0
  NestedOrDisjoint r s = (p : FilePosition) → Encloses r p → Encloses s p → Within r s ⊎ Within s r

  -- `mark_entity` for each region in turn
  pub mark_all : FlatIntervalTree T → List (Region T) → FlatIntervalTree T
  mark_all m [] = m
  mark_all m (r ∷ rs) = mark_all (insert m r.start r.end r.entity) rs

  interval : Region T → Interval T
  interval r = record { low = position_key r.start; high = position_key r.end; payload = r.entity }

  mark_all-intervals :
      (m : FlatIntervalTree T) (rs : List (Region T))
      → (mark_all m rs).intervals ≡ m.intervals ++ map interval rs
  unfolding mark_all insert interval
  mark_all-intervals m [] = sym (append-nil m.intervals)
  mark_all-intervals m (r ∷ rs) =
      mark_all-intervals (insert m r.start r.end r.entity) rs
      ∙ append_assoc m.intervals (interval r ∷ []) (map interval rs)

  mark_all-IsValid :
      (m : FlatIntervalTree T) (rs : List (Region T)) → IsValid m → IsValid (mark_all m rs)
  unfolding mark_all insert
  mark_all-IsValid m [] v = v
  mark_all-IsValid m (r ∷ rs) v = mark_all-IsValid (insert m r.start r.end r.entity) rs (λ e. cc)

  entity_of : {i : Interval T} (r : Region T) → i ≡ interval r → i.payload ≡ r.entity
  unfolding interval
  entity_of r e = ap (λ j. j.payload) e

  interval-mem :
      (r : Region T) (rs : List (Region T)) → IsIn r rs → IsIn (interval r) (map interval rs)
  interval-mem r [] m = elim m [ ]
  interval-mem r (s ∷ rs) (inl e) = inl (ap interval e)
  interval-mem r (s ∷ rs) (inr m) = inr (interval-mem r rs m)

  interval-mem_back :
      (i : Interval T) (rs : List (Region T))
      → IsIn i (map interval rs)
      → (r : Region T) × IsIn r rs × (i ≡ interval r)
  interval-mem_back i [] m = elim m [ ]
  interval-mem_back i (s ∷ rs) (inl e) = (s, inl refl, e)
  interval-mem_back i (s ∷ rs) (inr m) = let (r, n, e) = interval-mem_back i rs m in (r, inr n, e)

  contains_point_iff :
      (r : Region T) (p : FilePosition)
      → IsRegion r
      → IsPosition p
      → (contains_point (interval r) (position_key p) ≡ true) ↔ Encloses r p
  unfolding interval
  contains_point_iff r p v h =
      let lo = position_key-le r.start p v.0 h in
      let hi = position_key-le p r.end h v.1 in
      (
        (λ e. (lo.1.0 (ground arith), hi.1.0 (ground arith))),
        λ e. let a = lo.1.1 e.0 in let b = hi.1.1 e.1 in ground arith,
      )

  -- What a lookup may answer: no marked region encloses the position, or the entity of a marked
  -- region that encloses it and lies within every other one that does.
  abbrev pub Active : FilePosition → List (Region T) → Option T → Type ℓ
  Active p rs none = (r : Region T) → IsIn r rs → ¬ Encloses r p
  Active p rs (some e) =
      (r : Region T) × IsIn r rs
      × (r.entity ≡ e)
      × Encloses r p
      × ((s : Region T) → IsIn s rs → Encloses s p → Within r s)

  Within-of_Precedes :
      (r s : Region T)
      → IsRegion r
      → IsRegion s
      → Precedes (interval s) (interval r)
      → Within r s ⊎ Within s r
      → Within r s
  unfolding interval
  Within-of_Precedes r s vr vs inner (inl w) = w
  Within-of_Precedes r s vr vs inner (inr w) =
      let back = (position_key-le r.start s.start vr.0 vs.0).1.1 w.0 in
      let forth = position_key-le s.start r.start vs.0 vr.0 in
      let ends = position_key-le r.end s.end vr.1 vs.1 in
      (forth.1.0 inner.0, ends.1.0 (inner.1 (omega arith)))

  Active-of_Answers :
      (p : FilePosition) (rs : List (Region T)) (o : Option T)
      → IsPosition p
      → ((r : Region T) → IsIn r rs → IsRegion r)
      → ((r s : Region T) → IsIn r rs → IsIn s rs → NestedOrDisjoint r s)
      → Answers (position_key p) (map interval rs) o
      → Active p rs o
  Active-of_Answers p rs none h v n a = λ r m e.
      let miss = a (interval r) (interval-mem r rs m) in
      let hit = (contains_point_iff r p (v r m) h).1 e in cc
  Active-of_Answers p rs (some e) h v n (i, m, inner, is_e) =
      let (r, mr, same) = interval-mem_back i rs m in
      let inner' : IsInnermost (position_key p) (interval r) (map interval rs) = rw same at inner in
      let holds = (contains_point_iff r p (v r mr) h).0 inner'.0 in
      (
        r,
        mr,
        sym (entity_of r same) ∙ is_e,
        holds,
        λ s ms hs.
            Within-of_Precedes r s (v r mr) (v s ms)
              (All-mem _ _ inner'.1 (interval-mem s rs ms)
                ((contains_point_iff s p (v s ms) h).1 hs))
              (n r s mr ms p holds hs),
      )

  -- After any regions of a file have been marked, nested or disjoint and with positions of 32
  -- bits, a lookup answers the entity of the innermost region around the position, and answers
  -- nothing exactly where no region is.
  pub find-mark_all :
      (rs : List (Region T)) (p : FilePosition)
      → IsPosition p
      → ((r : Region T) → IsIn r rs → IsRegion r)
      → ((r s : Region T) → IsIn r rs → IsIn s rs → NestedOrDisjoint r s)
      → Active p rs (find (mark_all empty rs) p).1
  unfolding find
  find-mark_all rs p h v n = Active-of_Answers p rs _ h v n (
      subst (λ is. Answers (position_key p) is (find (mark_all empty rs) p).1)
        (mark_all-intervals empty rs)
        (find_innermost_overlap-Answers (mark_all empty rs) (position_key p)
          (mark_all-IsValid empty rs (λ e. cc))).1)
