-- ===== src/EntityMap.antt =====
-- src/include/EntityMap.h: which entity is active at a line and column of a source file. The low 32
-- bits of `line << 32` are zero, so `| column` is a sum for a column below 2^32.
pub mod Regions
use bashpp.Prelude.{ℕ, ◌+◌, ◌*◌, ◌^◌, ◌≤◌, ◌<◌, Option, ◌⊎◌, ◌≡◌, ◌↔◌, arith}
use bashpp.IntervalTree.{FlatIntervalTree, insert as tree_insert, find_innermost_overlap}

pub record FilePosition : Type 0 where
  pub line : ℕ
  pub column : ℕ

-- `operator uint64_t`
unfoldable pub position_key : FilePosition → ℕ
position_key p = p.line * 4294967296 + p.column

-- Both fields are `uint32_t`.
abbrev pub IsPosition : FilePosition → Type 0
IsPosition p = (p.line < 4294967296) × (p.column < 4294967296)

abbrev pub AtOrBefore : FilePosition → FilePosition → Type 0
AtOrBefore p q = (p.line < q.line) ⊎ ((p.line ≡ q.line) × (p.column ≤ q.column))

-- For positions whose line and column fit 32 bits, the key fits 64 bits, and keys are ordered as
-- the positions are: by line, then by column.
pub position_key-le :
    (p q : FilePosition)
    → IsPosition p
    → IsPosition q
    → (position_key p < 2 ^ 64) × ((position_key p ≤ position_key q) ↔ AtOrBefore p q)
unfolding position_key
position_key-le p q hp hq = (omega arith, ((λ h. ground arith), λ h. ground arith))

module _ {ℓ} {T : Type ℓ} where
  -- `EntityMap` holds nothing but its tree.
  unfoldable pub insert : FlatIntervalTree T → FilePosition → FilePosition → T → FlatIntervalTree T
  unfolding tree_insert
  insert map start end entity = tree_insert map (position_key start) (position_key end) entity

  unfoldable pub find : FlatIntervalTree T → FilePosition → FlatIntervalTree T × Option T
  find map point = find_innermost_overlap map (position_key point)
