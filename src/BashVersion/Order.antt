-- ===== src/BashVersion/Order.antt =====
-- Versions compare by major version, then by minor version.
use bashpp.Prelude.{◌<◌, true, Bool-cases, inl, inr, ◌≡◌, ◌⊎◌, ◌↔◌, arith}
use bashpp.BashVersion.{BashVersion, IsVersion, version_key, at_least, older}

abbrev pub Older : BashVersion → BashVersion → Type 0
Older v w = (v.major < w.major) ⊎ ((v.major ≡ w.major) × (v.minor < w.minor))

Older-of_key :
    (v w : BashVersion) → IsVersion v → IsVersion w → version_key v < version_key w → Older v w
unfolding version_key
Older-of_key v w hv hw h = ground arith

-- For versions whose parts fit 16 bits, the comparisons on the packed 32-bit value are those of
-- the pairs, by major and then minor version; a version is at least another exactly if it is not
-- older.
pub older_iff :
    (v w : BashVersion)
    → IsVersion v
    → IsVersion w
    → ((older v w ≡ true) ↔ Older v w) × ((at_least v w ≡ true) ↔ (¬ Older v w))
unfolding older at_least
older_iff v w hv hw = (
  ((λ h. ground arith), λ h. ground arith),
  (
    (λ h. λ o. ground arith),
    λ h. elim (Bool-cases (at_least v w)) [
      | inl e ↦ e
      | inr e ↦ absurd (h (Older-of_key v w hv hw (ground arith)))
    ],
  ),
)
