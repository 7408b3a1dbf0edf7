-- ===== src/Codegen/ClassCode/Replace.antt =====
-- `replace_all` against the meaning of a replacement from left to right.
use bashpp.Prelude.{
  ℕ, zero, suc, ◌-◌, true, false, [], ◌∷◌, ◌++◌, ◌≡◌, refl, sym, ◌∙◌, ap, subst, arith, Text,
  starts_with, length, Bool-cases, inl, inr, ◌==◌, ==_iff,
}
use bashpp.Codegen.ClassCode.{replace_from, replace_all}

-- Read from the left: where `from` stands, it is replaced and passed over as a whole; elsewhere the
-- byte is kept.
pub data Replaced (from to : Text) : Text → Text → Type 0 where
  ends : Replaced from to [] []
  keeps :
      {c : ℕ} {s t : Text}
      → starts_with from (c ∷ s) ≡ false
      → Replaced from to s t
      → Replaced from to (c ∷ s) (c ∷ t)
  swaps : {s t : Text} → Replaced from to s t → Replaced from to (from ++ s) (to ++ t)

drop : ℕ → Text → Text
drop zero s = s
drop (suc n) [] = []
drop (suc n) (c ∷ s) = drop n s

starts_with-drop : (p s : Text) → starts_with p s ≡ true → s ≡ p ++ drop (length p) s
unfolding starts_with drop
starts_with-drop [] s h = refl
starts_with-drop (a ∷ p) [] h = cc
starts_with-drop (a ∷ p) (b ∷ s) h = elim (Bool-cases (a == b)) [
  | inl same ↦
      ap (λ x. x ∷ s) (sym ((==_iff a b).0 same))
      ∙ ap (λ r. a ∷ r) (starts_with-drop p s (rw same at h))
  | inr differs ↦ let bad = rw differs at h in cc
]

occurrence :
    (a : ℕ) (p : Text) (c : ℕ) (s : Text)
    → starts_with (a ∷ p) (c ∷ s) ≡ true
    → c ∷ s ≡ (a ∷ p) ++ drop (length p) s
unfolding drop
occurrence a p c s h = starts_with-drop (a ∷ p) (c ∷ s) h

replace_from-Replaced :
    (a : ℕ) (p to : Text) (skip : ℕ) (s : Text)
    → Replaced (a ∷ p) to (drop skip s) (replace_from (a ∷ p) to skip s)
unfolding replace_from drop
replace_from-Replaced a p to zero [] = ends
replace_from-Replaced a p to (suc skip) [] = ends
replace_from-Replaced a p to (suc skip) (c ∷ s) = replace_from-Replaced a p to skip s
replace_from-Replaced a p to zero (c ∷ s) = elim (Bool-cases (starts_with (a ∷ p) (c ∷ s))) [
  | inr miss ↦ rw miss (keeps miss (replace_from-Replaced a p to 0 s))
  | inl hit ↦
      let rest = replace_from-Replaced a p to (length (a ∷ p) - 1) s in
      let passed : length (a ∷ p) - 1 ≡ length p = omega arith in
      rw hit (
        subst (λ x. Replaced (a ∷ p) to x (to ++ replace_from (a ∷ p) to (length (a ∷ p) - 1) s))
          (ap (λ n. (a ∷ p) ++ drop n s) passed ∙ sym (occurrence a p c s hit)) (swaps rest))
]

-- With a text that is not empty, `replace_all` replaces its occurrences from left to right, and goes on
-- behind each replacement.
pub replace_all-Replaced :
    (str : Text) (a : ℕ) (p to : Text) → Replaced (a ∷ p) to str (replace_all str (a ∷ p) to)
unfolding replace_all drop
replace_all-Replaced str a p to = replace_from-Replaced a p to 0 str
