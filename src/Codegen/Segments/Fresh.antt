-- ===== src/Codegen/Segments/Fresh.antt =====
-- The temporaries of generated code have names of their own.
use bashpp.Prelude.{
  ℕ, zero, suc, ◌+◌, ◌-◌, ◌*◌, ◌/◌, ◌%◌, ◌<◌, ◌≤◌, [], ◌∷◌, ◌++◌, ◌≡◌, ◌≢◌, refl, sym, ◌∙◌, ap,
  arith, ltb, Text, lit, concat, digits, to_string, Bool-cases, inl, inr,
}
use bashpp.Codegen.Program.{Program, increment_typeof_counter, increment_dynamic_cast_counter}
use bashpp.Codegen.Segments.{numbered, generate_typeof_code, generate_dynamic_cast_code}

-- The number that digits stand for, behind a value already read.
value : ℕ → Text → ℕ
value n [] = n
value n (c ∷ s) = value (n * 10 + (c - 48)) s

value-push : (n : ℕ) (s : Text) (c : ℕ) → value n (s ++ c ∷ []) ≡ value n s * 10 + (c - 48)
unfolding value
value-push n [] c = refl
value-push n (d ∷ s) c = value-push (n * 10 + (d - 48)) s c

value-digits : (fuel n : ℕ) → n < fuel → value 0 (digits fuel n) ≡ n
unfolding digits value
value-digits zero n h = absurd (omega arith)
value-digits (suc fuel) n h = elim (Bool-cases (ltb n 10)) [
  | inl small ↦ rw small (omega arith)
  | inr large ↦
      let ten : 10 ≤ n = ground arith in
      rw large (
        value-push 0 (digits fuel (n / 10)) (48 + n % 10)
        ∙ ap (λ v. v * 10 + (48 + n % 10 - 48)) (value-digits fuel (n / 10) (omega arith))
        ∙ omega arith)
]

to_string-injective : (m n : ℕ) → to_string m ≡ to_string n → m ≡ n
unfolding to_string
to_string-injective m n e =
    sym (value-digits (suc m) m (omega arith))
    ∙ ap (value 0) e
    ∙ value-digits (suc n) n (omega arith)

drop_prefix : (p s t : Text) → p ++ s ≡ p ++ t → s ≡ t
drop_prefix [] s t e = e
drop_prefix (c ∷ p) s t e = drop_prefix p s t (cc)

drop_suffix : (s t : Text) (c : ℕ) → s ++ c ∷ [] ≡ t ++ c ∷ [] → s ≡ t
drop_suffix [] [] c e = refl
drop_suffix [] (d ∷ []) c e = cc
drop_suffix [] (d ∷ (b ∷ t)) c e = cc
drop_suffix (d ∷ []) [] c e = cc
drop_suffix (d ∷ (b ∷ s)) [] c e = cc
drop_suffix (a ∷ s) (b ∷ t) c e =
    let rest : s ≡ t = drop_suffix s t c (cc) in
    let head : a ≡ b = cc in ap (λ x. a ∷ x) rest ∙ ap (λ x. x ∷ t) head

-- `${<prefix><n>}` tells the number.
variable-injective :
    (prefix : Text) (m n : ℕ)
    → concat (lit "${" ∷ numbered prefix m ∷ lit "}" ∷ [])
      ≡ concat (lit "${" ∷ numbered prefix n ∷ lit "}" ∷ [])
    → m ≡ n
unfolding concat lit
variable-injective prefix m n e = to_string-injective m n (
    drop_prefix prefix (to_string m) (to_string n) (
      drop_suffix (prefix ++ to_string m) (prefix ++ to_string n) b'}'
        (drop_prefix (lit "${") _ _ e)))

-- Two requests for a type name, or two dynamic casts, refer to different variables whenever the counter
-- has moved on in between; and each request moves its counter on, below 2^64.
pub generate_code-fresh :
    (p q : Program) (r r' c c' : Text)
    → p.typeof_counter ≢ q.typeof_counter
    → p.dynamic_cast_counter ≢ q.dynamic_cast_counter
    → p.typeof_counter + 1 < 18446744073709551616
    → p.dynamic_cast_counter + 1 < 18446744073709551616
    → ((generate_typeof_code r p).0.code ≢ (generate_typeof_code r' q).0.code)
      × ((generate_typeof_code r p).1.typeof_counter ≡ p.typeof_counter + 1)
      × ((generate_dynamic_cast_code r c p).0.code ≢ (generate_dynamic_cast_code r' c' q).0.code)
      × ((generate_dynamic_cast_code r c p).1.dynamic_cast_counter ≡ p.dynamic_cast_counter + 1)
unfolding generate_typeof_code generate_dynamic_cast_code increment_typeof_counter
    increment_dynamic_cast_counter
generate_code-fresh p q r r' c c' t d ht hd = (
  λ e. t (variable-injective (lit "__typeof") p.typeof_counter q.typeof_counter e),
  ground arith,
  λ e. d (variable-injective (lit "__dynamicCast") p.dynamic_cast_counter q.dynamic_cast_counter e),
  ground arith,
)
