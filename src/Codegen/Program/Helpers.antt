-- ===== src/Codegen/Program/Helpers.antt =====
-- Each run-time helper is written once, in front of the code that is the first to use it.
use bashpp.Prelude.{
  ℕ, zero, suc, ◌<◌, true, false, [], ◌++◌, ◌≡◌, refl, sym, ◌∙◌, ap, arith, ◌==◌, if◌then◌else◌,
  Text, append-nil, Bool-cases, inl, inr,
}
use bashpp.BashVersion.{older}
use bashpp.CodeBuffers.{add_code_to_previous_line}
use bashpp.Codegen.Templates.{
  bpp_supershell_function, bpp_vtable_lookup, bpp_dynamic_cast, bpp_typeof_function,
}
use bashpp.Codegen.Program.{
  Program, bash_5_3, increment_supershell_counter, increment_function_counter,
  increment_dynamic_cast_counter, increment_typeof_counter,
}

abbrev pub repeat : ℕ → (Program → Program) → Program → Program
repeat zero f p = p
repeat (suc n) f p = f (repeat n f p)

-- The helper, if it was needed at all.
abbrev pub once : ℕ → Text → Text
once zero helper = []
once (suc n) helper = helper

once-first :
    (n : ℕ) (code helper : Text) → n ≡ 0 → (code ++ once n helper) ++ helper ≡ code ++ helper
once-first zero code helper e = ap (λ c. c ++ helper) (append-nil code)
once-first (suc n) code helper e = absurd (omega arith)

once-later : (n : ℕ) (helper : Text) → ((n == 0) ≡ false) → once n helper ≡ helper
once-later zero helper e = cc
once-later (suc n) helper e = refl

-- A counter that stands at `n` after `n` steps, and what was written by then.
Counted : ℕ → Text → Text → ℕ → Text → Type 0
Counted n before helper counter code = (counter ≡ n) × (code ≡ before ++ once n helper)

typeof_helper :
    (n : ℕ) (p : Program)
    → n < 18446744073709551616
    → p.typeof_counter ≡ 0
    → Counted n p.output.code bpp_typeof_function
        (repeat n increment_typeof_counter p).typeof_counter
        (repeat n increment_typeof_counter p).output.code
unfolding Counted increment_typeof_counter add_code_to_previous_line
typeof_helper zero p h z = (z, sym (append-nil p.output.code))
typeof_helper (suc n) p h z =
    let before = typeof_helper n p (omega arith) z in
    let first = once-first n p.output.code bpp_typeof_function in
    let later = once-later n bpp_typeof_function in ground (arith, before, first, later)

dynamic_cast_helper :
    (n : ℕ) (p : Program)
    → n < 18446744073709551616
    → p.dynamic_cast_counter ≡ 0
    → Counted n p.output.code bpp_dynamic_cast
        (repeat n increment_dynamic_cast_counter p).dynamic_cast_counter
        (repeat n increment_dynamic_cast_counter p).output.code
unfolding Counted increment_dynamic_cast_counter add_code_to_previous_line
dynamic_cast_helper zero p h z = (z, sym (append-nil p.output.code))
dynamic_cast_helper (suc n) p h z =
    let before = dynamic_cast_helper n p (omega arith) z in
    let first = once-first n p.output.code bpp_dynamic_cast in
    let later = once-later n bpp_dynamic_cast in ground (arith, before, first, later)

function_helper :
    (n : ℕ) (p : Program)
    → n < 18446744073709551616
    → p.function_counter ≡ 0
    → Counted n p.output.code bpp_vtable_lookup
        (repeat n increment_function_counter p).function_counter
        (repeat n increment_function_counter p).output.code
unfolding Counted increment_function_counter add_code_to_previous_line
function_helper zero p h z = (z, sym (append-nil p.output.code))
function_helper (suc n) p h z =
    let before = function_helper n p (omega arith) z in
    let first = once-first n p.output.code bpp_vtable_lookup in
    let later = once-later n bpp_vtable_lookup in ground (arith, before, first, later)

supershell_helper :
    (n : ℕ) (p : Program)
    → n < 18446744073709551616
    → p.supershell_counter ≡ 0
    → older p.target_bash_version bash_5_3 ≡ true
    → Counted n p.output.code bpp_supershell_function
        (repeat n increment_supershell_counter p).supershell_counter
        (repeat n increment_supershell_counter p).output.code
      × ((repeat n increment_supershell_counter p).target_bash_version ≡ p.target_bash_version)
unfolding Counted increment_supershell_counter add_code_to_previous_line
supershell_helper zero p h z o = ((z, sym (append-nil p.output.code)), refl)
supershell_helper (suc n) p h z o =
    let before = supershell_helper n p (omega arith) z o in
    let first = once-first n p.output.code bpp_supershell_function in
    let later = once-later n bpp_supershell_function in ground (arith, before, first, later)

supershell_native :
    (n : ℕ) (p : Program)
    → older p.target_bash_version bash_5_3 ≡ false
    → ((repeat n increment_supershell_counter p).output ≡ p.output)
      × ((repeat n increment_supershell_counter p).target_bash_version ≡ p.target_bash_version)
unfolding increment_supershell_counter
supershell_native zero p o = (refl, refl)
supershell_native (suc n) p o = ground (arith, supershell_native n p o)

-- After `n` uses of a run-time helper in a program that had none before, the program's output has got
-- exactly one copy of that helper if `n` is not 0, and nothing otherwise; the helper of the supershells
-- only if the Bash to compile for is older than 5.3. The counter must not have wrapped.
pub increment_counters-helpers :
    (n : ℕ) (p : Program)
    → n < 18446744073709551616
    → p.typeof_counter ≡ 0
    → p.dynamic_cast_counter ≡ 0
    → p.function_counter ≡ 0
    → p.supershell_counter ≡ 0
    → ((repeat n increment_typeof_counter p).output.code
        ≡ p.output.code ++ once n bpp_typeof_function)
      × ((repeat n increment_dynamic_cast_counter p).output.code
          ≡ p.output.code ++ once n bpp_dynamic_cast)
      × ((repeat n increment_function_counter p).output.code
          ≡ p.output.code ++ once n bpp_vtable_lookup)
      × ((repeat n increment_supershell_counter p).output.code
          ≡ p.output.code
            ++ (if older p.target_bash_version bash_5_3
                then once n bpp_supershell_function
                else []))
unfolding Counted
increment_counters-helpers n p h t d f s = (
  (typeof_helper n p h t).1,
  (dynamic_cast_helper n p h d).1,
  (function_helper n p h f).1,
  elim (Bool-cases (older p.target_bash_version bash_5_3)) [
    | inl old ↦ rw old (supershell_helper n p h s old).0.1
    | inr new ↦
        rw new (ap (λ o. o.code) (supershell_native n p new).0 ∙ sym (append-nil p.output.code))
  ],
)
