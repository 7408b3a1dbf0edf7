-- ===== src/Codegen/Program.antt =====
-- The counters of src/bpp_include/bpp_program.cpp, which name the temporaries of the generated code
-- and write each run-time helper in front of its first use. The counters are `uint64_t`.
pub mod Helpers
use bashpp.Prelude.{ℕ, ◌+◌, ◌%◌, ◌^◌, Bool, true, false, ◌&&◌, ◌==◌, if◌then◌else◌, Text, to_string}
use bashpp.BashVersion.{BashVersion, older}
use bashpp.CodeBuffers.{CodeEntity, add_code_to_previous_line}
use bashpp.Codegen.Templates.{
  bpp_supershell_function, bpp_vtable_lookup, bpp_dynamic_cast, bpp_typeof_function,
}

pub record Program : Type 0 where
  pub supershell_counter : ℕ
  pub assignment_counter : ℕ
  pub function_counter : ℕ
  pub dynamic_cast_counter : ℕ
  pub typeof_counter : ℕ
  pub target_bash_version : BashVersion
  pub output : CodeEntity

abbrev pub bash_5_3 : BashVersion
bash_5_3 = record { major = 5; minor = 3 }

-- `counter++`
abbrev pub next : ℕ → ℕ
next n = (n + 1) % 18446744073709551616

abbrev pub write_helper : Text → Program → Program
write_helper helper p = record p { output = add_code_to_previous_line helper p.output }

unfoldable pub increment_supershell_counter : Program → Program
unfolding add_code_to_previous_line older
increment_supershell_counter p =
    let p' = record p { supershell_counter = next p.supershell_counter } in
    if (p'.supershell_counter == 1) && older p'.target_bash_version bash_5_3
    then write_helper bpp_supershell_function p'
    else p'

unfoldable pub increment_assignment_counter : Program → Program
increment_assignment_counter p = record p { assignment_counter = next p.assignment_counter }

unfoldable pub increment_function_counter : Program → Program
unfolding add_code_to_previous_line
increment_function_counter p =
    let p' = record p { function_counter = next p.function_counter } in
    if p'.function_counter == 1 then write_helper bpp_vtable_lookup p' else p'

unfoldable pub increment_dynamic_cast_counter : Program → Program
unfolding add_code_to_previous_line
increment_dynamic_cast_counter p =
    let p' = record p { dynamic_cast_counter = next p.dynamic_cast_counter } in
    if p'.dynamic_cast_counter == 1 then write_helper bpp_dynamic_cast p' else p'

unfoldable pub increment_typeof_counter : Program → Program
unfolding add_code_to_previous_line
increment_typeof_counter p =
    let p' = record p { typeof_counter = next p.typeof_counter } in
    if p'.typeof_counter == 1 then write_helper bpp_typeof_function p' else p'
