-- ===== src/Tests/Temporaries.antt =====
-- Two type names requested one after the other.
use bashpp.Prelude.{◌+◌, ◌≡◌, ◌≢◌, arith, lit}
use bashpp.Codegen.Program.{Program}
use bashpp.Codegen.Segments.{generate_typeof_code, generate_dynamic_cast_code}
use bashpp.Codegen.Segments.Fresh.{generate_code-fresh}
use bashpp.Tests.Programs.{program}

abbrev later : Program
later = record program { typeof_counter = 1; dynamic_cast_counter = 1 }

generate_code-fresh_example :
    ((generate_typeof_code (lit "a") program).0.code
      ≢ (generate_typeof_code (lit "b") later).0.code)
    × ((generate_typeof_code (lit "a") program).1.typeof_counter ≡ 0 + 1)
    × ((generate_dynamic_cast_code (lit "a") (lit "Box") program).0.code
        ≢ (generate_dynamic_cast_code (lit "b") (lit "Lid") later).0.code)
    × ((generate_dynamic_cast_code (lit "a") (lit "Box") program).1.dynamic_cast_counter ≡ 0 + 1)
generate_code-fresh_example =
    generate_code-fresh program later (lit "a") (lit "b") (lit "Box") (lit "Lid") (λ e. omega arith)
      (λ e. omega arith) (omega arith) (omega arith)
