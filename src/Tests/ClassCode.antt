-- ===== src/Tests/ClassCode.antt =====
-- The class of the other tests, prepared and written.
use bashpp.Prelude.{true, false, [], ◌∷◌, ◌++◌, none, some, ◌≡◌, refl, lit}
use bashpp.CodeBuffers.{fresh}
use bashpp.Entities.{find}
use bashpp.Codegen.ClassCode.{replace_all, emit_methods, vtable_head, prepare_class, add_class}
use bashpp.Codegen.ClassCode.Replace.{Replaced, replace_all-Replaced}
use bashpp.Codegen.ClassCode.Dispatch.{entries, functions, emit_methods-entries}
use bashpp.Codegen.ClassCode.Prepared.{prepare_class-add_class}
use bashpp.Tests.Programs.{store}

replace_all_run : replace_all (lit "a%b%c") (lit "%b%") (lit "x%b%") ≡ lit "ax%b%c"
unfolding replace_all lit
replace_all_run = refl

replace_all-Replaced_example :
    Replaced
      (b'%' ∷ lit "b%")
      (lit "x")
      (lit "a%b%c")
      (replace_all (lit "a%b%c") (b'%' ∷ lit "b%") (lit "x"))
replace_all-Replaced_example = replace_all-Replaced (lit "a%b%c") b'%' (lit "b%") (lit "x")

emit_methods-entries_example :
    ((emit_methods store (lit "Box") (0 ∷ [])).0 ≡ functions store (lit "Box") (0 ∷ []))
    × ((emit_methods store (lit "Box") (0 ∷ [])).1 ≡ entries store (lit "Box") (0 ∷ []))
unfolding lit
emit_methods-entries_example =
    emit_methods-entries store (lit "Box") (0 ∷ []) refl ((refl, refl), tt)

prepare_class-add_class_example :
    (find (lit "Box") none (prepare_class store 0 []).0
      ≡ some (record { name = lit "Box"; id = 0 }))
    × ((prepare_class store 0 (prepare_class store 0 []).0).1 ≡ false)
    × ((add_class store 0 (prepare_class store 0 []).0 fresh).1 ≡ true)
    × ((add_class store 0 (prepare_class store 0 []).0 fresh).0.code
        ≡ []
          ++ ((emit_methods store (lit "Box") (0 ∷ [])).0
              ++ (vtable_head store 0 ++ (emit_methods store (lit "Box") (0 ∷ [])).1)))
unfolding prepare_class
prepare_class-add_class_example = prepare_class-add_class store 0 [] fresh refl
