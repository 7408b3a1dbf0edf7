-- ===== src/Codegen/ClassCode/Prepared.antt =====
-- Classes are prepared, then written.
use bashpp.Prelude.{
  ℕ, true, false, List, ◌++◌, none, some, ◌≡◌, refl, ◌∙◌, same_text_refl, Option-cases, inl, inr,
}
use bashpp.Classes.Store.{Store}
use bashpp.Classes.Members.{methods_of}
use bashpp.CodeBuffers.{CodeEntity}
use bashpp.Entities.{Named, find}
use bashpp.Entities.Visibility.{find-added, add-find-none}
use bashpp.Codegen.ClassCode.{prepare_class, add_class, emit_methods, vtable_head}

abbrev class_entry : Store → ℕ → Named
class_entry s c = record { name = (s.class_at c).name; id = c }

prepare_class-find :
    (s : Store) (c : ℕ) (classes : List Named)
    → (prepare_class s c classes).1 ≡ true
    → find (s.class_at c).name none (prepare_class s c classes).0 ≡ some (class_entry s c)
unfolding prepare_class
prepare_class-find s c classes h = elim (Option-cases (find (s.class_at c).name none classes)) [
  | inr (k, known) ↦ let bad = rw (prepare_class, known) at h in cc
  | inl unknown ↦
      rw (prepare_class, unknown)
        (find-added (class_entry s c) classes (s.class_at c).name
            (add-find-none (class_entry s c) classes unknown)
          ∙ rw (same_text_refl (s.class_at c).name) refl)
]

-- A class that was prepared is found by its name, is refused if it is prepared again, and is written
-- when it is added: its functions, then its vTable, behind what the program's output held.
pub prepare_class-add_class :
    (s : Store) (c : ℕ) (classes : List Named) (output : CodeEntity)
    → (prepare_class s c classes).1 ≡ true
    → (find (s.class_at c).name none (prepare_class s c classes).0 ≡ some (class_entry s c))
      × ((prepare_class s c (prepare_class s c classes).0).1 ≡ false)
      × ((add_class s c (prepare_class s c classes).0 output).1 ≡ true)
      × ((add_class s c (prepare_class s c classes).0 output).0.code
          ≡ output.code
            ++ ((emit_methods s (s.class_at c).name (methods_of s c)).0
                ++ (vtable_head s c ++ (emit_methods s (s.class_at c).name (methods_of s c)).1)))
unfolding add_class prepare_class
prepare_class-add_class s c classes output h =
    let found = prepare_class-find s c classes h in
    (
      found,
      refused (prepare_class s c classes).0 found,
      rw (add_class, found) refl,
      rw (add_class, found) refl,
    )
  where
    refused :
        (known : List Named)
        → find (s.class_at c).name none known ≡ some (class_entry s c)
        → (prepare_class s c known).1 ≡ false
    refused known e = rw (prepare_class, e) refl
