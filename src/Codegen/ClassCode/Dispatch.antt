-- ===== src/Codegen/ClassCode/Dispatch.antt =====
-- The vTable of a class, method by method.
use bashpp.Prelude.{
  ℕ, Bool, true, false, not, ◌&&◌, List, [], ◌∷◌, ◌++◌, ◌≡◌, refl, sym, ◌∙◌, ap, if◌then◌else◌,
  Text, same_text, same_text_iff, lit, concat, All,
}
use bashpp.Classes.Store.{Store, Method}
use bashpp.Codegen.ClassCode.Function.{no_percent, assignments, function_text, method_code-function}
use bashpp.Codegen.ClassCode.{vtable_entry, method_code, emit_method, emit_methods}

-- The entry that leads from a method of a class to the function of an owner.
abbrev pub entry : Text → Text → Text → Text
entry class_name name owner =
    lit "bpp__"
    ++ (class_name
        ++ (lit "____vTable[\""
            ++ (name ++ (lit "\"]=\"bpp__" ++ (owner ++ (lit "__" ++ (name ++ lit "\"\n")))))))

-- For each virtual method, the entry that leads to the class that overrode it last.
abbrev pub entries : Store → Text → List ℕ → Text
entries s class_name [] = []
entries s class_name (m ∷ ms) =
    (if (s.method m).virtual
      then entry class_name (s.method m).name (s.method m).last_override
      else [])
    ++ entries s class_name ms

-- For each method that this class defines or overrides, its function.
abbrev pub defines : Text → Method → Bool
defines class_name m = if m.virtual then same_text m.last_override class_name else not m.inherited

abbrev pub functions : Store → Text → List ℕ → Text
functions s class_name [] = []
functions s class_name (m ∷ ms) =
    (if defines class_name (s.method m) then function_text class_name (s.method m) else [])
    ++ functions s class_name ms

-- The name and the parameters of a method have no percent sign.
abbrev pub IsPlain : Method → Type 0
IsPlain m = (no_percent m.name ≡ true) × (no_percent (assignments m.parameters) ≡ true)

entry-text :
    (class_name name owner : Text)
    → vtable_entry class_name name owner ≡ entry class_name name owner
unfolding concat lit
entry-text class_name name owner = refl

-- The tests of the loop, for any code and entries.
abbrev tested : Bool → Bool → Bool → Text → Text → Text → Text × Text
tested virtual inherited own code own_entry last_entry =
    if inherited && not virtual
    then ([], [])
    else if virtual
    then if not own then ([], last_entry) else (code, own_entry)
    else (code, [])

tests :
    (virtual inherited own : Bool) (code own_entry last_entry : Text)
    → (own ≡ true → own_entry ≡ last_entry)
    → ((tested virtual inherited own code own_entry last_entry).1
        ≡ (if virtual then last_entry else []))
      × ((tested virtual inherited own code own_entry last_entry).0
          ≡ (if (if virtual then own else not inherited) then code else []))
tests true true true code o l h = (h refl, refl)
tests true true false code o l h = (refl, refl)
tests true false true code o l h = (h refl, refl)
tests true false false code o l h = (refl, refl)
tests false true own code o l h = (refl, refl)
tests false false own code o l h = (refl, refl)

emit_method-parts :
    (class_name : Text) (m : Method)
    → ((emit_method class_name m).1
        ≡ (if m.virtual then vtable_entry class_name m.name m.last_override else []))
      × ((emit_method class_name m).0
          ≡ (if defines class_name m then method_code class_name m else []))
unfolding emit_method
emit_method-parts class_name m =
    tests m.virtual m.inherited (same_text m.last_override class_name) (method_code class_name m)
      (vtable_entry class_name m.name class_name) (vtable_entry class_name m.name m.last_override)
      (λ e.
        ap (vtable_entry class_name m.name) (sym ((same_text_iff m.last_override class_name).0 e)))

function-entry :
    (class_name : Text) (m : Method)
    → no_percent class_name ≡ true
    → IsPlain m
    → ((emit_method class_name m).0
        ≡ (if defines class_name m then function_text class_name m else []))
      × ((emit_method class_name m).1
          ≡ (if m.virtual then entry class_name m.name m.last_override else []))
function-entry class_name m c (n, a) =
    let (vtable, code) = emit_method-parts class_name m in
    (
      code
          ∙ ap (λ t. if defines class_name m then t else [])
              (method_code-function class_name m c n a),
      vtable ∙ ap (λ t. if m.virtual then t else []) (entry-text class_name m.name m.last_override),
    )

-- In a class whose name has no percent sign, like the names and parameters of its methods, the code of the
-- class is the functions, written out, of the methods that it defines or overrides, in their order, and
-- its vTable has an entry for each of its virtual methods, which leads to the function of the last class
-- that overrode it.
pub emit_methods-entries :
    (s : Store) (class_name : Text) (ms : List ℕ)
    → no_percent class_name ≡ true
    → All (λ m. IsPlain (s.method m)) ms
    → ((emit_methods s class_name ms).0 ≡ functions s class_name ms)
      × ((emit_methods s class_name ms).1 ≡ entries s class_name ms)
unfolding emit_methods
emit_methods-entries s class_name [] c plain = (refl, refl)
emit_methods-entries s class_name (m ∷ ms) c (plain, plains) =
    let (code, vtable) = function-entry class_name (s.method m) c plain in
    let (codes, vtables) = emit_methods-entries s class_name ms c plains in
    let rest = emit_methods s class_name ms in
    (
      ap (λ t. t ++ rest.0) code
          ∙ ap
              (λ t.
                (if defines class_name (s.method m)
                  then function_text class_name (s.method m)
                  else [])
                ++ t)
              codes,
      ap (λ t. t ++ rest.1) vtable
          ∙ ap
              (λ t.
                (if (s.method m).virtual
                  then entry class_name (s.method m).name (s.method m).last_override
                  else [])
                ++ t)
              vtables,
    )
