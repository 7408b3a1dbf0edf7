-- ===== src/Codegen/ClassCode/Function.antt =====
-- The function of a method, written out: the template of src/bpp_include/templates.h with its five
-- placeholders filled by `add_class` of src/bpp_include/bpp_program.cpp.
use bashpp.Prelude.{
  ℕ, ◌+◌, Bool, true, false, not, ◌&&◌, ◌==◌, List, [], ◌∷◌, ◌++◌, ◌≡◌, refl, ◌∙◌, ap,
  if◌then◌else◌, Text, lit, to_string, starts_with, same_text, append_assoc, append-nil, concat,
  Bool-cases, inl, inr, arith,
}
use bashpp.Classes.Store.{Method}
use bashpp.Codegen.Templates.{template_method, this_pointer_validation}
use bashpp.Codegen.ClassCode.{
  replace_from, replace_all, parameter_list, local_parameters, fill_template, method_code,
}

-- Names and parameters have no percent sign.
abbrev pub no_percent : Text → Bool
no_percent [] = true
no_percent (c ∷ s) = not (b'%' == c) && no_percent s

-- `name="$1" other="$2"`
abbrev pub assignment : ℕ → Text → Text
assignment i p = p ++ (lit "=\"$" ++ (to_string i ++ lit "\""))

abbrev pub more_assignments : ℕ → List Text → Text
more_assignments i [] = []
more_assignments i (p ∷ ps) = lit " " ++ (assignment i p ++ more_assignments (i + 1) ps)

abbrev pub assignments : List Text → Text
assignments [] = []
assignments (p ∷ ps) = lit "local " ++ (assignment 1 p ++ more_assignments 2 ps)

abbrev pub null_check : Text → Text → Text
null_check class_name name =
    lit
      "while : ; do\n\t\tif ! eval \"declare -p \\\"${__this}\\\"\" &>/dev/null; then\n\t\t\tbreak\n\t\tfi\n\t\t[[ -z \"${!__this}\" ]] && break\n\t\t__this=\"${!__this}\"\n\tdone\n\tlocal __vPointer=\"${__this}____vPointer\"\n\tif [[ \"${__this}\" == \"0\" ]] || [[ -z \"${!__vPointer}\" ]]; then\n\t\t>&2 echo \"Bash++: Error: Attempted to call @"
    ++ (class_name ++ (lit "." ++ (name ++ lit " on null object\"\n\t\treturn 1\n\tfi\n")))

-- The function of a method: only `__new` does not check its object.
abbrev pub function_text : Text → Method → Text
function_text class_name m =
    lit "function bpp__"
    ++ (class_name
        ++ (lit "__"
            ++ (m.name
                ++ (lit "() {\n\tlocal __this=\"$1\"\n\tshift 1\n\t"
                    ++ (assignments m.parameters
                        ++ (lit "\n\t"
                            ++ ((if same_text m.name (lit "__new")
                                  then []
                                  else null_check class_name m.name)
                                ++ (lit "\n" ++ (m.code ++ lit "\n}\n")))))))))

data Hole : Type 0 where
  class_hole signature_hole params_hole body_hole : Hole

abbrev hole_name : Hole → Text
hole_name class_hole = lit "%CLASS%"
hole_name signature_hole = lit "%SIGNATURE%"
hole_name params_hole = lit "%PARAMS%"
hole_name body_hole = lit "%METHODBODY%"

abbrev same_hole : Hole → Hole → Bool
same_hole class_hole class_hole = true
same_hole signature_hole signature_hole = true
same_hole params_hole params_hole = true
same_hole body_hole body_hole = true
same_hole _ _ = false

-- The first letter of a placeholder.
abbrev letter : Hole → ℕ
letter class_hole = b'C'
letter signature_hole = b'S'
letter params_hole = b'P'
letter body_hole = b'M'

-- A text with placeholders, each with the character behind it.
data Part : Type 0 where
  fixed : Text → Part
  hole : Hole → ℕ → Part

abbrev render : List Part → Text
render [] = []
render (fixed t ∷ ps) = t ++ render ps
render (hole h c ∷ ps) = hole_name h ++ (c ∷ render ps)

abbrev fill : Hole → Text → List Part → List Part
fill h to [] = []
fill h to (fixed t ∷ ps) = fixed t ∷ fill h to ps
fill h to (hole g c ∷ ps) =
    if same_hole h g then fixed to ∷ (fixed (c ∷ []) ∷ fill h to ps) else hole g c ∷ fill h to ps

-- Nothing but the placeholder `h` begins like it.
abbrev clean : Hole → List Part → Bool
clean h [] = true
clean h (fixed t ∷ ps) = no_percent t && clean h ps
clean h (hole g c ∷ ps) = not (b'%' == c) && (not (letter h == c) && clean h ps)

and_parts : (a b : Bool) → (a && b) ≡ true → (a ≡ true) × (b ≡ true)
and_parts true b h = (refl, h)
and_parts false b h = cc

-- Every placeholder begins with a percent sign.
begins :
    (h : Hole) (c : ℕ) (s : Text)
    → not (b'%' == c) ≡ true
    → starts_with (hole_name h) (c ∷ s) ≡ false
unfolding starts_with lit
begins class_hole c s d = ground arith
begins signature_hole c s d = ground arith
begins params_hole c s d = ground arith
begins body_hole c s d = ground arith

-- Text without percent signs is passed over.
skip-plain :
    (h : Hole) (to t rest : Text)
    → no_percent t ≡ true
    → replace_from (hole_name h) to 0 (t ++ rest) ≡ t ++ replace_from (hole_name h) to 0 rest
unfolding replace_from
skip-plain h to [] rest plain = refl
skip-plain h to (c ∷ t) rest plain =
    let (differs, plain') = and_parts (not (b'%' == c)) (no_percent t) plain in
    rw (begins h c (t ++ rest) differs) (ap (λ s. c ∷ s) (skip-plain h to t rest plain'))

no_eq_true : (b : Bool) → not b ≡ true → b ≡ false
no_eq_true true h = cc
no_eq_true false h = refl

-- A placeholder is replaced by its own text only.
at-hole :
    (h g : Hole) (c : ℕ) (to rest : Text)
    → (b'%' == c) ≡ false
    → (letter h == c) ≡ false
    → replace_from (hole_name h) to 0 (hole_name g ++ (c ∷ rest))
      ≡ (if same_hole h g then to else hole_name g) ++ (c ∷ replace_from (hole_name h) to 0 rest)
unfolding replace_from starts_with lit
at-hole class_hole class_hole c to rest p l = rw p refl
at-hole class_hole signature_hole c to rest p l = rw (l, p) refl
at-hole class_hole params_hole c to rest p l = rw (l, p) refl
at-hole class_hole body_hole c to rest p l = rw (l, p) refl
at-hole signature_hole class_hole c to rest p l = rw (l, p) refl
at-hole signature_hole signature_hole c to rest p l = rw p refl
at-hole signature_hole params_hole c to rest p l = rw (l, p) refl
at-hole signature_hole body_hole c to rest p l = rw (l, p) refl
at-hole params_hole class_hole c to rest p l = rw (l, p) refl
at-hole params_hole signature_hole c to rest p l = rw (l, p) refl
at-hole params_hole params_hole c to rest p l = rw p refl
at-hole params_hole body_hole c to rest p l = rw (l, p) refl
at-hole body_hole class_hole c to rest p l = rw (l, p) refl
at-hole body_hole signature_hole c to rest p l = rw (l, p) refl
at-hole body_hole params_hole c to rest p l = rw (l, p) refl
at-hole body_hole body_hole c to rest p l = rw p refl

replace_from-fill :
    (h : Hole) (to : Text) (ps : List Part)
    → clean h ps ≡ true
    → replace_from (hole_name h) to 0 (render ps) ≡ render (fill h to ps)
unfolding replace_from
replace_from-fill h to [] e = refl
replace_from-fill h to (fixed t ∷ ps) e =
    let (plain, rest) = and_parts (no_percent t) (clean h ps) e in
    skip-plain h to t (render ps) plain ∙ ap (λ s. t ++ s) (replace_from-fill h to ps rest)
replace_from-fill h to (hole g c ∷ ps) e =
    let (p, e') = and_parts (not (b'%' == c)) (not (letter h == c) && clean h ps) e in
    let (l, rest) = and_parts (not (letter h == c)) (clean h ps) e' in
    at-hole h g c to (render ps) (no_eq_true (b'%' == c) p) (no_eq_true (letter h == c) l)
    ∙ elim (Bool-cases (same_hole h g)) [
      | inl t ↦ rw t (ap (λ s. to ++ (c ∷ s)) (replace_from-fill h to ps rest))
      | inr t ↦ rw t (ap (λ s. hole_name g ++ (c ∷ s)) (replace_from-fill h to ps rest))
    ]

fill-clean :
    (h next : Hole) (to : Text) (ps : List Part)
    → no_percent to ≡ true
    → clean next ps ≡ true
    → clean next (fill h to ps) ≡ true
fill-clean h next to [] plain e = refl
fill-clean h next to (fixed t ∷ ps) plain e =
    let (p, rest) = and_parts (no_percent t) (clean next ps) e in
    rw (p, fill-clean h next to ps plain rest) refl
fill-clean h next to (hole g c ∷ ps) plain e =
    let (p, e') = and_parts (not (b'%' == c)) (not (letter next == c) && clean next ps) e in
    let (l, rest) = and_parts (not (letter next == c)) (clean next ps) e' in
    elim (Bool-cases (same_hole h g)) [
      | inl t ↦ rw t (rw (plain, p, fill-clean h next to ps plain rest) refl)
      | inr t ↦ rw t (rw (p, l, fill-clean h next to ps plain rest) refl)
    ]

parameter_list-assignments :
    (i : ℕ) (p : Text) (ps : List Text)
    → parameter_list i (p ∷ ps) ≡ assignment (i + 1) p ++ more_assignments (i + 1 + 1) ps
unfolding parameter_list concat
parameter_list-assignments i p [] = simp (append_assoc, append-nil)
parameter_list-assignments i p (q ∷ ps) =
    rw (parameter_list-assignments (i + 1) q ps) (simp (append_assoc, append-nil))

local_parameters-assignments : (ps : List Text) → local_parameters ps ≡ assignments ps
local_parameters-assignments [] = refl
local_parameters-assignments (p ∷ ps) =
    ap (λ t. lit "local " ++ t) (parameter_list-assignments 0 p ps)

-- The check in the template, with its placeholders.
abbrev check_parts : List Part
check_parts =
    fixed (
      lit
        "while : ; do\n\t\tif ! eval \"declare -p \\\"${__this}\\\"\" &>/dev/null; then\n\t\t\tbreak\n\t\tfi\n\t\t[[ -z \"${!__this}\" ]] && break\n\t\t__this=\"${!__this}\"\n\tdone\n\tlocal __vPointer=\"${__this}____vPointer\"\n\tif [[ \"${__this}\" == \"0\" ]] || [[ -z \"${!__vPointer}\" ]]; then\n\t\t>&2 echo \"Bash++: Error: Attempted to call @")
    ∷ (hole class_hole b'.'
        ∷ (hole signature_hole b' ' ∷ (fixed (lit "on null object\"\n\t\treturn 1\n\tfi\n") ∷ [])))

abbrev validation_parts : Bool → List Part
validation_parts is_new = if is_new then [] else check_parts

abbrev add_parts : List Part → List Part → List Part
add_parts [] qs = qs
add_parts (p ∷ ps) qs = p ∷ add_parts ps qs

abbrev end_parts : List Part
end_parts = fixed (lit "\n") ∷ (hole body_hole b'\n' ∷ (fixed (lit "}\n") ∷ []))

-- The template once the check stands in it.
abbrev parts : Bool → List Part
parts is_new =
    fixed (lit "function bpp__")
    ∷ (hole class_hole b'_'
        ∷ (fixed (lit "_")
            ∷ (hole signature_hole b'('
                ∷ (fixed (lit ") {\n\tlocal __this=\"$1\"\n\tshift 1\n\t")
                    ∷ (hole params_hole b'\n'
                        ∷ (fixed (lit "\t") ∷ add_parts (validation_parts is_new) end_parts))))))

validated :
    (is_new : Bool)
    → replace_all template_method
        (lit "%THIS_POINTER_VALIDATION%")
        (if is_new then [] else this_pointer_validation)
      ≡ render (parts is_new)
unfolding replace_all lit starts_with replace_from
validated true = refl
validated false = refl

parts-clean : (h : Hole) (is_new : Bool) → clean h (parts is_new) ≡ true
unfolding lit
parts-clean class_hole true = refl
parts-clean class_hole false = refl
parts-clean signature_hole true = refl
parts-clean signature_hole false = refl
parts-clean params_hole true = refl
parts-clean params_hole false = refl
parts-clean body_hole true = refl
parts-clean body_hole false = refl

-- The parts once all placeholders are filled.
abbrev filled : Text → Text → Text → Text → Bool → List Part
filled class_name name params body is_new =
    fill body_hole body (
      fill params_hole params
        (fill signature_hole name (fill class_hole class_name (parts is_new))))

append-five :
    (a b c d e rest : Text)
    → (a ++ (b ++ (c ++ (d ++ e)))) ++ rest ≡ a ++ (b ++ (c ++ (d ++ (e ++ rest))))
append-five a b c d e rest = simp append_assoc

check-append :
    (class_name name rest : Text)
    → null_check class_name name ++ rest
      ≡ lit
          "while : ; do\n\t\tif ! eval \"declare -p \\\"${__this}\\\"\" &>/dev/null; then\n\t\t\tbreak\n\t\tfi\n\t\t[[ -z \"${!__this}\" ]] && break\n\t\t__this=\"${!__this}\"\n\tdone\n\tlocal __vPointer=\"${__this}____vPointer\"\n\tif [[ \"${__this}\" == \"0\" ]] || [[ -z \"${!__vPointer}\" ]]; then\n\t\t>&2 echo \"Bash++: Error: Attempted to call @"
        ++ (class_name
            ++ (lit "." ++ (name ++ (lit " on null object\"\n\t\treturn 1\n\tfi\n" ++ rest))))
check-append class_name name rest = append-five _ class_name (lit ".") name _ rest

filled-text :
    (class_name name params body : Text) (is_new : Bool)
    → render (filled class_name name params body is_new)
      ≡ lit "function bpp__"
        ++ (class_name
            ++ (lit "__"
                ++ (name
                    ++ (lit "() {\n\tlocal __this=\"$1\"\n\tshift 1\n\t"
                        ++ (params
                            ++ (lit "\n\t"
                                ++ ((if is_new then [] else null_check class_name name)
                                    ++ (lit "\n" ++ (body ++ lit "\n}\n")))))))))
unfolding lit
filled-text class_name name params body true = refl
filled-text class_name name params body false =
    rw (check-append class_name name (lit "\n" ++ (body ++ lit "\n}\n"))) refl

replace_all-fill :
    (h : Hole) (to : Text) (ps : List Part)
    → clean h ps ≡ true
    → replace_all (render ps) (hole_name h) to ≡ render (fill h to ps)
unfolding replace_all lit
replace_all-fill class_hole to ps e = replace_from-fill class_hole to ps e
replace_all-fill signature_hole to ps e = replace_from-fill signature_hole to ps e
replace_all-fill params_hole to ps e = replace_from-fill params_hole to ps e
replace_all-fill body_hole to ps e = replace_from-fill body_hole to ps e

fill_template-fill :
    (class_name name params body : Text) (ps : List Part)
    → ((h : Hole) → clean h ps ≡ true)
    → no_percent class_name ≡ true
    → no_percent name ≡ true
    → no_percent params ≡ true
    → fill_template (render ps) class_name name params body
      ≡ render (
          fill body_hole body
            (fill params_hole params (fill signature_hole name (fill class_hole class_name ps))))
unfolding fill_template
fill_template-fill class_name name params body p0 clean0 c n a =
    let p1 = fill class_hole class_name p0 in
    let p2 = fill signature_hole name p1 in
    let p3 = fill params_hole params p2 in
    let clean1 : (h : Hole) → clean h p1 ≡ true =
      λ h. fill-clean class_hole h class_name p0 c (clean0 h) in
    let clean2 : (h : Hole) → clean h p2 ≡ true =
      λ h. fill-clean signature_hole h name p1 n (clean1 h) in
    let clean3 : (h : Hole) → clean h p3 ≡ true =
      λ h. fill-clean params_hole h params p2 a (clean2 h) in
    let step : (h : Hole) → Text → Text → Text = λ h to t. replace_all t (hole_name h) to in
    ap (λ t. step body_hole body (step params_hole params (step signature_hole name t)))
      (replace_all-fill class_hole class_name p0 (clean0 class_hole))
    ∙ ap (λ t. step body_hole body (step params_hole params t))
        (replace_all-fill signature_hole name p1 (clean1 signature_hole))
    ∙ ap (λ t. step body_hole body t) (replace_all-fill params_hole params p2 (clean2 params_hole))
    ∙ replace_all-fill body_hole body p3 (clean3 body_hole)

-- The code of a method whose names and parameters have no percent sign is its function, written out: the
-- body may have any characters.
pub method_code-function :
    (class_name : Text) (m : Method)
    → no_percent class_name ≡ true
    → no_percent m.name ≡ true
    → no_percent (assignments m.parameters) ≡ true
    → method_code class_name m ≡ function_text class_name m
unfolding method_code
method_code-function class_name m c n a =
    let is_new = same_text m.name (lit "__new") in
    let validation = if is_new then [] else this_pointer_validation in
    let t1 = replace_all template_method (lit "%THIS_POINTER_VALIDATION%") validation in
    ap (λ q. fill_template t1 class_name m.name q m.code)
      (local_parameters-assignments m.parameters)
    ∙ ap (λ t. fill_template t class_name m.name (assignments m.parameters) m.code)
        (validated is_new)
    ∙ fill_template-fill class_name m.name (assignments m.parameters) m.code (parts is_new)
        (λ h. parts-clean h is_new) c n a
    ∙ filled-text class_name m.name (assignments m.parameters) m.code is_new
