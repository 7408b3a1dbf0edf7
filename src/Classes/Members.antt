-- ===== src/Classes/Members.antt =====
-- `set_name`, `add_method` and `add_datamember` of bpp_class.cpp.
pub mod Lists
pub mod Frame
pub mod Clears
pub mod Insert
pub mod Invariant
use bashpp.Prelude.{
  ℕ, zero, suc, ◌+◌, Bool, true, false, not, ◌&&◌, ◌||◌, List, [], ◌∷◌, ◌++◌, Option, none, some,
  ◌≡◌, refl, if◌then◌else◌, Text, lit, same_text,
}
use bashpp.Classes.Store.{
  Scope, scope_public, scope_protected, scope_private, scope_inaccessible, SymbolPosition, Method,
  Datamember, Class, Store, write_method, write_datamember, write_class, modify_method, set_virtual,
  set_last_override, set_containing_class, add_reference,
}

abbrev pub to_primitive : Text
to_primitive = lit "toPrimitive"

abbrev pub is_public : Scope → Bool
is_public scope_public = true
is_public _ = false

-- The first method of the list with this name; `get_method_UNSAFE` on a class.
unfoldable pub find_method : Store → Text → List ℕ → Option ℕ
find_method s name [] = none
find_method s name (m ∷ ms) =
    if same_text (s.method m).name name then some m else find_method s name ms

unfoldable pub find_datamember : Store → Text → List ℕ → Option ℕ
find_datamember s name [] = none
find_datamember s name (d ∷ ds) =
    if same_text (s.datamember d).name name then some d else find_datamember s name ds

-- `methods.erase(it)` at the first method with this name
pub erase_first : Store → Text → List ℕ → List ℕ
erase_first s name [] = []
erase_first s name (m ∷ ms) =
    if same_text (s.method m).name name then ms else m ∷ erase_first s name ms

-- `std::erase_if` over the methods with this name
pub erase_all : Store → Text → List ℕ → List ℕ
erase_all s name [] = []
erase_all s name (m ∷ ms) =
    let rest = erase_all s name ms in if same_text (s.method m).name name then rest else m ∷ rest

abbrev pub methods_of : Store → ℕ → List ℕ
methods_of s c = (s.class_at c).methods

abbrev pub datamembers_of : Store → ℕ → List ℕ
datamembers_of s c = (s.class_at c).datamembers

abbrev pub with_methods : List ℕ → ℕ → Store → Store
with_methods ms c s = write_class s c (record (s.class_at c) { methods = ms })

pub remove_default_to_primitive : ℕ → Store → Store
unfolding erase_all
remove_default_to_primitive c s =
    if (s.class_at c).has_custom_to_primitive
    then s
    else with_methods (erase_all s to_primitive (methods_of s c)) c s

-- The method that `add_default_toPrimitive` makes.
pub default_to_primitive : Text → Method
default_to_primitive class_name = record {
  name = to_primitive;
  scope = scope_public;
  virtual = true;
  overridable = true;
  inherited = false;
  last_override = class_name;
  containing_class = none;
  overridden_method = none;
  initial_definition = record { file = []; line = 0; column = 0 };
  references = [];
  code = lit "\techo " ++ (class_name ++ lit " Instance\n");
  parameters = [];
}

pub add_default_to_primitive : ℕ → Store → Store
unfolding remove_default_to_primitive default_to_primitive
add_default_to_primitive c s =
    if (s.class_at c).has_custom_to_primitive
    then s
    else (let fresh = s.next_method in
        let s' = write_method s fresh (default_to_primitive (s.class_at c).name) in
        let s'' = remove_default_to_primitive c (record s' { next_method = suc fresh }) in
        with_methods (methods_of s'' c ++ fresh ∷ []) c s'')

unfoldable pub set_name : Text → ℕ → Store → Store
unfolding add_default_to_primitive
set_name name c s =
    add_default_to_primitive c (write_class s c (record (s.class_at c) { name = name }))

-- The writes to the method in the first `if` of `add_method`.
abbrev pub claim_to_primitive : Text → ℕ → Method → Method
claim_to_primitive class_name c m =
    set_containing_class c (set_last_override class_name (set_virtual true m))

-- The first `if` of `add_method`, once the scope is known to be public.
pub take_over_to_primitive : ℕ → ℕ → Store → Store
unfolding remove_default_to_primitive
take_over_to_primitive c m s =
    let s1 = modify_method (claim_to_primitive (s.class_at c).name c) m s in
    let s2 = remove_default_to_primitive c s1 in
    write_class s2 c (record (s2.class_at c) { has_custom_to_primitive = true })

-- `old` is inherited and open to an override by this class.
pub may_override : Store → ℕ → ℕ → Bool
may_override s c old =
    (s.method old).inherited
    && ((s.method old).overridable
        && not (same_text (s.method old).last_override (s.class_at c).name))

-- The writes to the new method when it overrides `old`.
abbrev pub claim_override : Bool → Text → ℕ → ℕ → Method → Method
claim_override was_virtual class_name c old m = record m {
  virtual = was_virtual;
  overridable = true;
  last_override = class_name;
  overridden_method = some old;
  containing_class = some c;
}

-- Those, the reference to `old`, and `methods.erase(it)`.
pub override_method : ℕ → ℕ → ℕ → Store → Store
unfolding erase_first add_reference
override_method c m old s =
    let s1 = modify_method (claim_override (s.method old).virtual (s.class_at c).name c old) m s in
    let s2 = add_reference (suc old) (s.method m).initial_definition old s1 in
    with_methods (erase_first s (s.method m).name (methods_of s c)) c s2

-- The two writes to the method that follow the loop of `add_method`.
abbrev pub settle_last_override : ℕ → ℕ → Store → Store
settle_last_override c m s =
    if not (s.method m).inherited && (s.method m).overridable
    then modify_method (set_last_override (s.class_at c).name) m s
    else s

abbrev pub settle_containing_class : ℕ → ℕ → Store → Store
settle_containing_class c m s =
    if (s.method m).inherited then s else modify_method (set_containing_class c) m s

-- What follows the loop of `add_method`.
pub append_method : ℕ → ℕ → Store → Store × Bool
unfolding find_datamember
append_method c m s =
    let s1 = settle_last_override c m s in
    let s2 = settle_containing_class c m s1 in
    elim (find_datamember s (s.method m).name (datamembers_of s c)) [
      | some d ↦ (s1, false)
      | none ↦ (with_methods (methods_of s2 c ++ m ∷ []) c s2, true)
    ]

-- `add_method` from its loop on.
pub place_method : ℕ → ℕ → Store → Store × Bool
unfolding find_method may_override override_method append_method
place_method c m s = elim (find_method s (s.method m).name (methods_of s c)) [
  | none ↦ append_method c m s
  | some old ↦
      if may_override s c old then append_method c m (override_method c m old s) else (s, false)
]

unfoldable pub add_method : ℕ → ℕ → Store → Store × Bool
unfolding place_method take_over_to_primitive
add_method c m s =
    if same_text (s.method m).name to_primitive && not (s.class_at c).has_custom_to_primitive
    then if is_public (s.method m).scope
      then place_method c m (take_over_to_primitive c m s)
      else (s, false)
    else place_method c m s

unfoldable pub add_datamember : ℕ → ℕ → Store → Store × Bool
unfolding find_datamember find_method
add_datamember c d s = elim (find_datamember s (s.datamember d).name (datamembers_of s c)) [
  | some _ ↦ (s, false)
  | none ↦ elim (find_method s (s.datamember d).name (methods_of s c)) [
    | some _ ↦ (s, false)
    | none ↦
        (let s' = write_datamember s d (record (s.datamember d) { containing_class = some c }) in
          (
            write_class s' c
                (record (s'.class_at c) { datamembers = datamembers_of s' c ++ d ∷ [] }),
            true,
          ))
  ]
]
