-- ===== src/Classes/Store.antt =====
-- The objects of bpp_class.h, bpp_method.h and bpp_datamember.h as a store addressed by numbers.
-- A `weak_ptr` that is not set is `none`.
use bashpp.Prelude.{
  ℕ, zero, suc, Bool, List, [], ◌∷◌, ◌++◌, Option, none, some, ◌==◌, if◌then◌else◌, Text,
}

-- `bpp_scope`
pub data Scope : Type 0 where
  scope_public scope_protected scope_private scope_inaccessible : Scope

pub record SymbolPosition : Type 0 where
  pub file : Text
  pub line : ℕ
  pub column : ℕ

pub record Method : Type 0 where
  pub name : Text
  pub scope : Scope
  pub virtual : Bool
  pub overridable : Bool
  pub inherited : Bool
  pub last_override : Text
  pub containing_class : Option ℕ
  pub overridden_method : Option ℕ
  pub initial_definition : SymbolPosition
  pub references : List SymbolPosition
  pub code : Text
  pub parameters : List Text

-- With the fields that it has from `bpp_object` and `bpp_entity`; the type of a primitive is `none`.
pub record Datamember : Type 0 where
  pub name : Text
  pub scope : Scope
  pub containing_class : Option ℕ
  pub type : Option ℕ
  pub pointer : Bool
  pub array : Bool
  pub default_value : Text
  pub pre_access_code : Text
  pub post_access_code : Text

pub record Class : Type 0 where
  pub name : Text
  pub methods : List ℕ
  pub datamembers : List ℕ
  pub parents : List ℕ
  pub has_custom_to_primitive : Bool

pub record Store : Type 0 where
  pub method : ℕ → Method
  pub datamember : ℕ → Datamember
  pub class_at : ℕ → Class
  pub next_method : ℕ

abbrev pub update {ℓ} : {A : Type ℓ} → (ℕ → A) → ℕ → A → ℕ → A
update f k v j = if j == k then v else f j

abbrev pub write_method : Store → ℕ → Method → Store
write_method s m v = record s { method = update s.method m v }

abbrev pub write_datamember : Store → ℕ → Datamember → Store
write_datamember s d v = record s { datamember = update s.datamember d v }

abbrev pub write_class : Store → ℕ → Class → Store
write_class s c v = record s { class_at = update s.class_at c v }

-- The setters of bpp_method.cpp. Virtual methods are overridable by default.
abbrev pub set_virtual : Bool → Method → Method
set_virtual is_virtual m = record m { virtual = is_virtual; overridable = is_virtual }

abbrev pub set_last_override : Text → Method → Method
set_last_override class_name m = record m { last_override = class_name }

abbrev pub set_containing_class : ℕ → Method → Method
set_containing_class c m = record m { containing_class = some c }

abbrev pub modify_method : (Method → Method) → ℕ → Store → Store
modify_method f m s = write_method s m (f (s.method m))

-- `bpp_entity::add_reference`: the position goes to the method and to each that it overrides. The
-- fuel bounds the length of that chain.
unfoldable pub add_reference : ℕ → SymbolPosition → ℕ → Store → Store
add_reference zero p m s = s
add_reference (suc fuel) p m s =
    let s' = modify_method (λ v. record v { references = v.references ++ p ∷ [] }) m s in
    elim (s.method m).overridden_method [ none ↦ s' | some o ↦ add_reference fuel p o s' ]
