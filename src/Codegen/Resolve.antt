-- ===== src/Codegen/Resolve.antt =====
-- `get_encased_ref` and `resolve_reference_impl` of src/bpp_include/bpp_codegen.cpp: the entity that a
-- dotted reference names, and the code that reaches it at run time. The caller's `nodes` carry
-- positions only, for messages and for the references of the language server, and are left out. Where
-- the file looks up an object of the context, `object_of` does.
pub mod Walk
pub mod Temporaries
use bashpp.Prelude.{
  ℕ, ◌+◌, Bool, true, false, not, ◌&&◌, ◌||◌, List, [], ◌∷◌, ◌++◌, Option, none, some, ◌==◌,
  if◌then◌else◌, Text, lit, concat, contains, same_text, last,
}
use bashpp.Classes.Store.{Store}
use bashpp.Classes.Lookup.{Access, not_found, inaccessible, member, get_method, get_datamember}
use bashpp.Codegen.Segments.{CodeSegment}

-- `bpp_object`: the class it has, whether it is a pointer, and its address.
pub record Object : Type 0 where
  pub name : Text
  pub type : ℕ
  pub pointer : Bool
  pub address : Text

pub data Entity : Type 0 where
  object_entity : Object → Entity
  class_entity datamember_entity method_entity : ℕ → Entity

-- `reference_type`
pub data ReferenceType : Type 0 where
  ref_object ref_primitive ref_method : ReferenceType

-- The messages of `reference_error`.
pub data ReferenceError : Type 0 where
  object_not_found no_parent_class after_primitive after_method : ReferenceError
  invalid_identifier is_inaccessible no_member : Text → ReferenceError

pub data Resolution {ℓ} (A : Type ℓ) : Type ℓ where
  resolved : A → Resolution A
  failed : ReferenceError → Resolution A

-- `entity_reference`, and the loop's own `last_reference_type`.
pub record EntityReference : Type 0 where
  pub entity : Entity
  pub last_reference_type : ReferenceType
  pub reference_code : CodeSegment
  pub created_first_temporary_variable : Bool
  pub created_second_temporary_variable : Bool
  pub class_containing_the_method : Option ℕ

unfoldable pub get_encased_ref : Text → ℕ → Text
get_encased_ref ref indirection_level =
    if indirection_level == 2
    then concat (lit "${" ∷ lit "!" ∷ ref ∷ lit "}" ∷ [])
    else if indirection_level == 1
    then concat (lit "${" ∷ ref ∷ lit "}" ∷ [])
    else ref

abbrev pub indirection_level : EntityReference → ℕ
indirection_level r =
    (if r.created_first_temporary_variable then 1 else 0)
    + (if r.created_second_temporary_variable then 1 else 0)

-- `get_class` of the entity; a class is its own, a method has none.
abbrev pub class_of : Store → Entity → Option ℕ
class_of s (object_entity o) = some o.type
class_of s (class_entity c) = some c
class_of s (datamember_entity d) = (s.datamember d).type
class_of s (method_entity m) = none

abbrev pub type_of_reference : Option ℕ → ReferenceType
type_of_reference none = ref_primitive
type_of_reference (some c) = ref_object

abbrev pub lvalue : Text → EntityReference → Text
lvalue id r = concat (r.reference_code.code ∷ lit "__" ∷ id ∷ [])

abbrev pub rvalue : Text → EntityReference → Text
rvalue id r =
    concat (get_encased_ref r.reference_code.code (indirection_level r) ∷ lit "__" ∷ id ∷ [])

abbrev pub prefix : Bool → Text
prefix declare_local = if declare_local then lit "local " else []

-- The declaration of the temporary for `id`, and its removal.
abbrev pub declaration : Bool → Text → EntityReference → Text
declaration declare_local id r =
    concat (prefix declare_local ∷ lvalue id r ∷ lit "=" ∷ rvalue id r ∷ lit "\n" ∷ [])

abbrev pub removal : Text → EntityReference → Text
removal id r = concat (lit "unset " ∷ lvalue id r ∷ lit "\n" ∷ [])

-- The branch of the loop for a data member.
unfoldable pub enter_datamember : Store → Bool → Text → ℕ → EntityReference → EntityReference
enter_datamember s declare_local id d r =
    let with_code = λ (pre post : Text). record r {
      entity = datamember_entity d;
      last_reference_type = type_of_reference (s.datamember d).type;
      reference_code = record { pre_code = pre; code = lvalue id r; post_code = post };
      created_first_temporary_variable = true;
      created_second_temporary_variable =
          r.created_first_temporary_variable || r.created_second_temporary_variable;
    } in
    let before = r.reference_code.pre_code in
    let after = r.reference_code.post_code in
    if r.created_first_temporary_variable
    then with_code (before ++ declaration declare_local id r) (after ++ removal id r)
    else with_code before after

-- The branch of the loop for a method.
unfoldable pub enter_method : ℕ → ℕ → EntityReference → EntityReference
enter_method m reference_class r = record r {
  entity = method_entity m;
  last_reference_type = ref_method;
  class_containing_the_method = some reference_class;
}

-- What the lookups of `id` as a data member and as a method lead to.
unfoldable pub enter :
    Store → Bool → Text → ℕ → Access → Access → EntityReference → Resolution EntityReference
unfolding enter_datamember enter_method
enter s declare_local id c inaccessible method r = failed (is_inaccessible id)
enter s declare_local id c not_found inaccessible r = failed (is_inaccessible id)
enter s declare_local id c not_found not_found r = failed (no_member id)
enter s declare_local id c not_found (member m) r = resolved (enter_method m c r)
enter s declare_local id c (member d) inaccessible r = failed (is_inaccessible id)
enter s declare_local id c (member d) not_found r =
    resolved (enter_datamember s declare_local id d r)
enter s declare_local id c (member d) (member m) r = resolved (enter_method m c r)

-- One round of the loop. Only a method or a primitive has no class, and both were turned away.
unfoldable pub resolve_step :
    Store → Bool → Option ℕ → Text → EntityReference → Resolution EntityReference
unfolding enter get_datamember get_method
resolve_step s declare_local current_class id r = elim r.last_reference_type [
  | ref_primitive ↦ failed after_primitive
  | ref_method ↦ failed after_method
  | ref_object ↦
      if contains (lit "__") id
      then failed (invalid_identifier id)
      else elim (class_of s r.entity) [
        | none ↦ failed after_primitive
        | some c ↦
            enter s declare_local id c (get_datamember s id c current_class)
              (get_method s id c current_class) r
      ]
]

unfoldable pub resolve_rest :
    Store → Bool → Option ℕ → List Text → EntityReference → Resolution EntityReference
unfolding resolve_step
resolve_rest s declare_local current_class [] r = resolved r
resolve_rest s declare_local current_class (id ∷ ids) r =
    elim (resolve_step s declare_local current_class id r) [
      | failed e ↦ failed e
      | resolved r' ↦ resolve_rest s declare_local current_class ids r'
    ]

-- Where the loop begins: the class whose code uses the reference, which `super` replaces by the parent,
-- the entity, the name of its variable, and whether that is a temporary of its own.
pub record StartingPoint : Type 0 where
  pub current_class : Option ℕ
  pub entity : Entity
  pub code : Text
  pub first_temporary : Bool

-- What comes before the loop. The class that contains the context is dereferenced in a
-- self-reference, which the callers make only inside a class: elsewhere the model answers that no
-- object was found.
unfoldable pub starting_point :
    Store → (Text → Option Object) → Option ℕ → Text → Resolution StartingPoint
unfolding last same_text
starting_point s object_of current_class first =
    if same_text first (lit "this")
    then elim current_class [
      | none ↦ failed object_not_found
      | some c ↦ resolved (record {
        current_class = some c;
        entity = class_entity c;
        code = lit "__this";
        first_temporary = true;
      })
    ]
    else if same_text first (lit "super")
    then elim current_class [
      | none ↦ failed object_not_found
      | some c ↦ elim (last (s.class_at c).parents) [
        | none ↦ failed no_parent_class
        | some parent ↦ resolved (record {
          current_class = some parent;
          entity = class_entity parent;
          code = lit "__this";
          first_temporary = true;
        })
      ]
    ]
    else elim (object_of first) [
      | none ↦ failed object_not_found
      | some o ↦ resolved (record {
        current_class = current_class;
        entity = object_entity o;
        code = o.address;
        first_temporary = o.pointer;
      })
    ]

abbrev pub start : Option ℕ → StartingPoint → EntityReference
start class_of_context p = record {
  entity = p.entity;
  last_reference_type = ref_object;
  reference_code = record { pre_code = []; code = p.code; post_code = [] };
  created_first_temporary_variable = p.first_temporary;
  created_second_temporary_variable = false;
  class_containing_the_method = class_of_context;
}

unfoldable pub resolve_reference_impl :
    Store → (Text → Option Object) → Option ℕ → Bool → Text → List Text → Resolution EntityReference
unfolding starting_point resolve_rest
resolve_reference_impl s object_of current_class declare_local first ids =
    elim (starting_point s object_of current_class first) [
      | failed e ↦ failed e
      | resolved p ↦ resolve_rest s declare_local p.current_class ids (start current_class p)
    ]
