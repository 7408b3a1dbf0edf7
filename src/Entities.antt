-- ===== src/Entities.antt =====
-- Names and scopes: src/bpp_include/bpp.h and bpp_entity.cpp. A name is looked up among an entity's own
-- objects, then among those of its parents, and a class in the program.
pub mod Visibility
use bashpp.Prelude.{
  ℕ, zero, suc, ◌+◌, ◌-◌, Bool, true, false, not, ◌&&◌, ◌||◌, List, [], ◌∷◌, ◌++◌, Option, none,
  some, length, get_elem?, ltb, leb, ◌==◌, if◌then◌else◌, Text, lit, contains, is_empty, mem_text,
  same_text,
}

-- An object or a class: its name, and which one it is.
pub record Named : Type 0 where
  pub name : Text
  pub id : ℕ

abbrev pub protected_keywords : List Text
protected_keywords =
    lit "class"
    ∷ lit "constructor"
    ∷ lit "delete"
    ∷ lit "destructor"
    ∷ lit "dynamic_cast"
    ∷ lit "include"
    ∷ lit "include_once"
    ∷ lit "local"
    ∷ lit "method"
    ∷ lit "new"
    ∷ lit "nullptr"
    ∷ lit "private"
    ∷ lit "protected"
    ∷ lit "public"
    ∷ lit "super"
    ∷ lit "this"
    ∷ lit "typeof"
    ∷ lit "virtual"
    ∷ []

unfoldable pub is_protected_keyword : Text → Bool
unfolding mem_text
is_protected_keyword keyword = mem_text keyword protected_keywords

-- `isalpha` and `isalnum` in the C locale
abbrev is_alpha : ℕ → Bool
is_alpha c = (leb b'a' c && leb c b'z') || (leb b'A' c && leb c b'Z')

abbrev is_word : ℕ → Bool
is_word c = is_alpha c || ((leb b'0' c && leb c b'9') || (c == b'_'))

pub all_word : Text → Bool
all_word [] = true
all_word (c ∷ s) = is_word c && all_word s

abbrev begins_word : Text → Bool
begins_word [] = false
begins_word (c ∷ s) = is_alpha c || (c == b'_')

unfoldable pub is_valid_identifier : Text → Bool
unfolding is_protected_keyword contains all_word
is_valid_identifier identifier =
    not (is_empty identifier || is_protected_keyword identifier)
    && (not (contains (lit "__") identifier) && (begins_word identifier && all_word identifier))

-- `OwnedEntityList`, which maps each name to the index of its first entity: `index` is that map.
unfoldable pub index_of : Text → List Named → Option ℕ
unfolding same_text
index_of name [] = none
index_of name (e ∷ es) =
    if same_text e.name name
    then some 0
    else elim (index_of name es) [ none ↦ none | some i ↦ some (suc i) ]

unfoldable pub add : Named → List Named → List Named × Bool
unfolding index_of
add entity entities = elim (index_of entity.name entities) [
  | some i ↦ (entities, false)
  | none ↦ (entities ++ entity ∷ [], true)
]

-- `find`, with `none` for the default `max_visible_index` of `SIZE_MAX`
abbrev within : Option ℕ → ℕ → Bool
within none index = true
within (some limit) index = leb index limit

unfoldable pub find : Text → Option ℕ → List Named → Option Named
unfolding index_of
find name max_visible_index entities = elim (index_of name entities) [
  | none ↦ none
  | some index ↦ if within max_visible_index index then get_elem? entities index else none
]

-- An entity's own objects, and for each of its parents, nearest first, what that parent's objects are and
-- how many were counted when the child was made.
pub record Scope : Type 0 where
  pub local_objects : List Named
  pub parents : List (List Named × ℕ)

unfoldable pub find_in_parents : Text → List (List Named × ℕ) → Option Named
unfolding find
find_in_parents name [] = none
find_in_parents name ((objects, count) ∷ rest) = elim (find name (some count) objects) [
  | some o ↦ some o
  | none ↦ find_in_parents name rest
]

-- `get_object`
unfoldable pub get_object : Text → Scope → Option Named
unfolding find find_in_parents
get_object name s = elim (find name none s.local_objects) [
  | some o ↦ some o
  | none ↦ find_in_parents name s.parents
]

-- `add_object`
unfoldable pub add_object : Named → Scope → Scope × Bool
unfolding add get_object
add_object object s = elim (get_object object.name s) [
  | some o ↦ (s, false)
  | none ↦ (record s { local_objects = (add object s.local_objects).0 }, true)
]

unfoldable pub count_in_parents : List (List Named × ℕ) → ℕ
count_in_parents [] = 0
count_in_parents ((objects, count) ∷ rest) = length objects + count_in_parents rest

unfoldable pub number_of_known_objects : Scope → ℕ
unfolding count_in_parents
number_of_known_objects s = length s.local_objects + count_in_parents s.parents

-- `inherit`: a new entity below `s`, which remembers the number of objects known by then.
unfoldable pub inherit : Scope → Scope
unfolding number_of_known_objects
inherit s = record {
  local_objects = [];
  parents = (s.local_objects, number_of_known_objects s) ∷ s.parents;
}

unfoldable pub known_in_parents : List (List Named × ℕ) → List Named
known_in_parents [] = []
known_in_parents ((objects, count) ∷ rest) = known_in_parents rest ++ objects

-- `get_all_known_objects`
unfoldable pub get_all_known_objects : Scope → List Named
unfolding known_in_parents
get_all_known_objects s = known_in_parents s.parents ++ s.local_objects

-- `bpp_entity::get_class` and `get_all_known_classes`, for an entity made when the program had `count`
-- classes.
unfoldable pub get_class : Text → ℕ → List Named → Option Named
unfolding find
get_class name count classes = find name (some count) classes

unfoldable pub take : {A : Type 0} → ℕ → List A → List A
take zero xs = []
take (suc n) [] = []
take (suc n) (x ∷ xs) = x ∷ take n xs

unfoldable pub get_all_known_classes : ℕ → List Named → List Named
unfolding take
get_all_known_classes count classes =
    if ltb count (length classes) then take count classes else classes
