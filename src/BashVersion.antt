-- ===== src/BashVersion.antt =====
-- src/include/BashVersion.h: the Bash version to compile for, a pair of `uint16_t`.
pub mod Parse
pub mod Order
use bashpp.Prelude.{
  ℕ, ◌+◌, ◌-◌, ◌*◌, ◌/◌, ◌<◌, Bool, true, false, ◌&&◌, List, [], ◌∷◌, ◌++◌, Option, none, some, ltb,
  leb, ◌==◌, if◌then◌else◌, Text, lit, to_string,
}

pub record BashVersion : Type 0 where
  pub major : ℕ
  pub minor : ℕ

-- Both fields are `uint16_t`.
abbrev pub IsVersion : BashVersion → Type 0
IsVersion v = (v.major < 65536) × (v.minor < 65536)

-- `operator uint32_t`; the low 16 bits of `major << 16` are zero, so `| minor` is a sum.
unfoldable pub version_key : BashVersion → ℕ
version_key v = v.major * 65536 + v.minor

unfoldable pub at_least : BashVersion → BashVersion → Bool
unfolding version_key
at_least v w = leb (version_key w) (version_key v)

unfoldable pub older : BashVersion → BashVersion → Bool
unfolding version_key
older v w = ltb (version_key v) (version_key w)

unfoldable pub version_string : BashVersion → Text
version_string v = to_string v.major ++ (b'.' ∷ to_string v.minor)

abbrev is_digit : ℕ → Bool
is_digit c = leb b'0' c && leb c b'9'

-- The loop of the constructor: whether the dot was read (`current == &minor`), the major version once
-- it was, and `value`. `none` is `std::invalid_argument`.
unfoldable pub parse_from : Bool → ℕ → ℕ → Text → Option BashVersion
parse_from dot major value [] =
    some
      (if dot then record { major = major; minor = value } else record { major = value; minor = 0 })
parse_from dot major value (c ∷ cs) =
    let digit = parse_from dot major (value * 10 + (c - b'0')) cs in
    let after_dot = parse_from true value 0 cs in
    if is_digit c
    then if ltb ((65535 - (c - b'0')) / 10) value then none else digit
    else if c == b'.'
    then if dot then none else after_dot
    else none

unfoldable pub parse_version : Text → Option BashVersion
unfolding parse_from
parse_version text = parse_from false 5 0 text
