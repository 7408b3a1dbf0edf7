-- ===== src/Tests.antt =====
-- Runs of the models on concrete inputs, and the theorems at inputs that meet their hypotheses.
mod Structures
mod Programs
mod ClassCode
mod Temporaries
mod Threads
mod Timing
mod Listener
use bashpp.Prelude.{
  ℕ, [], ◌∷◌, some, none, true, ◌≡◌, ◌≤◌, ◌<◌, ◌↔◌, refl, arith, Text, lit, to_string, digits,
}
use bashpp.BashVersion.Order.{Older, older_iff}
use bashpp.BashVersion.{
  BashVersion, IsVersion, older, at_least, version_string, parse_version, parse_from,
}
use bashpp.BashVersion.Parse.{parse_version-version_string, parse_version-IsVersion}

abbrev bash_5_3 : BashVersion
bash_5_3 = record { major = 5; minor = 3 }

parse_bash_5_3 : parse_version (lit "5.3") ≡ some bash_5_3
unfolding parse_version lit
parse_bash_5_3 = refl

-- The empty text and a lone dot are accepted as version 0.0.
parse_empty : parse_version [] ≡ some (record { major = 0; minor = 0 })
unfolding parse_version
parse_empty = refl

parse_overflow : parse_version (lit "65536") ≡ none
unfolding parse_version lit
parse_overflow = refl

parse_version-version_string_example : parse_version (version_string bash_5_3) ≡ some bash_5_3
parse_version-version_string_example = parse_version-version_string bash_5_3 (omega arith)

parse_version-IsVersion_example : IsVersion bash_5_3
parse_version-IsVersion_example = parse_version-IsVersion (lit "5.3") bash_5_3 parse_bash_5_3

older_iff_example :
    ((older bash_5_3 bash_5_3 ≡ true) ↔ Older bash_5_3 bash_5_3)
    × ((at_least bash_5_3 bash_5_3 ≡ true) ↔ (¬ Older bash_5_3 bash_5_3))
older_iff_example = older_iff bash_5_3 bash_5_3 (omega arith) (omega arith)
