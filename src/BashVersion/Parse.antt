-- ===== src/BashVersion/Parse.antt =====
-- Reading a version back, and what a version that was read satisfies.
use bashpp.Prelude.{
  ℕ, zero, suc, ◌+◌, ◌-◌, ◌*◌, ◌/◌, ◌%◌, ◌<◌, Bool, true, false, [], ◌∷◌, ◌++◌, some, ◌≡◌, sym, ◌∙◌,
  ap, inl, inr, arith, ltb, Bool-cases, append_assoc, append-nil, Text, digits, to_string,
}
use bashpp.BashVersion.{BashVersion, IsVersion, version_string, parse_from, parse_version}

-- One digit behind a value that leaves room for it.
parse_from_digit :
    (dot : Bool) (major value d : ℕ) (rest : Text)
    → d < 10
    → value * 10 + d < 65536
    → parse_from dot major value ((48 + d) ∷ rest) ≡ parse_from dot major (value * 10 + d) rest
unfolding parse_from
parse_from_digit dot major value d rest h k =
    let e : 48 + d - 48 ≡ d = omega arith in rw e (ground arith)

parse_from-digits :
    (fuel n : ℕ) (dot : Bool) (major : ℕ) (rest : Text)
    → n < fuel
    → n < 65536
    → parse_from dot major 0 (digits fuel n ++ rest) ≡ parse_from dot major n rest
unfolding digits
parse_from-digits zero n dot major rest h k = elim h [ ]
parse_from-digits (suc fuel) n dot major rest h k = elim (Bool-cases (ltb n 10)) [
  | inl small ↦ rw small (
      parse_from_digit dot major 0 n rest (ground arith) (ground arith)
      ∙ ap (λ t. parse_from dot major t rest) (omega arith))
  | inr large ↦ rw large (
      ap (parse_from dot major 0) (append_assoc (digits fuel (n / 10)) ((48 + n % 10) ∷ []) rest)
      ∙ parse_from-digits fuel (n / 10) dot major ((48 + n % 10) ∷ rest) (ground arith)
          (omega arith)
      ∙ parse_from_digit dot major (n / 10) (n % 10) rest (omega arith) (omega arith)
      ∙ ap (λ t. parse_from dot major t rest) (omega arith))
]

-- Every version whose parts fit 16 bits is read back from its string.
pub parse_version-version_string :
    (v : BashVersion) → IsVersion v → parse_version (version_string v) ≡ some v
unfolding parse_version version_string to_string parse_from
parse_version-version_string v h =
    parse_from-digits (suc v.major) v.major false 5 (b'.' ∷ to_string v.minor) (omega arith) h.0
    ∙ ap (parse_from true v.major 0) (sym (append-nil (to_string v.minor)))
    ∙ parse_from-digits (suc v.minor) v.minor true v.major [] (omega arith) h.1

parse_from-IsVersion :
    (dot : Bool) (major value : ℕ) (text : Text) (v : BashVersion)
    → major < 65536
    → value < 65536
    → parse_from dot major value text ≡ some v
    → IsVersion v
unfolding parse_from
parse_from-IsVersion dot major value [] v hm hv e = ground arith
parse_from-IsVersion dot major value (c ∷ cs) v hm hv e = ground (
  arith,
  parse_from-IsVersion dot major (value * 10 + (c - 48)) cs v hm,
  parse_from-IsVersion true value 0 cs v hv,
)

-- Whatever text is accepted, both parts of the version fit 16 bits: no digit makes them wrap around.
pub parse_version-IsVersion :
    (text : Text) (v : BashVersion) → parse_version text ≡ some v → IsVersion v
unfolding parse_version
parse_version-IsVersion text v e =
    parse_from-IsVersion false 5 0 text v (omega arith) (omega arith) e
