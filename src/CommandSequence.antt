-- ===== src/CommandSequence.antt =====
-- src/bpp_include/bash_command_sequence.cpp: pipelines joined by `&&` and `||`, each with its own
-- pre- and post-code.
pub mod Render
use bashpp.Prelude.{
  ℕ, Bool, true, false, not, ◌&&◌, List, [], ◌∷◌, ◌++◌, if◌then◌else◌, Text, lit, is_empty,
}

-- The buffers of `bpp_string` (`code`, `nextline_buffer` and `postline_buffer`) and the fields of the
-- class.
pub record CommandSequence : Type 0 where
  pub code : Text
  pub nextline_buffer : Text
  pub postline_buffer : Text
  pub joined_code : Text
  pub contains_multiple_commands : Bool
  pub perfect_forwarding : Bool

abbrev pub new_sequence : Bool → CommandSequence
new_sequence perfect_forwarding = record {
  code = [];
  nextline_buffer = [];
  postline_buffer = [];
  joined_code = [];
  contains_multiple_commands = false;
  perfect_forwarding = perfect_forwarding;
}

abbrev pub when : Bool → Text → Text
when b t = if b then t else []

-- The text that `join` appends.
unfoldable pub joined_text : Bool → Text → Text → Text → Text
joined_text enclose pre_code main_code post_code =
    when enclose (lit "{\n")
    ++ (when (not (is_empty pre_code)) (pre_code ++ lit "\n")
        ++ (main_code
            ++ (when (not (is_empty post_code))
                  (lit "\n____ret=$?\n" ++ (post_code ++ lit "\nbpp____repeat $____ret"))
                ++ when enclose (lit "\n}"))))

unfoldable pub join : CommandSequence → CommandSequence
unfolding joined_text
join q =
    let nothing = is_empty q.code && (is_empty q.nextline_buffer && is_empty q.postline_buffer) in
    let text =
      joined_text q.contains_multiple_commands q.code q.nextline_buffer q.postline_buffer in
    let cleared = record q { code = []; nextline_buffer = []; postline_buffer = [] } in
    if q.perfect_forwarding
    then q
    else if nothing
    then cleared
    else record cleared { joined_code = q.joined_code ++ text }

abbrev pub connective_text : Bool → Text
connective_text is_and = if is_and then lit " && " else lit " || "

unfoldable pub add_connective : Bool → CommandSequence → CommandSequence
add_connective is_and q =
    let first = record q {
      joined_code = (lit "{\n" ++ (q.joined_code ++ lit "\n}")) ++ connective_text is_and;
      contains_multiple_commands = true;
    } in
    let later = record q { joined_code = q.joined_code ++ connective_text is_and } in
    if q.perfect_forwarding
    then record q { nextline_buffer = q.nextline_buffer ++ connective_text is_and }
    else if q.contains_multiple_commands
    then later
    else first

unfoldable pub add_code : Text → CommandSequence → CommandSequence
unfolding join
add_code text q =
    let filled = record q { nextline_buffer = q.nextline_buffer ++ text } in
    if q.perfect_forwarding then filled else join filled

-- Inherited from `bpp_string`.
unfoldable pub add_code_to_previous_line : Text → CommandSequence → CommandSequence
add_code_to_previous_line text q = record q { code = q.code ++ text }

unfoldable pub add_code_to_next_line : Text → CommandSequence → CommandSequence
add_code_to_next_line text q = record q { postline_buffer = q.postline_buffer ++ text }

unfoldable pub get_pre_code : CommandSequence → Text
get_pre_code q = if q.perfect_forwarding then q.code else []

unfoldable pub get_post_code : CommandSequence → Text
get_post_code q = if q.perfect_forwarding then q.postline_buffer else []

unfoldable pub get_code : CommandSequence → Text
get_code q = if q.perfect_forwarding then q.nextline_buffer else q.joined_code
