-- ===== src/Listener/Entities.antt =====
-- The virtual functions of bpp_code_entity.h for an entity of the listener's stack.
use bashpp.Prelude.{Bool, true, false, if◌then◌else◌, Text}
use bashpp.CodeBuffers.{
  CodeEntity, add_code as plain_add_code, add_code_to_previous_line as plain_add_previous,
  add_code_to_next_line as plain_add_next, flush_code_buffers as plain_flush,
  clear_all_buffers as plain_clear,
}
use bashpp.CodeBuffers.Strings.{add_code as string_add_code}
use bashpp.CommandSequence.{
  CommandSequence, add_code as sequence_add_code, get_code as sequence_code,
  get_pre_code as sequence_pre_code, get_post_code as sequence_post_code,
  add_code_to_previous_line as sequence_add_previous, add_code_to_next_line as sequence_add_next,
}
use bashpp.Listener.{
  Entity, Kind, string_entity, if_branch, loop_condition, cast_target, bash_if, bash_loop,
  bash_case, command_sequence, dynamic_cast, object_reference, delete_statement, value_assignment,
  object_assignment,
}

-- The classes below `bpp_string`.
unfoldable pub is_string : Kind → Bool
is_string string_entity = true
is_string loop_condition = true
is_string cast_target = true
is_string (bash_if branches) = true
is_string (bash_case cases) = true
is_string (command_sequence q) = true
is_string (dynamic_cast target) = true
is_string (object_reference i) = true
is_string (delete_statement o) = true
is_string (value_assignment v) = true
is_string (object_assignment a) = true
is_string _ = false

-- A write to a field of the entity's own class.
abbrev pub on_kind : (Kind → Kind) → Entity → Entity
on_kind f e = record e { kind = f e.kind }

unfoldable pub on_sequence : (CommandSequence → CommandSequence) → Kind → Kind
on_sequence f (command_sequence q) = command_sequence (f q)
on_sequence f k = k

abbrev pub is_command_sequence : Kind → Bool
is_command_sequence (command_sequence q) = true
is_command_sequence _ = false

-- A command sequence's own functions, or those of a plain code entity or a string.
abbrev pub as_sequence :
    (CommandSequence → CommandSequence) → (CodeEntity → CodeEntity) → Entity → Entity
as_sequence f g e = record e {
  kind = on_sequence f e.kind;
  buffers = if is_command_sequence e.kind then e.buffers else g e.buffers;
}

unfoldable pub add_code : Text → Bool → Entity → Entity
unfolding on_sequence plain_add_code string_add_code sequence_add_code is_string
add_code text add_newline e =
    as_sequence (sequence_add_code text)
      (if is_string e.kind
        then string_add_code text add_newline
        else plain_add_code text add_newline)
      e

unfoldable pub add_code_to_previous_line : Text → Entity → Entity
unfolding on_sequence plain_add_previous sequence_add_previous
add_code_to_previous_line text e =
    as_sequence (sequence_add_previous text) (plain_add_previous text) e

unfoldable pub add_code_to_next_line : Text → Entity → Entity
unfolding on_sequence plain_add_next sequence_add_next
add_code_to_next_line text e = as_sequence (sequence_add_next text) (plain_add_next text) e

-- The classes whose main code is the next-line buffer and whose pre-code is what was written out.
unfoldable pub is_turned : Kind → Bool
unfolding is_string
is_turned if_branch = true
is_turned (bash_loop c) = true
is_turned k = is_string k

unfoldable pub get_code : Entity → Text
unfolding is_turned sequence_code
get_code e = elim e.kind [
  | command_sequence q ↦ sequence_code q
  | _ ↦ if is_turned e.kind then e.buffers.nextline_buffer else e.buffers.code
]

unfoldable pub get_pre_code : Entity → Text
unfolding is_turned sequence_pre_code
get_pre_code e = elim e.kind [
  | command_sequence q ↦ sequence_pre_code q
  | _ ↦ if is_turned e.kind then e.buffers.code else e.buffers.nextline_buffer
]

unfoldable pub get_post_code : Entity → Text
unfolding sequence_post_code
get_post_code e = elim e.kind [
  | command_sequence q ↦ sequence_post_code q
  | _ ↦ e.buffers.postline_buffer
]

-- Not virtual; no handler flushes or clears a command sequence.
unfoldable pub flush_entity : Entity → Entity
unfolding plain_flush
flush_entity e = record e { buffers = plain_flush e.buffers }

unfoldable pub clear_entity : Entity → Entity
unfolding plain_clear
clear_entity e = record e { buffers = plain_clear e.buffers }
