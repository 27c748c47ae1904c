-- ===== src/Irc/Parse.antt =====
-- irc/message.go: `parseMessage`, `parseWord`, and the line reader.
pub mod Words
pub mod RoundTrip
pub mod Growth
use irc_idler.Prelude.{
  ℕ, zero, suc, List, [], ◌∷◌, Bytes, ◌==◌, space, colon, length, Option, none, some, if◌then◌else◌,
}
use irc_idler.Irc.Message.{Message}

-- The second loop of `parseWord`: the bytes before the next space, and the input after it.
unfoldable pub read_word : Bytes → Bytes × Bytes
read_word [] = ([], [])
read_word (c ∷ s) =
    let (word, rest) = read_word s in if c == space then ([], s) else (c ∷ word, rest)

-- `none` is `io.EOF` on the first read.
unfoldable pub parse_word : Bytes → Option (Bytes × Bytes)
unfolding read_word
parse_word [] = none
parse_word (c ∷ s) = if c == colon then some (s, []) else some (read_word (c ∷ s))

-- `for parseWord(output, input) == nil { append }`; a round takes a byte at least, so the length
-- of the input is fuel enough.
unfoldable pub parse_params : ℕ → Bytes → List Bytes
unfolding parse_word
parse_params zero s = []
parse_params (suc fuel) s = elim (parse_word s) [
  | none ↦ []
  | some (word, rest) ↦ word ∷ parse_params fuel rest
]

unfoldable pub parse_command : Bytes → Bytes → Option Message
unfolding parse_params
parse_command prefix s = elim (parse_word s) [
  | none ↦ none
  | some (command, rest) ↦
      some (record { prefix = prefix; command = command; params = parse_params (length rest) rest })
]

unfoldable pub parse_prefix : Bytes → Option Message
unfolding parse_command
parse_prefix s = elim (parse_word s) [
  | none ↦ none
  | some (prefix, rest) ↦ parse_command prefix rest
]

-- `parseMessage`. Its only error is `io.EOF`, here `none`; the byte that `UnreadByte` puts back was
-- not a colon.
unfoldable pub parse_message : Bytes → Option Message
unfolding parse_prefix
parse_message [] = none
parse_message (c ∷ s) = if c == colon then parse_prefix s else parse_command [] (c ∷ s)
