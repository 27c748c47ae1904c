-- ===== src/Irc/Reader.antt =====
-- irc/message.go: `ioReader`, `ReadMessage`, `ParseMessage` and the loop of `ReadAll`
-- (irc/helpers.go). A reader is the input that is left. The scanner is that of package bufio, with
-- `ScanLines` and a buffer of `MaxMessageLen` bytes.
pub mod Stream
use irc_idler.Prelude.{
  ℕ, zero, suc, ◌+◌, ◌-◌, List, [], ◌∷◌, ◌++◌, Bytes, ◌==◌, Bool, true, false, Option, none, some,
  if◌then◌else◌, length,
}
use irc_idler.Irc.Message.{Message}
use irc_idler.Irc.Parse.{parse_message}

abbrev pub max_message_len : ℕ
max_message_len = 512

abbrev pub newline : ℕ
newline = 10

abbrev carriage_return : ℕ
carriage_return = 13

pub data ReadError : Type 0 where
  eof : ReadError
  too_long : ReadError
  more_than_one : ReadError

-- One call of `Scan`: a line and the input behind it, or why there is none.
pub data Scanned : Type 0 where
  token : Bytes → Bytes → Scanned
  stopped : ReadError → Scanned

-- `bufio.dropCR`.
drop_cr : Bytes → Bytes
drop_cr [] = []
drop_cr (c ∷ []) = if c == carriage_return then [] else c ∷ []
drop_cr (c ∷ d ∷ s) = c ∷ drop_cr (d ∷ s)

longer : ℕ → Scanned → Scanned
longer c (token line rest) = token (c ∷ line) rest
longer c (stopped e) = stopped e

-- The raw line: up to the next newline, which must lie within the buffer, or the end of the input,
-- which is seen only while the buffer has room.
take_line : ℕ → Bytes → Scanned
unfolding longer
take_line zero s = stopped too_long
take_line (suc room) [] = token [] []
take_line (suc room) (c ∷ s) =
    let more = longer c (take_line room s) in if c == newline then token [] s else more

without_cr : Scanned → Scanned
unfolding drop_cr
without_cr (token line rest) = token (drop_cr line) rest
without_cr (stopped e) = stopped e

unfoldable pub scan : Bytes → Scanned
unfolding take_line without_cr
scan [] = stopped eof
scan (c ∷ s) = without_cr (take_line max_message_len (c ∷ s))

pub data ReadResult : Type 0 where
  got : Message → Bytes → ReadResult
  failed : ReadError → ReadResult

-- The parser's error on the token, or its message.
parsed : Option Message → Bytes → ReadResult
parsed none rest = failed eof
parsed (some m) rest = got m rest

unfoldable pub read_message : Bytes → ReadResult
unfolding parsed
read_message input = elim (scan input) [
  | token line rest ↦ parsed (parse_message line) rest
  | stopped e ↦ failed e
]

-- The second read of `ParseMessage` has to end in `io.EOF`.
single : Message → ReadResult → ReadResult
single m (got other rest) = failed more_than_one
single m (failed eof) = got m []
single m (failed too_long) = failed more_than_one
single m (failed more_than_one) = failed more_than_one

unfoldable pub parse_message_string : Bytes → ReadResult
unfolding single
parse_message_string input = elim (read_message input) [
  | got m rest ↦ single m (read_message rest)
  | failed e ↦ failed e
]

-- The messages that `ReadAll` sends before it closes its channel. A read takes a byte, so the
-- length of the input is fuel enough.
read_loop : ℕ → Bytes → List Message
read_loop zero input = []
read_loop (suc fuel) input = elim (read_message input) [
  | got m rest ↦ m ∷ read_loop fuel rest
  | failed e ↦ []
]

unfoldable pub read_all : Bytes → List Message
unfolding read_loop
read_all input = read_loop (length input) input
