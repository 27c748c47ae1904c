-- ===== src/Irc/Reader/Stream.antt =====
-- Messages that one side writes to a connection are the messages that the other side reads.
use irc_idler.Prelude.{
  ℕ, zero, suc, ◌+◌, ◌≤◌, List, [], ◌∷◌, ◌++◌, Bytes, Option, some, length, All, All-append, Lacks,
  ◌≡◌, ◌≢◌, ◌∙◌, sym, ap, refl, arith, length-append, append_assoc, append-nil,
}
use irc_idler.Irc.Message.{Message, to_string, len, crlf}
use irc_idler.Irc.Message.Printed.{length-to_string}
use irc_idler.Irc.Parse.{parse_message}
use irc_idler.Irc.Parse.RoundTrip.{IsPrintable, KeepsLast, line, to_string-line, read_back_iff}
use irc_idler.Irc.Reader.{
  got, failed, eof, token, scan, take_line, longer, without_cr, drop_cr, parsed, read_message,
  read_loop, read_all, newline, carriage_return, max_message_len, parse_message_string, single,
}

take_line_lem :
    (room : ℕ) (l rest : Bytes)
    → Lacks newline l
    → length l + 1 ≤ room
    → take_line room (l ++ newline ∷ rest) ≡ token l rest
unfolding take_line longer
take_line_lem zero l rest h fits = absurd (omega arith)
take_line_lem (suc room) [] rest h fits = ground arith
take_line_lem (suc room) (c ∷ l) rest (hc, hl) fits =
    ground (arith, take_line_lem room l rest hl (omega arith))

drop_cr_lem : (l : Bytes) → drop_cr (l ++ carriage_return ∷ []) ≡ l
unfolding drop_cr
drop_cr_lem [] = ground arith
drop_cr_lem (c ∷ []) = ground arith
drop_cr_lem (c ∷ d ∷ l) = ap (λ (t : Bytes). c ∷ t) (drop_cr_lem (d ∷ l))

-- A line that fits the buffer with its end is the next token.
pub scan_line :
    (c : ℕ) (l rest : Bytes)
    → Lacks newline (c ∷ l)
    → length (c ∷ l) + 2 ≤ max_message_len
    → scan ((c ∷ l) ++ (crlf ++ rest)) ≡ token (c ∷ l) rest
unfolding scan without_cr
scan_line c l rest h fits =
    let raw = (c ∷ l) ++ carriage_return ∷ [] in
    let shape : (c ∷ l) ++ (crlf ++ rest) ≡ raw ++ newline ∷ rest =
      sym (append_assoc (c ∷ l) (carriage_return ∷ []) (newline ∷ rest)) in
    let lacks : Lacks newline raw =
      All-append (λ b. b ≢ newline) (c ∷ l) (carriage_return ∷ []) h (omega arith) in
    let room : length raw + 1 ≤ max_message_len =
      omega (arith, length-append (c ∷ l) (carriage_return ∷ [])) in
    ap (λ (t : Bytes). without_cr (take_line max_message_len t)) shape
    ∙ ap without_cr (take_line_lem max_message_len raw rest lacks room)
    ∙ ap (λ (t : Bytes). token t rest) (drop_cr_lem (c ∷ l))

-- A message that a connection carries as it is.
pub record IsCarried (m : Message) : Type 0 where
  pub printable : IsPrintable m
  pub keeps_last : KeepsLast m.params
  pub one_line : Lacks newline (line m)
  pub fits : len m ≤ max_message_len

read_line :
    (l rest : Bytes) {m : Message}
    → Lacks newline l
    → length l + 2 ≤ max_message_len
    → parse_message l ≡ some m
    → read_message (l ++ (crlf ++ rest)) ≡ got m rest
unfolding read_message
read_line [] rest h fits e = unfold parse_message in cc
read_line (c ∷ l) rest h fits e =
    rw (scan_line c l rest h fits, read_message) (ap (λ (o : Option Message). parsed o rest) e)

-- One read takes one message and leaves the input behind it.
pub read_message-to_string :
    (m : Message) (rest : Bytes) → IsCarried m → read_message (to_string m ++ rest) ≡ got m rest
read_message-to_string m rest h =
    let fits : length (line m) + 2 ≤ max_message_len = omega (
      arith,
      h.fits,
      length-to_string m,
      ap (λ (t : Bytes). length t) (to_string-line m),
      length-append (line m) crlf,
    ) in
    ap (λ (t : Bytes). read_message (t ++ rest)) (to_string-line m)
    ∙ ap read_message (append_assoc (line m) crlf rest)
    ∙ read_line (line m) rest h.one_line fits ((read_back_iff m h.printable).1 h.keeps_last)

-- What is written for the messages, one behind the other.
abbrev pub wire : List Message → Bytes
wire [] = []
wire (m ∷ ms) = to_string m ++ wire ms

to_string-pos : (m : Message) → 2 ≤ length (to_string m)
to_string-pos m =
    omega (arith, ap (λ (t : Bytes). length t) (to_string-line m), length-append (line m) crlf)

read_loop-wire :
    (fuel : ℕ) (ms : List Message)
    → length (wire ms) ≤ fuel
    → All IsCarried ms
    → read_loop fuel (wire ms) ≡ ms
unfolding read_loop
read_loop-wire zero [] room h = refl
read_loop-wire zero (m ∷ ms) room h =
    absurd (omega (arith, to_string-pos m, length-append (to_string m) (wire ms)))
read_loop-wire (suc fuel) [] room h = unfold read_message scan in refl
read_loop-wire (suc fuel) (m ∷ ms) room (hm, hms) =
    rw (read_message-to_string m (wire ms) hm, read_loop)
      (ap (λ (l : List Message). m ∷ l)
        (read_loop-wire fuel ms
          (omega (arith, to_string-pos m, length-append (to_string m) (wire ms))) hms))

-- The reader gets the messages that were written, in order, and no other.
pub read_all-wire : (ms : List Message) → All IsCarried ms → read_all (wire ms) ≡ ms
unfolding read_all
read_all-wire ms h = read_loop-wire (length (wire ms)) ms (omega arith) h

-- An empty line reads as the end of the input.
pub read_message_empty_line : (rest : Bytes) → read_message (crlf ++ rest) ≡ failed eof
unfolding read_message scan take_line longer without_cr drop_cr parsed parse_message
read_message_empty_line rest = refl

-- Whatever follows an empty line, `ParseMessage` does not see it.
pub parse_message_string_empty_line :
    (m : Message) (rest : Bytes)
    → IsCarried m
    → parse_message_string (to_string m ++ (crlf ++ rest)) ≡ got m []
unfolding parse_message_string single
parse_message_string_empty_line m rest h =
    rw (read_message-to_string m (crlf ++ rest) h, parse_message_string)
      (ap (single m) (read_message_empty_line rest))

read_message_nothing : read_message [] ≡ failed eof
unfolding read_message scan
read_message_nothing = refl

-- `ParseMessage` reads the text of a message back as that message.
pub parse_message_string-to_string :
    (m : Message) → IsCarried m → parse_message_string (to_string m) ≡ got m []
unfolding parse_message_string single
parse_message_string-to_string m h =
    let one : read_message (to_string m) ≡ got m [] =
      ap read_message (sym (append-nil (to_string m))) ∙ read_message-to_string m [] h in
    rw (one, parse_message_string) (ap (single m) read_message_nothing)
