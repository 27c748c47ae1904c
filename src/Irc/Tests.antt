-- ===== src/Irc/Tests.antt =====
-- Concrete messages and client ids, and the theorems at them.
use irc_idler.Prelude.{
  ℕ, ◌+◌, ◌≤◌, [], ◌∷◌, ◌++◌, bytes, bytes_eq, length, none, some, ◌≡◌, ◌↔◌, refl, arith, inl,
}
use irc_idler.Irc.Message.{
  param_chunks, prefix_chunks, crlf, Message, Writer, len, to_string, write_to,
}
use irc_idler.Irc.Message.Printed.{write_to-error}
use irc_idler.Irc.Parse.{parse_message}
use irc_idler.Irc.Parse.RoundTrip.{
  IsPrintable, KeepsLast, line, received, parse_message-line, read_back_iff,
}
use irc_idler.Irc.Parse.Growth.{length-to_string-parse_message}
use irc_idler.Irc.Reader.{read_all, parse_message_string, got}
use irc_idler.Irc.Reader.Stream.{IsCarried, wire, read_all-wire, parse_message_string_empty_line}
use irc_idler.Irc.ClientId
use irc_idler.Irc.Mask.{to_regexp}
use irc_idler.Irc.Filters.{Receive, arrive, refresh, waiting, limiter, max_quota, rate_limit}
use irc_idler.Irc.Filters.Rate.{arrivals, ticks, rate_limit_lem}
use irc_idler.Prelude.{List}
use irc_idler.Irc.Mask.Tokens.{IsQuoting, patterns, tokens, to_regexp_lem}
use irc_idler.Prelude.{Bytes, ◌==◌, if◌then◌else◌, false, ◌++◌}
use irc_idler.Irc.ClientId.{ClientId, parse_client_id, ok}
use irc_idler.Irc.ClientId.RoundTrip.{IsCanonical, parse_client_id-to_string}
use irc_idler.Irc.ClientId.Canonical.{parse_client_id-IsCanonical}

-- ":a P #c ::)": the smiley's colon is not doubled by the printer.
abbrev smiley : Message
smiley = record {
  prefix = b'a' ∷ [];
  command = b'P' ∷ [];
  params = (b'#' ∷ b'c' ∷ []) ∷ (b':' ∷ b')' ∷ []) ∷ [];
}

smiley-IsPrintable : IsPrintable smiley
smiley-IsPrintable = record {
  prefix_word = omega arith;
  command_word = omega arith;
  has_command = ground arith;
  middle_words = omega arith;
}

parse_message-line_example :
    parse_message (line smiley) ≡ some (record smiley { params = received smiley.params })
parse_message-line_example = parse_message-line smiley smiley-IsPrintable

read_back_iff_example : (parse_message (line smiley) ≡ some smiley) ↔ KeepsLast smiley.params
read_back_iff_example = read_back_iff smiley smiley-IsPrintable

smiley_again : parse_message (bytes ":a P #c ::)") ≡ some smiley
unfolding parse_message bytes
smiley_again = refl

length-to_string-parse_message_example :
    length (to_string smiley) ≤ length (bytes ":a P #c ::)") + 2
length-to_string-parse_message_example =
    length-to_string-parse_message (bytes ":a P #c ::)") {m = smiley} smiley_again

-- A writer that fails each time.
abbrev broken_pipe : Writer ℕ ℕ
broken_pipe s n = (0, some 32, n + 1)

write_to-error_example : (write_to broken_pipe smiley 0).1 ≡ none
write_to-error_example = write_to-error broken_pipe smiley 0

abbrev alice : ClientId
alice = record { flag = b'@' ∷ []; nick = b'n' ∷ []; user = b'u' ∷ []; host = b'h' ∷ [] }

alice-IsCanonical : IsCanonical alice
alice-IsCanonical = record {
  flag_fits = inl refl;
  has_nick = ground arith;
  nick_at = omega arith;
  user_at = omega arith;
  host_at = omega arith;
  nick_bang = λ h. omega arith;
  user_bang = omega arith;
  user_host = λ h. ground arith;
}

parse_client_id-to_string_example : parse_client_id (ClientId.to_string alice) ≡ ok alice
parse_client_id-to_string_example = parse_client_id-to_string alice alice-IsCanonical

alice_parsed : parse_client_id (bytes "@n!u@h") ≡ ok alice
unfolding parse_client_id bytes bytes_eq
alice_parsed = refl

parse_client_id-IsCanonical_example : IsCanonical alice
parse_client_id-IsCanonical_example =
    parse_client_id-IsCanonical (bytes "@n!u@h") alice alice_parsed

abbrev hello : Message
hello = record {
  prefix = [];
  command = b'P' ∷ [];
  params = (b'#' ∷ b'c' ∷ []) ∷ (b'h' ∷ b'i' ∷ b' ' ∷ b':' ∷ []) ∷ [];
}

hello-IsCarried : IsCarried hello
unfolding param_chunks prefix_chunks
hello-IsCarried = record {
  printable = record {
    prefix_word = omega arith;
    command_word = omega arith;
    has_command = ground arith;
    middle_words = omega arith;
  };
  keeps_last = (ground arith, inl refl);
  one_line = omega arith;
  fits = unfold len in omega arith;
}

read_all-wire_example : read_all (wire (hello ∷ hello ∷ [])) ≡ hello ∷ hello ∷ []
read_all-wire_example = read_all-wire (hello ∷ hello ∷ []) (hello-IsCarried, (hello-IsCarried, tt))

parse_message_string_empty_line_example :
    parse_message_string (to_string hello ++ (crlf ++ to_string hello)) ≡ got hello []
parse_message_string_empty_line_example =
    parse_message_string_empty_line hello (to_string hello) hello-IsCarried

-- A quoting that escapes the dot.
abbrev dots : Bytes → Bytes
dots [] = []
dots (c ∷ s) = let rest = dots s in if c == b'.' then b'\\' ∷ c ∷ rest else c ∷ rest

dots-append : (s t : Bytes) → dots (s ++ t) ≡ dots s ++ dots t
dots-append [] t = refl
dots-append (c ∷ s) t = ground (arith, dots-append s t)

dots-IsQuoting : IsQuoting dots
dots-IsQuoting = record { quotes_empty = refl; quotes_append = dots-append }

to_regexp_lem_example :
    to_regexp dots (b'a' ∷ b'.' ∷ b'*' ∷ [])
    ≡ patterns dots (tokens false (b'a' ∷ b'.' ∷ b'*' ∷ []))
to_regexp_lem_example = to_regexp_lem dots dots-IsQuoting (b'a' ∷ b'.' ∷ b'*' ∷ [])

-- One message uses up a quota of one; the next waits for a tick.
abbrev paced : List Receive
paced = arrive hello ∷ refresh ∷ arrive smiley ∷ []

paced_run : rate_limit 0 (limiter 0) paced ≡ some (waiting, hello ∷ smiley ∷ [])
unfolding rate_limit
paced_run = refl

rate_limit_lem_example :
    (hello ∷ smiley ∷ [] ≡ arrivals paced)
    × (length (hello ∷ smiley ∷ []) ≤ max_quota 0 + ticks paced)
rate_limit_lem_example = rate_limit_lem 0 paced paced_run
