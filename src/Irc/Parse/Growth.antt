-- ===== src/Irc/Parse/Growth.antt =====
-- Parsing a line and printing the message again does not give a longer line.
use irc_idler.Prelude.{
  ℕ, zero, suc, ◌+◌, ◌≤◌, List, [], ◌∷◌, ◌++◌, Bytes, ◌==◌, space, colon, length, some, ◌≡◌, ◌∙◌,
  refl, arith, Lacks, append-nil, ap, inl, inr, has_byte-Lacks, Bool-cases, Option-cases,
  length-append,
}
use irc_idler.Irc.Message.{Message, param_chunks, prefix_chunks, to_string, crlf}
use irc_idler.Irc.Message.Printed.{joined}
use irc_idler.Irc.Parse.{
  read_word, parse_word, parse_params, parse_command, parse_prefix, parse_message,
}
use irc_idler.Irc.Parse.Words.{parse_word-length, params_of}
use irc_idler.Irc.Parse.RoundTrip.{line, to_string-line}

read_word-Lacks : (s : Bytes) → Lacks space (read_word s).0
unfolding read_word
read_word-Lacks [] = tt
read_word-Lacks (c ∷ s) = ground (arith, read_word-Lacks s)

-- The length of the parameters as `WriteTo` prints them.
text_len : List Bytes → ℕ
text_len ps = length (joined (param_chunks ps))

text_len_cons :
    (p q : Bytes) (ps : List Bytes) → text_len (p ∷ q ∷ ps) ≡ 1 + length p + text_len (q ∷ ps)
unfolding text_len param_chunks
text_len_cons p q ps = ground (arith, length-append p (joined (param_chunks (q ∷ ps))))

text_len_word : (p : Bytes) → Lacks space p → text_len (p ∷ []) ≡ 1 + length p
unfolding text_len param_chunks
text_len_word p h = ground (arith, has_byte-Lacks space p h, append-nil p)

text_len_bound : (p : Bytes) → text_len (p ∷ []) ≤ 2 + length p
unfolding text_len param_chunks
text_len_bound p = ground (arith, append-nil p)

-- A word that is not at the end of the input has a space behind it.
read_word_gap :
    (s : Bytes) (d : ℕ) (t : Bytes)
    → (read_word s).1 ≡ d ∷ t
    → length (read_word s).0 + 2 + length t ≤ length s
unfolding read_word
read_word_gap [] d t h = cc
read_word_gap (c ∷ s) d t h =
    ground (arith, read_word_gap s d t, λ (e : s ≡ d ∷ t). ap (λ (l : Bytes). length l) e)

parse_word_gap :
    (s word : Bytes) (d : ℕ) (t : Bytes)
    → parse_word s ≡ some (word, d ∷ t)
    → length word + 2 + length t ≤ length s
unfolding parse_word
parse_word_gap [] word d t h = cc
parse_word_gap (c ∷ s) word d t h = ground (arith, read_word_gap (c ∷ s) d t)

-- Of a word with a space in it the colon was in the input.
parse_word_cost :
    (s word rest : Bytes) → parse_word s ≡ some (word, rest) → text_len (word ∷ []) ≤ length s + 1
unfolding parse_word
parse_word_cost [] word rest h = cc
parse_word_cost (c ∷ s) word rest h = ground (
  arith,
  text_len_bound word,
  text_len_word (read_word (c ∷ s)).0 (read_word-Lacks (c ∷ s)),
  parse_word-length (c ∷ s) word rest h,
)

parse_params_end : (fuel : ℕ) → parse_params fuel [] ≡ []
unfolding parse_params
parse_params_end zero = refl
parse_params_end (suc fuel) = refl

-- One more word in front of the parameters of the rest.
more_params :
    (s word rest : Bytes) (ps : List Bytes)
    → parse_word s ≡ some (word, rest)
    → text_len ps ≤ length rest + 1
    → (rest ≡ [] → ps ≡ [])
    → text_len (word ∷ ps) ≤ length s + 1
more_params s word rest [] h ih last = parse_word_cost s word rest h
more_params s word [] (q ∷ ps) h ih last = cc (last refl)
more_params s word (d ∷ t) (q ∷ ps) h ih last =
    omega (arith, text_len_cons word q ps, parse_word_gap s word d t h)

parse_params_cost : (fuel : ℕ) (s : Bytes) → text_len (parse_params fuel s) ≤ length s + 1
unfolding parse_params
parse_params_cost zero s = unfold text_len param_chunks in omega arith
parse_params_cost (suc fuel) s = elim (Option-cases (parse_word s)) [
  | inl e ↦ rw (e, parse_params) (unfold text_len param_chunks in omega arith)
  | inr ((word, rest), e) ↦
      rw (e, parse_params)
        (more_params s word rest (parse_params fuel rest) e (parse_params_cost fuel rest)
          (λ nothing. rw nothing (parse_params_end fuel)))
]

no_params : text_len [] ≡ 0
unfolding text_len param_chunks
no_params = refl

command_cost :
    (s command rest : Bytes) (ps : List Bytes)
    → parse_word s ≡ some (command, rest)
    → text_len ps ≤ length rest + 1
    → (rest ≡ [] → ps ≡ [])
    → length command + text_len ps ≤ length s
command_cost s command [] ps h cost last =
    let none_left : text_len ps ≡ 0 = rw (last refl) no_params in
    omega (arith, parse_word-length s command [] h, none_left)
command_cost s command (d ∷ t) ps h cost last = omega (arith, parse_word_gap s command d t h)

-- The message that a command and the input behind it make.
abbrev with_command : Bytes → Bytes × Bytes → Message
with_command prefix r = record { prefix = prefix; command = r.0; params = params_of r.1 }

parse_command-with_command :
    (prefix s : Bytes) {m : Message}
    → parse_command prefix s ≡ some m
    → (r : Bytes × Bytes) × (parse_word s ≡ some r) × (m ≡ with_command prefix r)
unfolding parse_command
parse_command-with_command prefix s h = ground arith

body_len : Message → ℕ
body_len m = length m.command + text_len m.params

parse_command_cost :
    (prefix s : Bytes) {m : Message}
    → parse_command prefix s ≡ some m
    → (m.prefix ≡ prefix) × (body_len m ≤ length s)
unfolding body_len
parse_command_cost prefix s {m} h =
    let ((command, rest), e, same) = parse_command-with_command prefix s h in
    let bound =
      command_cost s command rest (params_of rest) e (parse_params_cost (length rest) rest)
        (λ nothing. rw nothing (parse_params_end 0)) in
    rw same (refl, bound)

line_len : Message → ℕ
line_len m = length (joined (prefix_chunks m.prefix)) + body_len m

length-line : (m : Message) → length (line m) ≡ line_len m
unfolding line_len body_len text_len
length-line m = omega (
  arith,
  length-append (joined (prefix_chunks m.prefix)) (m.command ++ joined (param_chunks m.params)),
  length-append m.command (joined (param_chunks m.params)),
)

prefix_cost : (p : Bytes) → length (joined (prefix_chunks p)) ≤ length p + 2
unfolding prefix_chunks
prefix_cost [] = omega arith
prefix_cost (c ∷ p) = ground (arith, append-nil (p ++ space ∷ []), length-append p (space ∷ []))

parse_prefix-parse_command :
    (s : Bytes) {m : Message}
    → parse_prefix s ≡ some m
    → (r : Bytes × Bytes) × (parse_word s ≡ some r) × (parse_command r.0 r.1 ≡ some m)
unfolding parse_prefix
parse_prefix-parse_command s h = ground arith

prefixed_cost :
    (s prefix rest : Bytes) {m : Message}
    → parse_word s ≡ some (prefix, rest)
    → parse_command prefix rest ≡ some m
    → line_len m ≤ length s + 1
unfolding line_len
prefixed_cost s prefix [] e h = unfold parse_command parse_word in cc
prefixed_cost s prefix (d ∷ t) {m} e h =
    let (same, bound) = parse_command_cost prefix (d ∷ t) h in
    omega (
      arith,
      bound,
      prefix_cost prefix,
      parse_word_gap s prefix d t e,
      ap (λ (p : Bytes). length (joined (prefix_chunks p))) same,
    )

parse_message_cost : (s : Bytes) {m : Message} → parse_message s ≡ some m → line_len m ≤ length s
unfolding parse_message
parse_message_cost [] h = cc
parse_message_cost (c ∷ s) {m} h = elim (Bool-cases (c == colon)) [
  | inl marked ↦
      let ((prefix, rest), e, k) = parse_prefix-parse_command s {m = m} (rw marked at h) in
      omega (arith, prefixed_cost s prefix rest e k)
  | inr plain ↦
      let (same, bound) = parse_command_cost [] (c ∷ s) {m = m} (rw plain at h) in
      let no_prefix : length (joined (prefix_chunks m.prefix)) ≡ 0 =
        ap (λ (p : Bytes). length (joined (prefix_chunks p))) same ∙ unfold prefix_chunks in refl in
      unfold line_len in omega (arith, bound, no_prefix)
]

-- Whatever line is parsed, the message prints as no more bytes than the line and a line end.
pub length-to_string-parse_message :
    (s : Bytes) {m : Message} → parse_message s ≡ some m → length (to_string m) ≤ length s + 2
length-to_string-parse_message s {m} h = omega (
  arith,
  parse_message_cost s h,
  length-line m,
  ap (λ (t : Bytes). length t) (to_string-line m),
  length-append (line m) crlf,
)
