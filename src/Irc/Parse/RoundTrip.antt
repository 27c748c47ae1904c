-- ===== src/Irc/Parse/RoundTrip.antt =====
-- Reading back what `WriteTo` wrote.
use irc_idler.Prelude.{
  ℕ, List, [], ◌∷◌, ◌++◌, Bytes, ◌==◌, space, colon, length, none, some, if◌then◌else◌, ◌≡◌, ◌≢◌,
  ◌∙◌, refl, arith, append-nil, append_assoc, has_byte, ap, true, ◌⊎◌, inl, inr, Lacks-has_byte,
  Bool-cases, ◌↔◌, ==_iff,
}
use irc_idler.Irc.Message.{Message, param_chunks, prefix_chunks, chunks, to_string, crlf}
use irc_idler.Irc.Message.Printed.{joined, joined-append, to_string-joined}
use irc_idler.Irc.Parse.{parse_word, parse_command, parse_prefix, parse_message}
use irc_idler.Irc.Parse.Words.{
  NoColon, IsWord, parse_word-append, parse_word_all, parse_word_trailing, params_of, params_of_end,
  params_of_step,
}

-- The printed message without its line end: what the line reader hands to `parseMessage`.
abbrev pub line : Message → Bytes
line m = joined (prefix_chunks m.prefix) ++ (m.command ++ joined (param_chunks m.params))

pub to_string-line : (m : Message) → to_string m ≡ line m ++ crlf
unfolding chunks
to_string-line m = simp (to_string-joined, joined-append, append_assoc, append-nil)

-- What a reader gets of a last parameter: nothing of an empty one, and a leading colon is taken for
-- the mark of a trailing parameter unless the writer had put one itself.
abbrev received_last : Bytes → List Bytes
received_last [] = []
received_last (c ∷ s) =
    if has_byte space (c ∷ s) then (c ∷ s) ∷ [] else if c == colon then s ∷ [] else (c ∷ s) ∷ []

abbrev pub received : List Bytes → List Bytes
received [] = []
received (p ∷ []) = received_last p
received (p ∷ q ∷ ps) = p ∷ received (q ∷ ps)

-- All parameters but the last are words.
abbrev pub AreMiddle : List Bytes → Type 0
AreMiddle [] = Unit
AreMiddle (p ∷ []) = Unit
AreMiddle (p ∷ q ∷ ps) = IsWord p × AreMiddle (q ∷ ps)

-- The prefix and the command are words, and so is each parameter but the last.
pub record IsPrintable (m : Message) : Type 0 where
  pub prefix_word : IsWord m.prefix
  pub command_word : IsWord m.command
  pub has_command : m.command ≢ []
  pub middle_words : AreMiddle m.params

-- What stands behind the command: nothing, or a space and the parameters.
abbrev tail_text : List Bytes → Bytes
tail_text ps = joined (param_chunks ps)

no_input : parse_word [] ≡ none
unfolding parse_word
no_input = refl

params_of_one : (s p : Bytes) → parse_word s ≡ some (p, []) → params_of s ≡ p ∷ []
params_of_one s p h =
    params_of_step s p [] h ∙ ap (λ (l : List Bytes). p ∷ l) (params_of_end [] no_input)

parse_last :
    (p : Bytes) → (r : Bytes) × (tail_text (p ∷ []) ≡ space ∷ r) × (params_of r ≡ received_last p)
unfolding param_chunks
parse_last [] = ([], refl, params_of_end [] no_input)
parse_last (c ∷ p) = elim (Bool-cases (has_byte space (c ∷ p))) [
  | inl spaced ↦ (
    colon ∷ c ∷ p,
    rw (spaced, append-nil) refl,
    rw spaced (params_of_one (colon ∷ c ∷ p) (c ∷ p) (parse_word_trailing (c ∷ p))),
  )
  | inr plain ↦
      let lacks = Lacks-has_byte space (c ∷ p) plain in
      elim (Bool-cases (c == colon)) [
        | inl marked ↦ (
          c ∷ p,
          rw (plain, append-nil) refl,
          rw (plain, marked)
              (params_of_one (c ∷ p) p (rw ((==_iff c colon).0 marked) (parse_word_trailing p))),
        )
        | inr other ↦ (
          c ∷ p,
          rw (plain, append-nil) refl,
          rw (plain, other)
              (params_of_one (c ∷ p) (c ∷ p) (parse_word_all c p (ground arith, lacks))),
        )
      ]
]

tail_text_cons :
    (p q : Bytes) (ps : List Bytes) → tail_text (p ∷ q ∷ ps) ≡ space ∷ (p ++ tail_text (q ∷ ps))
unfolding param_chunks
tail_text_cons p q ps = refl

-- The text of parameters is read back as what a reader gets of them.
params_of-tail_text :
    (p : Bytes) (ps : List Bytes)
    → AreMiddle (p ∷ ps)
    → (r : Bytes) × (tail_text (p ∷ ps) ≡ space ∷ r) × (params_of r ≡ received (p ∷ ps))
params_of-tail_text p [] h = parse_last p
params_of-tail_text p (q ∷ ps) (word, h) =
    let (r, e, read) = params_of-tail_text q ps h in
    (
      p ++ space ∷ r,
      tail_text_cons p q ps ∙ ap (λ (t : Bytes). space ∷ (p ++ t)) e,
      params_of_step (p ++ space ∷ r) p r (parse_word-append p r word)
          ∙ ap (λ (l : List Bytes). p ∷ l) read,
    )

abbrev message : Bytes → Bytes → List Bytes → Message
message prefix command params = record { prefix = prefix; command = command; params = params }

parse_command_step :
    (prefix s command rest : Bytes)
    → parse_word s ≡ some (command, rest)
    → parse_command prefix s ≡ some (message prefix command (params_of rest))
unfolding parse_command
parse_command_step prefix s command rest h = rw (h, parse_command)

parse_command-tail_text :
    (prefix : Bytes) (c : ℕ) (s : Bytes) (ps : List Bytes)
    → IsWord (c ∷ s)
    → AreMiddle ps
    → parse_command prefix ((c ∷ s) ++ tail_text ps) ≡ some (message prefix (c ∷ s) (received ps))
parse_command-tail_text prefix c s [] word safe =
    let bare : parse_word ((c ∷ s) ++ tail_text []) ≡ some (c ∷ s, []) =
      unfold param_chunks in rw (append-nil s) (parse_word_all c s word) in
    parse_command_step prefix _ (c ∷ s) [] bare
    ∙ ap (λ (l : List Bytes). some (message prefix (c ∷ s) l)) (params_of_end [] no_input)
parse_command-tail_text prefix c s (p ∷ ps) word safe =
    let (r, e, read) = params_of-tail_text p ps safe in
    ap (λ (t : Bytes). parse_command prefix ((c ∷ s) ++ t)) e
    ∙ parse_command_step prefix _ (c ∷ s) r (parse_word-append (c ∷ s) r word)
    ∙ ap (λ (l : List Bytes). some (message prefix (c ∷ s) l)) read

parse_prefix_step :
    (s prefix rest : Bytes)
    → parse_word s ≡ some (prefix, rest)
    → parse_prefix s ≡ parse_command prefix rest
unfolding parse_prefix
parse_prefix_step s prefix rest h = rw (h, parse_prefix)

parse_message_parts :
    (prefix command : Bytes) (ps : List Bytes)
    → IsWord prefix
    → IsWord command
    → command ≢ []
    → AreMiddle ps
    → parse_message (joined (prefix_chunks prefix) ++ (command ++ tail_text ps))
      ≡ some (message prefix command (received ps))
unfolding parse_message prefix_chunks
parse_message_parts prefix [] ps pw cw h safe = absurd (h refl)
parse_message_parts [] (c ∷ s) ps pw (cc, cw) h safe =
    ground (arith, parse_command-tail_text [] c s ps (cc, cw) safe)
parse_message_parts (b ∷ t) (c ∷ s) ps pw cw h safe =
    let text = (c ∷ s) ++ tail_text ps in
    let shape : ((b ∷ t) ++ space ∷ []) ++ text ≡ (b ∷ t) ++ space ∷ text =
      append_assoc (b ∷ t) (space ∷ []) text in
    rw (append-nil (t ++ space ∷ [])) (
      ap parse_prefix shape
      ∙ parse_prefix_step ((b ∷ t) ++ space ∷ text) (b ∷ t) text (parse_word-append (b ∷ t) text pw)
      ∙ parse_command-tail_text (b ∷ t) c s ps cw safe)

-- A printed message is read back with the same prefix, command and middle parameters, and of its
-- last parameter the reader gets `received`.
pub parse_message-line :
    (m : Message)
    → IsPrintable m
    → parse_message (line m) ≡ some (record m { params = received m.params })
parse_message-line m h =
    parse_message_parts m.prefix m.command m.params h.prefix_word h.command_word h.has_command
      h.middle_words

-- The last parameter, if any, is not empty, and holds a space or does not begin with a colon.
abbrev pub KeepsLast : List Bytes → Type 0
KeepsLast [] = Unit
KeepsLast (p ∷ []) = (p ≢ []) × ((has_byte space p ≡ true) ⊎ NoColon p)
KeepsLast (p ∷ q ∷ ps) = KeepsLast (q ∷ ps)

ne_cons : (c : ℕ) (s : Bytes) → s ≢ c ∷ s
ne_cons c s e = absurd (omega (arith, ap (λ (t : Bytes). length t) e))

received_iff : (ps : List Bytes) → (received ps ≡ ps) ↔ KeepsLast ps
received_iff [] = ground arith
received_iff ([] ∷ []) = ground arith
received_iff ((c ∷ s) ∷ []) = ground (arith, ne_cons c s)
received_iff (p ∷ q ∷ ps) = ground (arith, received_iff (q ∷ ps))

-- It is the same message exactly when its last parameter is of the kind that survives.
pub read_back_iff :
    (m : Message) → IsPrintable m → (parse_message (line m) ≡ some m) ↔ KeepsLast m.params
read_back_iff m h = ground (arith, parse_message-line m h, received_iff m.params)
