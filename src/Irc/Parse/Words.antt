-- ===== src/Irc/Parse/Words.antt =====
-- `parseWord` on one word: what it reads, and how much input it takes.
use irc_idler.Prelude.{
  ℕ, zero, suc, ◌+◌, ◌≤◌, ◌<◌, List, [], ◌∷◌, ◌++◌, Bytes, space, colon, length, none, some, ◌≡◌,
  ◌≢◌, refl, arith, Lacks, inl, inr, Option-cases, ap,
}
use irc_idler.Irc.Parse.{read_word, parse_word, parse_params}

-- A text that does not begin with a colon.
abbrev pub NoColon : Bytes → Type 0
NoColon [] = Unit
NoColon (c ∷ s) = c ≢ colon

-- A word that the grammar's "middle" parameters are made of.
abbrev pub IsWord : Bytes → Type 0
IsWord w = NoColon w × Lacks space w

pub read_word-append : (w rest : Bytes) → Lacks space w → read_word (w ++ space ∷ rest) ≡ (w, rest)
unfolding read_word
read_word-append [] rest h = refl
read_word-append (c ∷ w) rest (hc, hw) = ground (arith, read_word-append w rest hw)

pub read_word_all : (w : Bytes) → Lacks space w → read_word w ≡ (w, [])
unfolding read_word
read_word_all [] h = refl
read_word_all (c ∷ w) (hc, hw) = ground (arith, read_word_all w hw)

pub parse_word-append :
    (w rest : Bytes) → IsWord w → parse_word (w ++ space ∷ rest) ≡ some (w, rest)
unfolding parse_word
parse_word-append [] rest h = unfold read_word in refl
parse_word-append (c ∷ w) rest (hc, hw) = ground (arith, read_word-append (c ∷ w) rest hw)

pub parse_word_all : (c : ℕ) (w : Bytes) → IsWord (c ∷ w) → parse_word (c ∷ w) ≡ some (c ∷ w, [])
unfolding parse_word
parse_word_all c w (hc, hw) = ground (arith, read_word_all (c ∷ w) hw)

pub parse_word_trailing : (s : Bytes) → parse_word (colon ∷ s) ≡ some (s, [])
unfolding parse_word
parse_word_trailing s = refl

-- A word and what is left of the input are not longer than the input, and a byte is taken.
read_word-length : (s : Bytes) → length (read_word s).0 + length (read_word s).1 ≤ length s
unfolding read_word
read_word-length [] = omega arith
read_word-length (c ∷ s) = ground (arith, read_word-length s)

read_word_rest : (c : ℕ) (s : Bytes) → length (read_word (c ∷ s)).1 ≤ length s
unfolding read_word
read_word_rest c s = ground (arith, read_word-length s)

pub parse_word-length :
    (s word rest : Bytes)
    → parse_word s ≡ some (word, rest)
    → (length rest < length s) × (length word + length rest ≤ length s)
unfolding parse_word
parse_word-length [] word rest h = cc
parse_word-length (c ∷ s) word rest h = ground (arith, read_word-length (c ∷ s), read_word_rest c s)

-- The parameters are the same with any fuel from the length of the input on.
parse_params_fuel :
    (f g : ℕ) (s : Bytes) → length s ≤ f → length s ≤ g → parse_params f s ≡ parse_params g s
unfolding parse_params
parse_params_fuel zero zero s hf hg = refl
parse_params_fuel zero (suc g) [] hf hg = unfold parse_word in refl
parse_params_fuel zero (suc g) (c ∷ s) hf hg = absurd (omega arith)
parse_params_fuel (suc f) zero [] hf hg = unfold parse_word in refl
parse_params_fuel (suc f) zero (c ∷ s) hf hg = absurd (omega arith)
parse_params_fuel (suc f) (suc g) s hf hg = elim (Option-cases (parse_word s)) [
  | inl e ↦ rw (e, parse_params)
  | inr ((word, rest), e) ↦
      rw (e, parse_params)
        (let shorter = parse_word-length s word rest e in
          ap (λ (ps : List Bytes). word ∷ ps)
            (parse_params_fuel f g rest (omega (arith, shorter)) (omega (arith, shorter))))
]

-- The parameters of an input, read to its end.
abbrev pub params_of : Bytes → List Bytes
params_of s = parse_params (length s) s

pub params_of_end : (s : Bytes) → parse_word s ≡ none → params_of s ≡ []
unfolding parse_params
params_of_end [] h = refl
params_of_end (c ∷ s) h = rw (h, parse_params)

-- The loop's equation, with no fuel.
pub params_of_step :
    (s word rest : Bytes) → parse_word s ≡ some (word, rest) → params_of s ≡ word ∷ params_of rest
unfolding parse_params
params_of_step [] word rest h = unfold parse_word in cc
params_of_step (c ∷ s) word rest h =
    rw (h, parse_params)
      (ap (λ (ps : List Bytes). word ∷ ps)
        (parse_params_fuel (length s) (length rest) rest
          (omega (arith, parse_word-length (c ∷ s) word rest h)) (omega arith)))
