-- ===== src/Irc/Mask/Tokens.antt =====
-- A mask as a list of tokens, and its pattern as what they stand for, one by one.
use irc_idler.Prelude.{
  ℕ, List, [], ◌∷◌, ◌++◌, append-nil, append_assoc, Bytes, Bool, true, false, ◌==◌, ◌≡◌, refl, sym,
  ap, ◌∙◌, arith, if◌then◌else◌,
}
use irc_idler.Irc.Mask.{
  Buffers, flushed, flush, write_pat, write_chunk, take_byte, convert, to_regexp,
}

-- A plain byte, any one byte, or any bytes.
pub data Token : Type 0 where
  plain : ℕ → Token
  any_one any_many : Token

-- The token of a byte outside of an escape that is not the backslash.
abbrev pub token_of : ℕ → Token
token_of c = if c == b'?' then any_one else if c == b'*' then any_many else plain c

-- A backslash makes the byte behind it plain; one at the end stands for nothing.
unfoldable pub tokens : Bool → Bytes → List Token
tokens in_escape [] = []
tokens true (c ∷ mask) = plain c ∷ tokens false mask
tokens false (c ∷ mask) =
    let rest = tokens (c == b'\\') mask in if c == b'\\' then rest else token_of c ∷ rest

module _ (quote_meta : Bytes → Bytes) where
  abbrev pub pattern_of : Token → Bytes
  pattern_of (plain c) = quote_meta (c ∷ [])
  pattern_of any_one = b'.' ∷ []
  pattern_of any_many = b'.' ∷ b'*' ∷ []

  abbrev pub patterns : List Token → Bytes
  patterns [] = []
  patterns (t ∷ ts) = pattern_of t ++ patterns ts

  -- A text is quoted byte by byte.
  pub record IsQuoting : Type 0 where
    pub quotes_empty : quote_meta [] ≡ []
    pub quotes_append : (s t : Bytes) → quote_meta (s ++ t) ≡ quote_meta s ++ quote_meta t

  -- The pattern that the buffers stand for.
  pending : Buffers → Bytes
  pending b = b.re_pat ++ quote_meta b.next_chunk

  flushed-re_pat :
      IsQuoting
      → (pat chunk : Bytes) → (flushed quote_meta pat chunk).re_pat ≡ pat ++ quote_meta chunk
  unfolding flushed
  flushed-re_pat q pat [] = sym (ap (λ (s : Bytes). pat ++ s) q.quotes_empty ∙ append-nil pat)
  flushed-re_pat q pat (c ∷ s) = refl

  flushed-next_chunk : (pat chunk : Bytes) → (flushed quote_meta pat chunk).next_chunk ≡ []
  unfolding flushed
  flushed-next_chunk pat [] = refl
  flushed-next_chunk pat (c ∷ s) = refl

  write_chunk-pending :
      IsQuoting
      → (c : ℕ) (b : Buffers)
      → pending (write_chunk quote_meta c b) ≡ pending b ++ quote_meta (c ∷ [])
  unfolding pending write_chunk
  write_chunk-pending q c b =
      ap (λ (s : Bytes). b.re_pat ++ s) (q.quotes_append b.next_chunk (c ∷ []))
      ∙ sym (append_assoc b.re_pat (quote_meta b.next_chunk) (quote_meta (c ∷ [])))

  write_pat-pending :
      IsQuoting
      → (s : Bytes) (b : Buffers)
      → pending (write_pat quote_meta s (flush quote_meta b)) ≡ pending b ++ s
  unfolding pending write_pat flush
  write_pat-pending q s b =
      ap (λ (t : Bytes). ((flushed quote_meta b.re_pat b.next_chunk).re_pat ++ s) ++ quote_meta t)
        (flushed-next_chunk b.re_pat b.next_chunk)
      ∙ ap (λ (t : Bytes). ((flushed quote_meta b.re_pat b.next_chunk).re_pat ++ s) ++ t)
          q.quotes_empty
      ∙ append-nil ((flushed quote_meta b.re_pat b.next_chunk).re_pat ++ s)
      ∙ ap (λ (t : Bytes). t ++ s) (flushed-re_pat q b.re_pat b.next_chunk)

  take_byte-pending :
      IsQuoting
      → (c : ℕ) (b : Buffers)
      → pending (take_byte quote_meta c b)
        ≡ (if c == b'\\' then pending b else pending b ++ pattern_of (token_of c))
  unfolding take_byte
  take_byte-pending q c b = ground (
    arith,
    write_pat-pending q (b'.' ∷ []) b,
    write_pat-pending q (b'.' ∷ b'*' ∷ []) b,
    write_chunk-pending q c b,
  )

  token_first :
      (t : Bool) (s p : Bytes) (x : Token) (ts : List Token)
      → p ≡ (if t then s else s ++ pattern_of x)
      → p ++ patterns ts ≡ s ++ patterns (if t then ts else x ∷ ts)
  token_first true s p x ts e = ap (λ (l : Bytes). l ++ patterns ts) e
  token_first false s p x ts e =
      ap (λ (l : Bytes). l ++ patterns ts) e ∙ append_assoc s (pattern_of x) (patterns ts)

  flush-pending : IsQuoting → (b : Buffers) → (flush quote_meta b).re_pat ≡ pending b
  unfolding flush pending
  flush-pending q b = flushed-re_pat q b.re_pat b.next_chunk

  convert_lem :
      IsQuoting
      → (in_escape : Bool) (mask : Bytes) (b : Buffers)
      → (convert quote_meta in_escape mask b).re_pat ≡ pending b ++ patterns (tokens in_escape mask)
  unfolding convert tokens
  convert_lem q in_escape [] b = flush-pending q b ∙ sym (append-nil (pending b))
  convert_lem q true (c ∷ mask) b =
      convert_lem q false mask (write_chunk quote_meta c b)
      ∙ token_first false (pending b) (pending (write_chunk quote_meta c b)) (plain c)
          (tokens false mask) (write_chunk-pending q c b)
  convert_lem q false (c ∷ mask) b =
      convert_lem q (c == b'\\') mask (take_byte quote_meta c b)
      ∙ token_first (c == b'\\') (pending b) (pending (take_byte quote_meta c b)) (token_of c)
          (tokens (c == b'\\') mask) (take_byte-pending q c b)

  -- If `QuoteMeta` quotes a text byte by byte, the pattern of a mask is that of its tokens, one
  -- after the other.
  pub to_regexp_lem :
      IsQuoting → (mask : Bytes) → to_regexp quote_meta mask ≡ patterns (tokens false mask)
  unfolding to_regexp pending
  to_regexp_lem q mask =
      convert_lem q false mask (record { re_pat = []; next_chunk = [] })
      ∙ ap (λ (s : Bytes). s ++ patterns (tokens false mask)) q.quotes_empty
