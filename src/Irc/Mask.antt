-- ===== src/Irc/Mask.antt =====
-- irc/mask/mask.go. `regexp.QuoteMeta` is a parameter.
pub mod Tokens
use irc_idler.Prelude.{ℕ, List, [], ◌∷◌, ◌++◌, Bytes, Bool, true, false, ◌==◌, if◌then◌else◌}

-- The two buffers: the pattern so far, and the plain text that is not yet in it.
pub record Buffers : Type 0 where
  pub re_pat : Bytes
  pub next_chunk : Bytes

module _ (quote_meta : Bytes → Bytes) where
  flushed : Bytes → Bytes → Buffers
  flushed pat [] = record { re_pat = pat; next_chunk = [] }
  flushed pat (c ∷ s) = record { re_pat = pat ++ quote_meta (c ∷ s); next_chunk = [] }

  unfoldable pub flush : Buffers → Buffers
  unfolding flushed
  flush b = flushed b.re_pat b.next_chunk

  unfoldable pub write_pat : Bytes → Buffers → Buffers
  write_pat s b = record b { re_pat = b.re_pat ++ s }

  unfoldable pub write_chunk : ℕ → Buffers → Buffers
  write_chunk c b = record b { next_chunk = b.next_chunk ++ c ∷ [] }

  -- What a byte outside of an escape does to the buffers; a backslash does nothing yet.
  unfoldable pub take_byte : ℕ → Buffers → Buffers
  unfolding flush write_pat write_chunk
  take_byte c b =
      if c == b'?'
      then write_pat (b'.' ∷ []) (flush b)
      else if c == b'*'
      then write_pat (b'.' ∷ b'*' ∷ []) (flush b)
      else if c == b'\\'
      then b
      else write_chunk c b

  -- The loop over the mask, by `inEscape`.
  unfoldable pub convert : Bool → Bytes → Buffers → Buffers
  unfolding take_byte
  convert in_escape [] b = flush b
  convert true (c ∷ mask) b = convert false mask (write_chunk c b)
  convert false (c ∷ mask) b = convert (c == b'\\') mask (take_byte c b)

  unfoldable pub to_regexp : Bytes → Bytes
  unfolding convert
  to_regexp mask = (convert false mask (record { re_pat = []; next_chunk = [] })).re_pat
