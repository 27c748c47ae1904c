-- ===== src/Prelude/Text.antt =====
-- Go strings as lists of bytes: equality, literals, and the functions of package strings in use.
use Prim.Native.Nat.{ℕ}
use Prim.Native.Char.{code}
use Prim.Native.String.{String}
use mathlib.Core.Path.{◌≡◌, refl, sym, subst}
use mathlib.Core.Logic.{◌↔◌, ◌≢◌, inl, inr}
use mathlib.Core.Bool.{Bool, true, false, ◌&&◌, ◌||◌}
use mathlib.Core.List.{List, [], ◌∷◌}
use native.Mathlib.Omega.{arith}
use irc_idler.Prelude.Tests.{◌==◌, Bool-cases}
use irc_idler.Prelude.Lists.{All}

abbrev pub Bytes : Type 0
Bytes = List ℕ

-- The bytes of an ASCII literal.
unfoldable pub bytes : String → Bytes
bytes String.[] = []
bytes (String.◌∷◌ c s) = code c ∷ bytes s

-- `a == b` on Go strings.
unfoldable pub bytes_eq : Bytes → Bytes → Bool
bytes_eq [] [] = true
bytes_eq [] (b ∷ t) = false
bytes_eq (a ∷ s) [] = false
bytes_eq (a ∷ s) (b ∷ t) = a == b && bytes_eq s t

pub bytes_eq_iff : (s t : Bytes) → (bytes_eq s t ≡ true) ↔ (s ≡ t)
unfolding bytes_eq
bytes_eq_iff [] [] = ground arith
bytes_eq_iff [] (b ∷ t) = ground arith
bytes_eq_iff (a ∷ s) [] = ground arith
bytes_eq_iff (a ∷ s) (b ∷ t) = ground (arith, bytes_eq_iff s t)

pub bytes_eq_refl : (s : Bytes) → bytes_eq s s ≡ true
bytes_eq_refl s = (bytes_eq_iff s s).1 refl

-- The case list of a `switch` on a string.
unfoldable pub one_of : Bytes → List Bytes → Bool
one_of s [] = false
one_of s (t ∷ ts) = bytes_eq s t || one_of s ts

-- What holds of each text of a list holds of a text that is in it.
pub one_of-All {ℓ} :
    (P : Bytes → Type ℓ) (s : Bytes) (ts : List Bytes) → All P ts → one_of s ts ≡ true → P s
unfolding one_of
one_of-All P s [] h e = absurd (cc e)
one_of-All P s (t ∷ ts) (first, others) e = elim (Bool-cases (bytes_eq s t)) [
  | inl same ↦ subst P (sym ((bytes_eq_iff s t).0 same)) first
  | inr other ↦ one_of-All P s ts others (ground arith)
]

-- `strings.Contains` for a one-byte needle.
abbrev pub has_byte : ℕ → Bytes → Bool
has_byte b [] = false
has_byte b (c ∷ s) = c == b || has_byte b s

abbrev pub Lacks : ℕ → Bytes → Type 0
Lacks b = All (λ c. c ≢ b)

pub has_byte-Lacks : (b : ℕ) (s : Bytes) → Lacks b s → has_byte b s ≡ false
has_byte-Lacks b [] h = refl
has_byte-Lacks b (c ∷ s) (hc, hs) = ground (arith, has_byte-Lacks b s hs)

pub Lacks-has_byte : (b : ℕ) (s : Bytes) → has_byte b s ≡ false → Lacks b s
Lacks-has_byte b [] h = tt
Lacks-has_byte b (c ∷ s) h = (ground arith, Lacks-has_byte b s (ground arith))

abbrev pub space : ℕ
space = b' '

abbrev pub colon : ℕ
colon = b':'
