-- ===== src/Prelude/Lists.antt =====
-- Lists measured and indexed by native numbers, and a predicate on all elements.
use Prim.Native.Nat.{ℕ, zero, suc, ◌+◌, ◌<◌}
use mathlib.Core.Path.{◌≡◌, refl}
use mathlib.Core.List.{List, [], ◌∷◌, ◌++◌}
use mathlib.Core.Option.{Option, none, some}
use mathlib.Core.Bool.{true}
use native.Mathlib.Omega.{arith}
use irc_idler.Prelude.Tests.{is_some, ◌==◌, if◌then◌else◌}

module _ {ℓ} {A : Type ℓ} where
  abbrev pub length : List A → ℕ
  length [] = 0
  length (x ∷ xs) = suc (length xs)

  abbrev pub get_elem? : List A → ℕ → Option A
  get_elem? [] i = none
  get_elem? (x ∷ xs) zero = some x
  get_elem? (x ∷ xs) (suc i) = get_elem? xs i

  pub length-append : (xs ys : List A) → length (xs ++ ys) ≡ length xs + length ys
  length-append [] ys = omega arith
  length-append (x ∷ xs) ys = omega (arith, length-append xs ys)

module _ {ℓ} {A : Type ℓ} where
  pub is_some-get_elem? : (xs : List A) (i : ℕ) → i < length xs → is_some (get_elem? xs i) ≡ true
  is_some-get_elem? [] i h = absurd (omega arith)
  is_some-get_elem? (x ∷ xs) zero h = refl
  is_some-get_elem? (x ∷ xs) (suc i) h = is_some-get_elem? xs i (omega arith)

module _ {ℓ κ} {A : Type ℓ} (P : A → Type κ) where
  abbrev pub All : List A → Type κ
  All [] = Unit
  All (x ∷ xs) = P x × All xs

  pub All-append : (xs ys : List A) → All xs → All ys → All (xs ++ ys)
  All-append [] ys _ hy = hy
  All-append (x ∷ xs) ys (px, hx) hy = (px, All-append xs ys hx hy)

  pub All-append_inv : (xs ys : List A) → All (xs ++ ys) → All xs × All ys
  All-append_inv [] ys h = (tt, h)
  All-append_inv (x ∷ xs) ys (px, h) = let (hx, hy) = All-append_inv xs ys h in ((px, hx), hy)

-- A list of numbers without the first `n` of it.
abbrev pub without_one : ℕ → List ℕ → List ℕ
without_one n [] = []
without_one n (k ∷ ks) = let rest = without_one n ks in if k == n then ks else k ∷ rest
