-- ===== src/Irc/Codes/Numerics/Distinct.antt =====
-- Which numeric codes have two names.
use mathlib.Core.Path.{subst}
use irc_idler.Prelude.{
  ℕ, zero, suc, ◌<◌, List, [], ◌∷◌, ◌++◌, map, Bytes, bytes, bytes_eq, bytes_eq_iff, true, String,
  some, get_elem?, if◌then◌else◌, ◌≡◌, ◌⊎◌, inl, inr, refl, arith, Bool-cases,
}
use irc_idler.Irc.Codes.Numerics.{Numeric, numerics}

same_code : Bytes → List Numeric → List String
same_code c [] = []
same_code c ((n, d) ∷ xs) = if bytes_eq c d then n ∷ same_code c xs else same_code c xs

-- The names of each two entries with one code.
clashes : List Numeric → List (String × String)
clashes [] = []
clashes ((n, c) ∷ xs) = map (λ k. (n, k)) (same_code c xs) ++ clashes xs

abbrev Among : {A : Type 0} → A → List A → Type 0
Among a [] = ⊥
Among a (b ∷ bs) = (a ≡ b) ⊎ Among a bs

Among-append_left : {A : Type 0} (a : A) (xs ys : List A) → Among a xs → Among a (xs ++ ys)
Among-append_left a [] ys h = absurd h
Among-append_left a (x ∷ xs) ys (inl e) = inl e
Among-append_left a (x ∷ xs) ys (inr h) = inr (Among-append_left a xs ys h)

Among-append_right : {A : Type 0} (a : A) (xs ys : List A) → Among a ys → Among a (xs ++ ys)
Among-append_right a [] ys h = h
Among-append_right a (x ∷ xs) ys h = inr (Among-append_right a xs ys h)

Among-map : {A B : Type 0} (f : A → B) (a : A) (xs : List A) → Among a xs → Among (f a) (map f xs)
Among-map f a [] h = absurd h
Among-map f a (x ∷ xs) (inl e) = inl (λ i. f (e i))
Among-map f a (x ∷ xs) (inr h) = inr (Among-map f a xs h)

same_code_lem :
    (c : Bytes) (xs : List Numeric) (j : ℕ) (y : Numeric)
    → get_elem? xs j ≡ some y
    → c ≡ y.1
    → Among y.0 (same_code c xs)
unfolding same_code
same_code_lem c [] j y e same = absurd (cc e)
same_code_lem c ((n, d) ∷ xs) zero y e same =
    let first : bytes_eq c d ≡ true = (bytes_eq_iff c d).1 (cc (e, same)) in rw first (inl (cc e))
same_code_lem c ((n, d) ∷ xs) (suc j) y e same = elim (Bool-cases (bytes_eq c d)) [
  | inl b ↦ rw b (inr (same_code_lem c xs j y e same))
  | inr b ↦ rw b (same_code_lem c xs j y e same)
]

clashes_lem :
    (xs : List Numeric) (i j : ℕ) (x y : Numeric)
    → i < j
    → get_elem? xs i ≡ some x
    → get_elem? xs j ≡ some y
    → x.1 ≡ y.1
    → Among (x.0, y.0) (clashes xs)
unfolding clashes
clashes_lem [] i j x y lt e e' same = absurd (cc e)
clashes_lem ((n, c) ∷ xs) zero zero x y lt e e' same = absurd (omega arith)
clashes_lem ((n, c) ∷ xs) (suc i) zero x y lt e e' same = absurd (omega arith)
clashes_lem ((n, c) ∷ xs) zero (suc j) x y lt e e' same =
    let name : n ≡ x.0 = cc e in
    rw (← name) (
      Among-append_left _ _ (clashes xs)
        (Among-map (λ k. (n, k)) y.0 _ (same_code_lem c xs j y e' (cc (e, same)))))
clashes_lem ((n, c) ∷ xs) (suc i) (suc j) x y lt e e' same =
    Among-append_right _ (map (λ k. (n, k)) (same_code c xs)) _
      (clashes_lem xs i j x y (omega arith) e e' same)

numerics_clash :
    clashes numerics
    ≡ ("RPL_STATSHLINE", "RPL_STATSSLINE") ∷ ("ERR_NOTEXTTOSEND", "ERR_NOTOPLEVEL") ∷ []
unfolding clashes same_code numerics bytes bytes_eq
numerics_clash = refl

-- Two of the numeric codes that are equal are those of RPL_STATSHLINE and RPL_STATSSLINE, or those
-- of ERR_NOTEXTTOSEND and ERR_NOTOPLEVEL.
pub numerics_distinct :
    (i j : ℕ) (x y : Numeric)
    → i < j
    → get_elem? numerics i ≡ some x
    → get_elem? numerics j ≡ some y
    → x.1 ≡ y.1
    → ((x.0 ≡ "RPL_STATSHLINE") × (y.0 ≡ "RPL_STATSSLINE"))
      ⊎ ((x.0 ≡ "ERR_NOTEXTTOSEND") × (y.0 ≡ "ERR_NOTOPLEVEL"))
numerics_distinct i j x y lt e e' same =
    let found =
      subst (Among (x.0, y.0)) numerics_clash (clashes_lem numerics i j x y lt e e' same) in
    elim found [
      | inl a ↦ inl (cc a, cc a)
      | inr rest ↦ elim rest [ inl b ↦ inr (cc b, cc b) | inr no' ↦ absurd no' ]
    ]
