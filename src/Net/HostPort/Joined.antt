-- ===== src/Net/HostPort/Joined.antt =====
-- The parts of an address that was put together.
use irc_idler.Prelude.{
  ℕ, zero, suc, ◌+◌, ◌*◌, ◌-◌, ◌/◌, ◌%◌, ◌<◌, ◌≤◌, [], ◌∷◌, ◌++◌, Bytes, has_byte, colon, false,
  none, some, ltb, Lacks, has_byte-Lacks, All, All-append, ◌≡◌, refl, arith, ap, ◌∙◌, sym,
  append_assoc, ◌⊎◌, inl, inr, Bool-cases,
}
use irc_idler.Net.HostPort.{
  decimal_digits, sprint, join_host_port, split_first, split_last, has_bracket, host_and_port,
  split_host_port, behind_last, bracketed,
}

split_last-none : (b : ℕ) (s : Bytes) → Lacks b s → split_last b s ≡ none
unfolding split_last
split_last-none b [] h = refl
split_last-none b (c ∷ s) (hc, hs) = ground (arith, split_last-none b s hs)

split_last_lem : (b : ℕ) (s t : Bytes) → Lacks b t → split_last b (s ++ b ∷ t) ≡ some (s, t)
unfolding split_last behind_last
split_last_lem b [] t h = ground (arith, split_last-none b t h)
split_last_lem b (c ∷ s) t h = ground (arith, split_last_lem b s t h)

split_first_lem : (b : ℕ) (s t : Bytes) → Lacks b s → split_first b (s ++ b ∷ t) ≡ some (s, t)
unfolding split_first
split_first_lem b [] t h = ground arith
split_first_lem b (c ∷ s) t (hc, hs) = ground (arith, split_first_lem b s t hs)

IsDigit : ℕ → Type 0
IsDigit c = (b'0' ≤ c) × (c ≤ b'9')

decimal_digits-IsDigit : (fuel n : ℕ) → All IsDigit (decimal_digits fuel n)
unfolding decimal_digits
decimal_digits-IsDigit zero n = tt
decimal_digits-IsDigit (suc fuel) n =
    let rest = decimal_digits-IsDigit fuel (n / 10) in
    let last =
      All-append IsDigit (decimal_digits fuel (n / 10)) ((b'0' + n % 10) ∷ []) rest
        (unfold IsDigit in omega arith) in
    elim (Bool-cases (ltb n 10)) [
      | inl small ↦ rw small (unfold IsDigit in ground arith)
      | inr large ↦ rw large last
    ]

digits-Lacks : (b : ℕ) (s : Bytes) → (b < b'0') ⊎ (b'9' < b) → All IsDigit s → Lacks b s
unfolding IsDigit
digits-Lacks b [] h _ = tt
digits-Lacks b (c ∷ s) h (d, ds) = (ground arith, digits-Lacks b s h ds)

-- The number that decimal digits stand for, behind those for `n`.
unfoldable pub value_from : ℕ → Bytes → ℕ
value_from n [] = n
value_from n (c ∷ s) = value_from (n * 10 + (c - b'0')) s

value_from-append :
    (n c : ℕ) (s : Bytes) → value_from n (s ++ c ∷ []) ≡ value_from n s * 10 + (c - b'0')
unfolding value_from
value_from-append n c [] = refl
value_from-append n c (d ∷ s) = value_from-append (n * 10 + (d - b'0')) c s

-- The numbers of so many digits are below this.
limit : ℕ → ℕ
limit zero = 1
limit (suc k) = 10 * limit k

value_from-decimal_digits :
    (fuel n : ℕ) → 1 ≤ fuel → n < limit fuel → value_from 0 (decimal_digits fuel n) ≡ n
unfolding value_from decimal_digits limit
value_from-decimal_digits zero n h l = absurd (omega arith)
value_from-decimal_digits (suc zero) n h l = ground arith
value_from-decimal_digits (suc (suc fuel)) n h l = elim (Bool-cases (ltb n 10)) [
  | inl small ↦ rw small (ground arith)
  | inr large ↦ rw large (
      omega (
        arith,
        value_from-append 0 (b'0' + n % 10) (decimal_digits (suc fuel) (n / 10)),
        value_from-decimal_digits (suc fuel) (n / 10) (omega arith) (omega arith),
      ))
]

pub value_from-sprint : (n : ℕ) → n < 65536 → value_from 0 (sprint n) ≡ n
unfolding sprint
value_from-sprint n h = value_from-decimal_digits 5 n (omega arith) (unfold limit in omega arith)

has_bracket_lem : (s : Bytes) → Lacks b'[' s → Lacks b']' s → has_bracket s ≡ false
has_bracket_lem s h k = rw (has_byte-Lacks b'[' s h, has_byte-Lacks b']' s k) refl

sprint-Lacks : (b n : ℕ) → (b < b'0') ⊎ (b'9' < b) → Lacks b (sprint n)
unfolding sprint
sprint-Lacks b n h = digits-Lacks b (decimal_digits 5 n) h (decimal_digits-IsDigit 5 n)

module _ (host port : Bytes) (no_open : Lacks b'[' host) (no_close : Lacks b']' host)
    (plain : has_bracket port ≡ false) where
  in_brackets : host_and_port (some ((b'[' ∷ host) ++ b']' ∷ [], port)) ≡ some (host, port)
  unfolding host_and_port bracketed
  in_brackets =
      rw (split_first_lem b']' host [] no_close, has_byte-Lacks b'[' host no_open, plain) refl

  bare : has_byte colon host ≡ false → host_and_port (some (host, port)) ≡ some (host, port)
  unfolding host_and_port
  bare h = unbracketed host no_open no_close h
    where
      unbracketed :
          (s : Bytes)
          → Lacks b'[' s
          → Lacks b']' s
          → has_byte colon s ≡ false
          → host_and_port (some (s, port)) ≡ some (s, port)
      unbracketed [] o c h = rw plain refl
      unbracketed (c ∷ s) (oc, os) cl h =
          rw (h, has_bracket_lem (c ∷ s) (oc, os) cl, plain) (ground arith)

  -- The host and the port of an address are read back from it.
  split_host_port-join :
      Lacks colon port → split_host_port (join_host_port host port) ≡ some (host, port)
  unfolding split_host_port join_host_port
  split_host_port-join colons = elim (Bool-cases (has_byte colon host)) [
    | inl h ↦ rw h (
        ap host_and_port (
          ap (split_last colon) (sym (append_assoc (b'[' ∷ host) (b']' ∷ []) (colon ∷ port)))
          ∙ split_last_lem colon ((b'[' ∷ host) ++ b']' ∷ []) port colons)
        ∙ in_brackets)
    | inr h ↦ rw (h, split_last_lem colon host port colons) (bare h)
  ]

-- The address of a host without brackets and a port is split into just these, and the port's
-- digits stand for the port.
pub split_host_port-sprint :
    (host : Bytes) (n : ℕ)
    → Lacks b'[' host
    → Lacks b']' host
    → n < 65536
    → (split_host_port (join_host_port host (sprint n)) ≡ some (host, sprint n))
      × (value_from 0 (sprint n) ≡ n)
split_host_port-sprint host n no_open no_close h = (
  split_host_port-join host (sprint n) no_open no_close
      (has_bracket_lem (sprint n) (sprint-Lacks b'[' n (inr (omega arith)))
        (sprint-Lacks b']' n (inr (omega arith))))
      (sprint-Lacks colon n (inr (omega arith))),
  value_from-sprint n h,
)
