-- ===== src/Irc/ClientId/Split.antt =====
-- `strings.Split` by one byte: its parts hold no separator, and spell the text.
use irc_idler.Prelude.{
  ℕ, List, [], ◌∷◌, ◌++◌, Bytes, ◌==◌, ◌≡◌, ◌≢◌, refl, arith, Lacks, ap, Bool-cases, inl, inr, true,
  false, sym, ◌∙◌,
}
use irc_idler.Irc.ClientId.{split, prepend}

prepend_inv :
    (c : ℕ) (l : List Bytes) (p : Bytes) (ps : List Bytes)
    → l ≢ []
    → prepend c l ≡ p ∷ ps
    → (p' : Bytes) × (l ≡ p' ∷ ps) × (p ≡ c ∷ p')
unfolding prepend
prepend_inv c [] p ps h e = absurd (h refl)
prepend_inv c (q ∷ qs) p ps h e = (q, ground arith, ground arith)

module _ (sep : ℕ) where
  pub split-Lacks : (s : Bytes) → Lacks sep s → split sep s ≡ s ∷ []
  unfolding split
  split-Lacks [] h = refl
  split-Lacks (c ∷ s) (hc, hs) = ground (arith, split-Lacks s hs)

  pub split-append : (s t : Bytes) → Lacks sep s → split sep (s ++ sep ∷ t) ≡ s ∷ split sep t
  unfolding split
  split-append [] t h = ground arith
  split-append (c ∷ s) t (hc, hs) = ground (arith, split-append s t hs)

  split-ne-nil : (s : Bytes) → split sep s ≢ []
  unfolding split
  split-ne-nil [] = ground arith
  split-ne-nil (c ∷ s) = ground arith

  split_same : (c : ℕ) (s : Bytes) → (c == sep) ≡ true → split sep (c ∷ s) ≡ [] ∷ split sep s
  unfolding split
  split_same c s h = rw h

  split_other :
      (c : ℕ) (s : Bytes) → (c == sep) ≡ false → split sep (c ∷ s) ≡ prepend c (split sep s)
  unfolding split
  split_other c s h = rw h

  -- A text that is one part is that part.
  pub split_one : (s p : Bytes) → split sep s ≡ p ∷ [] → (p ≡ s) × Lacks sep s
  split_one [] p h = (unfold split in ground arith, tt)
  split_one (c ∷ s) p h = elim (Bool-cases (c == sep)) [
    | inl same ↦ absurd (ground (arith, split_same c s same, split-ne-nil s))
    | inr other ↦
        let (p', e, shape) =
          prepend_inv c (split sep s) p [] (split-ne-nil s) (sym (split_other c s other) ∙ h) in
        let (eq, lacks) = split_one s p' e in
        (shape ∙ ap (λ (t : Bytes). c ∷ t) eq, (ground arith, lacks))
  ]

  -- A text of two parts has one separator, between them.
  pub split_two :
      (s p q : Bytes) → split sep s ≡ p ∷ q ∷ [] → (s ≡ p ++ sep ∷ q) × Lacks sep p × Lacks sep q
  split_two [] p q h = unfold split in cc
  split_two (c ∷ s) p q h = elim (Bool-cases (c == sep)) [
    | inl same ↦
        let (eq, lacks) = split_one s q (ground (arith, split_same c s same)) in
        let none_before : p ≡ [] = ground (arith, split_same c s same) in
        rw none_before (ground (arith, eq), tt, rw eq lacks)
    | inr other ↦
        let (p', e, shape) =
          prepend_inv c (split sep s) p (q ∷ []) (split-ne-nil s)
            (sym (split_other c s other) ∙ h) in
        let (eq, before, after) = split_two s p' q e in
        rw shape (ap (λ (t : Bytes). c ∷ t) eq, (ground arith, before), after)
  ]
