-- ===== src/Inspector/Shown.antt =====
-- What the inspector writes.
use irc_idler.Prelude.{
  List, append-nil, append_assoc, [], ◌∷◌, ◌++◌, Bool, true, map, ◌≡◌, ◌⊎◌, inl, inr, refl, sym,
  ◌∙◌, ap, Bool-cases,
}
use irc_idler.Irc.Message.{Message}
use irc_idler.Inspector.{Write, answer, copy_all, ping_pong}

module _ (fails : List Write → Write → Bool) where
  -- The messages read are those written and those left: none, or one whose write failed first.
  abbrev IsCopy : (Message → Write) → List Message → List Write → List Write → Type 0
  IsCopy f ms done out =
      (ns : List Message) × (rest : List Message) × (ms ≡ ns ++ rest)
      × (out ≡ done ++ map f ns)
      × ((rest ≡ [])
          ⊎ ((m : Message) × (ms' : List Message) × (rest ≡ m ∷ ms') × (fails out (f m) ≡ true)))

  copy_all_lem :
      (f : Message → Write) (ms : List Message) (done : List Write)
      → IsCopy f ms done (copy_all fails f ms done)
  unfolding copy_all
  copy_all_lem f [] done = ([], [], refl, sym (append-nil done), inl refl)
  copy_all_lem f (m ∷ ms) done = elim (Bool-cases (fails done (f m))) [
    | inl failed ↦
        ([], m ∷ ms, refl, rw failed (sym (append-nil done)), inr (m, ms, refl, rw failed failed))
    | inr sent ↦
        let (ns, rest, split, out, end) = copy_all_lem f ms (done ++ f m ∷ []) in
        (
          m ∷ ns,
          rest,
          ap (λ (xs : List Message). m ∷ xs) split,
          rw sent (out ∙ append_assoc done (f m ∷ []) (map f ns)),
          rw sent end,
        )
  ]

  ping_pong_lem : (ms : List Message) → IsCopy answer ms [] (ping_pong fails ms [])
  unfolding ping_pong
  ping_pong_lem ms = copy_all_lem answer ms []
