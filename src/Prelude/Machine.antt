-- ===== src/Prelude/Machine.antt =====
-- Machines that take one event at a time and put out a list for each; a step is `none` where the
-- machine takes no part in that event.
use mathlib.Core.List.{List, [], ◌∷◌, ◌++◌}
use mathlib.Core.Option.{Option, some}
use mathlib.Core.Path.{◌≡◌}
use irc_idler.Prelude.Maybe.{◌>>=◌, >>=-eq-some}

module _ {S X O : Type 0} (step : S → X → Option (S × List O)) where
  -- A run through a sequence of events, with all that was put out.
  unfoldable pub run : S → List X → Option (S × List O)
  run s [] = some (s, [])
  run s (x ∷ xs) = do (s', sent) ← step s x; (s'', more) ← run s' xs; some (s'', sent ++ more)

  -- A run through a first event is a step and a run behind it.
  pub run-cons :
      (s : S) (x : X) (xs : List X) {s' : S} {out : List O}
      → run s (x ∷ xs) ≡ some (s', out)
      → (s1 : S) × (sent : List O) × (more : List O) × (step s x ≡ some (s1, sent))
        × (run s1 xs ≡ some (s', more))
        × (out ≡ sent ++ more)
  unfolding run
  run-cons s x xs e =
      let ((s1, sent), e1, e2) =
        >>=-eq-some (step s x)
          (λ (p : S × List O).
            let (t, sent) = p in run t xs >>= λ q. let (u, more) = q in some (u, sent ++ more))
          e in
      let ((s2, more), e3, e4) =
        >>=-eq-some (run s1 xs) (λ (q : S × List O). let (u, more) = q in some (u, sent ++ more))
          e2 in
      (s1, sent, more, e1, cc (e3, e4), cc e4)
