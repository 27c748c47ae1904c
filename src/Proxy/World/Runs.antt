-- ===== src/Proxy/World/Runs.antt =====
-- Runs of the handlers' monad that do not panic.
use irc_idler.Prelude.{Option, some, ◌≡◌, arith}
use irc_idler.Proxy.World.{World, Proc, ◌>>=◌}

module _ {L A B : Type 0} where
  -- A run is the run of its first part, and then of the rest.
  pub bind_runs :
      (p : Proc L A) (f : A → Proc L B) (w : World L) {a : A} {w' : World L}
      {r : Option (B × World L)}
      → p w ≡ some (a, w')
      → f a w' ≡ r
      → (p >>= f) w ≡ r
  unfolding ◌>>=◌
  bind_runs p f w e g = ground (arith, e, g)
