-- ===== src/Proxy/World/Completes.antt =====
-- Code that does not panic from the states of an invariant, and keeps it: one rule for each way to
-- build it.
use irc_idler.Prelude.{
  ℕ, ◌<◌, Bytes, Bool, get_elem?, is_some, is_some-get_elem?, length, true, false, Option, none,
  some, ◌≡◌, if◌then◌else◌,
}
use irc_idler.Irc.Message.{Message}
use irc_idler.Proxy.World.{World, Proc, and_then, ◌>>=◌, pure, gets, modify, param, with_param}

-- There is a state behind the run, and the invariant holds in it.
abbrev pub Ends : {L A : Type 0} → (World L → Type 0) → Option (A × World L) → Type 0
Ends P none = ⊥
Ends P (some (a, w)) = P w

pub record Completes {L A : Type 0} (P : World L → Type 0) (p : Proc L A) : Type 0 where
  pub at : (w : World L) → P w → Ends P (p w)

module _ {L A : Type 0} {P : World L → Type 0} where
  pub Completes-pure : (a : A) → Completes P (pure a)
  unfolding pure
  Completes-pure a = record { at = λ w h. h }

  pub Completes-gets : (f : World L → A) → Completes P (gets f)
  unfolding gets
  Completes-gets f = record { at = λ w h. h }

  pub Completes-if :
      (b : Bool) (p q : Proc L A)
      → (b ≡ true → Completes P p)
      → (b ≡ false → Completes P q)
      → Completes P (if b then p else q)
  Completes-if true p q kp kq = kp (λ i. true)
  Completes-if false p q kp kq = kq (λ i. false)

  pub Completes-either :
      (b : Bool) (p q : Proc L A) → Completes P p → Completes P q → Completes P (if b then p else q)
  Completes-either true p q kp kq = kp
  Completes-either false p q kp kq = kq

with_param-Ends :
    {L : Type 0} (P : World L → Type 0) (o : Option Bytes) (w : World L)
    → is_some o ≡ true
    → P w
    → Ends P (with_param o w)
unfolding with_param
with_param-Ends P none w ok h = absurd (cc ok)
with_param-Ends P (some p) w ok h = h

module _ {L : Type 0} {P : World L → Type 0} where
  pub Completes-modify :
      (f : World L → World L) → ((w : World L) → P w → P (f w)) → Completes P (modify f)
  unfolding modify
  Completes-modify f kf = record { at = kf }

  -- A parameter that the message has.
  pub Completes-param : (m : Message) (i : ℕ) → i < length m.params → Completes P (param m i)
  unfolding param
  Completes-param m i h = record {
    at = λ w. with_param-Ends P (get_elem? m.params i) w (is_some-get_elem? m.params i h);
  }

module _ {L A B : Type 0} {P : World L → Type 0} where
  and_then-Ends :
      (r : Option (A × World L)) (f : A → Proc L B)
      → Ends P r
      → ((a : A) → Completes P (f a))
      → Ends P (and_then r f)
  and_then-Ends none f h kf = h
  and_then-Ends (some (a, w)) f h kf = (kf a).at w h

  pub Completes-bind :
      (p : Proc L A) (f : A → Proc L B)
      → Completes P p
      → ((a : A) → Completes P (f a))
      → Completes P (p >>= f)
  unfolding ◌>>=◌
  Completes-bind p f kp kf = record { at = λ w h. and_then-Ends (p w) f (kp.at w h) kf }

pub ruleset completes_rules =
    (Completes-pure, Completes-gets, Completes-either, Completes-modify, Completes-bind)

module _ {L A B : Type 0} {P : World L → Type 0} where
  -- What is read from a state, where the code behind it relies on that.
  pub Completes-gets_then :
      (f : World L → A) (g : A → Proc L B)
      → ((w : World L) → Completes P (g (f w)))
      → Completes P (gets f >>= g)
  unfolding gets ◌>>=◌
  Completes-gets_then f g kg = record { at = λ w h. (kg w).at w h }
