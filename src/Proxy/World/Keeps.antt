-- ===== src/Proxy/World/Keeps.antt =====
-- Invariants of code that may panic: one rule for each way to build it.
use irc_idler.Prelude.{
  ℕ, Bytes, Bool, get_elem?, true, false, Option, none, some, if◌then◌else◌, ◌≡◌,
}
use irc_idler.Irc.Message.{Message}
use irc_idler.Proxy.World.{World, Proc, and_then, ◌>>=◌, pure, gets, modify, param, with_param}

-- What holds of the world behind a run that did not panic.
abbrev pub After {ℓ} : {L A : Type 0} → (World L → Type ℓ) → Option (A × World L) → Type ℓ
After P none = Unit
After P (some (a, w)) = P w

pub record Keeps {ℓ} {L A : Type 0} (P : World L → Type ℓ) (p : Proc L A) : Type ℓ where
  pub at : (w : World L) → P w → After P (p w)

module _ {ℓ} {L A : Type 0} {P : World L → Type ℓ} where
  pub Keeps-pure : (a : A) → Keeps P (pure a)
  unfolding pure
  Keeps-pure a = record { at = λ w h. h }

  pub Keeps-gets : (f : World L → A) → Keeps P (gets f)
  unfolding gets
  Keeps-gets f = record { at = λ w h. h }

  pub Keeps-if : (b : Bool) (p q : Proc L A) → Keeps P p → Keeps P q → Keeps P (if b then p else q)
  Keeps-if true p q kp kq = kp
  Keeps-if false p q kp kq = kq

  -- The first branch may rely on its test.
  pub Keeps-when :
      (b : Bool) (p q : Proc L A)
      → (b ≡ true → Keeps P p)
      → Keeps P q
      → Keeps P (if b then p else q)
  Keeps-when true p q kp kq = kp (λ i. true)
  Keeps-when false p q kp kq = kq

with_param-After {ℓ} :
    {L : Type 0} (P : World L → Type ℓ) (o : Option Bytes) (w : World L)
    → P w
    → After P (with_param o w)
unfolding with_param
with_param-After P none w h = tt
with_param-After P (some p) w h = h

module _ {ℓ} {L : Type 0} {P : World L → Type ℓ} where
  pub Keeps-modify : (f : World L → World L) → ((w : World L) → P w → P (f w)) → Keeps P (modify f)
  unfolding modify
  Keeps-modify f kf = record { at = kf }

  pub Keeps-param : (m : Message) (i : ℕ) → Keeps P (param m i)
  unfolding param
  Keeps-param m i = record { at = with_param-After P (get_elem? m.params i) }

module _ {ℓ} {L A B : Type 0} {P : World L → Type ℓ} where
  and_then-After :
      (r : Option (A × World L)) (f : A → Proc L B)
      → After P r
      → ((a : A) → Keeps P (f a))
      → After P (and_then r f)
  and_then-After none f h kf = tt
  and_then-After (some (a, w)) f h kf = (kf a).at w h

  pub After-bind :
      (p : Proc L A) (f : A → Proc L B) (w : World L)
      → After P (p w)
      → ((a : A) → Keeps P (f a))
      → After P ((p >>= f) w)
  unfolding ◌>>=◌
  After-bind p f w h kf = and_then-After (p w) f h kf

  pub Keeps-bind :
      (p : Proc L A) (f : A → Proc L B) → Keeps P p → ((a : A) → Keeps P (f a)) → Keeps P (p >>= f)
  unfolding ◌>>=◌
  Keeps-bind p f kp kf = record { at = λ w h. and_then-After (p w) f (kp.at w h) kf }

pub ruleset keeps_rules = (Keeps-pure, Keeps-gets, Keeps-if, Keeps-modify, Keeps-param, Keeps-bind)

module _ {ℓ} {L A B : Type 0} {P : World L → Type ℓ} where
  -- What is read from a state, where the code behind it relies on that.
  pub Keeps-gets_then :
      (f : World L → A) (g : A → Proc L B)
      → ((w : World L) → Keeps P (g (f w)))
      → Keeps P (gets f >>= g)
  unfolding gets ◌>>=◌
  Keeps-gets_then f g kg = record { at = λ w h. (kg w).at w h }

module _ {ℓ κ} {L A : Type 0} (P : World L → Type ℓ) (Q : World L → Type κ) where
  pub After-and : (r : Option (A × World L)) → After P r → After Q r → After (λ w. P w × Q w) r
  After-and none hp hq = tt
  After-and (some (a, w)) hp hq = (hp, hq)

  pub Keeps-and : (p : Proc L A) → Keeps P p → Keeps Q p → Keeps (λ w. P w × Q w) p
  Keeps-and p kp kq = record {
    at = λ w h. let (hp, hq) = h in After-and (p w) (kp.at w hp) (kq.at w hq);
  }
