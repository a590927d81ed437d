-- ===== src/Base/Exec/Ensures.antt =====
-- Total-correctness triples for code that acts on a world: what holds when it returns, and what
-- holds when it ends early.
use mathlib.Core.Path.{◌≡◌, refl}
use mathlib.Core.Bool.{Bool, true, false}
use epoxy.Base.Errors.{Outcome, ok, err}
use epoxy.Base.Tests.{if◌then◌else◌}
use epoxy.Base.Exec.{Keeps, Exec, pure, stop, continue, ◌>>=◌}

-- `Q` of the value and the world after a return, `R` of the world after an early end.
abbrev pub Ends {ℓ} :
    {W E A : Type ℓ} → (A → W → Type ℓ) → (E → W → Type ℓ) → Outcome E A → W → Type ℓ
Ends Q R (ok a) w = Q a w
Ends Q R (err e) w = R e w

pub record Ensures {ℓ} {W E A : Type ℓ} (P : W → Type ℓ) (m : Exec W E A) (Q : A → W → Type ℓ)
    (R : E → W → Type ℓ) : Type ℓ where
  pub at : (w : W) → P w → Ends Q R (m w).0 (m w).1

module _ {ℓ} {W E A : Type ℓ} where
  pub Ensures-pure :
      {P : W → Type ℓ} {Q : A → W → Type ℓ} {R : E → W → Type ℓ} (a : A)
      → ((w : W) → P w → Q a w)
      → Ensures P (pure a) Q R
  Ensures-pure a h = record { at = h }

  pub Ensures-stop :
      {P : W → Type ℓ} {Q : A → W → Type ℓ} {R : E → W → Type ℓ} (e : E)
      → ((w : W) → P w → R e w)
      → Ensures P (stop e) Q R
  Ensures-stop e h = record { at = h }

  pub Ends-always : (P : W → Type ℓ) (r : Outcome E A) (w : W) → P w → Ends (λ _. P) (λ _. P) r w
  Ends-always P (ok a) w h = h
  Ends-always P (err e) w h = h

  pub Ensures-Keeps : {P : W → Type ℓ} (m : Exec W E A) → Keeps P m → Ensures P m (λ _. P) (λ _. P)
  Ensures-Keeps {P} m k = record { at = λ w h. let (r, w') = m w in Ends-always P r w' (k.at w h) }

  pub Ends-either : (P : W → Type ℓ) (r : Outcome E A) (w : W) → Ends (λ _. P) (λ _. P) r w → P w
  Ends-either P (ok a) w h = h
  Ends-either P (err e) w h = h

  pub Keeps-Ensures : {P : W → Type ℓ} (m : Exec W E A) → Ensures P m (λ _. P) (λ _. P) → Keeps P m
  Keeps-Ensures {P} m s = record { at = λ w h. let (r, w') = m w in Ends-either P r w' (s.at w h) }

  -- A fact that does not depend on the world.
  pub Ensures-assume :
      {P : W → Type ℓ} {Q : A → W → Type ℓ} {R : E → W → Type ℓ} {X : Type ℓ} (m : Exec W E A)
      → (X → Ensures P m Q R)
      → Ensures (λ w. X × P w) m Q R
  Ensures-assume m k = record { at = λ w h. (k h.0).at w h.1 }

  pub Ensures-if :
      {P : W → Type ℓ} {Q : A → W → Type ℓ} {R : E → W → Type ℓ} (b : Bool) (m n : Exec W E A)
      → (b ≡ true → Ensures P m Q R)
      → (b ≡ false → Ensures P n Q R)
      → Ensures P (if b then m else n) Q R
  Ensures-if true m n km kn = km refl
  Ensures-if false m n km kn = kn refl

  Ends-weaken :
      (Q Q' : A → W → Type ℓ) (R R' : E → W → Type ℓ) (r : Outcome E A) (w : W)
      → ((a : A) → Q a w → Q' a w)
      → ((e : E) → R e w → R' e w)
      → Ends Q R r w
      → Ends Q' R' r w
  Ends-weaken Q Q' R R' (ok a) w f g h = f a h
  Ends-weaken Q Q' R R' (err e) w f g h = g e h

  pub Ensures-weaken :
      {P P' : W → Type ℓ} {m : Exec W E A} {Q Q' : A → W → Type ℓ} {R R' : E → W → Type ℓ}
      → Ensures P m Q R
      → ((w : W) → P' w → P w)
      → ((a : A) (w : W) → Q a w → Q' a w)
      → ((e : E) (w : W) → R e w → R' e w)
      → Ensures P' m Q' R'
  Ensures-weaken {m} {Q} {Q'} {R} {R'} s p q r = record {
    at = λ w h.
        let (o, w') = m w in
        Ends-weaken Q Q' R R' o w' (λ a. q a w') (λ e. r e w') (s.at w (p w h));
  }

module _ {ℓ} {W E A B : Type ℓ} where
  Ends-continue :
      (Q : A → W → Type ℓ) (Q' : B → W → Type ℓ) (R : E → W → Type ℓ) (r : Outcome E A) (w : W)
      (f : A → Exec W E B)
      → Ends Q R r w
      → ((a : A) → Ensures (Q a) (f a) Q' R)
      → Ends Q' R (continue r f w).0 (continue r f w).1
  Ends-continue Q Q' R (ok a) w f h k = (k a).at w h
  Ends-continue Q Q' R (err e) w f h k = h

  pub Ensures-bind :
      {P : W → Type ℓ} {Q : A → W → Type ℓ} {Q' : B → W → Type ℓ} {R : E → W → Type ℓ}
      (m : Exec W E A) (f : A → Exec W E B)
      → Ensures P m Q R
      → ((a : A) → Ensures (Q a) (f a) Q' R)
      → Ensures P (m >>= f) Q' R
  unfolding ◌>>=◌
  Ensures-bind {Q} {Q'} {R} m f s k = record {
    at = λ w h. let (r, w') = m w in Ends-continue Q Q' R r w' f (s.at w h) k;
  }
