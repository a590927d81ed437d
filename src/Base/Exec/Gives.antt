-- ===== src/Base/Exec/Gives.antt =====
-- Partial-correctness triples: what holds if the code returns.
use mathlib.Core.Path.{◌≡◌, refl}
use mathlib.Core.Bool.{Bool, true, false}
use epoxy.Base.Errors.{Outcome, ok}
use epoxy.Base.Tests.{if◌then◌else◌}
use epoxy.Base.Exec.{Exec, lift, Keeps, ◌>>=◌, bind-ok}

pub record Gives {ℓ} {W E A : Type ℓ} (P : W → Type ℓ) (m : Exec W E A) (Q : A → W → Type ℓ)
    : Type ℓ where
  pub at : (w : W) → P w → (a : A) → (m w).0 ≡ ok a → Q a (m w).1

module _ {ℓ} {W E A : Type ℓ} {P : W → Type ℓ} where
  -- The value of a computation that does not act.
  pub Gives-lift : (r : Outcome E A) → Gives P (lift r) (λ a w. (r ≡ ok a) × P w)
  Gives-lift r = record { at = λ w p a e. (e, p) }

  pub Gives-Keeps : (m : Exec W E A) → Keeps P m → Gives P m (λ a w. P w)
  Gives-Keeps m k = record { at = λ w p a e. k.at w p }

  -- A fact that does not depend on the world.
  pub Gives-assume :
      {X : Type ℓ} {Q : A → W → Type ℓ} {m : Exec W E A}
      → (X → Gives P m Q)
      → Gives (λ w. X × P w) m Q
  Gives-assume k = record { at = λ w (x, p) a e. (k x).at w p a e }

  pub Gives-if :
      {Q : A → W → Type ℓ} (test : Bool) (one other : Exec W E A)
      → (test ≡ true → Gives P one Q)
      → (test ≡ false → Gives P other Q)
      → Gives P (if test then one else other) Q
  Gives-if true one other gives _ = gives refl
  Gives-if false one other _ gives = gives refl

module _ {ℓ} {W E A B : Type ℓ} where
  pub Gives-bind :
      {P : W → Type ℓ} {Q : A → W → Type ℓ} {Q' : B → W → Type ℓ} (m : Exec W E A)
      (f : A → Exec W E B)
      → Gives P m Q
      → ((a : A) → Gives (Q a) (f a) Q')
      → Gives P (m >>= f) Q'
  Gives-bind {Q'} m f first rest = record {
    at = λ w p b e.
        let (a, made, same) = bind-ok m f w e in
        let ended : (f a (m w).1).0 ≡ ok b = rw (← same) e in
        rw same ((rest a).at (m w).1 (first.at w p a made) b ended);
  }
