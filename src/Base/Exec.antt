-- ===== src/Base/Exec.antt =====
-- Code that acts on a world of type `W` and may end early, by an error, a panic or a reply. What it
-- did to the world before stays done.
pub mod Ensures
pub mod Gives
use mathlib.Core.Path.{◌≡◌, refl}
use mathlib.Core.Bool.{Bool, true, false}
use epoxy.Base.Errors.{Outcome, ok, err}
use epoxy.Base.Tests.{if◌then◌else◌}

abbrev pub Exec {ℓ} : Type ℓ → Type ℓ → Type ℓ → Type ℓ
Exec W E A = W → Outcome E A × W

module _ {ℓ} {W E A : Type ℓ} where
  abbrev pub pure : A → Exec W E A
  pure a w = (ok a, w)

  abbrev pub stop : E → Exec W E A
  stop e w = (err e, w)

  abbrev pub lift : Outcome E A → Exec W E A
  lift r w = (r, w)

  -- Deferred code: `f` runs however `m` ends.
  abbrev pub finally : Exec W E A → (W → W) → Exec W E A
  finally m f w = let (r, w') = m w in (r, f w')

  abbrev pub on_err : Outcome E A → (W → W) → W → W
  on_err (ok a) f w = w
  on_err (err e) f w = f w

  -- `f` runs if `m` fails.
  abbrev pub on_failure : Exec W E A → (W → W) → Exec W E A
  on_failure m f w = let (r, w') = m w in (r, on_err r f w')

  abbrev pub gets : (W → A) → Exec W E A
  gets f w = (ok (f w), w)

module _ {ℓ} {W E A B : Type ℓ} where
  abbrev pub continue : Outcome E A → (A → Exec W E B) → Exec W E B
  continue (ok a) f w = f a w
  continue (err e) f w = (err e, w)

  infixl 10 ◌>>=◌ ◌>>◌
  unfoldable pub ◌>>=◌ : Exec W E A → (A → Exec W E B) → Exec W E B
  ◌>>=◌ m f w = let (r, w') = m w in continue r f w'

  abbrev pub ◌>>◌ : Exec W E A → Exec W E B → Exec W E B
  m >> n = m >>= λ _. n

  continue-eq-ok :
      (r : Outcome E A) (w : W) (f : A → Exec W E B) {b : B}
      → (continue r f w).0 ≡ ok b
      → (a : A) × (r ≡ ok a) × ((f a w).0 ≡ ok b)
  continue-eq-ok (ok a) w f h = (a, refl, h)
  continue-eq-ok (err e) w f h = cc

  -- What a block that returned has done.
  pub bind-eq-ok :
      (m : Exec W E A) (f : A → Exec W E B) (w : W) {b : B}
      → ((m >>= f) w).0 ≡ ok b
      → (a : A) × ((m w).0 ≡ ok a) × ((f a (m w).1).0 ≡ ok b)
  unfolding ◌>>=◌
  bind-eq-ok m f w h = let (r, w') = m w in continue-eq-ok r w' f h

  continue-ok :
      (r : Outcome E A) (w : W) (f : A → Exec W E B) {b : B}
      → (continue r f w).0 ≡ ok b
      → (a : A) × (r ≡ ok a) × (continue r f w ≡ f a w)
  continue-ok (ok a) w f h = (a, refl, refl)
  continue-ok (err e) w f h = cc

  -- A block that returned is its rest, at the value of its first step and the world after it.
  pub bind-ok :
      (m : Exec W E A) (f : A → Exec W E B) (w : W) {b : B}
      → ((m >>= f) w).0 ≡ ok b
      → (a : A) × ((m w).0 ≡ ok a) × ((m >>= f) w ≡ f a (m w).1)
  unfolding ◌>>=◌
  bind-ok m f w h = let (r, w') = m w in continue-ok r w' f h

-- `P` holds of the world after `m` if it held before, however `m` ends.
pub record Keeps {ℓ} {W E A : Type ℓ} (P : W → Type ℓ) (m : Exec W E A) : Type ℓ where
  pub at : (w : W) → P w → P (m w).1

module _ {ℓ} {W E A : Type ℓ} {P : W → Type ℓ} where
  pub Keeps-pure : (a : A) → Keeps {E = E} P (pure a)
  Keeps-pure a = record { at = λ w held. held }

  pub Keeps-stop : (e : E) → Keeps {A = A} P (stop e)
  Keeps-stop e = record { at = λ w held. held }

  pub Keeps-lift : (r : Outcome E A) → Keeps P (lift r)
  Keeps-lift r = record { at = λ w h. h }

  pub Keeps-gets : (f : W → A) → Keeps {E = E} P (gets f)
  Keeps-gets f = record { at = λ w h. h }

  -- A conditional, each branch under its test.
  pub Keeps-if :
      (test : Bool) (one other : Exec W E A)
      → (test ≡ true → Keeps P one)
      → (test ≡ false → Keeps P other)
      → Keeps P (if test then one else other)
  Keeps-if true one other keeps _ = keeps refl
  Keeps-if false one other _ keeps = keeps refl

module _ {ℓ} {W E A B : Type ℓ} {P : W → Type ℓ} where
  Keeps-continue :
      (r : Outcome E A) (f : A → Exec W E B)
      → ((a : A) → Keeps P (f a))
      → (w : W) → P w
      → P (continue r f w).1
  Keeps-continue (ok a) f kf w h = (kf a).at w h
  Keeps-continue (err e) f kf w h = h

  pub Keeps-bind :
      (m : Exec W E A) (f : A → Exec W E B)
      → Keeps P m
      → ((a : A) → Keeps P (f a))
      → Keeps P (m >>= f)
  unfolding ◌>>=◌
  Keeps-bind m f km kf = record {
    at = λ w h. let (r, w') = m w in Keeps-continue r f kf w' (km.at w h);
  }

  Keeps-continue_returned :
      (m : Exec W E A) (r : Outcome E A) (f : A → Exec W E B) (w : W)
      → (m w).0 ≡ r
      → P w
      → ((a : A) (w : W) → P w → (m w).0 ≡ ok a → Keeps P (f a))
      → (w' : W) → P w'
      → P (continue r f w').1
  Keeps-continue_returned m (ok a) f w e p kf w' h = (kf a w p e).at w' h
  Keeps-continue_returned m (err x) f w e p kf w' h = h

  -- The rest of the block may use that its first step has returned the value, from a world with `P`.
  pub Keeps-bind_returned :
      (m : Exec W E A) (f : A → Exec W E B)
      → Keeps P m
      → ((a : A) (w : W) → P w → (m w).0 ≡ ok a → Keeps P (f a))
      → Keeps P (m >>= f)
  unfolding ◌>>=◌
  Keeps-bind_returned m f km kf = record {
    at = λ w h. let (r, w') = m w in Keeps-continue_returned m (m w).0 f w refl h kf w' (km.at w h);
  }
