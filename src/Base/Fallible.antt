-- ===== src/Base/Fallible.antt =====
-- Blocks of code that has no effect but may fail.
use mathlib.Core.Path.{◌≡◌, refl}
use epoxy.Base.Errors.{Outcome, ok, err}

-- A property of the value, where there is one.
pub record Returns {ℓ} {E A : Type ℓ} (Q : A → Type ℓ) (r : Outcome E A) : Type ℓ where
  pub at : (value : A) → r ≡ ok value → Q value

module _ {ℓ} {E A B : Type ℓ} where
  infixl 10 ◌>>=◌
  unfoldable pub ◌>>=◌ : Outcome E A → (A → Outcome E B) → Outcome E B
  ok value >>= rest = rest value
  err e >>= rest = err e

  -- A block that returned has run its first step and the rest.
  outcome_bind-eq-ok :
      (first : Outcome E A) (rest : A → Outcome E B) {result : B}
      → (first >>= rest) ≡ ok result
      → (value : A) × (first ≡ ok value) × (rest value ≡ ok result)
  unfolding ◌>>=◌
  outcome_bind-eq-ok (ok value) rest e = (value, refl, e)
  outcome_bind-eq-ok (err x) rest e = cc

  pub Returns-bind :
      (Q : B → Type ℓ) (first : Outcome E A) (rest : A → Outcome E B)
      → ((value : A) → Returns Q (rest value))
      → Returns Q (first >>= rest)
  Returns-bind Q first rest q = record {
    at = λ result e. let (value, _, e') = outcome_bind-eq-ok first rest e in (q value).at result e';
  }

  -- The rest of the block may use a property of what its first step returns.
  pub Returns-bind_returned :
      (P : A → Type ℓ) (Q : B → Type ℓ) (first : Outcome E A) (rest : A → Outcome E B)
      → Returns P first
      → ((value : A) → P value → Returns Q (rest value))
      → Returns Q (first >>= rest)
  Returns-bind_returned P Q first rest p q = record {
    at = λ result e.
        let (value, first', e') = outcome_bind-eq-ok first rest e in
        (q value (p.at value first')).at result e';
  }

module _ {ℓ} {E A : Type ℓ} where
  pub Returns-ok : (Q : A → Type ℓ) (value : A) → Q value → Returns {E = E} Q (ok value)
  Returns-ok Q value q = record { at = λ result e. let same : value ≡ result = cc in rw (← same) q }
