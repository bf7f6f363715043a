-- ===== src/Base/Exec/Yields.antt =====
-- What holds of every value that a call returns.
use mathlib.Core.Path.{◌≡◌, refl}
use mathlib.Core.Bool.{Bool, true, false}
use cluster_api_provider_hyd.Base.Tests.{if◌then◌else◌}
use cluster_api_provider_hyd.Base.Exec.{
  Result, ok, err, Exec, pure, raise, attempt, continue, ◌>>=◌, Keeps,
}

-- Of the value, if there is one.
abbrev pub Each {ℓ κ} : {E A : Type ℓ} → (A → Type κ) → Result E A → Type κ
Each Q (ok a) = Q a
Each Q (err e) = Unit

pub record Yields {ℓ κ} {E S A : Type ℓ} (Q : A → Type κ) (m : Exec E S A) : Type (ℓ ⊔ κ) where
  pub at : (s : S) → Each Q (m s).0

module _ {ℓ κ} {E S A : Type ℓ} {Q : A → Type κ} where
  pub Yields-pure : (a : A) → Q a → Yields {E = E} {S = S} Q (pure a)
  unfolding pure
  Yields-pure a q = record { at = λ s. q }

  pub Yields-raise : (e : E) → Yields {S = S} Q (raise e)
  unfolding raise
  Yields-raise e = record { at = λ s. tt }

  pub Yields-if :
      (b : Bool) {m n : Exec E S A}
      → (b ≡ true → Yields Q m)
      → (b ≡ false → Yields Q n)
      → Yields Q (if b then m else n)
  Yields-if true km kn = km refl
  Yields-if false km kn = kn refl

  pub Yields-attempt : (m : Exec E S A) → Yields Q m → Yields (Each Q) (attempt m)
  unfolding attempt
  Yields-attempt m k = record { at = λ s. k.at s }

module _ {ℓ κ μ} {E S A B : Type ℓ} {Q : A → Type κ} {T : B → Type μ} where
  Yields-continue :
      (r : Result E A) (f : A → Exec E S B) (s : S)
      → Each Q r
      → ((a : A) → Q a → Yields T (f a))
      → Each T (continue r f s).0
  Yields-continue (ok a) f s q k = (k a q).at s
  Yields-continue (err e) f s q k = tt

  pub Yields-bind :
      (m : Exec E S A) (f : A → Exec E S B)
      → Yields Q m
      → ((a : A) → Q a → Yields T (f a))
      → Yields T (m >>= f)
  unfolding ◌>>=◌
  Yields-bind m f k kf = record { at = λ s. Yields-continue (m s).0 f (m s).1 (k.at s) kf }

module _ {ℓ κ μ} {E S A B : Type ℓ} {P : S → Type κ} {Q : A → Type μ} where
  Keeps-continue_each :
      (r : Result E A) (f : A → Exec E S B) (s : S)
      → Each Q r
      → ((a : A) → Q a → Keeps P (f a))
      → P s
      → P (continue r f s).1
  Keeps-continue_each (ok a) f s q k h = (k a q).at s h
  Keeps-continue_each (err e) f s q k h = h

  -- What comes next may count on what holds of the value.
  pub Keeps-bind-Yields :
      (m : Exec E S A) (f : A → Exec E S B)
      → Keeps P m
      → Yields Q m
      → ((a : A) → Q a → Keeps P (f a))
      → Keeps P (m >>= f)
  unfolding ◌>>=◌
  Keeps-bind-Yields m f km q kf = record {
    at = λ s h. Keeps-continue_each (m s).0 f (m s).1 (q.at s) kf (km.at s h);
  }

Each-any {ℓ} : {E A : Type ℓ} (r : Result E A) → Each (λ (a : A). Unit {ℓ}) r
Each-any (ok a) = tt
Each-any (err e) = tt

-- Any value.
pub Yields-any {ℓ} : {E S A : Type ℓ} (m : Exec E S A) → Yields (λ (a : A). Unit {ℓ}) m
Yields-any m = record { at = λ s. Each-any (m s).0 }
