-- ===== src/Base/Exec.antt =====
-- Calls that change a state and may return an error. What was changed before the error stays
-- changed, so the state comes back beside the error too.
pub mod Yields
use mathlib.Core.Path.{◌≡◌, refl}
use mathlib.Core.Bool.{Bool, true, false}
use native.Mathlib.Omega.{arith}
use mathlib.Core.Option.{Option, none, some}
use cluster_api_provider_hyd.Base.Tests.{if◌then◌else◌}

pub data Result {ℓ} (E A : Type ℓ) : Type ℓ where
  ok : A → Result E A
  err : E → Result E A

abbrev pub Exec {ℓ} : Type ℓ → Type ℓ → Type ℓ → Type ℓ
Exec E S A = S → Result E A × S

module _ {ℓ} {E S A : Type ℓ} where
  unfoldable pub pure : A → Exec E S A
  pure a s = (ok a, s)

  unfoldable pub raise : E → Exec E S A
  raise e s = (err e, s)

  -- The caller looks at the error itself.
  unfoldable pub attempt : Exec E S A → Exec E S (Result E A)
  attempt m s = let (r, t) = m s in (ok r, t)

module _ {ℓ} {E S A B : Type ℓ} where
  abbrev pub continue : Result E A → (A → Exec E S B) → Exec E S B
  continue (ok a) f s = f a s
  continue (err e) f s = (err e, s)

  infixl 10 ◌>>=◌ ◌>>◌
  unfoldable pub ◌>>=◌ : Exec E S A → (A → Exec E S B) → Exec E S B
  ◌>>=◌ m f s = let (r, t) = m s in continue r f t

  abbrev pub ◌>>◌ : Exec E S A → Exec E S B → Exec E S B
  m >> n = m >>= λ _. n

-- `m` keeps `P`, whatever it returns.
pub record Keeps {ℓ κ} {E S A : Type ℓ} (P : S → Type κ) (m : Exec E S A) : Type (ℓ ⊔ κ) where
  pub at : (s : S) → P s → P (m s).1

module _ {ℓ κ} {E S A : Type ℓ} {P : S → Type κ} where
  pub Keeps-raise : (e : E) → Keeps {A = A} P (raise e)
  unfolding raise
  Keeps-raise e = record { at = λ s h. h }

  pub Keeps-pure : (a : A) → Keeps {E = E} P (pure a)
  unfolding pure
  Keeps-pure a = record { at = λ s h. h }

  pub Keeps-attempt : (m : Exec E S A) → Keeps P m → Keeps P (attempt m)
  unfolding attempt
  Keeps-attempt m k = record { at = λ s h. k.at s h }

  pub Keeps-if :
      (b : Bool) {m n : Exec E S A}
      → (b ≡ true → Keeps P m)
      → (b ≡ false → Keeps P n)
      → Keeps P (if b then m else n)
  Keeps-if true km kn = km refl
  Keeps-if false km kn = kn refl

  pub Keeps-option :
      {X : Type ℓ} (o : Option X) {m : Exec E S A} {f : X → Exec E S A}
      → Keeps P m
      → ((x : X) → Keeps P (f x))
      → Keeps P (elim o [ none ↦ m | some x ↦ f x ])
  Keeps-option none km kf = km
  Keeps-option (some x) km kf = kf x

  pub Keeps-result :
      {F X : Type ℓ} (r : Result F X) {f : X → Exec E S A} {g : F → Exec E S A}
      → ((x : X) → Keeps P (f x))
      → ((e : F) → Keeps P (g e))
      → Keeps P (elim r [ ok x ↦ f x | err e ↦ g e ])
  Keeps-result (ok x) kf kg = kf x
  Keeps-result (err e) kf kg = kg e

module _ {ℓ κ} {E S A B : Type ℓ} {P : S → Type κ} where
  Keeps-continue :
      (r : Result E A) (f : A → Exec E S B) (s : S)
      → ((a : A) → r ≡ ok a → Keeps P (f a))
      → P s
      → P (continue r f s).1
  Keeps-continue (ok a) f s kf h = (kf a refl).at s h
  Keeps-continue (err e) f s kf h = h

  pub Keeps-bind :
      (m : Exec E S A) (f : A → Exec E S B)
      → Keeps P m
      → ((a : A) → Keeps P (f a))
      → Keeps P (m >>= f)
  unfolding ◌>>=◌
  Keeps-bind m f km kf = record {
    at = λ s h. Keeps-continue (m s).0 f (m s).1 (λ a _. kf a) (km.at s h);
  }

module _ {ℓ κ} {E S A B : Type ℓ} where
  -- What holds after `m` still holds after what comes next, if that keeps it.
  pub still :
      (P : S → Type κ) (m : Exec E S A) (f : A → Exec E S B) (s : S)
      → P (m s).1
      → ((a : A) → Keeps P (f a))
      → P ((m >>= f) s).1
  unfolding ◌>>=◌
  still P m f s h kf = Keeps-continue {P = P} (m s).0 f (m s).1 (λ a _. kf a) h

-- What holds afterwards: `Q` of a value, and `R` where an error came.
abbrev pub Post {ℓ κ} : {E S A : Type ℓ} → (A → S → Type κ) → (S → Type κ) → Result E A × S → Type κ
Post Q R (ok a, s) = Q a s
Post Q R (err e, s) = R s

pub record Triple {ℓ κ} {E S A : Type ℓ} (P : S → Type κ) (m : Exec E S A) (Q : A → S → Type κ)
    (R : S → Type κ) : Type (ℓ ⊔ κ) where
  pub at : (s : S) → P s → Post Q R (m s)

module _ {ℓ κ} {E S A B : Type ℓ} {R : S → Type κ} where
  pub Post-continue :
      {Q : A → S → Type κ} {T : B → S → Type κ} (r : Result E A × S) (f : A → Exec E S B)
      → ((a : A) → Triple (Q a) (f a) T R)
      → Post Q R r
      → Post T R (continue r.0 f r.1)
  Post-continue (ok a, s) f k h = (k a).at s h
  Post-continue (err e, s) f k h = h

  pub Triple-bind :
      {P : S → Type κ} {Q : A → S → Type κ} {T : B → S → Type κ} (m : Exec E S A)
      (f : A → Exec E S B)
      → Triple P m Q R
      → ((a : A) → Triple (Q a) (f a) T R)
      → Triple P (m >>= f) T R
  unfolding ◌>>=◌
  Triple-bind m f k kf = record { at = λ s h. Post-continue (m s) f kf (k.at s h) }

module _ {ℓ κ} {E S A : Type ℓ} {P R : S → Type κ} {Q : A → S → Type κ} where
  pub Triple-raise : (e : E) → ((s : S) → P s → R s) → Triple P (raise e) Q R
  unfolding raise
  Triple-raise e h = record { at = h }

  pub Triple-if :
      (b : Bool) {m n : Exec E S A}
      → (b ≡ true → Triple P m Q R)
      → (b ≡ false → Triple P n Q R)
      → Triple P (if b then m else n) Q R
  Triple-if true km kn = km refl
  Triple-if false km kn = kn refl

  Post-of :
      (r : Result E A × S)
      → ((a : A) (s : S) → P s → Q a s)
      → ((s : S) → P s → R s)
      → P r.1
      → Post Q R r
  Post-of (ok a, s) q r h = q a s h
  Post-of (err e, s) q r h = r s h

  -- What is kept holds afterwards, and so does what follows from it.
  pub Triple-kept :
      (m : Exec E S A)
      → Keeps P m
      → ((a : A) (s : S) → P s → Q a s)
      → ((s : S) → P s → R s)
      → Triple P m Q R
  Triple-kept m k q r = record { at = λ s h. Post-of (m s) q r (k.at s h) }

module _ {ℓ κ} {E S A : Type ℓ} {R : S → Type κ} where
  Post-weaken :
      (Q : A → S → Type κ) {T : S → Type κ} (r : Result E A × S)
      → ((s : S) → R s → T s)
      → Post Q R r
      → Post Q T r
  Post-weaken Q (ok a, s) f h = h
  Post-weaken Q (err e, s) f h = f s h

  pub Triple-weaken :
      {P T : S → Type κ} {Q : A → S → Type κ} {m : Exec E S A}
      → Triple P m Q R
      → ((s : S) → R s → T s)
      → Triple P m Q T
  Triple-weaken {Q} {m} t f = record { at = λ s h. Post-weaken Q (m s) f (t.at s h) }

pub Post-map {ℓ κ} :
    {E S A : Type ℓ} {Q T : A → S → Type κ} (R : S → Type κ) (r : Result E A × S)
    → ((a : A) (s : S) → Q a s → T a s)
    → Post Q R r
    → Post T R r
Post-map R (ok a, s) f h = f a s h
Post-map R (err e, s) f h = h

pub continue-pure {ℓ} :
    {E S A C : Type ℓ} (r : Result E A × S) (c : C) → (continue r.0 (λ _. pure c) r.1).1 ≡ r.1
unfolding pure
continue-pure (ok a, s) c = refl
continue-pure (err e, s) c = refl

pub Post-same {ℓ κ} :
    {E S A : Type ℓ} (P : S → Type κ) (r : Result E A × S) → Post (λ _. P) P r → P r.1
Post-same P (ok a, s) h = h
Post-same P (err e, s) h = h

-- A guard that returns an error did not, if the whole returned a value.
pub passes {ℓ} :
    {E A : Type ℓ} (e : E) (t : Bool) {x : Result E A} {a : A}
    → (if t then err e else x) ≡ ok a
    → (t ≡ false) × (x ≡ ok a)
passes e true h = ground arith
passes e false h = (refl, h)

-- What is kept besides.
Post-with {ℓ κ} :
    {E S A : Type ℓ} (P : S → Type κ) (Q : A → S → Type κ) (R : S → Type κ) (r : Result E A × S)
    → P r.1
    → Post Q R r
    → Post (λ a s. P s × Q a s) R r
Post-with P Q R (ok a, s) kept h = (kept, h)
Post-with P Q R (err e, s) kept h = h

pub Triple-keeping {ℓ κ} :
    {E S A : Type ℓ} {P T : S → Type κ} {Q : A → S → Type κ} {R : S → Type κ} (m : Exec E S A)
    → Keeps P m
    → Triple T m Q R
    → Triple (λ s. P s × T s) m (λ a s. P s × Q a s) R
Triple-keeping {P} {Q} {R} m k t = record {
  at = λ s h. Post-with P Q R (m s) (k.at s h.0) (t.at s h.1);
}

module _ {ℓ κ} {E S A : Type ℓ} where
  Post-attempt :
      (Q : A → S → Type κ) (R T : S → Type κ) (r : Result E A × S)
      → Post Q R r
      → Post Q R (r.0, r.1)
  Post-attempt Q R T (a, s) h = h

  -- What holds after `m` holds of its answer, which the caller looks at.
  pub Triple-attempt :
      {P : S → Type κ} {Q : A → S → Type κ} {R : S → Type κ} (T : S → Type κ) (m : Exec E S A)
      → Triple P m Q R
      → Triple P (attempt m) (λ a s. Post Q R (a, s)) T
  unfolding attempt
  Triple-attempt {Q} {R} T m t = record { at = λ s h. Post-attempt Q R T (m s) (t.at s h) }
