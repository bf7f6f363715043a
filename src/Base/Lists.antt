-- ===== src/Base/Lists.antt =====
-- Lists measured by native numbers.
use Prim.Native.Nat.{ℕ, zero, suc, ◌+◌, ◌≤◌}
use mathlib.Core.Path.{◌≡◌, refl, sym, ap, ◌∙◌}
use mathlib.Core.Bool.{Bool, false, ◌||◌}
use mathlib.Core.List.{List, [], ◌∷◌, ◌++◌}
use native.Mathlib.Omega.{arith}
use cluster_api_provider_hyd.Base.Tests.{Eq, ◌==◌, tally, if◌then◌else◌}

module _ {ℓ} {A : Type ℓ} where
  abbrev pub length : List A → ℕ
  length [] = 0
  length (x ∷ xs) = suc (length xs)

  pub length-append : (xs ys : List A) → length (xs ++ ys) ≡ length xs + length ys
  length-append [] ys = omega arith
  length-append (x ∷ xs) ys = omega (arith, length-append xs ys)

  abbrev pub take : ℕ → List A → List A
  take zero xs = []
  take (suc n) [] = []
  take (suc n) (x ∷ xs) = x ∷ take n xs

  abbrev pub drop : ℕ → List A → List A
  drop zero xs = xs
  drop (suc n) [] = []
  drop (suc n) (x ∷ xs) = drop n xs

  drop-append : (xs ys : List A) → drop (length xs) (xs ++ ys) ≡ ys
  drop-append [] ys = refl
  drop-append (x ∷ xs) ys = drop-append xs ys

  pub length-take : (n : ℕ) (xs : List A) → length (take n xs) ≤ n
  length-take zero xs = omega arith
  length-take (suc n) [] = omega arith
  length-take (suc n) (x ∷ xs) = omega (arith, length-take n xs)

  pub length-take_of : (n : ℕ) (xs : List A) → n ≤ length xs → length (take n xs) ≡ n
  length-take_of zero xs h = refl
  length-take_of (suc n) [] h = omega arith
  length-take_of (suc n) (x ∷ xs) h = omega (arith, length-take_of n xs (omega arith))

  -- Lists that agree, and whose second parts are as long as each other, agree there.
  pub append_same_tail :
      (xs ys us vs : List A) → xs ++ us ≡ ys ++ vs → length us ≡ length vs → us ≡ vs
  append_same_tail xs ys us vs same long =
      let total : length xs + length us ≡ length ys + length vs =
        sym (length-append xs us) ∙ ap length same ∙ length-append ys vs in
      let front : length xs ≡ length ys = omega arith in
      sym (drop-append xs us)
      ∙ ap (λ zs. drop (length xs) zs) same
      ∙ ap (λ n. drop n (ys ++ vs)) front
      ∙ drop-append ys vs

module _ {ℓ} {A : Type ℓ} ⦃e : Eq A⦄ where
  abbrev pub contains : A → List A → Bool
  contains a [] = false
  contains a (x ∷ xs) = x == a || contains a xs

  -- How often `a` is there.
  abbrev pub count : A → List A → ℕ
  count a [] = 0
  count a (x ∷ xs) = tally (x == a) + count a xs

  -- Takes the first `a` out.
  abbrev pub erase : A → List A → List A
  erase a [] = []
  erase a (x ∷ xs) = if x == a then xs else x ∷ erase a xs
