-- ===== src/Providers/Fake/Digits.antt =====
-- The digits of an id: more fuel than the number changes nothing.
use cluster_api_provider_hyd.Base.{
  ℕ, zero, suc, ◌+◌, ◌/◌, ◌%◌, ◌<◌, ◌≡◌, ltb, ◌∷◌, Bool-cases, inl, inr, Text, arith,
}
use cluster_api_provider_hyd.Providers.Fake.{decimal}

decimal_enough : (f g n : ℕ) (rest : Text) → n < f → n < g → decimal f n rest ≡ decimal g n rest
unfolding decimal
decimal_enough zero g n rest hf hg = ground arith
decimal_enough (suc f) zero n rest hf hg = ground arith
decimal_enough (suc f) (suc g) n rest hf hg = elim (Bool-cases (ltb n 10)) [
  | inl small ↦ ground arith
  | inr large ↦
      (let fewer : n / 10 < f = ground arith in
        let fewer' : n / 10 < g = ground arith in
        ground (arith, decimal_enough f g (n / 10) ((48 + n % 10) ∷ rest) fewer fewer'))
]
