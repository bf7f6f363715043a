-- ===== src/Controller/Templates/Sizes.antt =====
-- internal/controller/hydramachinetemplate_controller.go: capacities are compared by quantity value.
use cluster_api_provider_hyd.Base.{
  ℕ, ◌≤◌, true, Option, none, some, ◌≡◌, refl, sym, ◌∙◌, ◌↔◌, inl, inr, nat_eq, list_eq, Text,
  arith, Option-cases, is_some,
}
use cluster_api_provider_hyd.Base.Dict.{get, size, every_iff, same_keys, size-le}
use cluster_api_provider_hyd.Controller.Templates.{
  Quantity, HydraNodeCapacity, matches, capacity_equal,
}

abbrev pub amount : Option Quantity → Option ℕ
amount none = none
amount (some q) = some q.value

matches_iff :
    (got : Option Quantity) (want : Quantity)
    → (matches got want ≡ true) ↔ (amount got ≡ some want.value)
matches_iff none want = ground arith
matches_iff (some got) want = ground arith

amount-is_some : (got : Option Quantity) (n : ℕ) → amount got ≡ some n → is_some got ≡ true
amount-is_some none n h = ground arith
amount-is_some (some got) n h = refl

module _ (a b : HydraNodeCapacity) where
  abbrev Covered : Type 0
  Covered =
      (name : Text) (want : Quantity) → get b name ≡ some want → matches (get a name) want ≡ true

  held :
      Covered
      → (name : Text) (want : Quantity) → get b name ≡ some want
      → is_some (get a name) ≡ true
  held covered name want found =
      amount-is_some (get a name) want.value
        ((matches_iff (get a name) want).0 (covered name want found))

  same_amounts :
      size a ≡ size b → Covered → (name : Text) → amount (get a name) ≡ amount (get b name)
  same_amounts same covered name = elim (Option-cases (get b name)) [
    | inl missing ↦ rw (missing, same_keys a b name same (held covered) missing) refl
    | inr (want, found) ↦ rw found ((matches_iff (get a name) want).0 (covered name want found))
  ]

  covers : ((name : Text) → amount (get a name) ≡ amount (get b name)) → Covered
  covers same name want found = (matches_iff (get a name) want).1 (same name ∙ (rw found refl))

is_some_of :
    (got want : Option Quantity)
    → amount got ≡ amount want
    → is_some want ≡ true
    → is_some got ≡ true
is_some_of got none same there = ground arith
is_some_of got (some want) same there = amount-is_some got want.value same

there_in {ℓ} : {A : Type ℓ} (o : Option A) (a : A) → o ≡ some a → is_some o ≡ true
there_in none a h = ground arith
there_in (some b) a h = refl

same_size :
    (a b : HydraNodeCapacity)
    → ((name : Text) → amount (get a name) ≡ amount (get b name))
    → size b ≤ size a
same_size a b same = size-le (size b) a b refl λ name want found.
    is_some_of (get a name) (get b name) (same name) (there_in (get b name) want found)

-- Two capacities are equal exactly if they name the same resources, each with the same value, in
-- whatever notation it is written.
pub capacity_equal_iff :
    (a b : HydraNodeCapacity)
    → (capacity_equal a b ≡ true) ↔ ((name : Text) → amount (get a name) ≡ amount (get b name))
unfolding capacity_equal
capacity_equal_iff a b = (
  λ equal name.
      same_amounts a b (ground (arith, equal)) ((every_iff _ b).0 (ground (arith, equal))) name,
  λ same. ground (
    arith,
    same_size a b same,
    same_size b a (λ name. sym (same name)),
    (every_iff (λ name want. matches (get a name) want) b).1 (covers a b same),
  ),
)
