-- ===== src/Base/Dict/Assoc.antt =====
-- Association lists whose keys are distinct, and totals over their entries.
use Prim.Native.Nat.{ℕ, ◌+◌, ◌≤◌, ◌<◌}
use mathlib.Core.Path.{◌≡◌, refl}
use mathlib.Core.Bool.{Bool, true, ◌&&◌}
use mathlib.Core.Logic.{inl, inr}
use mathlib.Core.Option.{Option, none, some}
use mathlib.Core.List.{List, [], ◌∷◌, map}
use native.Mathlib.Omega.{arith}
use cluster_api_provider_hyd.Base.Tests.{
  Eq, ◌==◌, if◌then◌else◌, Bool-cases, maybe, ==_refl, zero_or_pos,
}
use cluster_api_provider_hyd.Base.Lists.{contains}

module _ {ℓ κ} {K : Type ℓ} {V : Type κ} ⦃e : Eq K⦄ where
  unfoldable pub look : K → List (K × V) → Option V
  look k [] = none
  look k ((j, v) ∷ m) = if j == k then some v else look k m

  unfoldable pub insert : K → V → List (K × V) → List (K × V)
  insert k v [] = (k, v) ∷ []
  insert k v ((j, w) ∷ m) = if j == k then (k, v) ∷ m else (j, w) ∷ insert k v m

  unfoldable pub remove : K → List (K × V) → List (K × V)
  remove k [] = []
  remove k ((j, w) ∷ m) = if j == k then m else (j, w) ∷ remove k m

  abbrev pub Unique : List (K × V) → Type κ
  Unique [] = Unit
  Unique ((k, v) ∷ m) = (look k m ≡ none) × Unique m

  pub look-insert :
      (k j : K) (v : V) (m : List (K × V))
      → look j (insert k v m) ≡ (if k == j then some v else look j m)
  unfolding look insert
  look-insert k j v [] = refl
  look-insert k j v ((i, w) ∷ m) =
      ground (arith, e.beq_iff k j, e.beq_iff i k, e.beq_iff i j, look-insert k j v m)

  pub look-remove :
      (k j : K) (m : List (K × V))
      → Unique m
      → look j (remove k m) ≡ (if k == j then none else look j m)
  unfolding look remove
  look-remove k j [] u = ground arith
  look-remove k j ((i, w) ∷ m) (new, u) =
      ground (arith, e.beq_iff k j, e.beq_iff i k, e.beq_iff i j, look-remove k j m u, new)

  pub insert-Unique : (k : K) (v : V) (m : List (K × V)) → Unique m → Unique (insert k v m)
  unfolding look insert
  insert-Unique k v [] u = (refl, tt)
  insert-Unique k v ((i, w) ∷ m) (new, u) =
      ground (arith, e.beq_iff i k, e.beq_iff k i, look-insert k i v m, insert-Unique k v m u)

  pub remove-Unique : (k : K) (m : List (K × V)) → Unique m → Unique (remove k m)
  unfolding look remove
  remove-Unique k [] u = tt
  remove-Unique k ((i, w) ∷ m) (new, u) = ground (arith, look-remove k i m u, remove-Unique k m u)

  -- The sum of `f` over the entries.
  unfoldable pub total : (K → V → ℕ) → List (K × V) → ℕ
  total f [] = 0
  total f ((k, v) ∷ m) = f k v + total f m

  pub total-insert :
      (f : K → V → ℕ) (k : K) (v : V) (m : List (K × V))
      → total f (insert k v m) + maybe 0 (f k) (look k m) ≡ total f m + f k v
  unfolding look insert total
  total-insert f k v [] = omega arith
  total-insert f k v ((i, w) ∷ m) = elim (Bool-cases (i == k)) [
    | inl hit ↦ rw (hit, look, insert) (ground (arith, (e.beq_iff i k).0 hit))
    | inr miss ↦ rw (miss, look, insert) (omega (arith, total-insert f k v m))
  ]

  pub total-remove :
      (f : K → V → ℕ) (k : K) (m : List (K × V))
      → total f (remove k m) + maybe 0 (f k) (look k m) ≡ total f m
  unfolding look remove total
  total-remove f k [] = omega arith
  total-remove f k ((i, w) ∷ m) = elim (Bool-cases (i == k)) [
    | inl hit ↦ rw (hit, look, remove) (ground (arith, (e.beq_iff i k).0 hit))
    | inr miss ↦ rw (miss, look, remove) (omega (arith, total-remove f k m))
  ]

  pub at-le-total :
      (f : K → V → ℕ) (k : K) (m : List (K × V)) → maybe 0 (f k) (look k m) ≤ total f m
  at-le-total f k m = omega (arith, total-remove f k m)

  -- A total that is not zero has an entry that is not.
  pub total_pos :
      (f : K → V → ℕ) (m : List (K × V))
      → Unique m
      → 0 < total f m
      → (k : K) × (v : V) × (look k m ≡ some v) × (0 < f k v)
  unfolding look total
  total_pos f [] u h = elim h [ ]
  total_pos f ((i, w) ∷ m) (new, u) h = elim (zero_or_pos (f i w)) [
    | inl z ↦
        let (k, v, found, p) = total_pos f m u (omega arith) in
        (k, v, ground (arith, e.beq_iff i k, new, found), p)
    | inr p ↦ (i, w, rw (==_refl i), p)
  ]

  pub total_ext :
      (f g : K → V → ℕ) (m : List (K × V))
      → Unique m
      → ((k : K) (v : V) → look k m ≡ some v → f k v ≡ g k v)
      → total f m ≡ total g m
  unfolding look total
  total_ext f g [] u h = refl
  total_ext f g ((i, w) ∷ m) (new, u) h = omega (
    arith,
    h i w (rw (==_refl i)),
    total_ext f g m u (λ k v found. h k v (ground (arith, e.beq_iff i k, new, found))),
  )

  pub contains-keys :
      (k : K) (v : V) (m : List (K × V))
      → look k m ≡ some v
      → contains k (map (λ (kv : K × V). kv.0) m) ≡ true
  unfolding look
  contains-keys k v [] h = cc
  contains-keys k v ((i, w) ∷ m) h = ground (arith, contains-keys k v m)

  -- Whether all entries pass a test.
  unfoldable pub every : (K → V → Bool) → List (K × V) → Bool
  every p [] = true
  every p ((k, v) ∷ m) = let later = every p m in p k v && later

  pub every_each :
      (p : K → V → Bool) (m : List (K × V)) (k : K) (v : V)
      → every p m ≡ true
      → look k m ≡ some v
      → p k v ≡ true
  unfolding every look
  every_each p [] k v all found = ground arith
  every_each p ((i, w) ∷ m) k v all found = ground (arith, e.beq_iff i k, every_each p m k v)

  pub every_of :
      (p : K → V → Bool) (m : List (K × V))
      → Unique m
      → ((k : K) (v : V) → look k m ≡ some v → p k v ≡ true)
      → every p m ≡ true
  unfolding every look
  every_of p [] u each = refl
  every_of p ((i, w) ∷ m) (new, u) each = ground (
    arith,
    each i w (rw (==_refl i)),
    every_of p m u (λ k v found. each k v (ground (arith, e.beq_iff i k, new, found))),
  )
