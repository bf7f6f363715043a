-- ===== src/Base/Dict.antt =====
-- A Go map: at most one value for a key. The representation is private; clients have the laws,
-- which hold without side conditions because the keys' uniqueness is a field.
mod Assoc
use Prim.Native.Nat.{ℕ, zero, suc, ◌+◌, ◌-◌, ◌≤◌, ◌<◌}
use native.Mathlib.Omega.{arith}
use mathlib.Core.Path.{◌≡◌, refl}
use mathlib.Core.Logic.{◌↔◌, inl, inr}
use mathlib.Core.Bool.{Bool, true}
use mathlib.Core.Option.{Option, none, some}
use mathlib.Core.List.{List, [], ◌∷◌, map}
use cluster_api_provider_hyd.Base.Tests.{Eq, ◌==◌, if◌then◌else◌, maybe, is_some, Option-cases}
use cluster_api_provider_hyd.Base.Lists.{contains}
use Assoc.{look, insert, Unique, insert-Unique, remove-Unique, look-insert, look-remove}

pub record Dict {ℓ κ} (K : Type ℓ) (V : Type κ) ⦃e : Eq K⦄ : Type (ℓ ⊔ κ) where
  pub entries : List (K × V)
  pub unique : Unique entries

module _ {ℓ κ} {K : Type ℓ} {V : Type κ} ⦃e : Eq K⦄ where
  unfoldable pub empty : Dict K V
  empty = record { entries = []; unique = tt }

  -- m[k]
  unfoldable pub get : Dict K V → K → Option V
  unfolding look
  get d k = look k d.entries

  -- m[k] = v
  unfoldable pub put : Dict K V → K → V → Dict K V
  unfolding insert
  put d k v = record {
    entries = insert k v d.entries;
    unique = insert-Unique k v d.entries d.unique;
  }

  -- delete(m, k)
  unfoldable pub delete : Dict K V → K → Dict K V
  unfolding Assoc.remove
  delete d k = record {
    entries = Assoc.remove k d.entries;
    unique = remove-Unique k d.entries d.unique;
  }

  -- The keys, in the order that a `range` over the map takes them.
  unfoldable pub keys : Dict K V → List K
  keys d = map (λ (kv : K × V). kv.0) d.entries

  -- The sum of `f` over the entries.
  unfoldable pub total : (K → V → ℕ) → Dict K V → ℕ
  unfolding Assoc.total
  total f d = Assoc.total f d.entries

  -- len(m)
  unfoldable pub size : Dict K V → ℕ
  unfolding total
  size d = total (λ _ _. 1) d

  pub get-empty : (k : K) → get empty k ≡ none
  unfolding get empty
  get-empty k = refl

  pub get-put :
      (d : Dict K V) (k j : K) (v : V) → get (put d k v) j ≡ (if k == j then some v else get d j)
  unfolding get put
  get-put d k j v = look-insert k j v d.entries

  pub get-delete :
      (d : Dict K V) (k j : K) → get (delete d k) j ≡ (if k == j then none else get d j)
  unfolding get delete
  get-delete d k j = look-remove k j d.entries d.unique

  pub total-empty : (f : K → V → ℕ) → total f empty ≡ 0
  unfolding total empty
  total-empty f = refl

  -- A write takes the old entry's share out and puts the new one's in.
  pub total-put :
      (f : K → V → ℕ) (d : Dict K V) (k : K) (v : V)
      → total f (put d k v) + maybe 0 (f k) (get d k) ≡ total f d + f k v
  unfolding total put get
  total-put f d k v = Assoc.total-insert f k v d.entries

  total-delete :
      (f : K → V → ℕ) (d : Dict K V) (k : K)
      → total f (delete d k) + maybe 0 (f k) (get d k) ≡ total f d
  unfolding total delete get
  total-delete f d k = Assoc.total-remove f k d.entries

  -- A write that keeps the entry's share keeps the total.
  pub total-put_same :
      (f : K → V → ℕ) (d : Dict K V) (k : K) (v w : V)
      → get d k ≡ some v
      → f k w ≡ f k v
      → total f (put d k w) ≡ total f d
  total-put_same f d k v w found same = ground (arith, total-put f d k w)

  pub total-put_new :
      (f : K → V → ℕ) (d : Dict K V) (k : K) (v : V)
      → get d k ≡ none
      → total f (put d k v) ≡ total f d + f k v
  total-put_new f d k v missing = ground (arith, total-put f d k v)

  pub total-delete_of :
      (f : K → V → ℕ) (d : Dict K V) (k : K) (v : V)
      → get d k ≡ some v
      → total f (delete d k) + f k v ≡ total f d
  total-delete_of f d k v found = ground (arith, total-delete f d k)

  pub size-put :
      (d : Dict K V) (k : K) (v : V)
      → size (put d k v) ≡ (if is_some (get d k) then size d else size d + 1)
  unfolding size
  size-put d k v = ground (arith, total-put (λ _ _. 1) d k v)

  pub size-delete :
      (d : Dict K V) (k : K)
      → size (delete d k) ≡ (if is_some (get d k) then size d - 1 else size d)
  unfolding size
  size-delete d k = ground (arith, total-delete (λ _ _. 1) d k)

  size_of_get : (d : Dict K V) (k : K) (v : V) → get d k ≡ some v → 0 < size d
  unfolding size
  size_of_get d k v found = ground (arith, total-delete (λ _ _. 1) d k)

  pub at-le-total : (f : K → V → ℕ) (d : Dict K V) (k : K) → maybe 0 (f k) (get d k) ≤ total f d
  unfolding total get
  at-le-total f d k = Assoc.at-le-total f k d.entries

  pub total_pos :
      (f : K → V → ℕ) (d : Dict K V)
      → 0 < total f d
      → (k : K) × (v : V) × (get d k ≡ some v) × (0 < f k v)
  unfolding total get
  total_pos f d h = Assoc.total_pos f d.entries d.unique h

  size_pos : (d : Dict K V) → 0 < size d → (k : K) × (v : V) × (get d k ≡ some v)
  unfolding size
  size_pos d h = let (k, v, found, _) = total_pos (λ _ _. 1) d h in (k, v, found)

  pub total_ext :
      (f g : K → V → ℕ) (d : Dict K V)
      → ((k : K) (v : V) → get d k ≡ some v → f k v ≡ g k v)
      → total f d ≡ total g d
  unfolding total get
  total_ext f g d h = Assoc.total_ext f g d.entries d.unique h

  pub contains-keys : (d : Dict K V) (k : K) (v : V) → get d k ≡ some v → contains k (keys d) ≡ true
  unfolding get keys
  contains-keys d k v found = Assoc.contains-keys k v d.entries found

  pub size_zero : (d : Dict K V) (k : K) → size d ≡ 0 → get d k ≡ none
  size_zero d k h = elim (Option-cases (get d k)) [
    | inl missing ↦ missing
    | inr (v, found) ↦ absurd (omega (arith, size_of_get d k v found))
  ]

  -- Whether all entries pass a test.
  unfoldable pub every : (K → V → Bool) → Dict K V → Bool
  unfolding Assoc.every
  every p d = Assoc.every p d.entries

  pub every_iff :
      (p : K → V → Bool) (d : Dict K V)
      → (every p d ≡ true) ↔ ((k : K) (v : V) → get d k ≡ some v → p k v ≡ true)
  unfolding every get
  every_iff p d = (
    λ all k v found. Assoc.every_each p d.entries k v all found,
    λ each. Assoc.every_of p d.entries d.unique each,
  )

  size_lt :
      (a b : Dict K V) (k : K) (v : V)
      → get b k ≡ some v
      → is_some (get a k) ≡ true
      → size (delete b k) ≤ size (delete a k)
      → size b ≤ size a
  size_lt a b k v found there less = elim (Option-cases (get a k)) [
    | inl gone ↦ ground (arith, there, gone)
    | inr (w, held) ↦ ground (arith, size-delete a k, size-delete b k, size_of_get a k w held, less)
  ]

  -- A map whose keys the other has all is no larger.
  pub size-le :
      (n : ℕ) (a b : Dict K V)
      → size b ≡ n
      → ((k : K) (v : V) → get b k ≡ some v → is_some (get a k) ≡ true)
      → size b ≤ size a
  size-le zero a b h inside = omega arith
  size-le (suc n) a b h inside =
      let (k, v, found) = size_pos b (omega arith) in
      let less =
        size-le n (delete a k) (delete b k) (ground (arith, size-delete b k)) (λ j w fj.
          ground (arith, e.beq_iff k j, get-delete b k j, get-delete a k j, inside j w)) in
      size_lt a b k v found (inside k v found) less

  -- Two maps of one size, of which one has all keys of the other, have the same keys.
  pub same_keys :
      (a b : Dict K V) (k : K)
      → size a ≡ size b
      → ((j : K) (v : V) → get b j ≡ some v → is_some (get a j) ≡ true)
      → get b k ≡ none
      → get a k ≡ none
  same_keys a b k same inside missing = elim (Option-cases (get a k)) [
    | inl gone ↦ gone
    | inr (v, found) ↦
        let less =
          size-le (size (put b k v)) a (put b k v) refl
            (λ j w fj. ground (arith, e.beq_iff k j, get-put b k j v, inside j w, found)) in
        absurd (ground (arith, less, size-put b k v, missing))
  ]

pub size-empty {ℓ κ} : (K : Type ℓ) (V : Type κ) ⦃e : Eq K⦄ → size (empty {K = K} {V = V}) ≡ 0
unfolding size
size-empty K V = total-empty (λ _ _. 1)

pub ruleset dict_laws = (get-empty, get-put, get-delete)
