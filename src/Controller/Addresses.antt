-- ===== src/Controller/Addresses.antt =====
-- internal/controller/hydramachine_controller.go: the addresses that `toMachineAddresses` reports.
use cluster_api_provider_hyd.Base.{
  ℕ, zero, suc, ◌≤◌, ◌≡◌, ◌⊎◌, inl, inr, refl, true, false, ◌||◌, List, [], ◌∷◌, length, contains,
  if_cases, arith,
}
use cluster_api_provider_hyd.Providers.Identity.{Address, address_eq, address_beq_iff}
use cluster_api_provider_hyd.Controller.Spec.{
  fresh_addresses, to_machine_addresses, max_status_addresses,
}

-- In the order of the list, with some left out.
pub data Sublist : List Address → List Address → Type 0 where
  nothing : {ys : List Address} → Sublist [] ys
  skip : {xs ys : List Address} (y : Address) → Sublist xs ys → Sublist xs (y ∷ ys)
  take : {xs ys : List Address} (y : Address) → Sublist xs ys → Sublist (y ∷ xs) (y ∷ ys)

-- No address of the list stands twice in it, or in `seen`.
abbrev pub Fresh : List Address → List Address → Type 0
Fresh seen [] = Unit
Fresh seen (a ∷ rest) = (contains a seen ≡ false) × Fresh (a ∷ seen) rest

fresh_addresses-Fresh :
    (room : ℕ) (seen addrs : List Address) → Fresh seen (fresh_addresses room seen addrs)
unfolding fresh_addresses
fresh_addresses-Fresh room seen [] = tt
fresh_addresses-Fresh zero seen (a ∷ rest) = tt
fresh_addresses-Fresh (suc room) seen (a ∷ rest) =
    if_cases (Fresh seen) (contains a seen) (λ _. fresh_addresses-Fresh (suc room) seen rest)
      (λ new. (new, fresh_addresses-Fresh room (a ∷ seen) rest))

fresh_addresses-length :
    (room : ℕ) (seen addrs : List Address) → length (fresh_addresses room seen addrs) ≤ room
unfolding fresh_addresses
fresh_addresses-length room seen [] = omega arith
fresh_addresses-length zero seen (a ∷ rest) = omega arith
fresh_addresses-length (suc room) seen (a ∷ rest) =
    let one_more : suc (length (fresh_addresses room (a ∷ seen) rest)) ≤ suc room =
      omega (arith, fresh_addresses-length room (a ∷ seen) rest) in
    if_cases (λ (xs : List Address). length xs ≤ suc room) (contains a seen)
      (λ _. fresh_addresses-length (suc room) seen rest) λ _. one_more

fresh_addresses-Sublist :
    (room : ℕ) (seen addrs : List Address) → Sublist (fresh_addresses room seen addrs) addrs
unfolding fresh_addresses
fresh_addresses-Sublist room seen [] = nothing
fresh_addresses-Sublist zero seen (a ∷ rest) = nothing
fresh_addresses-Sublist (suc room) seen (a ∷ rest) =
    if_cases (λ xs. Sublist xs (a ∷ rest)) (contains a seen)
      (λ _. skip a (fresh_addresses-Sublist (suc room) seen rest))
      (λ _. take a (fresh_addresses-Sublist room (a ∷ seen) rest))

-- Every address is there, unless the list is full.
abbrev pub AllIn : List Address → List Address → List Address → Type 0
AllIn seen [] out = Unit
AllIn seen (a ∷ rest) out = ((contains a seen || contains a out) ≡ true) × AllIn seen rest out

AllIn-tail :
    (seen addrs out : List Address) (a : Address)
    → AllIn (a ∷ seen) addrs out
    → AllIn seen addrs (a ∷ out)
AllIn-tail seen [] out a h = tt
AllIn-tail seen (b ∷ rest) out a (h, t) = (ground arith, AllIn-tail seen rest out a t)

fresh_addresses-AllIn :
    (room : ℕ) (seen addrs : List Address)
    → (length (fresh_addresses room seen addrs) ≡ room)
      ⊎ AllIn seen addrs (fresh_addresses room seen addrs)
unfolding fresh_addresses
fresh_addresses-AllIn room seen [] = inr tt
fresh_addresses-AllIn zero seen (a ∷ rest) = inl refl
fresh_addresses-AllIn (suc room) seen (a ∷ rest) =
    if_cases (λ (xs : List Address). (length xs ≡ suc room) ⊎ AllIn seen (a ∷ rest) xs)
      (contains a seen)
      (λ known. elim (fresh_addresses-AllIn (suc room) seen rest) [
        | inl full ↦ inl full
        | inr all ↦ inr (ground arith, all)
      ])
      (λ _. elim (fresh_addresses-AllIn room (a ∷ seen) rest) [
        | inl full ↦ inl (omega arith)
        | inr all ↦ inr (
          ground (arith, address_beq_iff a a),
          AllIn-tail seen rest (fresh_addresses room (a ∷ seen) rest) a all,
        )
      ])

-- What is reported keeps the backend's order, names no address twice, is at most 32 long, and leaves
-- out an address only if it is 32 long.
pub addresses_reported :
    (addrs : List Address)
    → Sublist (to_machine_addresses addrs) addrs
      × Fresh [] (to_machine_addresses addrs)
      × (length (to_machine_addresses addrs) ≤ max_status_addresses)
      × ((length (to_machine_addresses addrs) ≡ max_status_addresses)
          ⊎ AllIn [] addrs (to_machine_addresses addrs))
unfolding to_machine_addresses
addresses_reported addrs = (
  fresh_addresses-Sublist max_status_addresses [] addrs,
  fresh_addresses-Fresh max_status_addresses [] addrs,
  fresh_addresses-length max_status_addresses [] addrs,
  fresh_addresses-AllIn max_status_addresses [] addrs,
)
