-- ===== src/Controller/Endpoint/Derived.antt =====
-- The derived endpoint is the first one that the validation accepts.
use cluster_api_provider_hyd.Base.{
  ℕ, suc, ◌+◌, ◌-◌, ◌%◌, ◌≤◌, ◌<◌, ◌≡◌, ◌≢◌, ◌⊎◌, refl, true, not, Option, none, some, nat_eq,
  arith,
}
use cluster_api_provider_hyd.Base.Exec.{ok, err, passes}
use cluster_api_provider_hyd.Providers.Errors.{Error, terminal}
use cluster_api_provider_hyd.Controller.Endpoint.{
  Subnet, HydraManagedNetwork, max_uint32, contains_ip, gateway_of, broadcast_of, next_ipv4,
  check_endpoint, check_subnet, validate_endpoint_against_managed_network, usable, candidate_of,
  derive_in, derive_endpoint_host,
}

-- What the number of addresses and the alignment of a CIDR block give.
abbrev pub IsBlock : Subnet → Type 0
IsBlock s =
    (0 < s.size) × (s.base + s.size ≤ suc max_uint32) × ((s.base % 256 ≡ 255) → (s.size ≡ 1))

-- An endpoint that can be used: in the subnet, not its network, gateway or broadcast address, and not
-- in the DHCP range.
abbrev Usable : Subnet → ℕ → ℕ → ℕ → Type 0
Usable s start end ip =
    (s.base < ip) × (ip < s.base + s.size - 1) × (s.base + 1 < ip) × ((ip < start) ⊎ (end < ip))

checked-Usable :
    (s : Subnet) (start end ip : ℕ)
    → IsBlock s
    → contains_ip s ip ≡ true
    → check_endpoint s start end ip ≡ ok tt
    → Usable s start end ip
unfolding contains_ip check_endpoint gateway_of broadcast_of
checked-Usable s start end ip block inside h = ground arith

Usable-checked :
    (s : Subnet) (start end ip : ℕ)
    → IsBlock s
    → Usable s start end ip
    → (contains_ip s ip ≡ true) × (check_endpoint s start end ip ≡ ok tt)
unfolding contains_ip check_endpoint gateway_of broadcast_of
Usable-checked s start end ip block h = ground arith

derived_usable :
    (s : Subnet) (start end ip : ℕ)
    → IsBlock s
    → usable s (candidate_of s start end) ≡ ok ip
    → Usable s start end ip
unfolding usable candidate_of next_ipv4 contains_ip gateway_of broadcast_of
derived_usable s start end ip block h = ground arith

derived_first :
    (s : Subnet) (start end ip other : ℕ)
    → IsBlock s
    → usable s (candidate_of s start end) ≡ ok ip
    → Usable s start end other
    → ip ≤ other
unfolding usable candidate_of next_ipv4 contains_ip gateway_of broadcast_of
derived_first s start end ip other block h u = ground arith

derived_none :
    (s : Subnet) (start end other : ℕ) (e : Error)
    → IsBlock s
    → usable s (candidate_of s start end) ≡ err e
    → Usable s start end other
    → ⊥
unfolding usable candidate_of next_ipv4 contains_ip gateway_of broadcast_of
derived_none s start end other e block h u = ground arith

-- The subnet, where it can be read, is a block.
abbrev pub BlockAt : Option Subnet → Type 0
BlockAt none = Unit
BlockAt (some s) = IsBlock s

accepted_in :
    (o : Option Subnet) (a b : Option ℕ) (other : ℕ)
    → BlockAt o
    → check_subnet o a b other ≡ ok tt
    → (s : Subnet) × (start : ℕ) × (end : ℕ) × (o ≡ some s)
      × (a ≡ some start)
      × (b ≡ some end)
      × Usable s start end other
accepted_in none a b other block h = ground arith
accepted_in (some s) none b other block h =
    let (inside, rest) = passes terminal (not (contains_ip s other)) h in ground arith
accepted_in (some s) (some start) none other block h =
    let (inside, rest) = passes terminal (not (contains_ip s other)) h in ground arith
accepted_in (some s) (some start) (some end) other block h =
    let (inside, rest) = passes terminal (not (contains_ip s other)) h in
    (s, start, end, refl, refl, refl, checked-Usable s start end other block (ground arith) rest)

abbrev Least : Option Subnet → Option ℕ → Option ℕ → ℕ → Type 0
Least o a b ip =
    (check_subnet o a b ip ≡ ok tt) × ((other : ℕ) → check_subnet o a b other ≡ ok tt → ip ≤ other)

derived_in-Least :
    (o : Option Subnet) (a b : Option ℕ) (ip : ℕ)
    → BlockAt o
    → derive_in o a b ≡ ok ip
    → Least o a b ip
derived_in-Least none a b ip block h = ground arith
derived_in-Least (some s) none b ip block h = ground arith
derived_in-Least (some s) (some start) none ip block h = ground arith
derived_in-Least (some s) (some start) (some end) ip block h =
    let (inside, checked) =
      Usable-checked s start end ip block (derived_usable s start end ip block h) in
    (
      ground arith,
      λ other accepted.
          let (contained, rest) = passes terminal (not (contains_ip s other)) accepted in
          derived_first s start end ip other block h
            (checked-Usable s start end other block (ground arith) rest),
    )

refused_in :
    (o : Option Subnet) (a b : Option ℕ) (e : Error) (other : ℕ)
    → BlockAt o
    → derive_in o a b ≡ err e
    → check_subnet o a b other ≡ ok tt
    → ⊥
refused_in none a b e other block h accepted = ground arith
refused_in (some s) none b e other block h accepted =
    let (inside, rest) = passes terminal (not (contains_ip s other)) accepted in ground arith
refused_in (some s) (some start) none e other block h accepted =
    let (inside, rest) = passes terminal (not (contains_ip s other)) accepted in ground arith
refused_in (some s) (some start) (some end) e other block h accepted =
    let (inside, rest) = passes terminal (not (contains_ip s other)) accepted in
    derived_none s start end other e block h
      (checked-Usable s start end other block (ground arith) rest)

-- An endpoint that is derived passes the validation, and no smaller address does. The subnet is the
-- block of a CIDR.
pub derived_endpoint_first :
    (n : HydraManagedNetwork) (ip : ℕ)
    → BlockAt n.subnet
    → derive_endpoint_host n ≡ ok ip
    → (validate_endpoint_against_managed_network (some n) (some ip) ≡ ok tt)
      × ((other : ℕ)
          → validate_endpoint_against_managed_network (some n) (some other) ≡ ok tt
          → ip ≤ other)
unfolding derive_endpoint_host validate_endpoint_against_managed_network
derived_endpoint_first n ip block h = derived_in-Least n.subnet n.dhcp_start n.dhcp_end ip block h

-- Where no endpoint can be derived, the validation accepts no address at all. The subnet is the block
-- of a CIDR.
pub derivation_complete :
    (n : HydraManagedNetwork) (e : Error) (other : ℕ)
    → BlockAt n.subnet
    → derive_endpoint_host n ≡ err e
    → validate_endpoint_against_managed_network (some n) (some other) ≢ ok tt
unfolding derive_endpoint_host validate_endpoint_against_managed_network
derivation_complete n e other block h =
    λ accepted. refused_in n.subnet n.dhcp_start n.dhcp_end e other block h accepted
