-- ===== src/Controller/Endpoint/Examples.antt =====
-- The block 10.0.0.0/24 with a DHCP range that starts at its first usable address, and one that
-- leaves nothing.
use cluster_api_provider_hyd.Base.{ℕ, ◌≤◌, ◌≡◌, ◌≢◌, refl, some, arith}
use cluster_api_provider_hyd.Base.Exec.{ok, err}
use cluster_api_provider_hyd.Providers.Errors.{terminal}
use cluster_api_provider_hyd.Controller.Endpoint.{
  Subnet, HydraManagedNetwork, contains_ip, gateway_of, broadcast_of, next_ipv4, usable,
  candidate_of, validate_endpoint_against_managed_network, derive_endpoint_host,
}
use cluster_api_provider_hyd.Controller.Endpoint.Derived.{
  BlockAt, derived_endpoint_first, derivation_complete,
}

abbrev block : Subnet
block = record { base = 167772160; size = 256 }

abbrev network : HydraManagedNetwork
network = record { subnet = some block; dhcp_start = some 167772162; dhcp_end = some 167772200 }

abbrev crowded : HydraManagedNetwork
crowded = record network { dhcp_end = some 167772414 }

block_at : BlockAt (some block)
block_at = (omega arith, omega arith, λ h. omega arith)

derives_next : derive_endpoint_host network ≡ ok 167772201
unfolding derive_endpoint_host usable candidate_of next_ipv4 contains_ip gateway_of broadcast_of
derives_next = refl

derives_none : derive_endpoint_host crowded ≡ err terminal
unfolding derive_endpoint_host usable candidate_of next_ipv4 contains_ip gateway_of broadcast_of
derives_none = refl

derived_endpoint_first_example :
    (validate_endpoint_against_managed_network (some network) (some 167772201) ≡ ok tt)
    × ((other : ℕ)
        → validate_endpoint_against_managed_network (some network) (some other) ≡ ok tt
        → 167772201 ≤ other)
derived_endpoint_first_example = derived_endpoint_first network 167772201 block_at derives_next

derivation_complete_example :
    validate_endpoint_against_managed_network (some crowded) (some 167772300) ≢ ok tt
derivation_complete_example = derivation_complete crowded terminal 167772300 block_at derives_none
