-- ===== src/Providers/Libvirt/Subnets/Gateways.antt =====
-- internal/providers/libvirt/libvirt.go: what `subnetParts` makes of a subnet.
use cluster_api_provider_hyd.Base.{◌≡◌, refl, text}
use cluster_api_provider_hyd.Base.Exec.{ok, err}
use cluster_api_provider_hyd.Providers.Errors.{terminal}
use cluster_api_provider_hyd.Providers.Identity.{cut_slash}
use cluster_api_provider_hyd.Providers.Fake.{decimal}
use cluster_api_provider_hyd.Providers.Libvirt.Subnets.{
  subnet_parts, parse_cidr, parse_ipv4, fields, digits, dotted,
}

tests :
    (subnet_parts (text "10.17.3.40/24") ≡ ok (text "10.17.3.1", text "255.255.255.0"))
    × (subnet_parts (text "10.0.0.0/31") ≡ err terminal)
    × (subnet_parts (text "10.0.0.04/24") ≡ err terminal)
    × (subnet_parts (text "10.0.0/24") ≡ err terminal)
    × (subnet_parts (text "172.16.0.0/30") ≡ ok (text "172.16.0.1", text "255.255.255.252"))
unfolding subnet_parts parse_cidr parse_ipv4 fields digits dotted decimal cut_slash
tests = (refl, refl, refl, refl, refl)
