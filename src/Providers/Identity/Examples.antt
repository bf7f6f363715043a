-- ===== src/Providers/Identity/Examples.antt =====
-- The providerID at concrete texts.
use cluster_api_provider_hyd.Base.{◌≡◌, ◌↔◌, refl, false, nat_eq, contains, Text, text}
use cluster_api_provider_hyd.Base.Exec.{ok}
use cluster_api_provider_hyd.Providers.Identity.{
  provider_id, cut_slash, parse_provider_id, slash, is_empty,
}
use cluster_api_provider_hyd.Providers.Identity.Format.{parse_provider_id_iff}

abbrev domain : Text
domain = text "hydra://libvirt/0b7a"

parse_provider_id_iff_example : (parse_provider_id domain ≡ ok (text "libvirt", text "0b7a")) ↔ (
    (domain ≡ provider_id (text "libvirt") (text "0b7a"))
    × (is_empty (text "libvirt") ≡ false)
    × (is_empty (text "0b7a") ≡ false)
    × (contains slash (text "libvirt") ≡ false))
parse_provider_id_iff_example = parse_provider_id_iff domain (text "libvirt") (text "0b7a")

domain_read : parse_provider_id domain ≡ ok (text "libvirt", text "0b7a")
unfolding parse_provider_id cut_slash
domain_read = refl
