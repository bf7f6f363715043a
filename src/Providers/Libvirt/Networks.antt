-- ===== src/Providers/Libvirt/Networks.antt =====
-- internal/providers/libvirt/libvirt.go: the managed network of a cluster.
use cluster_api_provider_hyd.Base.{
  ℕ, Bool, true, false, not, ◌&&◌, Option, none, some, ◌==◌, list_eq, nat_eq, if◌then◌else◌, Text,
}
use cluster_api_provider_hyd.Base.Exec.{Result, ok, err, Exec, pure, raise, ◌>>=◌, ◌>>◌}
use cluster_api_provider_hyd.Providers.Errors.{Error, terminal, other}
use cluster_api_provider_hyd.Providers.Identity.{
  is_empty, Image, ManagedNetwork, InfrastructureSpec,
}
use cluster_api_provider_hyd.Providers.Libvirt.Documents.{NetworkDef, net_forward_open, network_xml}
use cluster_api_provider_hyd.Providers.Libvirt.Subnets.{subnet_parts}
use cluster_api_provider_hyd.Providers.Libvirt.Volumes.{
  Config, lookup_pool_named, resolve_backing_path,
}
use cluster_api_provider_hyd.Providers.Libvirt.Client.{
  Client, Run, Network, StoragePool, RpcError, is_not_found, call, ask, begin, pool_is_active,
  network_lookup_by_name, network_define_xml, network_is_active, network_create, network_get_xml,
  network_set_autostart,
}

abbrev pub no_image : Image → Bool
no_image img = is_empty img.name && (is_empty img.url && is_empty img.checksum)

-- What libvirt has of a network is what the cluster declares.
unfoldable pub agrees : ManagedNetwork → Text → Text → NetworkDef → Bool
agrees spec gateway netmask def =
    def.forward_mode == net_forward_open
    && ((def.ip_address == gateway && def.ip_netmask == netmask) && elim def.dhcp [
      | none ↦ false
      | some range ↦ range.0 == spec.dhcp_start && range.1 == spec.dhcp_end
    ])

module _ {H : Type 0} (client : Client H) where
  -- A start that failed is one that another caller made, if the network runs now.
  abbrev pub started : Result RpcError ℕ → Exec Error (Run H) (Unit {0})
  started (ok again) = if again == 1 then pure tt else raise other
  started (err e) = raise other

  abbrev pub unless_started : Network → Result RpcError Unit → Exec Error (Run H) (Unit {0})
  unless_started net (ok done) = pure tt
  unless_started net (err e) = call client (network_is_active net) >>= started

  abbrev pub start_network : Network → ℕ → Exec Error (Run H) (Unit {0})
  start_network net active =
      if active == 0 then call client (network_create net) >>= unless_started net else pure tt

  unfoldable pub bring_up : Network → Exec Error (Run H) (Unit {0})
  bring_up net =
      (ask client (network_is_active net) >>= start_network net)
      >> ask client (network_set_autostart net)

  abbrev pub bridge_in : Option NetworkDef → Exec Error (Run H) Text
  bridge_in none = raise other
  bridge_in (some def) = if is_empty def.bridge_name then raise other else pure def.bridge_name

  unfoldable pub network_bridge : Network → Exec Error (Run H) Text
  network_bridge net = ask client (network_get_xml net) >>= bridge_in

  unfoldable pub create_network : ManagedNetwork → Text → Text → Exec Error (Run H) Text
  create_network spec gateway netmask =
      ask client (network_define_xml (network_xml spec gateway netmask)) >>= λ created.
      bring_up created >> network_bridge created

  abbrev pub checked :
      ManagedNetwork → Text → Text → Network → Option NetworkDef → Exec Error (Run H) Text
  checked spec gateway netmask net none = raise other
  checked spec gateway netmask net (some def) =
      if agrees spec gateway netmask def then bring_up net >> network_bridge net else raise terminal

  unfoldable pub verify_network : Network → ManagedNetwork → Text → Text → Exec Error (Run H) Text
  verify_network net spec gateway netmask =
      ask client (network_get_xml net) >>= checked spec gateway netmask net

  abbrev pub attached :
      ManagedNetwork → Bool → Text → Text → Result RpcError Network → Exec Error (Run H) Text
  attached spec define gateway netmask (ok existing) = verify_network existing spec gateway netmask
  attached spec define gateway netmask (err e) =
      if not (is_not_found e)
      then raise other
      else if not define
      then raise other
      else create_network spec gateway netmask

  -- The bridge of the network, which is made if `define` says so.
  unfoldable pub attachable_network : ManagedNetwork → Bool → Exec Error (Run H) Text
  attachable_network spec define = elim (subnet_parts spec.subnet) [
    | err e ↦ raise e
    | ok parts ↦
        call client (network_lookup_by_name spec.name) >>= attached spec define parts.0 parts.1
  ]

  abbrev pub ensure_network : ManagedNetwork → Exec Error (Run H) Text
  ensure_network spec = attachable_network spec true

  abbrev pub resolve_network : ManagedNetwork → Exec Error (Run H) Text
  resolve_network spec = attachable_network spec false

module _ {H : Type 0} (client : Client H) (config : Config) where
  abbrev pub network_ensured : Option ManagedNetwork → Exec Error (Run H) (Unit {0})
  network_ensured none = pure tt
  network_ensured (some spec) = ensure_network client spec >> pure tt

  abbrev pub ensure_in : InfrastructureSpec → StoragePool → ℕ → Exec Error (Run H) (Unit {0})
  ensure_in spec pool active =
      if not (active == 1)
      then raise other
      else network_ensured spec.managed_network
        >> (if no_image spec.image
            then pure tt
            else resolve_backing_path client config pool spec.image >> pure tt)

  unfoldable pub ensure_infrastructure : InfrastructureSpec → Exec Error (Run H) (Unit {0})
  ensure_infrastructure spec =
      begin client
      >> (lookup_pool_named client config spec.storage_pool >>= λ pool.
          ask client (pool_is_active pool) >>= ensure_in spec pool)
