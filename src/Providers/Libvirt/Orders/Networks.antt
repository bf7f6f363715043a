-- ===== src/Providers/Libvirt/Orders/Networks.antt =====
-- internal/providers/libvirt/libvirt.go: what the managed network keeps.
use cluster_api_provider_hyd.Base.{
  ℕ, Bool, true, not, Option, none, some, List, refl, ◌==◌, nat_eq, Text,
}
use cluster_api_provider_hyd.Base.Exec.{
  Result, ok, err, ◌>>=◌, ◌>>◌, Keeps, Keeps-pure, Keeps-raise, Keeps-bind, Keeps-if, Keeps-result,
}
use cluster_api_provider_hyd.Providers.Errors.{terminal, other}
use cluster_api_provider_hyd.Providers.Identity.{is_empty, ManagedNetwork, InfrastructureSpec}
use cluster_api_provider_hyd.Providers.Libvirt.Documents.{NetworkDef, network_xml}
use cluster_api_provider_hyd.Providers.Libvirt.Subnets.{subnet_parts}
use cluster_api_provider_hyd.Providers.Libvirt.Volumes.{
  Config, lookup_pool_named, resolve_backing_path,
}
use cluster_api_provider_hyd.Providers.Libvirt.Client.{
  Client, Event, Network, StoragePool, RpcError, is_not_found, call, ask, begin, pool_is_active,
  network_lookup_by_name, network_define_xml, network_is_active, network_create, network_get_xml,
  network_set_autostart,
}
use cluster_api_provider_hyd.Providers.Libvirt.Client.Journal.{Logged, Keeps-begin}
use cluster_api_provider_hyd.Providers.Libvirt.Networks.{
  agrees, started, unless_started, start_network, bring_up, bridge_in, network_bridge,
  create_network, checked, verify_network, attached, attachable_network, ensure_network,
  network_ensured, ensure_in, ensure_infrastructure, no_image,
}
use cluster_api_provider_hyd.Providers.Libvirt.Orders.{Frees}
use cluster_api_provider_hyd.Providers.Libvirt.Orders.Domains.{Keeps-free, Keeps-ask_free}
use cluster_api_provider_hyd.Providers.Libvirt.Orders.Volumes.{
  lookup_pool_named-Keeps, resolve_backing_path-Keeps,
}

module _ {H : Type 0} (client : Client H) {P : List Event → Type 0} (frees : Frees P) where
  started-Keeps : (r : Result RpcError ℕ) → Keeps (Logged client P) (started client r)
  started-Keeps (ok again) = Keeps-if (again == 1) (λ _. Keeps-pure tt) λ _. Keeps-raise other
  started-Keeps (err e) = Keeps-raise other

  unless_started-Keeps :
      (net : Network) (r : Result RpcError Unit)
      → Keeps (Logged client P) (unless_started client net r)
  unless_started-Keeps net (ok done) = Keeps-pure tt
  unless_started-Keeps net (err e) =
      Keeps-bind (call client (network_is_active net)) _
        (Keeps-free client frees (network_is_active net) refl) started-Keeps

  start_network-Keeps :
      (net : Network) (active : ℕ) → Keeps (Logged client P) (start_network client net active)
  start_network-Keeps net active =
      Keeps-if (active == 0)
        (λ _.
          Keeps-bind (call client (network_create net)) _
            (Keeps-free client frees (network_create net) refl) (unless_started-Keeps net))
        λ _. Keeps-pure tt

  bring_up-Keeps : (net : Network) → Keeps (Logged client P) (bring_up client net)
  unfolding bring_up
  bring_up-Keeps net =
      Keeps-bind (ask client (network_is_active net) >>= start_network client net) _
        (Keeps-bind (ask client (network_is_active net)) _
          (Keeps-ask_free client frees (network_is_active net) refl) (start_network-Keeps net))
        λ _. Keeps-ask_free client frees (network_set_autostart net) refl

  bridge_in-Keeps : (read : Option NetworkDef) → Keeps (Logged client P) (bridge_in client read)
  bridge_in-Keeps none = Keeps-raise other
  bridge_in-Keeps (some def) =
      Keeps-if (is_empty def.bridge_name) (λ _. Keeps-raise other) λ _. Keeps-pure def.bridge_name

  -- Brings the network up and reads its bridge.
  up-Keeps :
      (net : Network) → Keeps (Logged client P) (bring_up client net >> network_bridge client net)
  unfolding network_bridge
  up-Keeps net = Keeps-bind (bring_up client net) _ (bring_up-Keeps net) λ _.
      Keeps-bind (ask client (network_get_xml net)) _
        (Keeps-ask_free client frees (network_get_xml net) refl) bridge_in-Keeps

  checked-Keeps :
      (spec : ManagedNetwork) (gateway netmask : Text) (net : Network) (read : Option NetworkDef)
      → Keeps (Logged client P) (checked client spec gateway netmask net read)
  checked-Keeps spec gateway netmask net none = Keeps-raise other
  checked-Keeps spec gateway netmask net (some def) =
      Keeps-if (agrees spec gateway netmask def) (λ _. up-Keeps net) λ _. Keeps-raise terminal

  attached-Keeps :
      (spec : ManagedNetwork) (define : Bool) (gateway netmask : Text) (r : Result RpcError Network)
      → Keeps (Logged client P) (attached client spec define gateway netmask r)
  unfolding verify_network create_network
  attached-Keeps spec define gateway netmask (ok existing) =
      Keeps-bind (ask client (network_get_xml existing)) _
        (Keeps-ask_free client frees (network_get_xml existing) refl)
        (checked-Keeps spec gateway netmask existing)
  attached-Keeps spec define gateway netmask (err e) =
      let defined = network_define_xml (network_xml spec gateway netmask) in
      Keeps-if (not (is_not_found e)) (λ _. Keeps-raise other)
        λ _.
          Keeps-if (not define) (λ _. Keeps-raise other)
            λ _.
              Keeps-bind (ask client defined) _ (Keeps-ask_free client frees defined refl) up-Keeps

  pub attachable_network-Keeps :
      (spec : ManagedNetwork) (define : Bool)
      → Keeps (Logged client P) (attachable_network client spec define)
  unfolding attachable_network
  attachable_network-Keeps spec define =
      Keeps-result (subnet_parts spec.subnet)
        (λ parts.
          Keeps-bind (call client (network_lookup_by_name spec.name)) _
            (Keeps-free client frees (network_lookup_by_name spec.name) refl)
            (attached-Keeps spec define parts.0 parts.1))
        λ e. Keeps-raise e

module _ {H : Type 0} (client : Client H) (config : Config) {P : List Event → Type 0}
    (frees : Frees P) where
  network_ensured-Keeps :
      (o : Option ManagedNetwork) → Keeps (Logged client P) (network_ensured client config o)
  network_ensured-Keeps none = Keeps-pure tt
  network_ensured-Keeps (some spec) =
      Keeps-bind (ensure_network client spec) _ (attachable_network-Keeps client frees spec true)
        λ _. Keeps-pure tt

  ensure_in-Keeps :
      (spec : InfrastructureSpec) (pool : StoragePool) (active : ℕ)
      → Keeps (Logged client P) (ensure_in client config spec pool active)
  ensure_in-Keeps spec pool active =
      Keeps-if (not (active == 1)) (λ _. Keeps-raise other)
        λ _.
          Keeps-bind (network_ensured client config spec.managed_network) _
            (network_ensured-Keeps spec.managed_network)
            λ _.
              Keeps-if (no_image spec.image) (λ _. Keeps-pure tt)
                λ _.
                  Keeps-bind (resolve_backing_path client config pool spec.image) _
                    (resolve_backing_path-Keeps client config frees pool spec.image)
                    λ _. Keeps-pure tt

  pub ensure_infrastructure-Keeps :
      (spec : InfrastructureSpec)
      → Keeps (Logged client P) (ensure_infrastructure client config spec)
  unfolding ensure_infrastructure
  ensure_infrastructure-Keeps spec = Keeps-bind (begin client) _ (Keeps-begin client P) λ _.
      Keeps-bind (lookup_pool_named client config spec.storage_pool) _
        (lookup_pool_named-Keeps client config frees spec.storage_pool)
        λ pool.
          Keeps-bind (ask client (pool_is_active pool)) _
            (Keeps-ask_free client frees (pool_is_active pool) refl) (ensure_in-Keeps spec pool)
