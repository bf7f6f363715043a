-- ===== src/Providers/Libvirt/Daemon.antt =====
-- internal/providers/libvirt: a small libvirtd, to run the backend against.
use cluster_api_provider_hyd.Base.{
  ℕ, Bool, true, false, Option, none, some, List, [], ◌∷◌, ◌++◌, Text, text, ◌==◌, list_eq, nat_eq,
  if◌then◌else◌, contains, erase,
}
use cluster_api_provider_hyd.Base.Paths.{base}
use cluster_api_provider_hyd.Base.Exec.{Result, ok, err}
use cluster_api_provider_hyd.Providers.Identity.{ManagedNetwork, MachineSpec}
use cluster_api_provider_hyd.Providers.Libvirt.Documents.{DomainDef, NetworkDef, network_xml}
use cluster_api_provider_hyd.Providers.Libvirt.Volumes.{Config}
use cluster_api_provider_hyd.Providers.Libvirt.Client.{
  Client, Run, Call, Answer, Domain, StoragePool, StorageVol, Network, RpcError, no_domain,
  no_storage_vol, no_storage_pool, no_network, storage_vol_exist, operation_invalid, another, agent,
  lease, domain_lookup_by_name, domain_lookup_by_uuid, domain_define_xml, domain_is_active,
  domain_create, domain_destroy, domain_undefine, domain_get_state, domain_get_xml,
  domain_get_inactive_xml, domain_set_autostart, domain_interface_addresses, list_active_pools,
  list_inactive_pools, pool_lookup_by_name, pool_is_active, pool_get_xml, vol_create_xml,
  vol_lookup_by_name, vol_lookup_by_path, vol_get_path, vol_delete, vol_upload,
  network_lookup_by_name, network_define_xml, network_is_active, network_create, network_get_xml,
  network_set_autostart,
}

-- Volumes of the one pool, by their names, at most one domain, whether it runs, and at most one network,
-- which runs. A UUID is that of the domain `m`.
pub record Host : Type 0 where
  pub volumes : List Text
  pub domain : Option DomainDef
  pub active : Bool
  pub network : Option NetworkDef

abbrev pub Reply : Call → Type 0
Reply c = Option (Result RpcError (Answer c)) × Host

abbrev pub zeros : List ℕ
zeros = 0 ∷ 0 ∷ 0 ∷ 0 ∷ 0 ∷ 0 ∷ 0 ∷ 0 ∷ 0 ∷ 0 ∷ 0 ∷ 0 ∷ 0 ∷ 0 ∷ 0 ∷ 0 ∷ []

abbrev pub pool : StoragePool
pool = record { name = text "p" }

abbrev pub volume : Text → StorageVol
volume name = record { pool = text "p"; name = name; key = name }

abbrev pub found : Option DomainDef → Text → Result RpcError Domain
found none name = err no_domain
found (some d) name =
    if d.name == name then ok (record { name = name; uuid = zeros }) else err no_domain

abbrev pub the_xml : Option DomainDef → Result RpcError (Option DomainDef)
the_xml none = err no_domain
the_xml (some d) = ok (some d)

abbrev pub the_network : Option NetworkDef → Result RpcError Network
the_network none = err no_network
the_network (some n) = ok (record { name = n.name })

abbrev pub the_network_xml : Option NetworkDef → Result RpcError (Option NetworkDef)
the_network_xml none = err no_network
the_network_xml (some n) = ok (some (record n { bridge_name = text "br0" }))

abbrev pub look_up : Host → Text → Result RpcError StorageVol
look_up h name = if contains name h.volumes then ok (volume name) else err no_storage_vol

abbrev pub rpc : (c : Call) → Host → Reply c
rpc (domain_lookup_by_name name) h = (some (found h.domain name), h)
rpc (domain_lookup_by_uuid uuid) h = (some (found h.domain (text "m")), h)
rpc (domain_define_xml def) h =
    (some (ok (record { name = def.name; uuid = zeros })), record h { domain = some def })
rpc (domain_is_active dom) h = (some (ok (if h.active then 1 else 0)), h)
rpc (domain_create dom) h = (some (ok tt), record h { active = true })
rpc (domain_destroy dom) h =
    (some (if h.active then ok tt else err operation_invalid), record h { active = false })
rpc (domain_undefine dom) h = (some (ok tt), record h { domain = none })
rpc (domain_get_state dom) h = (some (ok (if h.active then 1 else 5)), h)
rpc (domain_get_xml dom) h = (some (the_xml h.domain), h)
rpc (domain_get_inactive_xml dom) h = (some (the_xml h.domain), h)
rpc (domain_set_autostart dom on) h = (some (ok tt), h)
rpc (domain_interface_addresses dom agent) h = (some (err another), h)
rpc (domain_interface_addresses dom lease) h = (some (ok ((text "10.0.0.9", true) ∷ [])), h)
rpc list_active_pools h = (some (ok (pool ∷ [])), h)
rpc list_inactive_pools h = (some (ok []), h)
rpc (pool_lookup_by_name name) h =
    (some (if name == text "p" then ok pool else err no_storage_pool), h)
rpc (pool_is_active pl) h = (some (ok 1), h)
rpc (pool_get_xml pl) h =
    (some (ok (some (record { type = text "dir"; target_path = text "/p" }))), h)
rpc (vol_create_xml pl def) h =
    if contains def.name h.volumes
    then (some (err storage_vol_exist), h)
    else (some (ok (volume def.name)), record h { volumes = def.name ∷ h.volumes })
rpc (vol_lookup_by_name pl name) h = (some (look_up h name), h)
rpc (vol_lookup_by_path path) h = (some (look_up h (base path)), h)
rpc (vol_get_path vol) h = (some (ok (text "/p/" ++ vol.name)), h)
rpc (vol_delete vol) h = (some (ok tt), record h { volumes = erase vol.name h.volumes })
rpc (vol_upload vol image) h = (some (ok tt), h)
rpc (network_lookup_by_name name) h = (some (the_network h.network), h)
rpc (network_define_xml def) h =
    (some (ok (record { name = def.name })), record h { network = some def })
rpc (network_is_active net) h = (some (ok 1), h)
rpc (network_create net) h = (some (ok tt), h)
rpc (network_get_xml net) h = (some (the_network_xml h.network), h)
rpc (network_set_autostart net) h = (some (ok tt), h)

unfoldable pub libvirtd : Client Host
libvirtd = record {
  begin = λ h. (none, h);
  rpc = rpc;
  recycle = λ h. h;
  context_ended = λ h. false;
}

unfoldable pub config : Config
config = record { storage_pool = text "p"; base_image = text "base"; iso = λ spec. ok (text "iso") }

abbrev pub managed : ManagedNetwork
managed = record {
  name = text "n";
  subnet = text "10.0.0.0/24";
  dhcp_start = text "10.0.0.9";
  dhcp_end = text "10.0.0.99";
}

abbrev pub spec : MachineSpec
spec = record {
  name = text "m";
  vcpus = 2;
  memory_bytes = 1024;
  disk_bytes = 4096;
  image = record { name = []; url = []; checksum = [] };
  networks = [];
  managed_network = some managed;
  storage_pool = [];
  hostname = text "m";
  bootstrap_data = text "run";
}

abbrev pub network : NetworkDef
network = network_xml managed (text "10.0.0.1") (text "255.255.255.0")

unfoldable pub empty : Run Host
unfolding network_xml
empty = record {
  host = record {
    volumes = text "base" ∷ [];
    domain = none;
    active = false;
    network = some network;
  };
  journal = [];
}
