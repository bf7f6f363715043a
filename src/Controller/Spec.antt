-- ===== src/Controller/Spec.antt =====
-- internal/controller/hydramachine_controller.go: the description of a machine to create, resolved
-- from the machine, its cluster and the backend's defaults, and what is reported back.
use cluster_api_provider_hyd.Base.{
  ℕ, zero, suc, Bool, true, false, not, ◌||◌, Option, none, some, List, [], ◌∷◌, nat_eq, list_eq,
  if◌then◌else◌, contains, Text,
}
use cluster_api_provider_hyd.Base.Exec.{Result, ok, err}
use cluster_api_provider_hyd.Providers.Errors.{Error, terminal}
use cluster_api_provider_hyd.Providers.Identity.{
  is_empty, Address, address_eq, AddressType, internal_ip, external_ip, hostname_type, Image,
  ManagedNetwork, MachineSpec,
}
use cluster_api_provider_hyd.Controller.Objects.{HydraMachine, HydraCluster}
use cluster_api_provider_hyd.Controller.Linkage.{Link}
use cluster_api_provider_hyd.Controller.Naming.{backend_name, hostname_for}

abbrev pub no_image : Image
no_image = record { name = []; url = []; checksum = [] }

abbrev image_of : Option HydraCluster → Option Image
image_of none = none
image_of (some hc) = hc.base_image

unfoldable pub resolve_image : HydraMachine → Link → Image
resolve_image m link = elim m.image [
  | some img ↦ img
  | none ↦ elim (image_of link.hydra_cluster) [ some img ↦ img | none ↦ no_image ]
]

abbrev networks_of : Option HydraCluster → List Text
networks_of none = []
networks_of (some hc) = hc.networks

-- A network is its name.
unfoldable pub resolve_networks : HydraMachine → Link → List Text
resolve_networks m link = elim m.networks [ [] ↦ networks_of link.hydra_cluster | n ∷ ns ↦ n ∷ ns ]

unfoldable pub resolve_storage_pool : Link → Text
resolve_storage_pool link = elim link.hydra_cluster [ none ↦ [] | some hc ↦ hc.storage_pool ]

unfoldable pub managed_network_of : Option HydraCluster → Option ManagedNetwork
managed_network_of none = none
managed_network_of (some hc) = hc.managed_network

unfoldable pub storage_pool_of : HydraMachine → Link → Text
storage_pool_of m link =
    if not (is_empty m.storage_pool_annotation)
    then m.storage_pool_annotation
    else resolve_storage_pool link

abbrev no_networks : List Text → Bool
no_networks [] = true
no_networks (n ∷ ns) = false

unfoldable pub spec_for : (Text → Text) → HydraMachine → Link → Text → Result Error MachineSpec
spec_for sha256_hex m link bootstrap_data =
    let networks = resolve_networks m link in
    if no_networks networks
    then err terminal
    else ok (record {
      name = backend_name sha256_hex m;
      vcpus = m.vcpus;
      memory_bytes = m.memory;
      disk_bytes = m.disk_size;
      image = resolve_image m link;
      networks = networks;
      managed_network = managed_network_of link.hydra_cluster;
      storage_pool = resolve_storage_pool link;
      hostname = hostname_for sha256_hex m;
      bootstrap_data = bootstrap_data;
    })

-- The spec that only names the machine, to adopt it.
abbrev pub name_only : Text → MachineSpec
name_only name = record {
  name = name;
  vcpus = 0;
  memory_bytes = 0;
  disk_bytes = 0;
  image = no_image;
  networks = [];
  managed_network = none;
  storage_pool = [];
  hostname = [];
  bootstrap_data = [];
}

abbrev pub max_status_addresses : ℕ
max_status_addresses = 32

-- The loop: `seen` holds what was put out, and `room` is how many may still be.
unfoldable pub fresh_addresses : ℕ → List Address → List Address → List Address
fresh_addresses room seen [] = []
fresh_addresses zero seen (a ∷ rest) = []
fresh_addresses (suc room) seen (a ∷ rest) =
    let skipped = fresh_addresses (suc room) seen rest in
    let kept = fresh_addresses room (a ∷ seen) rest in if contains a seen then skipped else a ∷ kept

unfoldable pub to_machine_addresses : List Address → List Address
to_machine_addresses addrs = fresh_addresses max_status_addresses [] addrs

abbrev routable : AddressType → Bool
routable internal_ip = true
routable external_ip = true
routable hostname_type = false

unfoldable pub has_ip_address : List Address → Bool
has_ip_address [] = false
has_ip_address (a ∷ rest) = routable a.type || has_ip_address rest
