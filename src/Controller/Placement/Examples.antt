-- ===== src/Controller/Placement/Examples.antt =====
-- A machine that lives on a hypervisor, and the cluster that names it without its port.
use cluster_api_provider_hyd.Base.{◌≡◌, refl, true, false, none, some, [], text, list_eq, nat_eq}
use cluster_api_provider_hyd.Base.Exec.{ok, err}
use cluster_api_provider_hyd.Providers.Errors.{not_found}
use cluster_api_provider_hyd.Controller.Objects.{HydraCluster, Secret}
use cluster_api_provider_hyd.Controller.World.{Env, Hypervisor}
use cluster_api_provider_hyd.Controller.Linkage.{Link, no_link}
use cluster_api_provider_hyd.Controller.Hypervisors.{
  canonical_hypervisor, hypervisor_of, check_credentials, split_host_port, join_host_port, cut_last,
  cut_first, trim_prefix, trim_suffix, valid_port, digits,
}
use cluster_api_provider_hyd.Controller.Placement.{hypervisor_for}
use cluster_api_provider_hyd.Controller.Placement.Connection.{hypervisor_for-address}

abbrev identity : Secret
identity = record {
  uid = text "7";
  resource_version = text "42";
  value = none;
  ca_cert = text "ca";
  client_cert = text "cert";
  client_key = text "key";
}

abbrev env : Env (Unit {0})
env = record {
  reader = record {
    get_machine = λ name. err not_found;
    get_cluster = λ name. err not_found;
    get_hydra_cluster = λ name. err not_found;
    get_secret = λ name. ok identity;
  };
  write_fails = λ log. none;
  provider = none;
  provider_for = none;
  releases = false;
  sha256_hex = λ s. s;
  key_pair_matches = λ cert key. true;
  holds_certificate = λ cert. true;
}

abbrev lab : HydraCluster
lab = record {
  namespace = text "default";
  name = text "lab";
  generation = 1;
  deleting = false;
  owner_references = [];
  paused_annotation = false;
  endpoint = record { host = []; port = 0 };
  hypervisor = some (record { address = text "h1"; credentials_secret = text "tls" });
  confirmed = some (text "h1");
  base_image = none;
  networks = [];
  storage_pool = [];
  managed_network = none;
  provisioned = none;
  ready = none;
  infrastructure_failed = none;
  paused = none;
}

abbrev in_lab : Link
in_lab = record no_link { hydra_cluster = some lab }

abbrev asked : Hypervisor
asked = record {
  address = text "h1:16514";
  credentials = record { ca_cert = text "ca"; client_cert = text "cert"; client_key = text "key" };
  credentials_version = text "7/42";
}

-- What an address computes with.
run_addresses : Unit {0}
unfolding hypervisor_for hypervisor_of canonical_hypervisor check_credentials split_host_port
    join_host_port cut_last cut_first trim_prefix trim_suffix valid_port digits
run_addresses = tt

asks_lab : hypervisor_for env in_lab (text "h1:16514") ≡ ok (some asked)
unfolding run_addresses
asks_lab = refl

hypervisor_for-address_example : asked.address ≡ text "h1:16514"
hypervisor_for-address_example = hypervisor_for-address env in_lab (text "h1:16514") asked asks_lab

six : canonical_hypervisor (text "[fe80::1]") ≡ ok (text "[fe80::1]:16514")
unfolding run_addresses
six = refl

port_kept : canonical_hypervisor (text "h1:22") ≡ ok (text "h1:22")
unfolding run_addresses
port_kept = refl
