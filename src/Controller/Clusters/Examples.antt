-- ===== src/Controller/Clusters/Examples.antt =====
-- internal/controller/hydracluster_controller.go: a cluster with a managed network is verified.
use cluster_api_provider_hyd.Base.{
  true, false, none, some, [], ◌∷◌, ◌≡◌, refl, nat_eq, list_eq, text,
}
use cluster_api_provider_hyd.Base.Exec.{Result, ok, err, Keeps, pure, raise, attempt, ◌>>=◌}
use cluster_api_provider_hyd.Providers.Errors.{not_found}
use cluster_api_provider_hyd.Providers.Identity.{cut_slash}
use cluster_api_provider_hyd.Providers.Fake.{
  Fake, Faults, fake, new, ensure_infrastructure, decimal,
}
use cluster_api_provider_hyd.Providers.Libvirt.Subnets.{
  parse_cidr, parse_ipv4, fields, digits, dotted,
}
use cluster_api_provider_hyd.Controller.Objects.{HydraCluster, Cluster}
use cluster_api_provider_hyd.Controller.Linkage.{owner_ref_of_kind, paused_reason}
use cluster_api_provider_hyd.Controller.Spec.{managed_network_of}
use cluster_api_provider_hyd.Controller.Status.{says}
use cluster_api_provider_hyd.Controller.Endpoint.{
  validate_endpoint_against_managed_network, derive_endpoint_host, check_endpoint, contains_ip,
  gateway_of, broadcast_of, next_ipv4, candidate_of, usable,
}
use cluster_api_provider_hyd.Controller.Clusters
use cluster_api_provider_hyd.Controller.Clusters.World.{
  ClusterEnv, ClusterWorld, ClusterError, here, returned, on_backend, patch, patch_status, tell,
}
use cluster_api_provider_hyd.Controller.Clusters.Confirming.{check_hypervisor}
use cluster_api_provider_hyd.Controller.Clusters.Recording.{
  infrastructure_spec_for, verified, unverified, parsed, validate_endpoint, is_valid,
  choose_endpoint, record_verified, record_unverified, set_paused, record_derived_endpoint,
}
use cluster_api_provider_hyd.Controller.Clusters.Earned.{Earned}
use cluster_api_provider_hyd.Controller.Clusters.Readiness.{reconcile-Earned}

abbrev faults : Faults
faults = record {
  create_err = none;
  infrastructure_err = none;
  get_err = none;
  find_err = none;
  delete_err = none;
  default_storage_pool = text "p";
  ready_on_create = true;
}

abbrev owner : Cluster
owner = record {
  namespace = text "default";
  name = text "prod";
  uid = text "1";
  infra_ref = record { kind = text "HydraCluster"; api_group = []; name = text "lab" };
  paused = false;
  paused_annotation = false;
  infrastructure_provisioned = false;
  endpoint = record { host = []; port = 0 };
}

abbrev env : ClusterEnv Fake
env = record {
  env = record {
    reader = record {
      get_machine = λ name. err not_found;
      get_cluster = λ name. ok owner;
      get_hydra_cluster = λ name. err not_found;
      get_secret = λ name. err not_found;
    };
    write_fails = λ log. none;
    provider = some (fake faults);
    provider_for = none;
    releases = false;
    sha256_hex = λ s. s;
    key_pair_matches = λ cert key. true;
    holds_certificate = λ cert. true;
  };
  list_fails = false;
  write_fails = λ log. none;
}

abbrev lab : HydraCluster
lab = record {
  namespace = text "default";
  name = text "lab";
  generation = 1;
  deleting = false;
  owner_references =
      record {
        kind = text "Cluster";
        api_version = text "cluster.x-k8s.io/v1beta2";
        name = text "prod";
        uid = text "1";
      }
      ∷ [];
  paused_annotation = false;
  endpoint = record { host = []; port = 0 };
  hypervisor = none;
  confirmed = none;
  base_image = none;
  networks = [];
  storage_pool = [];
  managed_network = some (record {
    name = text "n";
    subnet = text "10.0.0.0/24";
    dhcp_start = text "10.0.0.2";
    dhcp_end = text "10.0.0.99";
  });
  provisioned = none;
  ready = none;
  infrastructure_failed = none;
  paused = none;
}

before : ClusterWorld Fake
unfolding new
before = record { cluster = lab; stored = lab; machines = []; backend = new; log = [] }

after : Result ClusterError Clusters.ClusterRequeue × ClusterWorld Fake
unfolding before Clusters.reconcile Clusters.owner_cluster_of Clusters.connect Clusters.verify
    Clusters.ensure Clusters.report Clusters.release owner_ref_of_kind paused_reason cut_slash here
    returned on_backend patch patch_status tell pure raise attempt ◌>>=◌ record_derived_endpoint
    choose_endpoint is_valid validate_endpoint parsed parse_cidr parse_ipv4 fields digits dotted
    decimal validate_endpoint_against_managed_network derive_endpoint_host check_endpoint
    contains_ip gateway_of broadcast_of next_ipv4 candidate_of usable check_hypervisor
    record_verified record_unverified set_paused says verified unverified infrastructure_spec_for
    managed_network_of ensure_infrastructure
after = Clusters.reconcile env before

test_after :
    (after.0 ≡ ok Clusters.ClusterRequeue.while_healthy)
    × (after.1.stored.provisioned ≡ some true)
    × (after.1.stored.endpoint ≡ record { host = text "10.0.0.100"; port = 6443 })
unfolding after
test_after = (refl, refl, refl)

reconcile-Earned_example : Keeps Earned (Clusters.reconcile env)
reconcile-Earned_example = reconcile-Earned env
