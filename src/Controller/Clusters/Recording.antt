-- ===== src/Controller/Clusters/Recording.antt =====
-- internal/controller/hydracluster_controller.go: what a reconcile of a HydraCluster records in its
-- status, and the control-plane endpoint that it chooses. Addresses of IPv6 are not modelled.
use cluster_api_provider_hyd.Base.{
  ℕ, Bool, true, false, not, ◌&&◌, Option, none, some, [], ◌==◌, nat_eq, list_eq, if◌then◌else◌,
}
use cluster_api_provider_hyd.Base.Exec.{Result, ok, err, pure, raise, ◌>>=◌}
use cluster_api_provider_hyd.Providers.Errors.{Error, terminal}
use cluster_api_provider_hyd.Providers.Identity.{
  is_empty, Image, ManagedNetwork, InfrastructureSpec,
}
use cluster_api_provider_hyd.Providers.Libvirt.Subnets.{Cidr, parse_cidr, parse_ipv4, hosts, dotted}
use cluster_api_provider_hyd.Controller.Objects.{
  HydraCluster, Cluster, ApiEndpoint, PauseReason, Reason, infrastructure_verified,
  infrastructure_unverified, infrastructure_invalid,
}
use cluster_api_provider_hyd.Controller.Spec.{managed_network_of}
use cluster_api_provider_hyd.Controller.Status.{says, latched}
use cluster_api_provider_hyd.Controller.Endpoint.{
  Subnet, HydraManagedNetwork, validate_endpoint_against_managed_network, derive_endpoint_host,
}
use cluster_api_provider_hyd.Controller.Clusters.World.{
  ClusterError, endpoint_pending, is_terminal, ClusterEnv, ClusterAction, here, returned, patch,
  patch_status,
}

abbrev no_image : Image
no_image = record { name = []; url = []; checksum = [] }

unfoldable pub infrastructure_spec_for : HydraCluster → InfrastructureSpec
infrastructure_spec_for hc = record {
  storage_pool = hc.storage_pool;
  image = elim hc.base_image [ none ↦ no_image | some img ↦ img ];
  managed_network = managed_network_of (some hc);
}

unfoldable pub verified : HydraCluster → HydraCluster
verified hc = record hc {
  provisioned = some true;
  ready = some (record {
    status = true;
    reason = infrastructure_verified;
    observed_generation = hc.generation;
  });
  infrastructure_failed = none;
}

abbrev pub reason_for : ClusterError → Reason
reason_for cause = if is_terminal cause then infrastructure_invalid else infrastructure_unverified

unfoldable pub unverified : ClusterError → HydraCluster → HydraCluster
unverified cause hc = record hc {
  provisioned = latched hc.provisioned;
  ready =
      some
        (record { status = false; reason = reason_for cause; observed_generation = hc.generation });
  infrastructure_failed =
      if is_terminal cause
      then some
          (record { status = true; reason = reason_for cause; observed_generation = hc.generation })
      else none;
}

unfoldable pub paused_by : Option PauseReason → HydraCluster → HydraCluster
paused_by signal hc = record hc {
  paused = some (record { signal = signal; observed_generation = hc.generation });
}

abbrev subnet_of : Option Cidr → Option Subnet
subnet_of none = none
subnet_of (some c) = some (record { base = c.base; size = hosts c.ones })

-- The network of a cluster, read.
unfoldable pub parsed : ManagedNetwork → HydraManagedNetwork
parsed n = record {
  subnet = subnet_of (parse_cidr n.subnet);
  dhcp_start = parse_ipv4 n.dhcp_start;
  dhcp_end = parse_ipv4 n.dhcp_end;
}

abbrev parsed_network : Option ManagedNetwork → Option HydraManagedNetwork
parsed_network none = none
parsed_network (some n) = some (parsed n)

unfoldable pub validate_endpoint : HydraCluster → Result Error (Unit {0})
validate_endpoint hc =
    validate_endpoint_against_managed_network (parsed_network hc.managed_network)
      (parse_ipv4 hc.endpoint.host)

abbrev pub default_api_server_port : ℕ
default_api_server_port = 6443

unfoldable pub is_valid : ApiEndpoint → Bool
is_valid e = not (is_empty e.host) && not (e.port == 0)

abbrev derived : ℕ → Result Error ℕ → Result Error ApiEndpoint
derived stated (err e) = err e
derived stated (ok ip) =
    ok (record { host = dotted ip; port = if stated == 0 then default_api_server_port else stated })

-- The endpoint of the owning Cluster, if it has one, or else one on the network.
unfoldable pub choose_endpoint : ManagedNetwork → ℕ → ApiEndpoint → Result Error ApiEndpoint
choose_endpoint n stated endpoint =
    if is_valid endpoint && (not (stated == 0) && not (stated == endpoint.port))
    then err terminal
    else if not (is_valid endpoint)
    then derived stated (derive_endpoint_host (parsed n))
    else ok endpoint

abbrev pub at_endpoint : ApiEndpoint → HydraCluster → HydraCluster
at_endpoint endpoint hc = record hc { endpoint = endpoint }

module _ {B : Type 0} (env : ClusterEnv B) where
  unfoldable pub record_verified : ClusterAction B (Unit {0})
  record_verified = patch_status env verified

  unfoldable pub record_unverified : ClusterError → ClusterAction B (Unit {0})
  record_unverified cause = patch_status env (unverified cause)

  unfoldable pub set_paused : Option PauseReason → ClusterAction B (Unit {0})
  set_paused signal =
      here >>= λ hc. if says hc.paused signal then pure tt else patch_status env (paused_by signal)

  abbrev pub endpoint_of_owner :
      ManagedNetwork → HydraCluster → Option Cluster → ClusterAction B Bool
  endpoint_of_owner n hc none = raise endpoint_pending
  endpoint_of_owner n hc (some cluster) =
      returned (choose_endpoint n hc.endpoint.port cluster.endpoint) >>= λ endpoint.
      returned (validate_endpoint (at_endpoint endpoint hc)) >>= λ _.
      patch env (at_endpoint endpoint)

  abbrev pub endpoint_on :
      HydraCluster → Option Cluster → Option ManagedNetwork → ClusterAction B Bool
  endpoint_on hc cluster none = pure false
  endpoint_on hc cluster (some n) =
      if not (is_empty hc.endpoint.host) then pure false else endpoint_of_owner n hc cluster

  -- Whether another write got there first.
  unfoldable pub record_derived_endpoint : Option Cluster → ClusterAction B Bool
  record_derived_endpoint cluster = here >>= λ hc. endpoint_on hc cluster hc.managed_network
