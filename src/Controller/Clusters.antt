-- ===== src/Controller/Clusters.antt =====
-- internal/controller/hydracluster_controller.go: the reconcile of a HydraCluster.
pub mod World
pub mod Confirming
pub mod Recording
pub mod Earned
pub mod Steps
pub mod Readiness
mod Examples
use cluster_api_provider_hyd.Base.{
  Bool, true, false, not, ◌&&◌, ◌||◌, Option, none, some, List, [], ◌∷◌, ◌==◌, nat_eq, list_eq,
  if◌then◌else◌, Text, text,
}
use cluster_api_provider_hyd.Base.Exec.{Result, ok, err, pure, raise, attempt, ◌>>=◌, ◌>>◌}
use cluster_api_provider_hyd.Providers.Errors.{Error, terminal, not_found}
use cluster_api_provider_hyd.Providers.Identity.{is_empty, MachineProvider}
use cluster_api_provider_hyd.Controller.Objects.{HydraCluster, Cluster, OwnerRef, PauseReason}
use cluster_api_provider_hyd.Controller.World.{Reader, Hypervisor, failure}
use cluster_api_provider_hyd.Controller.Hypervisors.{hypervisor_of}
use cluster_api_provider_hyd.Controller.Linkage.{owner_ref_of_kind, if_found, paused_reason}
use cluster_api_provider_hyd.Controller.Clusters.World.{
  ClusterError, sentinel, endpoint_pending, hypervisor_pending, hypervisor_conflict, is_terminal,
  is_endpoint_pending, ClusterEnv, ClusterAction, ensured, released, tell, here, returned,
  on_backend,
}
use cluster_api_provider_hyd.Controller.Clusters.Confirming.{
  HypervisorCheck, check_hypervisor, commit_hypervisor,
}
use cluster_api_provider_hyd.Controller.Clusters.Recording.{
  infrastructure_spec_for, validate_endpoint, record_verified, record_unverified, set_paused,
  record_derived_endpoint,
}

-- `ctrl.Result`: when to look again, if not on an event.
pub data ClusterRequeue : Type 0 where
  on_events while_healthy while_unverified after_conflict : ClusterRequeue

abbrev pub cluster_kind : Text
cluster_kind = text "Cluster"

abbrev pub same_owner : OwnerRef → Cluster → Result Error (Option Cluster)
same_owner ref cluster =
    if not (is_empty ref.uid) && not (cluster.uid == ref.uid) then ok none else ok (some cluster)

abbrev pub owner_from : Reader → Option OwnerRef → Result Error (Option Cluster)
owner_from reader none = ok none
owner_from reader (some ref) = if_found (reader.get_cluster ref.name) (same_owner ref) (ok none)

unfoldable pub owner_cluster_of : Reader → List OwnerRef → Result Error (Option Cluster)
owner_cluster_of reader refs = owner_from reader (owner_ref_of_kind refs cluster_kind)

module _ {B : Type 0} (env : ClusterEnv B) where
  unfoldable pub release : HydraCluster → ClusterAction B (Unit {0})
  release hc = if env.env.releases then tell (released hc.namespace hc.name) else pure tt

  abbrev pub dial :
      (Option Hypervisor → Result Error (MachineProvider B))
      → Option Hypervisor
      → ClusterAction B (MachineProvider B)
  dial provider_for none = here >>= λ hc. release hc >> returned (provider_for none)
  dial provider_for (some h) = returned (provider_for (some h))

  -- The method `provider`.
  unfoldable pub connect : ClusterAction B (MachineProvider B)
  connect = elim env.env.provider [
    | some p ↦ pure p
    | none ↦ elim env.env.provider_for [
      | none ↦ raise (sentinel terminal)
      | some provider_for ↦
          here >>= λ hc. returned (hypervisor_of env.env hc.hypervisor) >>= dial provider_for
    ]
  ]

  -- A failure that is looked at again without an event, later if only a person can mend it.
  unfoldable pub report : ClusterError → ClusterAction B ClusterRequeue
  report cause =
      record_unverified env cause
      >> pure (if is_terminal cause then while_healthy else while_unverified)

  abbrev pub finish : ClusterRequeue → ClusterAction B ClusterRequeue
  finish requeue = record_verified env >> pure requeue

  abbrev pub after_commit :
      ClusterRequeue → Result ClusterError (Unit {0}) → ClusterAction B ClusterRequeue
  after_commit requeue (ok done) = finish requeue
  after_commit requeue (err hypervisor_conflict) = finish after_conflict
  after_commit requeue (err e) = raise e

  abbrev pub commit : Option HypervisorCheck → ClusterRequeue → ClusterAction B ClusterRequeue
  commit none requeue = finish requeue
  commit (some check) requeue = attempt (commit_hypervisor env check) >>= after_commit requeue

  module _ (prov : MachineProvider B) where
    abbrev pub after_ensure :
        Option HypervisorCheck
        → ClusterRequeue
        → Result ClusterError (Unit {0})
        → ClusterAction B ClusterRequeue
    after_ensure check requeue (ok done) = commit check requeue
    after_ensure check requeue (err e) = report e

    unfoldable pub ensure : Option HypervisorCheck → ClusterRequeue → ClusterAction B ClusterRequeue
    ensure check requeue = here >>= λ hc.
        let spec = infrastructure_spec_for hc in
        attempt (on_backend (prov.ensure_infrastructure spec) (λ r. ensured spec (failure r)))
        >>= after_ensure check requeue

    -- A machine that may be being made elsewhere keeps the hypervisor from being confirmed, and nothing
    -- else.
    abbrev pub after_check :
        Result ClusterError (Option HypervisorCheck) → ClusterAction B ClusterRequeue
    after_check (ok check) = ensure check while_healthy
    after_check (err hypervisor_pending) = ensure none while_unverified
    after_check (err e) = report e

    abbrev pub check_endpoint :
        Option Cluster → Result Error (Unit {0}) → ClusterAction B ClusterRequeue
    check_endpoint cluster (ok done) = attempt (check_hypervisor env prov cluster) >>= after_check
    check_endpoint cluster (err e) = record_unverified env (sentinel e) >> pure while_unverified

    abbrev pub after_endpoint :
        Option Cluster → Result ClusterError Bool → ClusterAction B ClusterRequeue
    after_endpoint cluster (ok true) = pure after_conflict
    after_endpoint cluster (ok false) = here >>= λ hc. check_endpoint cluster (validate_endpoint hc)
    after_endpoint cluster (err e) =
        if is_terminal e || is_endpoint_pending e
        then record_unverified env e >> pure while_unverified
        else raise e

    unfoldable pub verify : Option Cluster → ClusterAction B ClusterRequeue
    verify cluster = attempt (record_derived_endpoint env cluster) >>= after_endpoint cluster

  abbrev pub after_connect :
      Option Cluster → Result ClusterError (MachineProvider B) → ClusterAction B ClusterRequeue
  after_connect cluster (ok prov) = verify prov cluster
  after_connect cluster (err e) =
      record_unverified env e >> (if is_terminal e then pure while_healthy else raise e)

  abbrev pub unless_paused : Option Cluster → Option PauseReason → ClusterAction B ClusterRequeue
  unless_paused cluster (some reason) = set_paused env (some reason) >> pure on_events
  unless_paused cluster none = set_paused env none >> (attempt connect >>= after_connect cluster)

  -- A cluster that is being deleted keeps its network.
  unfoldable pub reconcile : ClusterAction B ClusterRequeue
  reconcile = here >>= λ hc.
      if hc.deleting
      then release hc >> pure on_events
      else returned (owner_cluster_of env.env.reader hc.owner_references) >>= λ cluster.
          unless_paused cluster (paused_reason hc.paused_annotation cluster)
