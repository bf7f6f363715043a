-- ===== src/Controller/Clusters/Readiness.antt =====
-- internal/controller/hydracluster_controller.go: a cluster is reported ready after its infrastructure was
-- verified.
use cluster_api_provider_hyd.Base.{Bool, true, false, ◌||◌, Option, none, some, ◌∷◌, refl}
use cluster_api_provider_hyd.Base.Exec.{
  Result, ok, err, attempt, ◌>>=◌, Keeps, Keeps-pure, Keeps-raise, Keeps-bind, Keeps-if,
  Keeps-option, Keeps-attempt,
}
use cluster_api_provider_hyd.Providers.Errors.{Error}
use cluster_api_provider_hyd.Providers.Identity.{MachineProvider, InfrastructureSpec}
use cluster_api_provider_hyd.Controller.Objects.{HydraCluster, Cluster, PauseReason}
use cluster_api_provider_hyd.Controller.World.{Hypervisor, failure}
use cluster_api_provider_hyd.Controller.Hypervisors.{hypervisor_of}
use cluster_api_provider_hyd.Controller.Linkage.{paused_reason}
use cluster_api_provider_hyd.Controller.Clusters
use cluster_api_provider_hyd.Controller.Clusters.World.{
  ClusterError, sentinel, hypervisor_pending, hypervisor_conflict, is_terminal, is_endpoint_pending,
  ensured, released, ClusterEnv, ClusterWorld, here, on_backend, lifted,
}
use cluster_api_provider_hyd.Controller.Clusters.Confirming.{HypervisorCheck}
use cluster_api_provider_hyd.Controller.Clusters.Recording.{
  verified, infrastructure_spec_for, validate_endpoint, record_verified,
}
use cluster_api_provider_hyd.Controller.Clusters.Earned.{
  Earned, Verified, note-Earned, earned, Verified-Bears, patch_status-Verified, ensured_in,
}
use cluster_api_provider_hyd.Controller.Clusters.Steps.{
  record_unverified-Keeps, set_paused-Keeps, record_derived_endpoint-Keeps, commit_hypervisor-Keeps,
  check_hypervisor-Keeps,
}

module _ {B : Type 0} (env : ClusterEnv B) where
  finish-Verified :
      (requeue : Clusters.ClusterRequeue) → Keeps (Verified env) (Clusters.finish env requeue)
  unfolding record_verified
  finish-Verified requeue =
      Keeps-bind _ _ (patch_status-Verified env verified) λ _. Keeps-pure requeue

  after_commit-Verified :
      (requeue : Clusters.ClusterRequeue) (r : Result ClusterError (Unit {0}))
      → Keeps (Verified env) (Clusters.after_commit env requeue r)
  after_commit-Verified requeue (ok done) = finish-Verified requeue
  after_commit-Verified requeue (err hypervisor_conflict) = finish-Verified _
  after_commit-Verified requeue (err e) = Keeps-raise e

  commit-Verified :
      (o : Option HypervisorCheck) (requeue : Clusters.ClusterRequeue)
      → Keeps (Verified env) (Clusters.commit env o requeue)
  commit-Verified none requeue = finish-Verified requeue
  commit-Verified (some check) requeue =
      Keeps-bind _ _ (Keeps-attempt _ (commit_hypervisor-Keeps env (Verified-Bears env) check))
        (after_commit-Verified requeue)

  report-Keeps : (cause : ClusterError) → Keeps Earned (Clusters.report env cause)
  unfolding Clusters.report
  report-Keeps cause =
      Keeps-bind _ _ (record_unverified-Keeps env (earned env) cause) λ _. Keeps-pure _

  module _ (prov : MachineProvider B) where
    ensured-Earned :
        (check : Option HypervisorCheck) (requeue : Clusters.ClusterRequeue)
        (spec : InfrastructureSpec) (r : Result Error (Unit {0})) (b : B) (w : ClusterWorld B)
        → Earned w
        → Earned
            (Clusters.after_ensure env prov check requeue
              (lifted r)
              (record w { backend = b; log = ensured spec (failure r) ∷ w.log })).1
    unfolding ensured_in
    ensured-Earned check requeue spec (ok done) b w h =
        let after =
          (commit-Verified check requeue).at
            (record w { backend = b; log = ensured spec none ∷ w.log }) refl in
        (λ _. after, λ _. after)
    ensured-Earned check requeue spec (err e) b w h =
        (report-Keeps (sentinel e)).at
          (record w { backend = b; log = ensured spec (some e) ∷ w.log })
          (note-Earned (ensured spec (some e)) (record w { backend = b }) h)

    ensure-Keeps :
        (check : Option HypervisorCheck) (requeue : Clusters.ClusterRequeue)
        → Keeps Earned (Clusters.ensure env prov check requeue)
    unfolding Clusters.ensure here on_backend attempt ◌>>=◌
    ensure-Keeps check requeue = record {
      at = λ w h.
          let spec = infrastructure_spec_for w.cluster in
          let (r, b) = prov.ensure_infrastructure spec w.backend in
          ensured-Earned check requeue spec r b w h;
    }

    after_check-Keeps :
        (r : Result ClusterError (Option HypervisorCheck))
        → Keeps Earned (Clusters.after_check env prov r)
    after_check-Keeps (ok check) = ensure-Keeps check _
    after_check-Keeps (err hypervisor_pending) = ensure-Keeps none _
    after_check-Keeps (err e) = report-Keeps e

    check_endpoint-Keeps :
        (cluster : Option Cluster) (r : Result Error (Unit {0}))
        → Keeps Earned (Clusters.check_endpoint env prov cluster r)
    check_endpoint-Keeps cluster (ok done) =
        Keeps-bind _ _ (Keeps-attempt _ (check_hypervisor-Keeps env (earned env) prov cluster))
          after_check-Keeps
    check_endpoint-Keeps cluster (err e) =
        Keeps-bind _ _ (record_unverified-Keeps env (earned env) (sentinel e)) λ _. Keeps-pure _

    after_endpoint-Keeps :
        (cluster : Option Cluster) (r : Result ClusterError Bool)
        → Keeps Earned (Clusters.after_endpoint env prov cluster r)
    after_endpoint-Keeps cluster (ok true) = Keeps-pure _
    after_endpoint-Keeps cluster (ok false) =
        Keeps-bind here _ ((earned env).looking)
          λ hc. check_endpoint-Keeps cluster (validate_endpoint hc)
    after_endpoint-Keeps cluster (err e) =
        Keeps-if (is_terminal e || is_endpoint_pending e)
          (λ _. Keeps-bind _ _ (record_unverified-Keeps env (earned env) e) λ _. Keeps-pure _)
          λ _. Keeps-raise e

    verify-Keeps : (cluster : Option Cluster) → Keeps Earned (Clusters.verify env prov cluster)
    unfolding Clusters.verify
    verify-Keeps cluster =
        Keeps-bind _ _ (Keeps-attempt _ (record_derived_endpoint-Keeps env (earned env) cluster))
          (after_endpoint-Keeps cluster)

  release-Keeps : (hc : HydraCluster) → Keeps Earned (Clusters.release env hc)
  unfolding Clusters.release
  release-Keeps hc =
      Keeps-if env.env.releases (λ _. (earned env).telling (released hc.namespace hc.name))
        λ _. Keeps-pure tt

  dial-Keeps :
      (provider_for : Option Hypervisor → Result Error (MachineProvider B)) (o : Option Hypervisor)
      → Keeps Earned (Clusters.dial env provider_for o)
  dial-Keeps provider_for none =
      Keeps-bind here _ ((earned env).looking)
        λ hc. Keeps-bind _ _ (release-Keeps hc) λ _. (earned env).returning (provider_for none)
  dial-Keeps provider_for (some h) = (earned env).returning (provider_for (some h))

  connect-Keeps : Keeps Earned (Clusters.connect env)
  unfolding Clusters.connect
  connect-Keeps =
      Keeps-option env.env.provider
        (Keeps-option env.env.provider_for (Keeps-raise _) λ provider_for.
          Keeps-bind here _ ((earned env).looking) λ hc.
            Keeps-bind _ _ ((earned env).returning (hypervisor_of env.env hc.hypervisor))
              (dial-Keeps provider_for))
        λ p. Keeps-pure p

  after_connect-Keeps :
      (cluster : Option Cluster) (r : Result ClusterError (MachineProvider B))
      → Keeps Earned (Clusters.after_connect env cluster r)
  after_connect-Keeps cluster (ok prov) = verify-Keeps prov cluster
  after_connect-Keeps cluster (err e) =
      Keeps-bind _ _ (record_unverified-Keeps env (earned env) e)
        λ _. Keeps-if (is_terminal e) (λ _. Keeps-pure _) λ _. Keeps-raise e

  unless_paused-Keeps :
      (cluster : Option Cluster) (o : Option PauseReason)
      → Keeps Earned (Clusters.unless_paused env cluster o)
  unless_paused-Keeps cluster (some reason) =
      Keeps-bind _ _ (set_paused-Keeps env (earned env) (some reason)) λ _. Keeps-pure _
  unless_paused-Keeps cluster none =
      Keeps-bind _ _ (set_paused-Keeps env (earned env) none)
        λ _. Keeps-bind _ _ (Keeps-attempt _ connect-Keeps) (after_connect-Keeps cluster)

  -- While neither copy of a cluster claims to be provisioned or ready, unless EnsureInfrastructure has
  -- succeeded since the log began, a reconcile keeps that so.
  pub reconcile-Earned : Keeps Earned (Clusters.reconcile env)
  unfolding Clusters.reconcile
  reconcile-Earned = Keeps-bind here _ ((earned env).looking) λ hc.
      Keeps-if hc.deleting (λ _. Keeps-bind _ _ (release-Keeps hc) λ _. Keeps-pure _)
        λ _.
          Keeps-bind _ _ ((earned env).returning _)
            λ cluster. unless_paused-Keeps cluster (paused_reason hc.paused_annotation cluster)
