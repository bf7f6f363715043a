-- ===== src/Controller/Clusters/Steps.antt =====
-- internal/controller/hydracluster_controller.go: what the parts of a reconcile keep.
use cluster_api_provider_hyd.Base.{
  arith, Bool, true, false, not, ◌||◌, Option, none, some, List, [], ◌∷◌, ◌≡◌, refl, ◌==◌, nat_eq,
  list_eq, Text,
}
use cluster_api_provider_hyd.Base.Exec.{
  Result, ok, err, Keeps, Keeps-pure, Keeps-raise, Keeps-bind, Keeps-if, Keeps-attempt,
}
use cluster_api_provider_hyd.Providers.Errors.{Error, not_found}
use cluster_api_provider_hyd.Providers.Identity.{
  is_empty, MachineProvider, MachineState, parse_provider_id, ManagedNetwork,
}
use cluster_api_provider_hyd.Controller.Objects.{
  HydraCluster, HydraMachine, Cluster, ApiEndpoint, PauseReason, HypervisorSpec,
}
use cluster_api_provider_hyd.Controller.Hypervisors.{canonical_hypervisor, confirmed_hypervisor}
use cluster_api_provider_hyd.Controller.Naming.{backend_name}
use cluster_api_provider_hyd.Controller.Status.{says, latched}
use cluster_api_provider_hyd.Controller.Clusters.World.{
  ClusterError, sentinel, endpoint_pending, hypervisor_conflict, looked_for, ClusterEnv,
  ClusterWorld, here,
}
use cluster_api_provider_hyd.Controller.Clusters.Confirming.{
  Census, HypervisorCheck, is_elsewhere, looked_up, machine_on_hypervisor, count_machine,
  count_machines, decided, check_address, check_named, check_hypervisor, confirmed_as,
  unless_conflict, confirm, on, record_machines, commit_hypervisor,
}
use cluster_api_provider_hyd.Controller.Clusters.Recording.{
  unverified, paused_by, record_unverified, set_paused, choose_endpoint, validate_endpoint,
  at_endpoint, endpoint_of_owner, endpoint_on, record_derived_endpoint,
}
use cluster_api_provider_hyd.Controller.Clusters.Earned.{claims, Modest, Bears}

unverified-Modest : (cause : ClusterError) → Modest (unverified cause)
unfolding unverified claims
unverified-Modest cause hc is = latched-claim hc.provisioned is
  where
    latched-claim :
        (o : Option Bool)
        → (elim (latched o) [ none ↦ false | some b ↦ b ] || false) ≡ true
        → (elim o [ none ↦ false | some b ↦ b ]
            || elim hc.ready [ none ↦ false | some c ↦ c.status ])
          ≡ true
    latched-claim none is = ground arith
    latched-claim (some true) is = refl
    latched-claim (some false) is = ground arith

paused_by-Modest : (signal : Option PauseReason) → Modest (paused_by signal)
unfolding paused_by claims
paused_by-Modest signal hc is = is

at_endpoint-Modest : (endpoint : ApiEndpoint) → Modest (at_endpoint endpoint)
unfolding claims
at_endpoint-Modest endpoint hc is = is

module _ {B : Type 0} (env : ClusterEnv B) {P : ClusterWorld B → Type 0} (bears : Bears env P) where
  pub record_unverified-Keeps : (cause : ClusterError) → Keeps P (record_unverified env cause)
  unfolding record_unverified
  record_unverified-Keeps cause = bears.reporting (unverified cause) (unverified-Modest cause)

  pub set_paused-Keeps : (signal : Option PauseReason) → Keeps P (set_paused env signal)
  unfolding set_paused
  set_paused-Keeps signal = Keeps-bind here _ bears.looking λ hc.
      Keeps-if (says hc.paused signal) (λ _. Keeps-pure tt)
        λ _. bears.reporting (paused_by signal) (paused_by-Modest signal)

  endpoint_of_owner-Keeps :
      (n : ManagedNetwork) (hc : HydraCluster) (o : Option Cluster)
      → Keeps P (endpoint_of_owner env n hc o)
  endpoint_of_owner-Keeps n hc none = Keeps-raise endpoint_pending
  endpoint_of_owner-Keeps n hc (some cluster) =
      Keeps-bind _ _ (bears.returning (choose_endpoint n hc.endpoint.port cluster.endpoint))
        λ endpoint.
          Keeps-bind _ _ (bears.returning (validate_endpoint (at_endpoint endpoint hc)))
            λ _. bears.patching (at_endpoint endpoint) (at_endpoint-Modest endpoint)

  endpoint_on-Keeps :
      (hc : HydraCluster) (cluster : Option Cluster) (o : Option ManagedNetwork)
      → Keeps P (endpoint_on env hc cluster o)
  endpoint_on-Keeps hc cluster none = Keeps-pure false
  endpoint_on-Keeps hc cluster (some n) =
      Keeps-if (not (is_empty hc.endpoint.host)) (λ _. Keeps-pure false)
        λ _. endpoint_of_owner-Keeps n hc cluster

  pub record_derived_endpoint-Keeps :
      (cluster : Option Cluster) → Keeps P (record_derived_endpoint env cluster)
  unfolding record_derived_endpoint
  record_derived_endpoint-Keeps cluster =
      Keeps-bind here _ bears.looking λ hc. endpoint_on-Keeps hc cluster hc.managed_network

  unless_conflict-Keeps : (conflicted : Bool) → Keeps P (unless_conflict env conflicted)
  unless_conflict-Keeps conflicted =
      Keeps-if conflicted (λ _. Keeps-raise hypervisor_conflict) λ _. Keeps-pure tt

  confirmed_as-Modest : Modest (confirmed_as env)
  unfolding claims
  confirmed_as-Modest hc is = is

  confirm-Keeps : Keeps P (confirm env)
  unfolding confirm
  confirm-Keeps = Keeps-bind here _ bears.looking λ hc.
      Keeps-if (confirmed_hypervisor hc) (λ _. Keeps-pure tt)
        λ _.
          Keeps-bind _ _ (bears.confirming (confirmed_as env) confirmed_as-Modest)
            unless_conflict-Keeps

  record_machines-Keeps :
      (address : Text) (ms : List HydraMachine) (conflicted : Bool)
      → Keeps P (record_machines env address ms conflicted)
  unfolding record_machines
  record_machines-Keeps address [] conflicted = Keeps-pure conflicted
  record_machines-Keeps address (m ∷ rest) conflicted =
      Keeps-bind _ _ (bears.marking m.name (on env address))
        λ overtaken. record_machines-Keeps address rest (conflicted || overtaken)

  pub commit_hypervisor-Keeps : (check : HypervisorCheck) → Keeps P (commit_hypervisor env check)
  unfolding commit_hypervisor
  commit_hypervisor-Keeps check = Keeps-bind (confirm env) _ confirm-Keeps λ _.
      Keeps-bind _ _ (record_machines-Keeps check.address check.unrecorded false)
        unless_conflict-Keeps

  module _ (prov : MachineProvider B) where
    is_elsewhere-Keeps :
        (id : Text) (r : Result ClusterError MachineState) → Keeps P (is_elsewhere env prov id r)
    is_elsewhere-Keeps id (ok state) = Keeps-pure _
    is_elsewhere-Keeps id (err (sentinel not_found)) = Keeps-pure true
    is_elsewhere-Keeps id (err e) = Keeps-raise e

    looked_up-Keeps :
        (m : HydraMachine) (r : Result Error (Text × Text)) → Keeps P (looked_up env prov m r)
    looked_up-Keeps m (err e) = Keeps-pure true
    looked_up-Keeps m (ok p) =
        let name = backend_name env.env.sha256_hex m in
        Keeps-if (not (p.0 == prov.name)) (λ _. Keeps-pure true)
          λ _.
            Keeps-bind _ _
              (Keeps-attempt _ (bears.calling (prov.find_by_name name) (λ _. looked_for name)))
              (is_elsewhere-Keeps p.1)

    count_machine-Keeps :
        (address : Text) (c : Census) (m : HydraMachine)
        → Keeps P (count_machine env prov address c m)
    unfolding count_machine machine_on_hypervisor
    count_machine-Keeps address c m =
        Keeps-if (m.deleting || m.hypervisor_annotation == address) (λ _. Keeps-pure c)
          λ _.
            Keeps-if (not (is_empty m.hypervisor_annotation)) (λ _. Keeps-pure _)
              λ _.
                Keeps-if (is_empty m.provider_id) (λ _. Keeps-pure _)
                  λ _.
                    Keeps-bind _ _ (looked_up-Keeps m (parse_provider_id m.provider_id))
                      λ elsewhere. Keeps-pure _

    count_machines-Keeps :
        (address : Text) (ms : List HydraMachine) (c : Census)
        → Keeps P (count_machines env prov address ms c)
    unfolding count_machines
    count_machines-Keeps address [] c = Keeps-pure c
    count_machines-Keeps address (m ∷ rest) c =
        Keeps-bind _ _ (count_machine-Keeps address c m) (count_machines-Keeps address rest)

    decided-Keeps : (address : Text) (c : Census) → Keeps P (decided env prov address c)
    decided-Keeps address c =
        Keeps-if c.refused (λ _. Keeps-raise _)
          λ _. Keeps-if c.pending (λ _. Keeps-raise _) λ _. Keeps-pure _

    check_address-Keeps :
        (o : Option Cluster) (address : Text) → Keeps P (check_address env prov o address)
    check_address-Keeps none address = Keeps-raise _
    check_address-Keeps (some cluster) address =
        Keeps-if env.list_fails (λ _. Keeps-raise _)
          λ _.
            Keeps-bind _ _ bears.listing
              λ machines. Keeps-bind _ _ (count_machines-Keeps address _ _) (decided-Keeps address)

    check_named-Keeps :
        (cluster : Option Cluster) (o : Option HypervisorSpec)
        → Keeps P (check_named env prov cluster o)
    check_named-Keeps cluster none = Keeps-pure none
    check_named-Keeps cluster (some spec) =
        Keeps-bind _ _ (bears.returning (canonical_hypervisor spec.address))
          (check_address-Keeps cluster)

    pub check_hypervisor-Keeps :
        (cluster : Option Cluster) → Keeps P (check_hypervisor env prov cluster)
    unfolding check_hypervisor
    check_hypervisor-Keeps cluster =
        Keeps-bind here _ bears.looking λ hc. check_named-Keeps cluster hc.hypervisor
