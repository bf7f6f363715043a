-- ===== src/Controller/Clusters/Confirming.antt =====
-- internal/controller/hydracluster_controller.go: a cluster's hypervisor is confirmed, and recorded on the
-- machines that are there. What a message lists is not modelled.
use cluster_api_provider_hyd.Base.{
  Bool, true, false, not, ◌||◌, Option, none, some, List, [], ◌∷◌, ◌++◌, Text, ◌==◌, nat_eq,
  list_eq, if◌then◌else◌,
}
use cluster_api_provider_hyd.Base.Exec.{Result, ok, err, pure, raise, attempt, ◌>>=◌, ◌>>◌}
use cluster_api_provider_hyd.Providers.Errors.{Error, terminal, not_found, other}
use cluster_api_provider_hyd.Providers.Identity.{
  is_empty, parse_provider_id, MachineProvider, MachineState,
}
use cluster_api_provider_hyd.Controller.Objects.{
  HydraMachine, HydraCluster, Cluster, HypervisorSpec,
}
use cluster_api_provider_hyd.Controller.Hypervisors.{canonical_hypervisor, confirmed_hypervisor}
use cluster_api_provider_hyd.Controller.Naming.{backend_name}
use cluster_api_provider_hyd.Controller.Placement.{may_be_made_on_flags}
use cluster_api_provider_hyd.Controller.Clusters.World.{
  ClusterError, sentinel, hypervisor_pending, hypervisor_conflict, looked_for, ClusterEnv,
  ClusterAction, here, stored_machines, returned, on_backend, patch_status_locked, patch_machine,
}

-- Of the cluster's machines: those that are on the hypervisor and do not record it, whether one is
-- elsewhere, and whether one may be being made elsewhere.
pub record Census : Type 0 where
  pub unrecorded : List HydraMachine
  pub refused : Bool
  pub pending : Bool

pub record HypervisorCheck : Type 0 where
  pub address : Text
  pub unrecorded : List HydraMachine

abbrev pub refuse : Census → Census
refuse c = record c { refused = true }

unfoldable pub of_cluster : Text → List HydraMachine → List HydraMachine
of_cluster name [] = []
of_cluster name (m ∷ rest) =
    let more = of_cluster name rest in if m.cluster_label == name then m ∷ more else more

module _ {B : Type 0} (env : ClusterEnv B) where
  module _ (prov : MachineProvider B) where
    -- Whether the machine is not on the hypervisor, by its name and its id.
    abbrev pub is_elsewhere : Text → Result ClusterError MachineState → ClusterAction B Bool
    is_elsewhere id (ok state) = pure (not (state.id == id))
    is_elsewhere id (err (sentinel not_found)) = pure true
    is_elsewhere id (err e) = raise e

    abbrev pub looked_up : HydraMachine → Result Error (Text × Text) → ClusterAction B Bool
    looked_up m (err e) = pure true
    looked_up m (ok p) =
        let name = backend_name env.env.sha256_hex m in
        if not (p.0 == prov.name)
        then pure true
        else attempt (on_backend (prov.find_by_name name) (λ _. looked_for name))
          >>= is_elsewhere p.1

    unfoldable pub machine_on_hypervisor : HydraMachine → ClusterAction B Bool
    machine_on_hypervisor m = looked_up m (parse_provider_id m.provider_id)

    abbrev pub counted : Census → HydraMachine → Bool → ClusterAction B Census
    counted c m elsewhere =
        pure (if elsewhere then refuse c else record c { unrecorded = c.unrecorded ++ m ∷ [] })

    unfoldable pub count_machine : Text → Census → HydraMachine → ClusterAction B Census
    count_machine address c m =
        if m.deleting || m.hypervisor_annotation == address
        then pure c
        else if not (is_empty m.hypervisor_annotation)
        then pure (refuse c)
        else if is_empty m.provider_id
        then pure (if may_be_made_on_flags m then record c { pending = true } else c)
        else machine_on_hypervisor m >>= counted c m

    unfoldable pub count_machines : Text → List HydraMachine → Census → ClusterAction B Census
    count_machines address [] c = pure c
    count_machines address (m ∷ rest) c = count_machine address c m >>= count_machines address rest

    abbrev pub decided : Text → Census → ClusterAction B (Option HypervisorCheck)
    decided address c =
        if c.refused
        then raise (sentinel terminal)
        else if c.pending
        then raise hypervisor_pending
        else pure (some (record { address = address; unrecorded = c.unrecorded }))

    abbrev pub no_census : Census
    no_census = record { unrecorded = []; refused = false; pending = false }

    abbrev pub check_address : Option Cluster → Text → ClusterAction B (Option HypervisorCheck)
    check_address none address = raise (sentinel other)
    check_address (some cluster) address =
        if env.list_fails
        then raise (sentinel other)
        else stored_machines >>= λ machines.
            count_machines address (of_cluster cluster.name machines) no_census >>= decided address

    abbrev pub check_named :
        Option Cluster → Option HypervisorSpec → ClusterAction B (Option HypervisorCheck)
    check_named cluster none = pure none
    check_named cluster (some spec) =
        returned (canonical_hypervisor spec.address) >>= check_address cluster

    unfoldable pub check_hypervisor : Option Cluster → ClusterAction B (Option HypervisorCheck)
    check_hypervisor cluster = here >>= λ hc. check_named cluster hc.hypervisor

  abbrev pub confirmed_as : HydraCluster → HydraCluster
  confirmed_as hc = record hc {
    confirmed = elim hc.hypervisor [ none ↦ none | some spec ↦ some spec.address ];
  }

  abbrev pub unless_conflict : Bool → ClusterAction B (Unit {0})
  unless_conflict conflicted = if conflicted then raise hypervisor_conflict else pure tt

  unfoldable pub confirm : ClusterAction B (Unit {0})
  confirm = here >>= λ hc.
      if confirmed_hypervisor hc
      then pure tt
      else patch_status_locked env confirmed_as >>= unless_conflict

  abbrev pub on : Text → HydraMachine → HydraMachine
  on address m = record m { hypervisor_annotation = address }

  -- Whether a write was overtaken; the other machines are still written.
  unfoldable pub record_machines : Text → List HydraMachine → Bool → ClusterAction B Bool
  record_machines address [] conflicted = pure conflicted
  record_machines address (m ∷ rest) conflicted =
      patch_machine env m.name (on address) >>= λ overtaken.
      record_machines address rest (conflicted || overtaken)

  unfoldable pub commit_hypervisor : HypervisorCheck → ClusterAction B (Unit {0})
  commit_hypervisor check =
      confirm >> (record_machines check.address check.unrecorded false >>= unless_conflict)
