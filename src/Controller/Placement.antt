-- ===== src/Controller/Placement.antt =====
-- internal/controller/hydramachine_controller.go: which hypervisor a machine's operations go to, and
-- the connection to it. `r.Client` reads what `Env.reader` reads.
mod Connection
mod Examples
use cluster_api_provider_hyd.Base.{
  Bool, false, not, ◌&&◌, ◌||◌, Option, none, some, [], ◌==◌, nat_eq, list_eq, if◌then◌else◌, Text,
  is_some,
}
use cluster_api_provider_hyd.Base.Exec.{Result, ok, err, ◌>>=◌, ◌>>◌, pure, raise}
use cluster_api_provider_hyd.Providers.Errors.{
  Error, terminal, waiting, for_hypervisor, for_hypervisor_credentials, is_terminal,
}
use cluster_api_provider_hyd.Providers.Identity.{is_empty, MachineProvider}
use cluster_api_provider_hyd.Controller.Objects.{
  HydraMachine, Cluster, HydraCluster, HypervisorSpec,
}
use cluster_api_provider_hyd.Controller.World.{
  Env, Action, released, tell, here, returned, Reader, Hypervisor,
}
use cluster_api_provider_hyd.Controller.Linkage.{Link, if_found, names_infra, hydra_cluster_kind}
use cluster_api_provider_hyd.Controller.Hypervisors.{
  canonical_hypervisor, hypervisor_of, confirmed_hypervisor,
}

abbrev then_hydra_cluster :
    Cluster → Result Error HydraCluster → Result Error (Option Cluster × Option HydraCluster)
then_hydra_cluster c r = if_found r (λ hc. ok (some c, some hc)) (ok (some c, none))

unfoldable pub cluster_by_label :
    Reader → HydraMachine → Result Error (Option Cluster × Option HydraCluster)
cluster_by_label reader m =
    if is_empty m.cluster_label
    then ok (none, none)
    else if_found (reader.get_cluster m.cluster_label)
        (λ c.
          if names_infra hydra_cluster_kind c.infra_ref
          then then_hydra_cluster c (reader.get_hydra_cluster c.infra_ref.name)
          else ok (some c, none))
        (ok (none, none))

abbrev or_else : {A : Type 0} → Option A → Option A → Option A
or_else none b = b
or_else (some a) b = some a

abbrev complete : Link → Result Error (Option Cluster × Option HydraCluster) → Result Error Link
complete link (err e) = err e
complete link (ok p) = ok (record link {
  cluster = or_else link.cluster p.0;
  hydra_cluster = or_else link.hydra_cluster p.1;
})

unfoldable pub with_cluster_by_label_for_deletion : Reader → HydraMachine → Link → Result Error Link
with_cluster_by_label_for_deletion reader m link =
    if not m.deleting || (is_some link.cluster && is_some link.hydra_cluster)
    then ok link
    else complete link (cluster_by_label reader m)

unfoldable pub may_be_made_on_flags : HydraMachine → Bool
may_be_made_on_flags m = not (is_empty m.provider_id) || not (is_empty m.storage_pool_annotation)

abbrev pub hypervisor_spec : Option HydraCluster → Option HypervisorSpec
hypervisor_spec none = none
hypervisor_spec (some hc) = hc.hypervisor

abbrev pub is_confirmed : Option HydraCluster → Bool
is_confirmed none = false
is_confirmed (some hc) = confirmed_hypervisor hc

-- The machine has no record and was never attempted: its cluster's hypervisor.
unfoldable pub placement_by_cluster : HydraMachine → Option HydraCluster → Result Error Text
placement_by_cluster m hydra_cluster = elim (hypervisor_spec hydra_cluster) [
  | none ↦ ok []
  | some spec ↦
      (if not (is_confirmed hydra_cluster)
        then (if m.deleting then ok [] else err (waiting for_hypervisor))
        else canonical_hypervisor spec.address)
]

unfoldable pub placement_for : HydraMachine → Link → Result Error Text
placement_for m link =
    if not (is_empty m.hypervisor_annotation)
    then ok m.hypervisor_annotation
    else if may_be_made_on_flags m
    then ok []
    else placement_by_cluster m link.hydra_cluster

abbrev pub terminal_waits : {A : Type 0} → Result Error A → Result Error A
terminal_waits (ok a) = ok a
terminal_waits (err e) = if is_terminal e then err (waiting for_hypervisor_credentials) else err e

abbrev pub names : Result Error Text → Text → Bool
names (ok named) placement = named == placement
names (err e) placement = false

module _ {B : Type 0} (env : Env B) where
  unfoldable pub hypervisor_for : Link → Text → Result Error (Option Hypervisor)
  hypervisor_for link placement =
      if is_empty placement then ok none else elim (hypervisor_spec link.hydra_cluster) [
        | none ↦ err (waiting for_hypervisor_credentials)
        | some spec ↦
            (if not (names (canonical_hypervisor spec.address) placement)
              then err (waiting for_hypervisor_credentials)
              else terminal_waits (hypervisor_of env (some spec)))
      ]

  -- Tells the connection holder that an owner no longer uses a connection.
  unfoldable pub release_owner : Text → Text → Action B (Unit {0})
  release_owner namespace name = if env.releases then tell (released namespace name) else pure tt

  unfoldable pub release : HydraMachine → Action B (Unit {0})
  release m = release_owner m.namespace m.name

  abbrev pub dial :
      (Option Hypervisor → Result Error (MachineProvider B))
      → Option Hypervisor
      → Action B (MachineProvider B)
  dial provider_for none = here >>= λ m. release m >> returned (provider_for none)
  dial provider_for (some h) = returned (provider_for (some h))

  -- The method `provider`, asked with the machine's own copy.
  unfoldable pub connect : Link → Text → Action B (MachineProvider B)
  connect link placement = elim env.provider [
    | some p ↦ pure p
    | none ↦ elim env.provider_for [
      | none ↦ raise terminal
      | some provider_for ↦ returned (hypervisor_for link placement) >>= dial provider_for
    ]
  ]
