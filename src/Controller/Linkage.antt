-- ===== src/Controller/Linkage.antt =====
-- internal/controller/clusterapi.go: the Cluster API objects around a HydraMachine, the pause
-- signals, and the conditions that must hold before a machine is created.
use cluster_api_provider_hyd.Base.{
  ℕ, Bool, false, not, ◌&&◌, Option, none, some, List, [], ◌∷◌, ◌==◌, nat_eq, list_eq,
  if◌then◌else◌, Text, text, is_some,
}
use cluster_api_provider_hyd.Base.Exec.{Result, ok, err}
use cluster_api_provider_hyd.Providers.Errors.{
  Error, terminal, waiting, for_owner, for_cluster, for_cluster_infra, for_hydra_cluster,
  for_bootstrap, is_not_found,
}
use cluster_api_provider_hyd.Providers.Identity.{cut_slash, is_empty}
use cluster_api_provider_hyd.Controller.Objects.{
  OwnerRef, HydraMachine, InfraRef, Machine, Cluster, HydraCluster, Condition, PauseReason,
  own_annotation, cluster_spec, cluster_annotation,
}
use cluster_api_provider_hyd.Controller.World.{Reader}

abbrev pub machine_kind : Text
machine_kind = text "Machine"

abbrev pub hydra_machine_kind : Text
hydra_machine_kind = text "HydraMachine"

abbrev pub hydra_cluster_kind : Text
hydra_cluster_kind = text "HydraCluster"

abbrev pub cluster_group : Text
cluster_group = text "cluster.x-k8s.io"

abbrev pub infra_group : Text
infra_group = text "infrastructure.cluster.x-k8s.io"

pub record Link : Type 0 where
  pub standalone : Bool
  pub owner_name : Text
  pub cluster_name : Text
  pub machine : Option Machine
  pub cluster : Option Cluster
  pub hydra_cluster_name : Text
  pub hydra_cluster : Option HydraCluster

abbrev pub no_link : Link
no_link = record {
  standalone = false;
  owner_name = [];
  cluster_name = [];
  machine = none;
  cluster = none;
  hydra_cluster_name = [];
  hydra_cluster = none;
}

abbrev group_is : Text → Option (Text × Text) → Bool
group_is group none = false
group_is group (some p) = p.0 == group

unfoldable pub owner_ref_of_kind : List OwnerRef → Text → Option OwnerRef
owner_ref_of_kind [] kind = none
owner_ref_of_kind (ref ∷ refs) kind =
    let later = owner_ref_of_kind refs kind in
    if not (ref.kind == kind)
    then later
    else if group_is cluster_group (cut_slash ref.api_version)
    then some ref
    else later

abbrev pub owner_machine_ref : HydraMachine → Option OwnerRef
owner_machine_ref m = owner_ref_of_kind m.owner_references machine_kind

-- Whether an infrastructureRef names an object of this provider.
abbrev pub names_infra : Text → InfraRef → Bool
names_infra kind ref = ref.kind == kind && (ref.api_group == infra_group && not (is_empty ref.name))

-- A read whose object may be missing: what to make of it when it is there, and when it is not.
abbrev pub if_found :
    {A C : Type 0} → Result Error A → (A → Result Error C) → Result Error C → Result Error C
if_found (ok a) found missing = found a
if_found (err e) found missing = if is_not_found e then missing else err e

unfoldable pub link_hydra_cluster : Reader → Cluster → Link → Result Error Link
link_hydra_cluster reader cluster link =
    if not (names_infra hydra_cluster_kind cluster.infra_ref)
    then ok link
    else let named = record link { hydra_cluster_name = cluster.infra_ref.name } in
      if_found (reader.get_hydra_cluster cluster.infra_ref.name)
        (λ hc. ok (record named { hydra_cluster = some hc })) (ok named)

unfoldable pub link_cluster : Reader → Text → Link → Result Error Link
link_cluster reader cluster_name link =
    if is_empty cluster_name
    then ok link
    else let named = record link { cluster_name = cluster_name } in
      if_found (reader.get_cluster cluster_name)
        (λ c. link_hydra_cluster reader c (record named { cluster = some c })) (ok named)

unfoldable pub link_owner : Reader → HydraMachine → OwnerRef → Machine → Result Error Link
link_owner reader m ref owner =
    if not (is_empty ref.uid) && not (owner.uid == ref.uid)
    then ok (record no_link { owner_name = ref.name })
    else link_cluster reader
        (if is_empty owner.cluster_label then m.cluster_label else owner.cluster_label)
        (record no_link { owner_name = ref.name; machine = some owner })

abbrev resolve_from : Reader → HydraMachine → Option OwnerRef → Result Error Link
resolve_from reader m none = ok (record no_link { standalone = m.standalone_annotation })
resolve_from reader m (some ref) =
    if_found (reader.get_machine ref.name) (link_owner reader m ref)
      (ok (record no_link { owner_name = ref.name }))

unfoldable pub resolve_linkage : Reader → HydraMachine → Result Error Link
resolve_linkage reader m = resolve_from reader m (owner_machine_ref m)

unfoldable pub paused_reason : Bool → Option Cluster → Option PauseReason
paused_reason annotated cluster = if annotated then some own_annotation else elim cluster [
  | none ↦ none
  | some c ↦
      (if c.paused
        then some (cluster_spec c.name)
        else if c.paused_annotation
        then some (cluster_annotation c.name)
        else none)
]

-- The readiness that a HydraCluster reports, if it is current.
abbrev pub ready_condition : ℕ → Option Condition → Result Error (Unit {0})
ready_condition generation none = err (waiting for_cluster_infra)
ready_condition generation (some ready) =
    if not (ready.observed_generation == generation)
    then err (waiting for_cluster_infra)
    else if not ready.status
    then err (waiting for_cluster_infra)
    else ok tt

abbrev pub hydra_cluster_ready : Option HydraCluster → Result Error (Unit {0})
hydra_cluster_ready none = ok tt
hydra_cluster_ready (some hc) = ready_condition hc.generation hc.ready

abbrev pub then_provisioned : Cluster → Result Error (Unit {0}) → Result Error (Unit {0})
then_provisioned c (err e) = err e
then_provisioned c (ok _) =
    if not c.infrastructure_provisioned then err (waiting for_cluster_infra) else ok tt

abbrev pub cluster_ready : Link → Option Cluster → Result Error (Unit {0})
cluster_ready link none = err (waiting for_cluster)
cluster_ready link (some c) =
    if not (is_empty link.hydra_cluster_name) && not (is_some link.hydra_cluster)
    then err (waiting for_hydra_cluster)
    else then_provisioned c (hydra_cluster_ready link.hydra_cluster)

unfoldable pub cluster_ready_for_create : Link → Result Error (Unit {0})
cluster_ready_for_create link =
    if not (is_some link.machine) && not link.standalone
    then err (waiting for_owner)
    else if is_empty link.cluster_name
    then ok tt
    else cluster_ready link link.cluster

abbrev bootstrap_value : Option Text → Result Error Text
bootstrap_value none = err terminal
bootstrap_value (some value) = if is_empty value then err terminal else ok value

unfoldable pub bootstrap_data_for : Reader → Link → Result Error Text
bootstrap_data_for reader link = elim link.machine [
  | none ↦ (if not (is_empty link.owner_name) then err (waiting for_owner) else ok [])
  | some m ↦
      (if is_empty m.data_secret_name
        then err (waiting for_bootstrap)
        else if_found (reader.get_secret m.data_secret_name)
            (λ secret. bootstrap_value secret.value) (err (waiting for_bootstrap)))
]

-- The HydraMachine that an event on a Machine is for.
unfoldable pub machine_to_hydra_machine : Machine → List (Text × Text)
machine_to_hydra_machine m =
    if not (names_infra hydra_machine_kind m.infra_ref)
    then []
    else (m.namespace, m.infra_ref.name) ∷ []
