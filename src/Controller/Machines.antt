-- ===== src/Controller/Machines.antt =====
-- internal/controller/hydramachine_controller.go: the reconcile of a HydraMachine.
pub mod Stable
pub mod Kept
pub mod Records
pub mod Targets
pub mod Teardown
pub mod Gate
pub mod Provision
pub mod Reports
pub mod Retry
mod Restart
mod Scenarios
use cluster_api_provider_hyd.Base.{
  ℕ, Bool, true, false, not, ◌&&◌, ◌||◌, Option, none, some, List, [], ◌∷◌, Eq, ◌==◌, nat_eq,
  list_eq, if◌then◌else◌, Text,
}
use cluster_api_provider_hyd.Base.Exec.{Result, ok, err, Exec, ◌>>=◌, ◌>>◌, pure, raise, attempt}
use cluster_api_provider_hyd.Providers.Errors.{
  Error, not_found, invalid_id, terminal, waiting, other, Wait, is_not_found,
}
use cluster_api_provider_hyd.Providers.Identity.{
  is_empty, provider_id, parse_provider_id, MachineProvider, MachineSpec, MachineState,
}
use cluster_api_provider_hyd.Controller.Objects.{HydraMachine, Phase, provisioning, deleting}
use cluster_api_provider_hyd.Controller.World.{
  Env, World, Action, Call, created, deleted, deleted_by_name, failure, here, returned, on_backend,
  patch,
}
use cluster_api_provider_hyd.Controller.Linkage.{
  Link, resolve_linkage, cluster_ready_for_create, bootstrap_data_for, paused_reason,
}
use cluster_api_provider_hyd.Controller.Naming.{backend_name}
use cluster_api_provider_hyd.Controller.Placement.{
  with_cluster_by_label_for_deletion, placement_for, release_owner, release, connect,
}
use cluster_api_provider_hyd.Controller.Spec.{spec_for, storage_pool_of, name_only, has_ip_address}
use cluster_api_provider_hyd.Controller.Status.{
  wait_reason_for, update_status, record_waiting, record_error, set_paused,
}

-- `ctrl.Result`: when to look again, if not on an event.
pub data Requeue : Type 0 where
  no_requeue while_provisioning while_healthy : Requeue

unfoldable pub machine_id_for : Text → Text → Result Error Text
machine_id_for backend id = elim (parse_provider_id id) [
  | err e ↦ err terminal
  | ok p ↦ (if not (p.0 == backend) then err terminal else ok p.1)
]

-- The error that `Get` returned, as `ensureMachine` passes it on.
abbrev get_failed : Error → Error
get_failed invalid_id = terminal
get_failed not_found = terminal
get_failed e = e

unfoldable pub placed : Text → Text → HydraMachine → HydraMachine
placed pool hypervisor m = record m {
  storage_pool_annotation =
      if is_empty m.storage_pool_annotation then pool else m.storage_pool_annotation;
  hypervisor_annotation =
      if is_empty m.hypervisor_annotation then hypervisor else m.hypervisor_annotation;
}

unfoldable pub recorded_already : Text → Text → HydraMachine → Bool
recorded_already pool hypervisor m =
    let write_pool = is_empty m.storage_pool_annotation && not (is_empty pool) in
    let write_hypervisor = not (is_empty hypervisor) && is_empty m.hypervisor_annotation in
    not write_pool && not write_hypervisor

abbrev found_id : Result Error MachineState → Result Error Text
found_id (ok state) = ok state.id
found_id (err e) = if is_not_found e then ok [] else err e

-- A pool that resolved to nothing leaves the spec's.
abbrev in_pool : Text → MachineSpec → MachineSpec
in_pool pool spec = if is_empty pool then spec else record spec { storage_pool = pool }

module _ {B : Type 0} (env : Env B) where
  abbrev name_of : HydraMachine → Text
  name_of = backend_name env.sha256_hex

  unfoldable pub verify_ownership : HydraMachine → MachineState → Result Error MachineState
  verify_ownership m state = if not (state.name == name_of m) then err terminal else ok state

  unfoldable pub record_placement : Text → Text → Action B Text
  record_placement pool hypervisor = here >>= λ m.
      let kept = if is_empty m.storage_pool_annotation then pool else m.storage_pool_annotation in
      if recorded_already pool hypervisor m
      then pure kept
      else (patch env (placed pool hypervisor) >> pure kept)

  -- An error on the way is recorded and returned.
  unfoldable pub recording : {A : Type 0} → Phase → Action B A → Action B A
  recording phase action =
      attempt action >>= λ r. elim r [ ok a ↦ pure a | err e ↦ record_error env phase e >> raise e ]

  module _ (prov : MachineProvider B) where
    -- The machine that the recorded providerID names.
    unfoldable pub ensure_recorded : HydraMachine → Action B MachineState
    ensure_recorded m = returned (machine_id_for prov.name m.provider_id) >>= λ id.
        attempt (on_backend (prov.get id) (λ _. [])) >>= λ got. elim got [
          | ok state ↦ returned (verify_ownership m state)
          | err e ↦ raise (get_failed e)
        ]

    -- Nothing exists, so every condition of a creation must hold.
    unfoldable pub spec_to_create : Link → Text → Action B MachineSpec
    spec_to_create link placement = returned (cluster_ready_for_create link) >>= λ _.
        returned (bootstrap_data_for env.reader link) >>= λ data_. here >>= λ m.
        returned (spec_for env.sha256_hex m link data_) >>= λ spec.
        record_placement (prov.storage_pool_for spec.storage_pool) placement >>= λ pool.
        pure (in_pool pool spec)

    -- The spec with which `Create` adopts the machine that was found, or makes one.
    unfoldable pub spec_after : Link → Text → Result Error MachineState → Action B MachineSpec
    spec_after link placement (ok _) =
        here >>= λ m. record_placement [] placement >> pure (name_only (name_of m))
    spec_after link placement (err e) =
        if is_not_found e then spec_to_create link placement else raise e

    unfoldable pub create_and_record : MachineSpec → Action B MachineState
    create_and_record spec = on_backend (prov.create spec) (λ _. created spec ∷ []) >>= λ state.
        patch env (λ m. record m { provider_id = provider_id prov.name state.id }) >> pure state

    unfoldable pub ensure_machine : Link → Text → Action B MachineState
    ensure_machine link placement = here >>= λ m.
        if not (is_empty m.provider_id)
        then ensure_recorded m
        else (attempt (on_backend (prov.find_by_name (name_of m)) (λ _. [])) >>= λ found.
            spec_after link placement found >>= create_and_record)

    unfoldable pub add_finalizer : Action B (Unit {0})
    add_finalizer = here >>= λ m.
        if m.finalizer then pure tt else patch env (λ m. record m { finalizer = true })

    unfoldable pub requeue_for : MachineState → Requeue
    requeue_for state =
        if not state.ready || not (has_ip_address state.addresses)
        then while_provisioning
        else while_healthy

    -- What is recorded for the answer of `ensureMachine`.
    unfoldable pub report : Result Error MachineState → Action B Requeue
    report (ok state) = update_status env state >> pure (requeue_for state)
    report (err e) = elim (wait_reason_for e) [
      | some w ↦ record_waiting env w >> pure while_provisioning
      | none ↦ record_error env provisioning e >> raise e
    ]

    unfoldable pub reconcile_normal : Link → Text → Action B Requeue
    reconcile_normal link placement =
        add_finalizer >> (attempt (ensure_machine link placement) >>= report)

    unfoldable pub target_by_name : HydraMachine → Action B Text
    target_by_name m = attempt (on_backend (prov.find_by_name (name_of m)) (λ _. [])) >>= λ found.
        returned (found_id found)

    abbrev owned_id : HydraMachine → Text → MachineState → Result Error Text
    owned_id m id state = elim (verify_ownership m state) [ ok _ ↦ ok id | err e ↦ err e ]

    -- What `Get` answered for the id of the providerID.
    unfoldable pub target_after : HydraMachine → Text → Result Error MachineState → Action B Text
    target_after m id (ok state) = returned (owned_id m id state)
    target_after m id (err not_found) = target_by_name m
    target_after m id (err invalid_id) = target_by_name m
    target_after m id (err e) = raise e

    unfoldable pub target_by_id : HydraMachine → Text → Action B Text
    target_by_id m id = attempt (on_backend (prov.get id) (λ _. [])) >>= target_after m id

    -- The providerID as it was read: one that is unusable names nothing.
    unfoldable pub target_of : HydraMachine → Result Error Text → Action B Text
    target_of m (ok id) = target_by_id m id
    target_of m (err e) = target_by_name m

    unfoldable pub deletion_target_for : HydraMachine → Action B Text
    deletion_target_for m =
        if not (is_empty m.provider_id)
        then target_of m (machine_id_for prov.name m.provider_id)
        else target_by_name m

    unfoldable pub delete_target : Text → Action B (Unit {0})
    delete_target id =
        if is_empty id
        then pure tt
        else on_backend (prov.delete id) (λ r. deleted id (failure r) ∷ [])

    unfoldable pub sweep : HydraMachine → Link → Action B (Unit {0})
    sweep m link =
        let pool = storage_pool_of m link in
        on_backend (prov.delete_by_name (name_of m) pool)
          (λ r. deleted_by_name (name_of m) pool (failure r) ∷ [])

    unfoldable pub reconcile_delete : Link → Action B Requeue
    reconcile_delete link = here >>= λ m.
        if not m.finalizer
        then pure no_requeue
        else (recording deleting (deletion_target_for m) >>= λ id.
            recording deleting (delete_target id)
            >> recording deleting (sweep m link)
            >> patch env (λ m. record m { finalizer = false })
            >> release env m
            >> pure no_requeue)

  abbrev phase_of : HydraMachine → Phase
  phase_of m = if m.deleting then deleting else provisioning

  -- No connection: a wait, or an error.
  unfoldable pub unconnected : Error → Action B Requeue
  unconnected e = elim (wait_reason_for e) [
    | some w ↦ record_waiting env w >> pure while_provisioning
    | none ↦ here >>= λ m. record_error env (phase_of m) e >> raise e
  ]

  unfoldable pub reconcile_placed : Link → Action B Requeue
  reconcile_placed link = here >>= λ m.
      attempt {A = Text × MachineProvider B}
        (returned (placement_for m link) >>= λ at. connect env link at >>= λ prov. pure (at, prov))
      >>= λ r. elim r [
        | err e ↦ unconnected e
        | ok p ↦ (if m.deleting then reconcile_delete p.1 link else reconcile_normal p.1 link p.0)
      ]

  unfoldable pub reconcile_linked : Link → Action B Requeue
  reconcile_linked link = here >>= λ m. elim (paused_reason m.paused_annotation link.cluster) [
    | some reason ↦ set_paused env (some reason) >> pure no_requeue
    | none ↦ set_paused env none >> reconcile_placed link
  ]

  -- The reconcile of an object that was read.
  unfoldable pub reconcile : Action B Requeue
  reconcile = here >>= λ m.
      recording provisioning (returned (resolve_linkage env.reader m)) >>= λ link.
      recording deleting (returned (with_cluster_by_label_for_deletion env.reader m link))
      >>= reconcile_linked

  -- A request, and what the read of its object answered: one that is gone only releases its share of
  -- a connection.
  unfoldable pub reconcile_request : Text → Text → Result Error HydraMachine → Action B Requeue
  reconcile_request namespace name (ok m) w = reconcile (record w { machine = m })
  reconcile_request namespace name (err e) w =
      (if is_not_found e then release_owner env namespace name >> pure no_requeue else raise e) w
