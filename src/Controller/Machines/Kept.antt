-- ===== src/Controller/Machines/Kept.antt =====
-- A whole reconcile keeps what every one of its changes keeps.
use cluster_api_provider_hyd.Base.{false, not, Option, none, some, nat_eq, list_eq, Text}
use cluster_api_provider_hyd.Base.Exec.{
  Result, ok, err, Keeps, Keeps-pure, Keeps-raise, Keeps-attempt, Keeps-if, Keeps-bind,
  Keeps-option, Keeps-result,
}
use cluster_api_provider_hyd.Providers.Errors.{
  Error, not_found, invalid_id, terminal, waiting, other, is_not_found,
}
use cluster_api_provider_hyd.Providers.Identity.{
  is_empty, MachineProvider, MachineSpec, MachineState,
}
use cluster_api_provider_hyd.Controller.Objects.{HydraMachine, Phase, provisioning, deleting}
use cluster_api_provider_hyd.Controller.World.{Env, Action, here, Hypervisor}
use cluster_api_provider_hyd.Controller.Linkage.{Link, paused_reason}
use cluster_api_provider_hyd.Controller.Placement.{connect, dial}
use cluster_api_provider_hyd.Controller.Status.{update_status, wait_reason_for}
use cluster_api_provider_hyd.Controller.Machines
use cluster_api_provider_hyd.Controller.Machines.Stable.{
  Stable, Both, Keeps-patch, Keeps-patch_status, Keeps-on_backend, Keeps-here, Keeps-returned,
  release-kept, set_paused-kept, record_waiting-kept, record_error-kept,
}

module _ {B : Type 0} (p : HydraMachine → Type 0) (env : Env B) (stable : Stable p) where
  record_placement-kept :
      (pool hypervisor : Text) → Keeps (Both p) (Machines.record_placement env pool hypervisor)
  unfolding Machines.record_placement
  record_placement-kept pool hypervisor = Keeps-bind here _ (Keeps-here p) λ m.
      Keeps-if (Machines.recorded_already pool hypervisor m) (λ _. Keeps-pure _)
        λ _.
          Keeps-bind _ _ (Keeps-patch p env _ (stable.by_placed pool hypervisor)) λ _. Keeps-pure _

  pub recording-kept :
      {A : Type 0} (phase : Phase) (m : Action B A)
      → Keeps (Both p) m
      → Keeps (Both p) (Machines.recording env phase m)
  unfolding Machines.recording
  recording-kept phase m k = Keeps-bind _ _ (Keeps-attempt _ k) λ r.
      Keeps-result r (λ a. Keeps-pure a)
        λ e. Keeps-bind _ _ (record_error-kept p env stable phase e) λ _. Keeps-raise e

  module _ (prov : MachineProvider B) where
    ensure_recorded-kept : (m : HydraMachine) → Keeps (Both p) (Machines.ensure_recorded env prov m)
    unfolding Machines.ensure_recorded
    ensure_recorded-kept m = Keeps-bind _ _ (Keeps-returned p _) λ id.
        Keeps-bind _ _ (Keeps-attempt _ (Keeps-on_backend p _ _))
          λ got. Keeps-result got (λ s. Keeps-returned p _) λ e. Keeps-raise _

    spec_to_create-kept :
        (link : Link) (placement : Text)
        → Keeps (Both p) (Machines.spec_to_create env prov link placement)
    unfolding Machines.spec_to_create
    spec_to_create-kept link placement = Keeps-bind _ _ (Keeps-returned p _) λ _.
        Keeps-bind _ _ (Keeps-returned p _) λ data_. Keeps-bind here _ (Keeps-here p) λ m.
          Keeps-bind _ _ (Keeps-returned p _)
            λ spec. Keeps-bind _ _ (record_placement-kept _ placement) λ pool. Keeps-pure _

    spec_after-kept :
        (link : Link) (placement : Text) (found : Result Error MachineState)
        → Keeps (Both p) (Machines.spec_after env prov link placement found)
    unfolding Machines.spec_after
    spec_after-kept link placement (ok s) =
        Keeps-bind here _ (Keeps-here p)
          λ m. Keeps-bind _ _ (record_placement-kept _ placement) λ _. Keeps-pure _
    spec_after-kept link placement (err e) =
        Keeps-if (is_not_found e) (λ _. spec_to_create-kept link placement) λ _. Keeps-raise e

    create_and_record-kept :
        (spec : MachineSpec) → Keeps (Both p) (Machines.create_and_record env prov spec)
    unfolding Machines.create_and_record
    create_and_record-kept spec =
        Keeps-bind _ _ (Keeps-on_backend p _ _)
          λ state. Keeps-bind _ _ (Keeps-patch p env _ (stable.by_id _)) λ _. Keeps-pure state

    pub ensure_machine-kept :
        (link : Link) (placement : Text)
        → Keeps (Both p) (Machines.ensure_machine env prov link placement)
    unfolding Machines.ensure_machine
    ensure_machine-kept link placement = Keeps-bind here _ (Keeps-here p) λ m.
        Keeps-if (not (is_empty m.provider_id)) (λ _. ensure_recorded-kept m)
          λ _.
            Keeps-bind _ _ (Keeps-attempt _ (Keeps-on_backend p _ _))
              λ found. Keeps-bind _ _ (spec_after-kept link placement found) create_and_record-kept

    pub report-kept : (r : Result Error MachineState) → Keeps (Both p) (Machines.report env prov r)
    unfolding Machines.report update_status
    report-kept (ok s) =
        Keeps-bind _ _ (Keeps-patch_status p env _ (stable.by_observed s)) λ _. Keeps-pure _
    report-kept (err e) =
        Keeps-option (wait_reason_for e)
          (Keeps-bind _ _ (record_error-kept p env stable provisioning e) λ _. Keeps-raise e)
          λ w. Keeps-bind _ _ (record_waiting-kept p env stable w) λ _. Keeps-pure _

    reconcile_normal-kept :
        (link : Link) (placement : Text)
        → Keeps (Both p) (Machines.reconcile_normal env prov link placement)
    unfolding Machines.reconcile_normal Machines.add_finalizer
    reconcile_normal-kept link placement =
        Keeps-bind _ _
          (Keeps-bind here _ (Keeps-here p) λ m.
            Keeps-if m.finalizer (λ _. Keeps-pure tt)
              λ _. Keeps-patch p env _ (stable.by_finalizer))
          λ _. Keeps-bind _ _ (Keeps-attempt _ (ensure_machine-kept link placement)) report-kept

    target_by_name-kept : (m : HydraMachine) → Keeps (Both p) (Machines.target_by_name env prov m)
    unfolding Machines.target_by_name
    target_by_name-kept m =
        Keeps-bind _ _ (Keeps-attempt _ (Keeps-on_backend p _ _)) λ found. Keeps-returned p _

    target_after-kept :
        (m : HydraMachine) (id : Text) (got : Result Error MachineState)
        → Keeps (Both p) (Machines.target_after env prov m id got)
    unfolding Machines.target_after
    target_after-kept m id (ok s) = Keeps-returned p _
    target_after-kept m id (err not_found) = target_by_name-kept m
    target_after-kept m id (err invalid_id) = target_by_name-kept m
    target_after-kept m id (err terminal) = Keeps-raise terminal
    target_after-kept m id (err other) = Keeps-raise other
    target_after-kept m id (err (waiting w)) = Keeps-raise (waiting w)

    target_by_id-kept :
        (m : HydraMachine) (id : Text) → Keeps (Both p) (Machines.target_by_id env prov m id)
    unfolding Machines.target_by_id
    target_by_id-kept m id =
        Keeps-bind _ _ (Keeps-attempt _ (Keeps-on_backend p _ _)) (target_after-kept m id)

    target_of-kept :
        (m : HydraMachine) (id : Result Error Text)
        → Keeps (Both p) (Machines.target_of env prov m id)
    unfolding Machines.target_of
    target_of-kept m (ok id) = target_by_id-kept m id
    target_of-kept m (err e) = target_by_name-kept m

    pub deletion_target_for-kept :
        (m : HydraMachine) → Keeps (Both p) (Machines.deletion_target_for env prov m)
    unfolding Machines.deletion_target_for
    deletion_target_for-kept m =
        Keeps-if (not (is_empty m.provider_id))
          (λ _. target_of-kept m (Machines.machine_id_for prov.name m.provider_id))
          λ _. target_by_name-kept m

  unconnected-kept : (e : Error) → Keeps (Both p) (Machines.unconnected env e)
  unfolding Machines.unconnected
  unconnected-kept e =
      Keeps-option (wait_reason_for e)
        (Keeps-bind here _ (Keeps-here p)
          λ m. Keeps-bind _ _ (record_error-kept p env stable _ e) λ _. Keeps-raise e)
        λ w. Keeps-bind _ _ (record_waiting-kept p env stable w) λ _. Keeps-pure _

  dial-kept :
      (f : Option Hypervisor → Result Error (MachineProvider B)) (h : Option Hypervisor)
      → Keeps (Both p) (dial env f h)
  dial-kept f none =
      Keeps-bind here _ (Keeps-here p)
        λ m. Keeps-bind _ _ (release-kept p env stable m) λ _. Keeps-returned p _
  dial-kept f (some h) = Keeps-returned p _

  connect-kept : (link : Link) (at : Text) → Keeps (Both p) (connect env link at)
  unfolding connect
  connect-kept link at =
      Keeps-option env.provider
        (Keeps-option env.provider_for (Keeps-raise terminal)
          λ f. Keeps-bind _ _ (Keeps-returned p _) (dial-kept f))
        λ q. Keeps-pure q

  module _ (removal : (m : HydraMachine) → p m → p (record m { finalizer = false })) where
    reconcile_delete-kept :
        (prov : MachineProvider B) (link : Link)
        → Keeps (Both p) (Machines.reconcile_delete env prov link)
    unfolding Machines.reconcile_delete Machines.delete_target Machines.sweep
    reconcile_delete-kept prov link = Keeps-bind here _ (Keeps-here p) λ m.
        Keeps-if (not m.finalizer) (λ _. Keeps-pure _)
          λ _. Keeps-bind _ _ (recording-kept deleting _ (deletion_target_for-kept prov m)) λ id.
            Keeps-bind _ _
              (Keeps-bind _ _
                (Keeps-bind _ _
                  (Keeps-bind _ _
                    (recording-kept deleting _
                      (Keeps-if (is_empty id) (λ _. Keeps-pure tt) λ _. Keeps-on_backend p _ _))
                    λ _. recording-kept deleting _ (Keeps-on_backend p _ _))
                  λ _. Keeps-patch p env _ (removal))
                λ _. release-kept p env stable m)
              λ _. Keeps-pure _

    reconcile_placed-kept : (link : Link) → Keeps (Both p) (Machines.reconcile_placed env link)
    unfolding Machines.reconcile_placed
    reconcile_placed-kept link = Keeps-bind here _ (Keeps-here p) λ m.
        Keeps-bind _ _
          (Keeps-attempt _ (
            Keeps-bind _ _ (Keeps-returned p _)
              λ at. Keeps-bind _ _ (connect-kept link at) λ prov. Keeps-pure _))
          λ r.
            Keeps-result r
              (λ q.
                Keeps-if m.deleting (λ _. reconcile_delete-kept q.1 link)
                  λ _. reconcile_normal-kept q.1 link q.0)
              unconnected-kept

    reconcile_linked-kept : (link : Link) → Keeps (Both p) (Machines.reconcile_linked env link)
    unfolding Machines.reconcile_linked
    reconcile_linked-kept link = Keeps-bind here _ (Keeps-here p) λ m.
        Keeps-option (paused_reason m.paused_annotation link.cluster)
          (Keeps-bind _ _ (set_paused-kept p env stable none) λ _. reconcile_placed-kept link)
          λ reason. Keeps-bind _ _ (set_paused-kept p env stable (some reason)) λ _. Keeps-pure _

    pub reconcile-kept : Keeps (Both p) (Machines.reconcile env)
    unfolding Machines.reconcile
    reconcile-kept = Keeps-bind here _ (Keeps-here p) λ m.
        Keeps-bind _ _ (recording-kept provisioning _ (Keeps-returned p _)) λ link.
          Keeps-bind _ _ (recording-kept deleting _ (Keeps-returned p _)) reconcile_linked-kept
