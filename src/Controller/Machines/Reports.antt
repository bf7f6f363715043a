-- ===== src/Controller/Machines/Reports.antt =====
-- What a reconcile reports, and what it leaves alone while the object is paused.
use cluster_api_provider_hyd.Base.{◌≡◌, ◌⊎◌, refl, ap, sym, subst, true, Option, none, some, ◌∷◌}
use cluster_api_provider_hyd.Base.Exec.{
  Result, ok, err, ◌>>◌, pure, raise, Keeps, Keeps-pure, Keeps-raise, still,
}
use cluster_api_provider_hyd.Providers.Errors.{
  Error, not_found, invalid_id, terminal, other, waiting,
}
use cluster_api_provider_hyd.Providers.Identity.{MachineProvider, MachineState}
use cluster_api_provider_hyd.Controller.Objects.{
  HydraMachine, Condition, PauseReason, provisioning, phase_failed,
}
use cluster_api_provider_hyd.Controller.World.{
  Env, World, Action, Call, status_patched, patch_status, written, note, tell,
}
use cluster_api_provider_hyd.Controller.Status.{
  observed, waited, failed, update_status, record_waiting, record_error, wait_reason_for,
  pause_marked,
}
use cluster_api_provider_hyd.Controller.Machines

module _ {B : Type 0} (env : Env B) where
  -- At most one call, a write of the status, and only the Paused condition may differ.
  abbrev pub OnlyMarked : PauseReason → World B → World B → Type 0
  OnlyMarked reason w v =
      (v.backend ≡ w.backend)
      × ((v ≡ w)
          ⊎ ((o : Option Error) × (v.log ≡ status_patched o ∷ w.log)
              × (v.machine ≡ pause_marked (some reason) w.machine)
              × ((v.stored ≡ w.stored) ⊎ (v.stored ≡ pause_marked (some reason) w.stored))))

  -- What becomes of the ProvisioningFailed condition, by the answer of `ensureMachine`.
  abbrev pub FailedAfter : Result Error MachineState → Option Condition → Option Condition → Type 0
  FailedAfter (ok s) before after = after ≡ none
  FailedAfter (err (waiting w)) before after = after ≡ none
  FailedAfter (err terminal) before after =
      (c : Condition) × (after ≡ some c)
      × (c.status ≡ true)
      × (c.reason ≡ phase_failed provisioning)
  FailedAfter (err not_found) before after = after ≡ before
  FailedAfter (err invalid_id) before after = after ≡ before
  FailedAfter (err other) before after = after ≡ before

  status_machine :
      (o : Option Error) (f : HydraMachine → HydraMachine) (w : World B)
      → (note (status_patched o) (written o f w)).machine ≡ f w.machine
  unfolding written
  status_machine none f w = refl
  status_machine (some e) f w = refl

  patch_status-machine :
      (f : HydraMachine → HydraMachine) (w : World B)
      → (patch_status env f w).1.machine ≡ f w.machine
  unfolding patch_status
  patch_status-machine f w = status_machine (env.write_fails w.log) f w

  tell-Keeps :
      (P : HydraMachine → Type 0) (c : Call) → Keeps (λ (v : World B). P v.machine) (tell c)
  unfolding tell
  tell-Keeps P c = record { at = λ v h. h }

  -- After a write of the status come a count and the answer.
  then_tell :
      {A : Type 0} (P : HydraMachine → Type 0) (f : HydraMachine → HydraMachine) (c : Call)
      (m : Action B A) (w : World B)
      → Keeps (λ v. P v.machine) m
      → P (f w.machine)
      → P (((patch_status env f >> tell c) >> m) w).1.machine
  then_tell P f c m w k h =
      let Q : World B → Type 0 = λ v. P v.machine in
      let start = subst P (sym (patch_status-machine f w)) h in
      still Q (patch_status env f >> tell c) (λ _. m) w
        (still Q (patch_status env f) (λ _. tell c) w start λ _. tell-Keeps P c) (λ _. k)

  error_reported :
      (e : Error) (w : World B) (P : HydraMachine → Type 0)
      → P (failed provisioning e w.machine)
      → P ((record_error env provisioning e >> raise {A = Machines.Requeue} e) w).1.machine
  unfolding record_error
  error_reported e w P = then_tell P (failed provisioning e) _ (raise e) w (Keeps-raise e)

  -- The condition ProvisioningFailed after a reconcile has reported: it is gone after an observation of
  -- the backend and after a wait, it is raised by a terminal error, and any other error leaves it.
  pub failures_reported :
      (prov : MachineProvider B) (r : Result Error MachineState) (w : World B)
      → FailedAfter r w.machine.provisioning_failed
          (Machines.report env prov r w).1.machine.provisioning_failed
  unfolding Machines.report wait_reason_for record_waiting update_status observed waited failed
  failures_reported prov (ok s) w =
      still (λ v. v.machine.provisioning_failed ≡ none) (patch_status env (observed s))
        (λ _. pure (Machines.requeue_for env prov s)) w
        (ap (λ m. m.provisioning_failed) (patch_status-machine (observed s) w)) (λ _. Keeps-pure _)
  failures_reported prov (err (waiting x)) w =
      then_tell (λ m. m.provisioning_failed ≡ none) (waited x) _ (pure Machines.while_provisioning)
        w (Keeps-pure _) refl
  failures_reported prov (err terminal) w =
      error_reported terminal w
        (λ m. FailedAfter (err terminal) w.machine.provisioning_failed m.provisioning_failed)
        (_, refl, refl, refl)
  failures_reported prov (err not_found) w =
      error_reported not_found w (λ m. m.provisioning_failed ≡ w.machine.provisioning_failed) refl
  failures_reported prov (err invalid_id) w =
      error_reported invalid_id w (λ m. m.provisioning_failed ≡ w.machine.provisioning_failed) refl
  failures_reported prov (err other) w =
      error_reported other w (λ m. m.provisioning_failed ≡ w.machine.provisioning_failed) refl
