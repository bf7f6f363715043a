-- ===== src/Controller/Status.antt =====
-- internal/controller/hydramachine_controller.go and clusterapi.go: what a reconcile records in a
-- HydraMachine's status.
use cluster_api_provider_hyd.Base.{
  Bool, true, false, not, Option, none, some, ◌==◌, nat_eq, list_eq, if◌then◌else◌, is_some, ◌≡◌,
  refl, ==_refl,
}
use cluster_api_provider_hyd.Base.Exec.{◌>>=◌, ◌>>◌, pure}
use cluster_api_provider_hyd.Providers.Errors.{Error, waiting, Wait, is_terminal, classify_outcome}
use cluster_api_provider_hyd.Providers.Identity.{MachineState}
use cluster_api_provider_hyd.Controller.Objects.{
  HydraMachine, is_provisioned, is_provisioning, waits, phase_failed, phase_failed_retrying, Phase,
  PauseReason, own_annotation, cluster_spec, cluster_annotation, PausedCondition,
}
use cluster_api_provider_hyd.Controller.World.{
  Env, Action, wait_counted, failure_counted, tell, here, patch_status,
}
use cluster_api_provider_hyd.Controller.Spec.{to_machine_addresses}

unfoldable pub wait_reason_for : Error → Option Wait
wait_reason_for (waiting w) = some w
wait_reason_for e = none

abbrev pub latched : Option Bool → Option Bool
latched none = some false
latched (some b) = some b

-- The change that a backend's observation makes.
unfoldable pub observed : MachineState → HydraMachine → HydraMachine
observed state m = record m {
  provisioned = if state.ready then some true else latched m.provisioned;
  addresses = to_machine_addresses state.addresses;
  ready = some (record {
    status = state.ready;
    reason = if state.ready then is_provisioned else is_provisioning;
    observed_generation = m.generation;
  });
  provisioning_failed = none;
}

unfoldable pub waited : Wait → HydraMachine → HydraMachine
waited w m = record m {
  ready = some (record { status = false; reason = waits w; observed_generation = m.generation });
  provisioning_failed = none;
}

unfoldable pub failed : Phase → Error → HydraMachine → HydraMachine
failed phase cause m =
    let reason = if is_terminal cause then phase_failed phase else phase_failed_retrying phase in
    record m {
      ready = some (record { status = false; reason = reason; observed_generation = m.generation });
      provisioning_failed =
          if is_terminal cause
          then some (record { status = true; reason = reason; observed_generation = m.generation })
          else m.provisioning_failed;
    }

abbrev reason_beq : PauseReason → PauseReason → Bool
reason_beq own_annotation own_annotation = true
reason_beq (cluster_spec a) (cluster_spec b) = a == b
reason_beq (cluster_annotation a) (cluster_annotation b) = a == b
reason_beq a b = false

abbrev signal_beq : Option PauseReason → Option PauseReason → Bool
signal_beq none none = true
signal_beq (some a) (some b) = reason_beq a b
signal_beq a b = false

unfoldable pub pause_marked : Option PauseReason → HydraMachine → HydraMachine
pause_marked signal m = record m {
  paused = some (record { signal = signal; observed_generation = m.generation });
}

-- Whether the condition already says so; one that is absent says that nothing pauses.
unfoldable pub says : Option PausedCondition → Option PauseReason → Bool
says none signal = not (is_some signal)
says (some c) signal = signal_beq c.signal signal

pub says_own : (c : PausedCondition) → says (some c) c.signal ≡ true
unfolding says
says_own c = signal_refl c.signal
  where
    signal_refl : (signal : Option PauseReason) → signal_beq signal signal ≡ true
    signal_refl none = refl
    signal_refl (some own_annotation) = refl
    signal_refl (some (cluster_spec name)) = ==_refl name
    signal_refl (some (cluster_annotation name)) = ==_refl name

module _ {B : Type 0} (env : Env B) where
  unfoldable pub update_status : MachineState → Action B (Unit {0})
  update_status state = patch_status env (observed state)

  unfoldable pub record_waiting : Wait → Action B (Unit {0})
  record_waiting w = patch_status env (waited w) >> tell (wait_counted w)

  unfoldable pub record_error : Phase → Error → Action B (Unit {0})
  record_error phase cause =
      patch_status env (failed phase cause)
      >> tell (failure_counted phase (classify_outcome (some cause)))

  unfoldable pub set_paused : Option PauseReason → Action B (Unit {0})
  set_paused signal =
      here >>= λ m. if says m.paused signal then pure tt else patch_status env (pause_marked signal)
