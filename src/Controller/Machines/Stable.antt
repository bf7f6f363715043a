-- ===== src/Controller/Machines/Stable.antt =====
-- Facts about a HydraMachine that no change of a reconcile undoes, in the stored object as in the
-- reconciler's copy.
use cluster_api_provider_hyd.Base.{true, Option, none, some, List, nat_eq, list_eq, Text}
use cluster_api_provider_hyd.Base.Exec.{Result, Exec, Keeps, Keeps-pure, Keeps-if, Keeps-bind}
use cluster_api_provider_hyd.Providers.Errors.{Error, Wait}
use cluster_api_provider_hyd.Providers.Identity.{MachineState}
use cluster_api_provider_hyd.Controller.Objects.{HydraMachine, Phase, PauseReason}
use cluster_api_provider_hyd.Controller.World.{
  Env, World, Call, here, returned, on_backend, patch, patch_status, tell, written,
}
use cluster_api_provider_hyd.Controller.Placement.{release_owner, release}
use cluster_api_provider_hyd.Controller.Status.{
  observed, waited, failed, pause_marked, record_waiting, record_error, set_paused,
}
use cluster_api_provider_hyd.Controller.Machines

-- Every change that a reconcile makes keeps `p`, except that the finalizer may go.
pub record Stable (p : HydraMachine → Type 0) : Type 0 where
  pub by_observed : (s : MachineState) (m : HydraMachine) → p m → p (observed s m)
  pub by_waited : (w : Wait) (m : HydraMachine) → p m → p (waited w m)
  pub by_failed : (phase : Phase) (e : Error) (m : HydraMachine) → p m → p (failed phase e m)
  pub by_paused : (s : Option PauseReason) (m : HydraMachine) → p m → p (pause_marked s m)
  pub by_placed :
      (pool hypervisor : Text) (m : HydraMachine) → p m → p (Machines.placed pool hypervisor m)
  pub by_id : (id : Text) (m : HydraMachine) → p m → p (record m { provider_id = id })
  pub by_finalizer : (m : HydraMachine) → p m → p (record m { finalizer = true })

-- In both copies.
abbrev pub Both : {B : Type 0} → (HydraMachine → Type 0) → World B → Type 0
Both p w = p w.machine × p w.stored

module _ {B : Type 0} (p : HydraMachine → Type 0) where
  written-Both :
      (o : Option Error) (f : HydraMachine → HydraMachine) (w : World B)
      → ((m : HydraMachine) → p m → p (f m))
      → Both p w
      → Both p (written o f w)
  unfolding written
  written-Both none f w k h = (k w.machine h.0, k w.stored h.1)
  written-Both (some e) f w k h = (k w.machine h.0, h.1)

  pub Keeps-patch :
      (env : Env B) (f : HydraMachine → HydraMachine)
      → ((m : HydraMachine) → p m → p (f m))
      → Keeps (Both p) (patch env f)
  unfolding patch
  Keeps-patch env f k = record { at = λ w h. written-Both (env.write_fails w.log) f w k h }

  pub Keeps-patch_status :
      (env : Env B) (f : HydraMachine → HydraMachine)
      → ((m : HydraMachine) → p m → p (f m))
      → Keeps (Both p) (patch_status env f)
  unfolding patch_status
  Keeps-patch_status env f k = record { at = λ w h. written-Both (env.write_fails w.log) f w k h }

  Keeps-tell : (c : Call) → Keeps (Both {B = B} p) (tell c)
  unfolding tell
  Keeps-tell c = record { at = λ w h. h }

  pub Keeps-on_backend :
      {A : Type 0} (m : Exec Error B A) (entry : Result Error A → List Call)
      → Keeps (Both p) (on_backend m entry)
  unfolding on_backend
  Keeps-on_backend m entry = record { at = λ w h. h }

  pub Keeps-here : Keeps (Both {B = B} p) here
  unfolding here
  Keeps-here = record { at = λ w h. h }

  pub Keeps-returned : {A : Type 0} (r : Result Error A) → Keeps (Both {B = B} p) (returned r)
  unfolding returned
  Keeps-returned r = record { at = λ w h. h }

module _ {B : Type 0} (p : HydraMachine → Type 0) (env : Env B) (stable : Stable p) where
  pub release-kept : (m : HydraMachine) → Keeps (Both p) (release env m)
  unfolding release release_owner
  release-kept m = Keeps-if env.releases (λ _. Keeps-tell p _) (λ _. Keeps-pure tt)

  pub set_paused-kept : (s : Option PauseReason) → Keeps (Both p) (set_paused env s)
  unfolding set_paused
  set_paused-kept s =
      Keeps-bind here _ (Keeps-here p)
        λ m. Keeps-if _ (λ _. Keeps-pure tt) (λ _. Keeps-patch_status p env _ (stable.by_paused s))

  pub record_waiting-kept : (w : Wait) → Keeps (Both p) (record_waiting env w)
  unfolding record_waiting
  record_waiting-kept w =
      Keeps-bind _ _ (Keeps-patch_status p env _ (stable.by_waited w)) λ _. Keeps-tell p _

  pub record_error-kept : (phase : Phase) (e : Error) → Keeps (Both p) (record_error env phase e)
  unfolding record_error
  record_error-kept phase e =
      Keeps-bind _ _ (Keeps-patch_status p env _ (stable.by_failed phase e)) λ _. Keeps-tell p _
