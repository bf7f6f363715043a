-- ===== src/Controller/Machines/Teardown.antt =====
-- When a HydraMachine's finalizer goes.
use cluster_api_provider_hyd.Base.{
  ◌≡◌, ◌⊎◌, inl, inr, refl, true, false, not, Option, none, some, List, [], ◌∷◌, if_cases,
}
use cluster_api_provider_hyd.Base.Exec.{
  Result, ok, err, ◌>>=◌, ◌>>◌, pure, raise, attempt, Keeps, Keeps-pure, Keeps-if, Post, Triple,
  Triple-bind, Triple-kept, Triple-raise, Triple-weaken, Post-same,
}
use cluster_api_provider_hyd.Providers.Errors.{Error}
use cluster_api_provider_hyd.Providers.Identity.{is_empty, MachineProvider}
use cluster_api_provider_hyd.Controller.Objects.{HydraMachine, Phase, deleting}
use cluster_api_provider_hyd.Controller.World.{
  Env, World, Action, Call, deleted_by_name, failure, here, on_backend, patch, written, tell,
}
use cluster_api_provider_hyd.Controller.Linkage.{Link}
use cluster_api_provider_hyd.Controller.Naming.{backend_name}
use cluster_api_provider_hyd.Controller.Spec.{storage_pool_of}
use cluster_api_provider_hyd.Controller.Placement.{release_owner, release}
use cluster_api_provider_hyd.Controller.Status.{
  observed, waited, failed, pause_marked, record_error,
}
use cluster_api_provider_hyd.Controller.Machines
use cluster_api_provider_hyd.Controller.Machines.Stable.{
  Stable, Both, record_error-kept, Keeps-on_backend,
}
use cluster_api_provider_hyd.Controller.Machines.Kept.{recording-kept, deletion_target_for-kept}

abbrev pub Logged : Call → List Call → Type 0
Logged c [] = ⊥
Logged c (d ∷ log) = (d ≡ c) ⊎ Logged c log

abbrev pub HasFinalizer : HydraMachine → Type 0
HasFinalizer m = m.finalizer ≡ true

pub HasFinalizer-Stable : Stable HasFinalizer
unfolding observed waited failed pause_marked Machines.placed
HasFinalizer-Stable = record {
  by_observed = λ s m h. h;
  by_waited = λ w m h. h;
  by_failed = λ phase e m h. h;
  by_paused = λ s m h. h;
  by_placed = λ q v m h. h;
  by_id = λ id m h. h;
  by_finalizer = λ m h. refl;
}

module _ {B : Type 0} (env : Env B) where
  module _ {A : Type 0} (Q : A → World B → Type 0) (R : World B → Type 0) (phase : Phase) where
    recorded-Triple :
        (e : Error)
        → Keeps R (record_error env phase e)
        → Triple R (record_error env phase e >> raise e) Q R
    recorded-Triple e k =
        Triple-bind _ _ (Triple-kept _ k (λ _ w h. h) λ w h. h) λ _. Triple-raise e λ w h. h

    Post-recording :
        (r : Result Error A × World B)
        → ((e : Error) → Keeps R (record_error env phase e))
        → Post Q R r
        → Post Q R (Machines.recording env phase (λ _. r) r.1)
    unfolding Machines.recording attempt ◌>>=◌ pure
    Post-recording (ok a, w) k h = h
    Post-recording (err e, w) k h = (recorded-Triple e (k e)).at w h

    recording-Triple :
        {P : World B → Type 0} (m : Action B A)
        → ((e : Error) → Keeps R (record_error env phase e))
        → Triple P m Q R
        → Triple P (Machines.recording env phase m) Q R
    unfolding Machines.recording attempt ◌>>=◌
    recording-Triple m k t = record { at = λ w h. Post-recording (m w) k (t.at w h) }

  module _ (m : HydraMachine) (link : Link) where
    -- That the sweep by name was called and reported success.
    abbrev pub entry : Call
    entry = deleted_by_name (backend_name env.sha256_hex m) (storage_pool_of m link) none

    abbrev pub Swept : World B → Type 0
    Swept w = Logged entry w.log

    abbrev pub Held : World B → Type 0
    Held w = (w.stored.finalizer ≡ true) ⊎ Swept w

    written-Swept :
        (o : Option Error) (f : HydraMachine → HydraMachine) (w : World B)
        → Swept w
        → Swept (written o f w)
    unfolding written
    written-Swept none f w h = h
    written-Swept (some e) f w h = h

    patch-Swept : (f : HydraMachine → HydraMachine) → Keeps Swept (patch env f)
    unfolding patch
    patch-Swept f = record { at = λ w h. inr (written-Swept (env.write_fails w.log) f w h) }

    release-Swept : (n : HydraMachine) → Keeps Swept (release env n)
    unfolding release release_owner tell
    release-Swept n = Keeps-if env.releases (λ _. record { at = λ w h. inr h }) λ _. Keeps-pure tt

    held_error : (phase : Phase) (e : Error) → Keeps (Both HasFinalizer) (record_error env phase e)
    held_error phase e = record_error-kept HasFinalizer env HasFinalizer-Stable phase e

    abbrev answered : Result Error (Unit {0}) → List Call
    answered r =
        deleted_by_name (backend_name env.sha256_hex m) (storage_pool_of m link) (failure r) ∷ []

    sweep-Post :
        (r : Result Error (Unit {0}) × B) (w : World B)
        → Both HasFinalizer w
        → Post (λ _ v. Swept v) (Both HasFinalizer) (on_backend (λ _. r) answered w)
    unfolding on_backend
    sweep-Post (ok _, b) w h = inl refl
    sweep-Post (err e, b) w h = h

    sweep-Triple :
        (prov : MachineProvider B)
        → Triple
            (Both HasFinalizer)
            (Machines.sweep env prov m link)
            (λ _ w. Swept w)
            (Both HasFinalizer)
    unfolding Machines.sweep on_backend
    sweep-Triple prov = record {
      at = λ w h.
          sweep-Post
            (prov.delete_by_name (backend_name env.sha256_hex m) (storage_pool_of m link) w.backend)
            w h;
    }

    -- From the first deletion to the end, where the finalizer is on both copies.
    abbrev teardown : MachineProvider B → Action B Machines.Requeue
    teardown prov =
        Machines.recording env deleting (Machines.deletion_target_for env prov m) >>= λ id.
        Machines.recording env deleting (Machines.delete_target env prov id)
        >> Machines.recording env deleting (Machines.sweep env prov m link)
        >> patch env (λ m. record m { finalizer = false })
        >> release env m
        >> pure Machines.no_requeue

    Both-Held : (w : World B) → Both HasFinalizer w → Held w
    Both-Held w h = inl h.1

    teardown-Triple :
        (prov : MachineProvider B) → Triple (Both HasFinalizer) (teardown prov) (λ _. Held) Held
    unfolding Machines.delete_target
    teardown-Triple prov =
        Triple-bind {Q = λ _. Both HasFinalizer} _ _
          (Triple-kept _
            (recording-kept HasFinalizer env HasFinalizer-Stable deleting _
              (deletion_target_for-kept HasFinalizer env HasFinalizer-Stable prov m))
            (λ _ w h. h) Both-Held)
          λ id.
            Triple-bind {Q = λ _. Swept} _ _
              (Triple-bind {Q = λ _. Swept} _ _
                (Triple-bind {Q = λ _. Swept} _ _
                  (Triple-bind {Q = λ _. Both HasFinalizer} _ _
                    (Triple-kept _
                      (recording-kept HasFinalizer env HasFinalizer-Stable deleting _ (
                        Keeps-if (is_empty id) (λ _. Keeps-pure tt)
                          λ _. Keeps-on_backend HasFinalizer _ _))
                      (λ _ w h. h) Both-Held)
                    λ _.
                      Triple-weaken
                        (recording-Triple (λ _. Swept) (Both HasFinalizer) deleting _
                          (held_error deleting) (sweep-Triple prov))
                        Both-Held)
                  λ _. Triple-kept _ (patch-Swept _) (λ _ w h. h) λ w h. inr h)
                λ _. Triple-kept _ (release-Swept m) (λ _ w h. h) λ w h. inr h)
              λ _. Triple-kept _ (Keeps-pure _) (λ _ w h. inr h) λ w h. inr h

  -- A deletion takes the finalizer off the stored object only if the sweep by the machine's derived
  -- name, in the pool that the machine records or its cluster resolves, was called and succeeded.
  -- Before it both copies carry the finalizer.
  pub finalizer_outlasts_sweep :
      (prov : MachineProvider B) (link : Link) (w : World B)
      → Both HasFinalizer w
      → Held w.machine link (Machines.reconcile_delete env prov link w).1
  unfolding Machines.reconcile_delete ◌>>=◌ here pure
  finalizer_outlasts_sweep prov link w h =
      if_cases (λ (a : Action B Machines.Requeue). Held w.machine link (a w).1)
        (not w.machine.finalizer) (λ _. inl h.1)
        (λ _.
          Post-same (Held w.machine link) (teardown w.machine link prov w)
            ((teardown-Triple w.machine link prov).at w h))
