-- ===== src/Controller/Machines/Records.antt =====
-- What a reconcile of a HydraMachine never takes back.
use cluster_api_provider_hyd.Base.{◌≡◌, true, false, some, Text, arith}
use cluster_api_provider_hyd.Providers.Identity.{is_empty}
use cluster_api_provider_hyd.Controller.Objects.{HydraMachine}
use cluster_api_provider_hyd.Controller.World.{Env, World}
use cluster_api_provider_hyd.Controller.Status.{observed, waited, failed, pause_marked}
use cluster_api_provider_hyd.Controller.Machines
use cluster_api_provider_hyd.Controller.Machines.Stable.{Stable, Both}
use cluster_api_provider_hyd.Controller.Machines.Kept.{reconcile-kept}

abbrev pub IsProvisioned : HydraMachine → Type 0
IsProvisioned m = m.provisioned ≡ some true

IsProvisioned-Stable : Stable IsProvisioned
unfolding observed waited failed pause_marked Machines.placed
IsProvisioned-Stable = record {
  by_observed = λ s m h. ground arith;
  by_waited = λ w m h. h;
  by_failed = λ phase e m h. h;
  by_paused = λ s m h. h;
  by_placed = λ pool hypervisor m h. h;
  by_id = λ id m h. h;
  by_finalizer = λ m h. h;
}

-- The pool and the hypervisor that the machine records.
abbrev pub Places : Text → Text → HydraMachine → Type 0
Places pool hypervisor m =
    (m.storage_pool_annotation ≡ pool)
    × (m.hypervisor_annotation ≡ hypervisor)
    × (is_empty pool ≡ false)
    × (is_empty hypervisor ≡ false)

Places-Stable : (pool hypervisor : Text) → Stable (Places pool hypervisor)
unfolding observed waited failed pause_marked Machines.placed
Places-Stable pool hypervisor = record {
  by_observed = λ s m h. h;
  by_waited = λ w m h. h;
  by_failed = λ phase e m h. h;
  by_paused = λ s m h. h;
  by_placed = λ q v m h. ground arith;
  by_id = λ id m h. h;
  by_finalizer = λ m h. h;
}

module _ {B : Type 0} (env : Env B) (w : World B) where
  -- Once the stored object and the reconciler's copy report that the machine was provisioned, they do
  -- so after a reconcile too, whatever it meets.
  pub milestone_stays : Both IsProvisioned w → Both IsProvisioned (Machines.reconcile env w).1
  milestone_stays = (reconcile-kept IsProvisioned env IsProvisioned-Stable (λ m h. h)).at w

  -- A storage pool and a hypervisor that both copies of the machine record stay what they are in a
  -- reconcile, whatever resolves by then.
  pub placement_stays :
      (pool hypervisor : Text)
      → Both (Places pool hypervisor) w
      → Both (Places pool hypervisor) (Machines.reconcile env w).1
  placement_stays pool hypervisor =
      (reconcile-kept (Places pool hypervisor) env (Places-Stable pool hypervisor) (λ m h. h)).at w
