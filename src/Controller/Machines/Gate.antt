-- ===== src/Controller/Machines/Gate.antt =====
-- The conditions of a creation.
use cluster_api_provider_hyd.Base.{
  ℕ, ◌≡◌, ◌⊎◌, ◌↔◌, Bool-cases, inl, inr, refl, true, false, not, ◌&&◌, ◌||◌, Option, none, some,
  [], Text, if_cases, ap, sym, subst, arith, is_some, nat_beq_iff, nat_eq, ◌==◌,
}
use cluster_api_provider_hyd.Base.Exec.{Result, ok, err, ◌>>=◌, attempt, passes, continue}
use cluster_api_provider_hyd.Providers.Errors.{
  Error, not_found, waiting, for_owner, for_cluster_infra, for_hydra_cluster,
}
use cluster_api_provider_hyd.Providers.Identity.{
  is_empty, MachineProvider, MachineSpec, MachineState,
}
use cluster_api_provider_hyd.Controller.Objects.{HydraCluster, Cluster, Condition}
use cluster_api_provider_hyd.Controller.World.{Env, World, here, returned, on_backend}
use cluster_api_provider_hyd.Controller.Linkage.{
  Link, cluster_ready_for_create, ready_condition, hydra_cluster_ready, then_provisioned,
  cluster_ready,
}
use cluster_api_provider_hyd.Controller.Naming.{backend_name}
use cluster_api_provider_hyd.Controller.Machines

-- The HydraCluster, where there is one, reports readiness for its current generation.
abbrev pub ReportsReady : Option HydraCluster → Type 0
ReportsReady none = Unit
ReportsReady (some hc) =
    (r : Condition) × (hc.ready ≡ some r)
    × (r.observed_generation ≡ hc.generation)
    × (r.status ≡ true)

-- The Cluster can be read, has its infrastructure, and the HydraCluster that it names can be read.
abbrev pub ClusterReady : Link → Option Cluster → Type 0
ClusterReady link none = ⊥
ClusterReady link (some c) =
    (c.infrastructure_provisioned ≡ true)
    × ((not (is_empty link.hydra_cluster_name) && not (is_some link.hydra_cluster)) ≡ false)
    × ReportsReady link.hydra_cluster

abbrev pub Ready : Link → Type 0
Ready link =
    ((is_some link.machine || link.standalone) ≡ true)
    × ((is_empty link.cluster_name ≡ true) ⊎ ClusterReady link link.cluster)

Current : ℕ → Option Condition → Type 0
Current generation ready =
    (r : Condition) × (ready ≡ some r) × (r.observed_generation ≡ generation) × (r.status ≡ true)

ready_condition_iff :
    (generation : ℕ) (ready : Option Condition)
    → (ready_condition generation ready ≡ ok tt) ↔ Current generation ready
unfolding Current
ready_condition_iff generation none = (λ h. ground arith, λ h. ground arith)
ready_condition_iff generation (some r) = (
  (λ h.
      let (current, rest) =
        passes (waiting for_cluster_infra) (not (r.observed_generation == generation)) h in
      let (holds, _) = passes (waiting for_cluster_infra) (not r.status) rest in
      (r, refl, ground (arith, nat_beq_iff r.observed_generation generation), ground arith)),
  λ h. ground (arith, nat_beq_iff r.observed_generation generation),
)

hydra_ready_iff : (hc : Option HydraCluster) → (hydra_cluster_ready hc ≡ ok tt) ↔ ReportsReady hc
unfolding Current
hydra_ready_iff none = (λ _. tt, λ _. refl)
hydra_ready_iff (some hc) = ready_condition_iff hc.generation hc.ready

provisioned_iff :
    (c : Cluster) (r : Result Error (Unit {0}))
    → (then_provisioned c r ≡ ok tt) ↔ ((c.infrastructure_provisioned ≡ true) × (r ≡ ok tt))
provisioned_iff c (ok _) = ground arith
provisioned_iff c (err e) = ground arith

cluster_ready_iff :
    (link : Link) (c : Option Cluster) → (cluster_ready link c ≡ ok tt) ↔ ClusterReady link c
cluster_ready_iff link none = (λ h. ground arith, λ h. elim h [ ])
cluster_ready_iff link (some c) = (
  (λ h.
      let (visible, rest) =
        passes (waiting for_hydra_cluster)
          (not (is_empty link.hydra_cluster_name) && not (is_some link.hydra_cluster)) h in
      let (provisioned, ready) =
        (provisioned_iff c (hydra_cluster_ready link.hydra_cluster)).0 rest in
      (provisioned, visible, (hydra_ready_iff link.hydra_cluster).0 ready)),
  λ h.
      if_cases (λ r. r ≡ ok tt)
        (not (is_empty link.hydra_cluster_name) && not (is_some link.hydra_cluster))
        (λ missing. ground arith)
        (λ _.
          (provisioned_iff c (hydra_cluster_ready link.hydra_cluster)).1
            (h.0, (hydra_ready_iff link.hydra_cluster).1 h.2)),
)

-- Creation is let through exactly when the owner Machine is there or the machine is standalone, and
-- where a cluster is named it can be read, has its infrastructure, and its HydraCluster, if it names
-- one, can be read and reports that it is ready for its current generation.
pub creation_let_through : (link : Link) → (cluster_ready_for_create link ≡ ok tt) ↔ Ready link
unfolding cluster_ready_for_create
creation_let_through link = (
  (λ h.
      let (owned, rest) =
        passes (waiting for_owner) (not (is_some link.machine) && not link.standalone) h in
      (
        ground arith,
        elim (Bool-cases (is_empty link.cluster_name)) [
          | inl none_named ↦ inl none_named
          | inr named ↦ inr ((cluster_ready_iff link link.cluster).0 (ground arith))
        ],
      )),
  λ h.
      if_cases (λ r. r ≡ ok tt) (not (is_some link.machine) && not link.standalone)
        (λ missing. ground arith)
        (λ _.
          if_cases (λ r. r ≡ ok tt) (is_empty link.cluster_name) (λ _. refl)
            (λ named. elim h.1 [
              | inl none_named ↦ ground arith
              | inr ready ↦ (cluster_ready_iff link link.cluster).1 ready
            ])),
)

module _ {B : Type 0} (env : Env B) (prov : MachineProvider B) where
  spec_stops :
      (link : Link) (placement : Text) (v : World B) (e : Error)
      → cluster_ready_for_create link ≡ err e
      → Machines.spec_to_create env prov link placement v ≡ (err e, v)
  unfolding Machines.spec_to_create ◌>>=◌ returned
  spec_stops link placement v e closed = rw (closed)

  after_lookup :
      (link : Link) (placement : Text) (v : World B) (e : Error)
      → cluster_ready_for_create link ≡ err e
      → (Machines.spec_after env prov link placement (err not_found)
            >>= Machines.create_and_record env prov)
          v
        ≡ (err e, v)
  unfolding Machines.spec_after ◌>>=◌
  after_lookup link placement v e closed =
      ap
        (λ (r : Result Error MachineSpec × World B).
          continue r.0 (Machines.create_and_record env prov) r.1)
        (spec_stops link placement v e closed)

  -- A machine that has no providerID and that the backend does not find by its name is not created
  -- while a condition fails: the error is returned, and nothing is called or recorded after the
  -- lookup.
  pub gate_blocks :
      (link : Link) (placement : Text) (w : World B) (e : Error)
      → is_empty w.machine.provider_id ≡ true
      → (prov.find_by_name (backend_name env.sha256_hex w.machine) w.backend).0 ≡ err not_found
      → cluster_ready_for_create link ≡ err e
      → Machines.ensure_machine env prov link placement w ≡ (
        err e,
        record w {
          backend = (prov.find_by_name (backend_name env.sha256_hex w.machine) w.backend).1;
        },
      )
  unfolding Machines.ensure_machine Machines.spec_after Machines.spec_to_create ◌>>=◌ attempt
      on_backend here returned
  gate_blocks link placement w e new absent closed =
      let looked =
        (on_backend (prov.find_by_name (backend_name env.sha256_hex w.machine)) (λ _. []) w).1 in
      if_cases (λ (a : World B → Result Error MachineState × World B). a w ≡ (err e, looked))
        (not (is_empty w.machine.provider_id)) (λ old. ground arith)
        (λ _.
          subst
            (λ (r : Result Error MachineState).
              (Machines.spec_after env prov link placement r
                  >>= Machines.create_and_record env prov)
                looked
              ≡ (err e, looked))
            (sym absent) (after_lookup link placement looked e closed))
