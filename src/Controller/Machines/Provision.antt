-- ===== src/Controller/Machines/Provision.antt =====
-- What a reconcile that does not delete does: the finalizer, the recorded placement, the pause, and
-- what is reported.
use cluster_api_provider_hyd.Base.{
  ◌≡◌, ◌⊎◌, inl, inr, refl, sym, true, Option, none, some, [], ◌∷◌, Text, if◌then◌else◌, if_cases,
  arith,
}
use cluster_api_provider_hyd.Base.Exec.{
  Result, ◌>>=◌, attempt, pure, continue, Keeps, Keeps-bind, Keeps-attempt, Post, Post-continue,
  Post-same, Post-map, Triple, Triple-bind, Triple-kept,
}
use cluster_api_provider_hyd.Providers.Errors.{Error}
use cluster_api_provider_hyd.Providers.Identity.{is_empty, MachineProvider, MachineSpec}
use cluster_api_provider_hyd.Controller.World.{
  Env, World, Action, patched, here, returned, patch, written, answer, note,
}
use cluster_api_provider_hyd.Controller.Linkage.{Link}
use cluster_api_provider_hyd.Controller.Machines
use cluster_api_provider_hyd.Controller.Machines.Stable.{Both}
use cluster_api_provider_hyd.Controller.Machines.Kept.{ensure_machine-kept, report-kept}
use cluster_api_provider_hyd.Controller.Machines.Teardown.{HasFinalizer, HasFinalizer-Stable}

module _ {B : Type 0} (env : Env B) where
  -- Nothing happened but a write that was refused.
  abbrev pub Refused : World B → World B → Type 0
  Refused w v =
      (e : Error) × (v.log ≡ patched (some e) ∷ w.log)
      × (v.backend ≡ w.backend)
      × (v.stored ≡ w.stored)

  abbrev Guarded : World B → World B → Type 0
  Guarded w v = Both HasFinalizer v ⊎ Refused w v

  finalizer_written :
      (o : Option Error) (w : World B)
      → Post
          (λ _. Both HasFinalizer)
          (Guarded w)
          (answer o, note (patched o) (written o (λ m. record m { finalizer = true }) w))
  unfolding written
  finalizer_written none w = (refl, refl)
  finalizer_written (some e) w = inr (e, refl, refl, refl)

  module _ (prov : MachineProvider B) where
    finalizer_added :
        (w : World B)
        → (w.machine.finalizer ≡ true → w.stored.finalizer ≡ true)
        → Post (λ _. Both HasFinalizer) (Guarded w) (Machines.add_finalizer env prov w)
    unfolding Machines.add_finalizer ◌>>=◌ here patch pure
    finalizer_added w agree =
        if_cases (λ (a : Action B (Unit {0})). Post (λ _. Both HasFinalizer) (Guarded w) (a w))
          w.machine.finalizer (λ has. (has, agree has))
          (λ _. finalizer_written (env.write_fails w.log) w)

    -- Where the stored object has the finalizer if the reconciler's copy has it, `reconcileNormal`, which
    -- a reconcile reaches only if the object is neither deleted nor paused and waits for nothing before,
    -- ends with the finalizer on both, or nothing happened at all but the refused write of it: no backend
    -- call comes before the finalizer is stored.
    pub finalizer_first :
        (link : Link) (placement : Text) (w : World B)
        → (w.machine.finalizer ≡ true → w.stored.finalizer ≡ true)
        → Both HasFinalizer (Machines.reconcile_normal env prov link placement w).1
          ⊎ Refused w (Machines.reconcile_normal env prov link placement w).1
    unfolding Machines.reconcile_normal ◌>>=◌
    finalizer_first link placement w agree =
        let rest : Action B Machines.Requeue =
          attempt (Machines.ensure_machine env prov link placement) >>= Machines.report env prov in
        let kept =
          Keeps-bind _ _
            (Keeps-attempt _
              (ensure_machine-kept HasFinalizer env HasFinalizer-Stable prov link placement))
            (report-kept HasFinalizer env HasFinalizer-Stable prov) in
        Post-same (Guarded w) _ (
          Post-continue (Machines.add_finalizer env prov w) (λ _. rest)
            (λ _. Triple-kept rest kept (λ _ v h. inl h) λ v h. inl h) (finalizer_added w agree))

  -- Both copies record the same placement.
  abbrev pub SamePlacement : World B → Type 0
  SamePlacement w =
      (w.machine.storage_pool_annotation ≡ w.stored.storage_pool_annotation)
      × (w.machine.hypervisor_annotation ≡ w.stored.hypervisor_annotation)

  abbrev pub first_of : Text → Text → Text
  first_of recorded resolved = if is_empty recorded then resolved else recorded

  -- The stored object names the pool that is built in, and the hypervisor.
  abbrev pub Recorded : Text → World B → Text → World B → Type 0
  Recorded hypervisor w pool v =
      (v.stored.storage_pool_annotation ≡ pool)
      × (v.stored.hypervisor_annotation ≡ first_of w.stored.hypervisor_annotation hypervisor)

  empty_nil : (s : Text) → is_empty s ≡ true → s ≡ []
  empty_nil [] h = refl
  empty_nil (c ∷ s) h = ground arith

  placement_written :
      (o : Option Error) (pool hypervisor : Text) (w : World B)
      → SamePlacement w
      → Post
          (Recorded hypervisor w)
          (λ _. Unit)
          (continue
            (answer o)
            (λ _. pure (first_of w.machine.storage_pool_annotation pool))
            (note (patched o) (written o (Machines.placed pool hypervisor) w)))
  unfolding written Machines.placed pure
  placement_written none pool hypervisor w same = ground (arith, same)
  placement_written (some e) pool hypervisor w same = tt

  already_Recorded :
      (pool hypervisor : Text) (w : World B)
      → SamePlacement w
      → Machines.recorded_already pool hypervisor w.machine ≡ true
      → Recorded hypervisor w (first_of w.machine.storage_pool_annotation pool) w
  unfolding Machines.recorded_already
  already_Recorded pool hypervisor w same h = ground (
    arith,
    same,
    empty_nil pool,
    empty_nil hypervisor,
    empty_nil w.machine.storage_pool_annotation,
    empty_nil w.stored.hypervisor_annotation,
  )

  -- Where both copies record the same placement: if `recordPlacement` succeeds, the stored object names
  -- the pool that is returned, and so that `Create` uses, and its hypervisor is the recorded one or,
  -- without one, the machine's placement.
  pub record_placement_lem :
      (pool hypervisor : Text) (w : World B)
      → SamePlacement w
      → Post (Recorded hypervisor w) (λ _. Unit) (Machines.record_placement env pool hypervisor w)
  unfolding Machines.record_placement ◌>>=◌ here pure patch
  record_placement_lem pool hypervisor w same =
      if_cases (λ (a : Action B Text). Post (Recorded hypervisor w) (λ _. Unit) (a w))
        (Machines.recorded_already pool hypervisor w.machine)
        (already_Recorded pool hypervisor w same)
        (λ _. placement_written (env.write_fails w.log) pool hypervisor w same)

  -- The pool that a spec asks for is recorded, and none is where none resolves.
  abbrev pub BuiltWhereRecorded : MachineSpec → World B → Type 0
  BuiltWhereRecorded spec v =
      (is_empty v.stored.storage_pool_annotation ≡ true)
      ⊎ (spec.storage_pool ≡ v.stored.storage_pool_annotation)

  in_pool-Recorded :
      (spec : MachineSpec) (pool : Text) (v : World B)
      → v.stored.storage_pool_annotation ≡ pool
      → BuiltWhereRecorded (Machines.in_pool pool spec) v
  in_pool-Recorded spec [] v h = inl (ground (arith, h))
  in_pool-Recorded spec (c ∷ pool) v h = inr (sym h)

  returned-Keeps : {A : Type 0} (P : World B → Type 0) (r : Result Error A) → Keeps P (returned r)
  unfolding returned
  returned-Keeps P r = record { at = λ w h. h }

  here-Keeps : (P : World B → Type 0) → Keeps P (here {B = B})
  unfolding here
  here-Keeps P = record { at = λ w h. h }

  placement-Triple :
      (pool hypervisor : Text)
      → Triple SamePlacement
          (Machines.record_placement env pool hypervisor)
          (λ kept v. v.stored.storage_pool_annotation ≡ kept)
          (λ _. Unit)
  placement-Triple pool hypervisor = record {
    at = λ w same.
        Post-map (λ _. Unit) (Machines.record_placement env pool hypervisor w) (λ kept v h. h.0)
          (record_placement_lem pool hypervisor w same);
  }

  in_pool-Triple :
      (spec : MachineSpec) (pool : Text)
      → Triple {E = Error} {S = World B}
          (λ v. v.stored.storage_pool_annotation ≡ pool)
          (pure (Machines.in_pool pool spec))
          BuiltWhereRecorded
          (λ _. Unit)
  unfolding pure
  in_pool-Triple spec pool = record { at = λ v h. in_pool-Recorded spec pool v h }

  -- Where both copies record the same placement, the spec that a machine is made from asks for the
  -- pool that the stored object records by then, whatever resolved, unless it records none.
  pub built_where_recorded :
      (prov : MachineProvider B) (link : Link) (placement : Text) (w : World B)
      → SamePlacement w
      → Post BuiltWhereRecorded (λ _. Unit) (Machines.spec_to_create env prov link placement w)
  unfolding Machines.spec_to_create
  built_where_recorded prov link placement w same =
      (Triple-bind {Q = λ _. SamePlacement} _ _
          (Triple-kept _ (returned-Keeps SamePlacement _) (λ _ _ h. h) λ _ _. tt)
          λ _.
            Triple-bind {Q = λ _. SamePlacement} _ _
              (Triple-kept _ (returned-Keeps SamePlacement _) (λ _ _ h. h) λ _ _. tt)
              λ data_.
                Triple-bind {Q = λ _. SamePlacement} _ _
                  (Triple-kept _ (here-Keeps SamePlacement) (λ _ _ h. h) λ _ _. tt)
                  λ m.
                    Triple-bind {Q = λ _. SamePlacement} _ _
                      (Triple-kept _ (returned-Keeps SamePlacement _) (λ _ _ h. h) λ _ _. tt)
                      λ spec.
                        Triple-bind _ _ (placement-Triple _ placement)
                          λ pool. in_pool-Triple spec pool).at
        w same
