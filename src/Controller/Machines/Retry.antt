-- ===== src/Controller/Machines/Retry.antt =====
-- A reconcile that was cut off between `Create` and the patch that records the providerID.
use cluster_api_provider_hyd.Base.{
  ◌≡◌, refl, ap, sym, subst, true, not, Option, none, some, List, [], ◌∷◌, Text, if◌then◌else◌,
  if_cases, arith,
}
use cluster_api_provider_hyd.Base.Exec.{
  Result, ok, ◌>>=◌, ◌>>◌, attempt, pure, continue, Keeps, Keeps-pure, Keeps-bind, Keeps-if, still,
}
use cluster_api_provider_hyd.Providers.Errors.{Error}
use cluster_api_provider_hyd.Providers.Identity.{
  is_empty, MachineProvider, MachineSpec, MachineState, provider_id, Idempotent,
}
use cluster_api_provider_hyd.Controller.Objects.{HydraMachine}
use cluster_api_provider_hyd.Controller.World.{
  Env, World, Action, Call, created, here, on_backend, patch, patched, written, note, answer,
}
use cluster_api_provider_hyd.Controller.Linkage.{Link}
use cluster_api_provider_hyd.Controller.Naming.{backend_name}
use cluster_api_provider_hyd.Controller.Spec.{name_only}
use cluster_api_provider_hyd.Controller.Machines

module _ {B V : Type 0} (env : Env B) (view : B → V) where
  -- The backend holds what `x` says.
  abbrev At : V → World B → Type 0
  At x w = view w.backend ≡ x

  written-At :
      (x : V) (o : Option Error) (f : HydraMachine → HydraMachine) (w : World B)
      → At x w
      → At x (written o f w)
  unfolding written
  written-At x none f w h = h
  written-At x (some e) f w h = h

  patch-At : (x : V) (f : HydraMachine → HydraMachine) → Keeps (At x) (patch env f)
  unfolding patch
  patch-At x f = record { at = λ w h. written-At x (env.write_fails w.log) f w h }

  here-At : (x : V) → Keeps (At x) (here {B = B})
  unfolding here
  here-At x = record { at = λ w h. h }

  record_placement-At :
      (x : V) (pool hypervisor : Text)
      → Keeps (At x) (Machines.record_placement env pool hypervisor)
  unfolding Machines.record_placement
  record_placement-At x pool hypervisor = Keeps-bind here _ (here-At x) λ m.
      Keeps-if (Machines.recorded_already pool hypervisor m) (λ _. Keeps-pure _)
        λ _. Keeps-bind _ _ (patch-At x _) λ _. Keeps-pure _

  -- The latest call is a patch, and the stored object has the id unless that patch was refused.
  abbrev pub Patched : Text → World B → Type 0
  Patched id v =
      (refused : Option Error) × (past : List Call) × (v.log ≡ patched refused ∷ past)
      × (refused ≡ none → v.stored.provider_id ≡ id)

  -- The machine of the id is recorded, and the backend holds what `x` says.
  abbrev pub Adopted : MachineProvider B → Text → V → World B → Type 0
  Adopted prov id x v =
      (view v.backend ≡ x)
      × ((v.machine.provider_id ≡ provider_id prov.name id) × Patched (provider_id prov.name id) v)

  module _ (prov : MachineProvider B) where
    id_written :
        (o : Option Error) (id : Text) (x : V) (w : World B)
        → At x w
        → Adopted prov id x (
            note
              (patched o)
              (written o (λ m. record m { provider_id = provider_id prov.name id }) w))
    unfolding written
    id_written none id x w h = (h, (refl, (none, w.log, refl, λ _. refl)))
    id_written (some e) id x w h =
        (h, (refl, (some e, w.log, refl, λ accepted. ground (arith, accepted))))

    -- `Create` with the spec answered the machine `t`.
    created-Adopted :
        (spec : MachineSpec) (t : MachineState) (b : B) (w : World B)
        → prov.create spec w.backend ≡ (ok t, b)
        → Adopted prov t.id (view b) (Machines.create_and_record env prov spec w).1
    unfolding Machines.create_and_record ◌>>=◌ on_backend patch
    created-Adopted spec t b w h =
        let record_id : MachineState → Action B MachineState =
          λ s. patch env (λ m. record m { provider_id = provider_id prov.name s.id }) >> pure s in
        let made : World B = record w { backend = b; log = created spec ∷ w.log } in
        subst
          (λ (r : Result Error MachineState × B).
            Adopted prov t.id (view b)
              (continue r.0 record_id (record w { backend = r.1; log = created spec ∷ w.log })).1)
          (sym h)
          (still (Adopted prov t.id (view b))
            (patch env (λ m. record m { provider_id = provider_id prov.name t.id })) (λ _. pure t)
            made (id_written (env.write_fails made.log) t.id (view b) made refl) λ _. Keeps-pure t)

    -- The write of the placement is not refused.
    answered_placed :
        (placement : Text) (w : World B)
        → env.write_fails w.log ≡ none
        → (pool : Text) × ((Machines.record_placement env [] placement w).0 ≡ ok pool)
    unfolding Machines.record_placement ◌>>=◌ here pure patch
    answered_placed placement w accepted =
        if_cases (λ (a : Action B Text). (pool : Text) × ((a w).0 ≡ ok pool))
          (Machines.recorded_already [] placement w.machine) (λ _. (_, refl))
          (λ _.
            let kept : Text =
              if is_empty w.machine.storage_pool_annotation
              then []
              else w.machine.storage_pool_annotation in
            (
              kept,
              ap
                  (λ (o : Option Error).
                    (continue (answer o) (λ _. pure kept)
                      (note (patched o) (written o (Machines.placed [] placement) w))).0)
                  accepted,
            ))

    -- From the answer of the lookup on.
    found-Adopted :
        Idempotent prov view
        → (link : Link) (placement : Text) (spec : MachineSpec) (s t : MachineState)
          (before after : B) (w : World B)
        → spec.name ≡ backend_name env.sha256_hex w.machine
        → prov.create spec before ≡ (ok s, after)
        → view w.backend ≡ view after
        → env.write_fails w.log ≡ none
        → Adopted prov s.id
            (view after)
            ((Machines.spec_after env prov link placement (ok t)
                >>= Machines.create_and_record env prov)
              w).1
    unfolding Machines.spec_after ◌>>=◌ here pure
    found-Adopted idempotent link placement spec s t before after w named made alike accepted =
        let name : Text = backend_name env.sha256_hex w.machine in
        let create : MachineSpec → Action B MachineState = Machines.create_and_record env prov in
        let placed : World B = (Machines.record_placement env [] placement w).1 in
        let same : view placed.backend ≡ view after =
          (record_placement-At (view after) [] placement).at w alike in
        let (u, end, adopted, view_same, id_same) =
          idempotent.adopts spec (name_only name) before after placed.backend s made (sym named)
            same in
        let (pool, stored) = answered_placed placement w accepted in
        let last : Adopted prov u.id (view end) (create (name_only name) placed).1 =
          created-Adopted (name_only name) u end placed adopted in
        subst
          (λ (r : Result Error Text).
            let (q, v) =
              continue {E = Error} {S = World B} {B = MachineSpec} r (λ _. pure (name_only name))
                placed in
            Adopted prov s.id (view after) (continue q create v).1)
          (sym stored)
          (subst (λ i. Adopted prov i (view after) (create (name_only name) placed).1) id_same
            (subst (λ x. Adopted prov u.id x (create (name_only name) placed).1) view_same last))

    -- Where `Create` with the name of this object made a machine whose id the object does not have, and the
    -- backend holds what it held then, `ensureMachine` adopts that machine, whatever the linkage and the
    -- placement: what the backend holds stays, so no other machine is made; the copy has that machine's
    -- id; and the latest call is a patch, after which the stored object has the id too unless that patch
    -- was refused. The backend keeps the contract of `Create`, and the API server does not refuse the
    -- first write, which is that of the placement if one is due.
    pub unrecorded_machine-Adopted :
        Idempotent prov view
        → (link : Link) (placement : Text) (spec : MachineSpec) (s : MachineState)
          (before after : B) (w : World B)
        → spec.name ≡ backend_name env.sha256_hex w.machine
        → prov.create spec before ≡ (ok s, after)
        → view w.backend ≡ view after
        → is_empty w.machine.provider_id ≡ true
        → env.write_fails w.log ≡ none
        → Adopted prov s.id (view after) (Machines.ensure_machine env prov link placement w).1
    unfolding Machines.ensure_machine ◌>>=◌ here attempt on_backend
    unrecorded_machine-Adopted idempotent link placement spec s before after w named made alike
          unrecorded accepted =
        let name : Text = backend_name env.sha256_hex w.machine in
        let (t, c, found, alike') = idempotent.finds spec before after w.backend s made alike in
        let found' : prov.find_by_name name w.backend ≡ (ok t, c) =
          subst (λ n. prov.find_by_name n w.backend ≡ (ok t, c)) named found in
        let looked_up : Result Error MachineState × B → World B = λ r.
          ((Machines.spec_after env prov link placement r.0 >>= Machines.create_and_record env prov)
            (record w { backend = r.1 })).1 in
        if_cases (λ (a : Action B MachineState). Adopted prov s.id (view after) (a w).1)
          (not (is_empty w.machine.provider_id)) (λ known. ground arith)
          (λ _.
            subst (λ r. Adopted prov s.id (view after) (looked_up r)) (sym found')
              (found-Adopted idempotent link placement spec s t before after
                (record w { backend = c }) named made alike' accepted))
