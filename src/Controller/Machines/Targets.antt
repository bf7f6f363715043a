-- ===== src/Controller/Machines/Targets.antt =====
-- What the deletion of a HydraMachine destroys.
use cluster_api_provider_hyd.Base.{
  ◌≡◌, refl, false, not, [], nat_eq, list_eq, Text, arith, subst, if_cases, list_beq_iff,
}
use cluster_api_provider_hyd.Base.Exec.{Result, ok, err, ◌>>=◌, raise, attempt}
use cluster_api_provider_hyd.Providers.Errors.{
  Error, not_found, invalid_id, terminal, waiting, other,
}
use cluster_api_provider_hyd.Providers.Identity.{is_empty, MachineProvider, MachineState}
use cluster_api_provider_hyd.Controller.Objects.{HydraMachine}
use cluster_api_provider_hyd.Controller.World.{Env, World, returned, on_backend}
use cluster_api_provider_hyd.Controller.Naming.{backend_name}
use cluster_api_provider_hyd.Controller.Machines

found_id_exact :
    (r : Result Error MachineState) (id : Text)
    → Machines.found_id r ≡ ok id
    → is_empty id ≡ false
    → (s : MachineState) × (r ≡ ok s) × (s.id ≡ id)
found_id_exact (ok s) id h ne = (s, refl, ground arith)
found_id_exact (err e) id h ne = ground arith

module _ {B : Type 0} (env : Env B) (prov : MachineProvider B) where
  abbrev name : HydraMachine → Text
  name = backend_name env.sha256_hex

  -- The backend names the machine `id` as this object's: by the id's name, or found by the name.
  pub data Owned (m : HydraMachine) (id : Text) : Type 0 where
    by_id : (b : B) (s : MachineState) → (prov.get id b).0 ≡ ok s → s.name ≡ name m → Owned m id
    by_name :
        (b : B) (s : MachineState)
        → (prov.find_by_name (name m) b).0 ≡ ok s
        → s.id ≡ id
        → Owned m id

  target_by_name-Owned :
      (m : HydraMachine) (w : World B) (id : Text)
      → (Machines.target_by_name env prov m w).0 ≡ ok id
      → is_empty id ≡ false
      → Owned m id
  unfolding Machines.target_by_name ◌>>=◌ attempt on_backend returned
  target_by_name-Owned m w id h ne =
      let (s, found, same) = found_id_exact (prov.find_by_name (name m) w.backend).0 id h ne in
      by_name w.backend s found same

  owned_id_exact :
      (m : HydraMachine) (id t : Text) (s : MachineState)
      → Machines.owned_id env prov m id s ≡ ok t
      → (id ≡ t) × (s.name ≡ name m)
  unfolding Machines.verify_ownership
  owned_id_exact m id t s h = ground (arith, list_beq_iff s.name (name m))

  target_after-Owned :
      (m : HydraMachine) (w v : World B) (id t : Text) (got : Result Error MachineState)
      → (prov.get id v.backend).0 ≡ got
      → (Machines.target_after env prov m id got w).0 ≡ ok t
      → is_empty t ≡ false
      → Owned m t
  unfolding Machines.target_after returned raise
  target_after-Owned m w v id t (ok s) g h ne =
      let (same, owned) = owned_id_exact m id t s h in
      by_id v.backend s (subst (λ i. (prov.get i v.backend).0 ≡ ok s) same g) owned
  target_after-Owned m w v id t (err not_found) g h ne = target_by_name-Owned m w t h ne
  target_after-Owned m w v id t (err invalid_id) g h ne = target_by_name-Owned m w t h ne
  target_after-Owned m w v id t (err terminal) g h ne = ground arith
  target_after-Owned m w v id t (err other) g h ne = ground arith
  target_after-Owned m w v id t (err (waiting x)) g h ne = ground arith

  target_of-Owned :
      (m : HydraMachine) (w : World B) (id : Result Error Text) (t : Text)
      → (Machines.target_of env prov m id w).0 ≡ ok t
      → is_empty t ≡ false
      → Owned m t
  unfolding Machines.target_of Machines.target_by_id ◌>>=◌ attempt on_backend
  target_of-Owned m w (ok i) t h ne =
      target_after-Owned m (on_backend (prov.get i) (λ _. []) w).1 w i t (prov.get i w.backend).0
        refl h ne
  target_of-Owned m w (err e) t h ne = target_by_name-Owned m w t h ne

  -- A machine that a deletion picks as its target is this object's: its name is the object's derived
  -- name, or it was found by that name. An empty id is no target.
  pub deletion_target_Owned :
      (m : HydraMachine) (w : World B) (id : Text)
      → (Machines.deletion_target_for env prov m w).0 ≡ ok id
      → is_empty id ≡ false
      → Owned m id
  unfolding Machines.deletion_target_for
  deletion_target_Owned m w id =
      if_cases
        (λ (a : World B → Result Error Text × World B).
          (a w).0 ≡ ok id → is_empty id ≡ false → Owned m id)
        (not (is_empty m.provider_id))
        (λ _ h ne. target_of-Owned m w (Machines.machine_id_for prov.name m.provider_id) id h ne)
        (λ _ h ne. target_by_name-Owned m w id h ne)
