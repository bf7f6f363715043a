-- ===== src/Controller/Clusters/Earned.antt =====
-- internal/controller/hydracluster_controller.go: a cluster is reported ready after its infrastructure was
-- verified.
use cluster_api_provider_hyd.Base.{
  Bool, true, false, ◌||◌, Option, none, some, List, [], ◌∷◌, ◌≡◌, refl, nat_eq, list_eq, Text,
}
use cluster_api_provider_hyd.Base.Exec.{Result, Exec, Keeps}
use cluster_api_provider_hyd.Providers.Errors.{Error}
use cluster_api_provider_hyd.Controller.Objects.{HydraCluster, HydraMachine}
use cluster_api_provider_hyd.Controller.Clusters.World.{
  WriteError, ClusterCall, ensured, ClusterEnv, ClusterWorld, note, written, written_or_restored,
  machine_written, tell, here, stored_machines, returned, on_backend, patch_status, patch,
  patch_status_locked, patch_machine, status_patched, patched, machine_patched,
}

-- A check of the infrastructure succeeded.
unfoldable pub ensured_in : List ClusterCall → Bool
ensured_in [] = false
ensured_in (ensured spec none ∷ log) = true
ensured_in (c ∷ log) = ensured_in log

-- The cluster says that its infrastructure is there.
unfoldable pub claims : HydraCluster → Bool
claims hc =
    elim hc.provisioned [ none ↦ false | some b ↦ b ]
    || elim hc.ready [ none ↦ false | some c ↦ c.status ]

abbrev pub Earned : {B : Type 0} → ClusterWorld B → Type 0
Earned w =
    (claims w.cluster ≡ true → ensured_in w.log ≡ true)
    × (claims w.stored ≡ true → ensured_in w.log ≡ true)

ensured_in-later :
    (c : ClusterCall) (log : List ClusterCall) → ensured_in log ≡ true → ensured_in (c ∷ log) ≡ true
unfolding ensured_in
ensured_in-later (ensured spec none) log h = refl
ensured_in-later c log h = h

-- A change that makes no claim.
abbrev pub Modest : (HydraCluster → HydraCluster) → Type 0
Modest change = (hc : HydraCluster) → claims (change hc) ≡ true → claims hc ≡ true

module _ {B : Type 0} where
  pub note-Earned : (c : ClusterCall) (w : ClusterWorld B) → Earned w → Earned (note c w)
  note-Earned c w h =
      (λ is. ensured_in-later c w.log (h.0 is), λ is. ensured_in-later c w.log (h.1 is))

  tell-Earned : (c : ClusterCall) → Keeps {S = ClusterWorld B} Earned (tell c)
  unfolding tell
  tell-Earned c = record { at = note-Earned c }

  here-Earned : Keeps {S = ClusterWorld B} Earned here
  unfolding here
  here-Earned = record { at = λ w h. h }

  stored_machines-Earned : Keeps {S = ClusterWorld B} Earned stored_machines
  unfolding stored_machines
  stored_machines-Earned = record { at = λ w h. h }

  returned-Earned :
      {A : Type 0} (r : Result Error A) → Keeps {S = ClusterWorld B} Earned (returned r)
  unfolding returned
  returned-Earned r = record { at = λ w h. h }

  on_backend-Earned :
      {A : Type 0} (m : Exec Error B A) (entry : Result Error A → ClusterCall)
      → Keeps {S = ClusterWorld B} Earned (on_backend m entry)
  unfolding on_backend
  on_backend-Earned m entry = record {
    at = λ w h. note-Earned (entry (m w.backend).0) (record w { backend = (m w.backend).1 }) h;
  }

  written-Earned :
      (fails : Option WriteError) (change : HydraCluster → HydraCluster) (w : ClusterWorld B)
      → Modest change
      → Earned w
      → Earned (written fails change w)
  written-Earned none change w modest h =
      (λ is. h.0 (modest w.cluster is), λ is. h.1 (modest w.stored is))
  written-Earned (some e) change w modest h = (λ is. h.0 (modest w.cluster is), h.1)

  restored-Earned :
      (fails : Option WriteError) (change : HydraCluster → HydraCluster) (w : ClusterWorld B)
      → Modest change
      → Earned w
      → Earned (written_or_restored fails change w)
  restored-Earned none change w modest h =
      (λ is. h.0 (modest w.cluster is), λ is. h.1 (modest w.stored is))
  restored-Earned (some e) change w modest h = h

  machine-Earned :
      (fails : Option WriteError) (name : Text) (change : HydraMachine → HydraMachine)
      (w : ClusterWorld B)
      → Earned w
      → Earned (machine_written fails name change w)
  machine-Earned none name change w h = h
  machine-Earned (some e) name change w h = h

module _ {B : Type 0} (env : ClusterEnv B) where
  patch_status-Earned :
      (change : HydraCluster → HydraCluster)
      → Modest change
      → Keeps Earned (patch_status env change)
  unfolding patch_status
  patch_status-Earned change modest = record {
    at = λ w h.
        note-Earned (status_patched (env.write_fails w.log))
          (written (env.write_fails w.log) change w)
          (written-Earned (env.write_fails w.log) change w modest h);
  }

  patch-Earned :
      (change : HydraCluster → HydraCluster) → Modest change → Keeps Earned (patch env change)
  unfolding patch
  patch-Earned change modest = record {
    at = λ w h.
        note-Earned (patched (env.write_fails w.log)) (written (env.write_fails w.log) change w)
          (written-Earned (env.write_fails w.log) change w modest h);
  }

  patch_status_locked-Earned :
      (change : HydraCluster → HydraCluster)
      → Modest change
      → Keeps Earned (patch_status_locked env change)
  unfolding patch_status_locked
  patch_status_locked-Earned change modest = record {
    at = λ w h.
        note-Earned (status_patched (env.write_fails w.log))
          (written_or_restored (env.write_fails w.log) change w)
          (restored-Earned (env.write_fails w.log) change w modest h);
  }

  patch_machine-Earned :
      (name : Text) (change : HydraMachine → HydraMachine)
      → Keeps Earned (patch_machine env name change)
  unfolding patch_machine
  patch_machine-Earned name change = record {
    at = λ w h.
        note-Earned (machine_patched name (env.write_fails w.log))
          (machine_written (env.write_fails w.log) name change w)
          (machine-Earned (env.write_fails w.log) name change w h);
  }

-- What every step keeps that makes no claim.
pub record Bears {B : Type 0} (env : ClusterEnv B) (P : ClusterWorld B → Type 0) : Type 1 where
  pub telling : (c : ClusterCall) → Keeps P (tell c)
  pub looking : Keeps P here
  pub listing : Keeps P stored_machines
  pub returning : {A : Type 0} (r : Result Error A) → Keeps P (returned r)
  pub calling :
      {A : Type 0} (m : Exec Error B A) (entry : Result Error A → ClusterCall)
      → Keeps P (on_backend m entry)
  pub patching : (change : HydraCluster → HydraCluster) → Modest change → Keeps P (patch env change)
  pub reporting :
      (change : HydraCluster → HydraCluster) → Modest change → Keeps P (patch_status env change)
  pub confirming :
      (change : HydraCluster → HydraCluster)
      → Modest change
      → Keeps P (patch_status_locked env change)
  pub marking :
      (name : Text) (change : HydraMachine → HydraMachine) → Keeps P (patch_machine env name change)

module _ {B : Type 0} (env : ClusterEnv B) where
  pub earned : Bears env Earned
  earned = record {
    telling = tell-Earned;
    looking = here-Earned;
    listing = stored_machines-Earned;
    returning = returned-Earned;
    calling = on_backend-Earned;
    patching = patch-Earned env;
    reporting = patch_status-Earned env;
    confirming = patch_status_locked-Earned env;
    marking = patch_machine-Earned env;
  }

  abbrev pub Verified : ClusterWorld B → Type 0
  Verified w = ensured_in w.log ≡ true

  written-log :
      (fails : Option WriteError) (change : HydraCluster → HydraCluster) (w : ClusterWorld B)
      → Verified w
      → Verified (written fails change w)
  written-log none change w h = h
  written-log (some e) change w h = h

  restored-log :
      (fails : Option WriteError) (change : HydraCluster → HydraCluster) (w : ClusterWorld B)
      → Verified w
      → Verified (written_or_restored fails change w)
  restored-log none change w h = h
  restored-log (some e) change w h = h

  machine-log :
      (fails : Option WriteError) (name : Text) (change : HydraMachine → HydraMachine)
      (w : ClusterWorld B)
      → Verified w
      → Verified (machine_written fails name change w)
  machine-log none name change w h = h
  machine-log (some e) name change w h = h

  -- Once verified, any change of the status keeps it so.
  pub patch_status-Verified :
      (change : HydraCluster → HydraCluster) → Keeps Verified (patch_status env change)
  unfolding patch_status
  patch_status-Verified change = record {
    at = λ w h. ensured_in-later _ _ (written-log (env.write_fails w.log) change w h);
  }

  pub Verified-Bears : Bears env Verified
  unfolding tell here stored_machines returned on_backend patch patch_status_locked patch_machine
  Verified-Bears = record {
    telling = λ c. record { at = λ w h. ensured_in-later c w.log h };
    looking = record { at = λ w h. h };
    listing = record { at = λ w h. h };
    returning = λ r. record { at = λ w h. h };
    calling = λ m entry. record { at = λ w h. ensured_in-later _ w.log h };
    patching = λ change modest. record {
      at = λ w h. ensured_in-later _ _ (written-log (env.write_fails w.log) change w h);
    };
    reporting = λ change modest. patch_status-Verified change;
    confirming = λ change modest. record {
      at = λ w h. ensured_in-later _ _ (restored-log (env.write_fails w.log) change w h);
    };
    marking = λ name change. record {
      at = λ w h. ensured_in-later _ _ (machine-log (env.write_fails w.log) name change w h);
    };
  }
