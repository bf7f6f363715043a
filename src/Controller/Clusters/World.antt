-- ===== src/Controller/Clusters/World.antt =====
-- internal/controller/hydracluster_controller.go: what a reconcile of a HydraCluster acts on. The writes
-- are the changes that they make: to the reconciler's copy, and to the stored object where the API
-- server accepts them.
use cluster_api_provider_hyd.Base.{
  Bool, true, false, Option, none, some, List, [], ◌∷◌, Text, ◌==◌, nat_eq, list_eq, if◌then◌else◌,
}
use cluster_api_provider_hyd.Base.Exec.{Result, ok, err, Exec}
use cluster_api_provider_hyd.Providers.Errors.{Error, terminal, other}
use cluster_api_provider_hyd.Providers.Identity.{InfrastructureSpec}
use cluster_api_provider_hyd.Controller.Objects.{HydraCluster, HydraMachine}
use cluster_api_provider_hyd.Controller.World.{Env}

-- The errors that a reconcile tells apart: those of the backend, and its own.
pub data ClusterError : Type 0 where
  sentinel : Error → ClusterError
  endpoint_pending hypervisor_pending hypervisor_conflict : ClusterError

abbrev pub is_terminal : ClusterError → Bool
is_terminal (sentinel terminal) = true
is_terminal e = false

abbrev pub is_endpoint_pending : ClusterError → Bool
is_endpoint_pending endpoint_pending = true
is_endpoint_pending e = false

-- A write under an optimistic lock that another write overtook, and any other failure.
pub data WriteError : Type 0 where
  conflict refused : WriteError

pub data ClusterCall : Type 0 where
  patched status_patched : Option WriteError → ClusterCall
  machine_patched : Text → Option WriteError → ClusterCall
  looked_for : Text → ClusterCall
  ensured : InfrastructureSpec → Option Error → ClusterCall
  released : Text → Text → ClusterCall

-- `list_fails` is whether the machines cannot be listed.
pub record ClusterEnv (B : Type 0) : Type 0 where
  pub env : Env B
  pub list_fails : Bool
  pub write_fails : List ClusterCall → Option WriteError

-- The latest call stands first in the log. `machines` are the stored HydraMachines of the namespace.
pub record ClusterWorld (B : Type 0) : Type 0 where
  pub cluster : HydraCluster
  pub stored : HydraCluster
  pub machines : List HydraMachine
  pub backend : B
  pub log : List ClusterCall

abbrev pub ClusterAction : Type 0 → Type 0 → Type 0
ClusterAction B A = Exec ClusterError (ClusterWorld B) A

-- The change to the machine of the name.
unfoldable pub change_named :
    Text → (HydraMachine → HydraMachine) → List HydraMachine → List HydraMachine
change_named name change [] = []
change_named name change (m ∷ rest) =
    (if m.name == name then change m else m) ∷ change_named name change rest

abbrev pub lifted : {A : Type 0} → Result Error A → Result ClusterError A
lifted (ok a) = ok a
lifted (err e) = err (sentinel e)

abbrev pub write_answer : Option WriteError → Result ClusterError (Unit {0})
write_answer none = ok tt
write_answer (some e) = err (sentinel other)

-- `r.Patch` with an optimistic lock: whether another write got there first.
abbrev pub conflicts : Option WriteError → Result ClusterError Bool
conflicts none = ok false
conflicts (some conflict) = ok true
conflicts (some refused) = err (sentinel other)

module _ {B : Type 0} where
  abbrev pub note : ClusterCall → ClusterWorld B → ClusterWorld B
  note c w = record w { log = c ∷ w.log }

  unfoldable pub tell : ClusterCall → ClusterAction B (Unit {0})
  tell c w = (ok tt, note c w)

  unfoldable pub here : ClusterAction B HydraCluster
  here w = (ok w.cluster, w)

  unfoldable pub stored_machines : ClusterAction B (List HydraMachine)
  stored_machines w = (ok w.machines, w)

  -- A pure function that may return an error.
  unfoldable pub returned : {A : Type 0} → Result Error A → ClusterAction B A
  returned r w = (lifted r, w)

  unfoldable pub on_backend :
      {A : Type 0} → Exec Error B A → (Result Error A → ClusterCall) → ClusterAction B A
  on_backend m entry w =
      let (r, b) = m w.backend in (lifted r, note (entry r) (record w { backend = b }))

  abbrev pub written :
      Option WriteError → (HydraCluster → HydraCluster) → ClusterWorld B → ClusterWorld B
  written none change w = record w { cluster = change w.cluster; stored = change w.stored }
  written (some e) change w = record w { cluster = change w.cluster }

  unfoldable pub patch_status :
      ClusterEnv B → (HydraCluster → HydraCluster) → ClusterAction B (Unit {0})
  patch_status env change w =
      let fails = env.write_fails w.log in
      (write_answer fails, note (status_patched fails) (written fails change w))

  unfoldable pub patch : ClusterEnv B → (HydraCluster → HydraCluster) → ClusterAction B Bool
  patch env change w =
      let fails = env.write_fails w.log in
      (conflicts fails, note (patched fails) (written fails change w))

  -- The status under an optimistic lock; a refused change is taken back from the copy.
  abbrev pub written_or_restored :
      Option WriteError → (HydraCluster → HydraCluster) → ClusterWorld B → ClusterWorld B
  written_or_restored none change w = record w {
    cluster = change w.cluster;
    stored = change w.stored;
  }
  written_or_restored (some e) change w = w

  unfoldable pub patch_status_locked :
      ClusterEnv B → (HydraCluster → HydraCluster) → ClusterAction B Bool
  patch_status_locked env change w =
      let fails = env.write_fails w.log in
      (conflicts fails, note (status_patched fails) (written_or_restored fails change w))

  abbrev pub machine_written :
      Option WriteError → Text → (HydraMachine → HydraMachine) → ClusterWorld B → ClusterWorld B
  machine_written none name change w = record w { machines = change_named name change w.machines }
  machine_written (some e) name change w = w

  unfoldable pub patch_machine :
      ClusterEnv B → Text → (HydraMachine → HydraMachine) → ClusterAction B Bool
  patch_machine env name change w =
      let fails = env.write_fails w.log in
      (conflicts fails, note (machine_patched name fails) (machine_written fails name change w))
