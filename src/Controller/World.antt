-- ===== src/Controller/World.antt =====
-- What a reconcile of a HydraMachine acts on. The API server, Cluster API's objects, the connection
-- holder and the standard library's cryptography are parameters (`Env`); a read answers from one
-- snapshot, and whether a write fails may depend on every call made before it. A patch is the change
-- that it makes: to the reconciler's copy in any case, to the stored object where it is accepted.
use cluster_api_provider_hyd.Base.{Bool, Option, none, some, List, ◌∷◌, ◌++◌, Text}
use cluster_api_provider_hyd.Base.Exec.{Result, ok, err, Exec}
use cluster_api_provider_hyd.Providers.Errors.{Error, Wait, OutcomeLabel}
use cluster_api_provider_hyd.Providers.Identity.{MachineSpec, MachineProvider}
use cluster_api_provider_hyd.Controller.Objects.{
  HydraMachine, Machine, Cluster, HydraCluster, Secret, Phase,
}

-- The client identity: the contents of the three PEM files.
pub record TlsCredentials : Type 0 where
  pub ca_cert : Text
  pub client_cert : Text
  pub client_key : Text

pub record Hypervisor : Type 0 where
  pub address : Text
  pub credentials : TlsCredentials
  pub credentials_version : Text

-- Reads of the namespace that the HydraMachine is in, by name.
pub record Reader : Type 0 where
  pub get_machine : Text → Result Error Machine
  pub get_cluster : Text → Result Error Cluster
  pub get_hydra_cluster : Text → Result Error HydraCluster
  pub get_secret : Text → Result Error Secret

-- A call of the outside, with its answer where the code looks at one.
pub data Call : Type 0 where
  patched status_patched : Option Error → Call
  created : MachineSpec → Call
  deleted : Text → Option Error → Call
  deleted_by_name : Text → Text → Option Error → Call
  released : Text → Text → Call
  wait_counted : Wait → Call
  failure_counted : Phase → OutcomeLabel → Call

pub record Env (B : Type 0) : Type 0 where
  pub reader : Reader
  pub write_fails : List Call → Option Error
  -- `Provider`, which tests set, and `ProviderFor`
  pub provider : Option (MachineProvider B)
  pub provider_for : Option (Option Hypervisor → Result Error (MachineProvider B))
  pub releases : Bool
  -- the digest in hexadecimal, of 64 bytes
  pub sha256_hex : Text → Text
  pub key_pair_matches : Text → Text → Bool
  pub holds_certificate : Text → Bool

-- The latest call stands first in the log.
pub record World (B : Type 0) : Type 0 where
  pub machine : HydraMachine
  pub stored : HydraMachine
  pub backend : B
  pub log : List Call

abbrev pub Action : Type 0 → Type 0 → Type 0
Action B A = Exec Error (World B) A

abbrev pub failure : {A : Type 0} → Result Error A → Option Error
failure (ok a) = none
failure (err e) = some e

abbrev pub answer : Option Error → Result Error (Unit {0})
answer none = ok tt
answer (some e) = err e

module _ {B : Type 0} where
  abbrev pub note : Call → World B → World B
  note c w = record w { log = c ∷ w.log }

  -- A call that only counts or tells.
  unfoldable pub tell : Call → Action B (Unit {0})
  tell c w = (ok tt, note c w)

  -- A call of the backend, whose entry in the log may hold the answer.
  unfoldable pub on_backend :
      {A : Type 0} → Exec Error B A → (Result Error A → List Call) → Action B A
  on_backend m entry w =
      let (r, b) = m w.backend in (r, record w { backend = b; log = entry r ++ w.log })

  unfoldable pub written : Option Error → (HydraMachine → HydraMachine) → World B → World B
  written none change w = record w { machine = change w.machine; stored = change w.stored }
  written (some e) change w = record w { machine = change w.machine }

  -- `r.Patch` and `r.Status().Patch` with the change made since the copy was taken.
  unfoldable pub patch : Env B → (HydraMachine → HydraMachine) → Action B (Unit {0})
  patch env change w =
      let fails = env.write_fails w.log in
      (answer fails, note (patched fails) (written fails change w))

  unfoldable pub patch_status : Env B → (HydraMachine → HydraMachine) → Action B (Unit {0})
  patch_status env change w =
      let fails = env.write_fails w.log in
      (answer fails, note (status_patched fails) (written fails change w))

  -- The reconciler's copy.
  unfoldable pub here : Action B HydraMachine
  here w = (ok w.machine, w)

  -- A pure function that may return an error.
  unfoldable pub returned : {A : Type 0} → Result Error A → Action B A
  returned r w = (r, w)
