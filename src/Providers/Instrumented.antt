-- ===== src/Providers/Instrumented.antt =====
-- internal/providers/instrumented.go: the decorator that measures a backend's calls. A sample has no duration.
use cluster_api_provider_hyd.Base.{Option, none, some, List, ◌∷◌, ◌≡◌, refl, ap, ◌∙◌, sym, Text}
use cluster_api_provider_hyd.Base.Exec.{Result, ok, err, Exec}
use cluster_api_provider_hyd.Providers.Errors.{Error, OutcomeLabel, classify_outcome}
use cluster_api_provider_hyd.Providers.Identity.{MachineProvider, Idempotent}

pub data Operation : Type 0 where
  dial create delete get find_by_name delete_by_name ensure_infrastructure : Operation

pub record Sample : Type 0 where
  pub operation : Operation
  pub outcome : OutcomeLabel
  pub hypervisor : Text

-- The latest sample stands first.
pub record Instrumented (B : Type 0) : Type 0 where
  pub machine_provider : B
  pub samples : List Sample

abbrev error_of : {A : Type 0} → Result Error A → Option Error
error_of (ok a) = none
error_of (err e) = some e

unfoldable pub observe : Text → Operation → Option Error → List Sample → List Sample
observe hypervisor operation cause samples =
    record { operation = operation; outcome = classify_outcome cause; hypervisor = hypervisor }
    ∷ samples

unfoldable pub observe_dial : Text → Option Error → List Sample → List Sample
observe_dial hypervisor cause samples = observe hypervisor dial cause samples

module _ {B : Type 0} (hypervisor : Text) where
  abbrev sampled :
      {A : Type 0} → Operation → List Sample → Result Error A × B → Result Error A × Instrumented B
  sampled operation samples (r, b) = (
    r,
    record { machine_provider = b; samples = observe hypervisor operation (error_of r) samples },
  )

  unfoldable pub observed :
      {A : Type 0} → Operation → Exec Error B A → Exec Error (Instrumented B) A
  observed operation m p = sampled operation p.samples (m p.machine_provider)

  unfoldable pub new_instrumented : MachineProvider B → MachineProvider (Instrumented B)
  new_instrumented p = record {
    name = p.name;
    storage_pool_for = p.storage_pool_for;
    create = λ spec. observed create (p.create spec);
    get = λ id. observed get (p.get id);
    find_by_name = λ name. observed find_by_name (p.find_by_name name);
    delete = λ id. observed delete (p.delete id);
    ensure_infrastructure = λ spec. observed ensure_infrastructure (p.ensure_infrastructure spec);
    delete_by_name = λ name pool. observed delete_by_name (p.delete_by_name name pool);
  }

-- Of an answer, without the samples.
abbrev inner : {A B : Type 0} → Result Error A × Instrumented B → Result Error A × B
inner (r, p) = (r, p.machine_provider)

inner-sampled :
    {A B : Type 0} (hypervisor : Text) (operation : Operation) (samples : List Sample)
    (r : Result Error A × B)
    → inner (sampled hypervisor operation samples r) ≡ r
inner-sampled hypervisor operation samples (r, b) = refl

-- A backend that is idempotent in what it holds is so when it is measured.
pub new_instrumented-Idempotent :
    {B V : Type 0} (hypervisor : Text) (prov : MachineProvider B) (view : B → V)
    → Idempotent prov view
    → Idempotent (new_instrumented hypervisor prov) (λ p. view p.machine_provider)
unfolding new_instrumented observed
new_instrumented-Idempotent hypervisor prov view idem = record {
  finds = λ spec a b c s made same.
      let (t, d, found, kept) =
        idem.finds spec a.machine_provider b.machine_provider c.machine_provider s
          (sym (inner-sampled hypervisor create a.samples (prov.create spec a.machine_provider))
            ∙ ap inner made)
          same in
      (t, _, ap (sampled hypervisor find_by_name c.samples) found, kept);
  adopts = λ spec again a b c s made named same.
      let (t, d, found, kept, alike) =
        idem.adopts spec again a.machine_provider b.machine_provider c.machine_provider s
          (sym (inner-sampled hypervisor create a.samples (prov.create spec a.machine_provider))
            ∙ ap inner made)
          named same in
      (t, _, ap (sampled hypervisor create c.samples) found, kept, alike);
}
