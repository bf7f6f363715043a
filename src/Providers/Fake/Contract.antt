-- ===== src/Providers/Fake/Contract.antt =====
-- The in-memory backend keeps the contract of `Create`.
use cluster_api_provider_hyd.Base.{
  suc, ◌+◌, ◌≡◌, refl, ap, sym, ◌∙◌, subst, Option, none, some, Text, list_eq, nat_eq, ==_refl,
}
use cluster_api_provider_hyd.Base.Dict
use cluster_api_provider_hyd.Base.Dict.{Dict}
use cluster_api_provider_hyd.Base.Exec.{Result, ok, err}
use cluster_api_provider_hyd.Providers.Errors.{Error}
use cluster_api_provider_hyd.Providers.Identity.{MachineSpec, MachineState, Idempotent}
use cluster_api_provider_hyd.Providers.Fake

-- What the backend holds.
abbrev pub view : Fake.Fake → Dict Text MachineState × Dict Text Text
view p = (p.machines, p.by_name)

-- The name leads to the machine.
record Leads (p : Fake.Fake) (name : Text) (s : MachineState) : Type 0 where
  id : Text
  by_name : Dict.get p.by_name name ≡ some id
  machine : Dict.get p.machines id ≡ some s

Leads-view :
    (p q : Fake.Fake) (name : Text) (s : MachineState)
    → view q ≡ view p
    → Leads p name s
    → Leads q name s
Leads-view p q name s same h = record {
  id = h.id;
  by_name = ap (λ v. Dict.get v.1 name) same ∙ h.by_name;
  machine = ap (λ v. Dict.get v.0 h.id) same ∙ h.machine;
}

-- What an answer of `Create` leaves behind.
Made : MachineSpec → Result Error MachineState × Fake.Fake → Type 0
Made spec (ok s, q) = Leads q spec.name s
Made spec (err e, q) = Unit

module _ (faults : Fake.Faults) where
  create_new-Made : (spec : MachineSpec) (p : Fake.Fake) → Made spec (Fake.create_new faults spec p)
  unfolding Fake.create_new Made
  create_new-Made spec p =
      let id : Text = Fake.fake_id (suc p.next_id) in
      record {
        id = id;
        by_name = rw (Dict.get-put p.by_name spec.name spec.name id, ==_refl spec.name);
        machine = rw (Dict.get-put p.machines id id (Fake.made faults spec id), ==_refl id);
      }

  present-Made :
      (spec : MachineSpec) (p : Fake.Fake) (id : Text) (o : Option MachineState)
      → Dict.get p.by_name spec.name ≡ some id
      → Dict.get p.machines id ≡ o
      → Made spec (Fake.or_missing o, p)
  unfolding Made
  present-Made spec p id none leads there = tt
  present-Made spec p id (some s) leads there = record { id = id; by_name = leads; machine = there }

  named-Made :
      (spec : MachineSpec) (p : Fake.Fake) (o : Option Text)
      → Dict.get p.by_name spec.name ≡ o
      → Made spec (elim o as (λ _. Result Error MachineState × Fake.Fake) [
        | some id ↦ (Fake.or_missing (Dict.get p.machines id), p)
        | none ↦ Fake.create_new faults spec p
      ])
  named-Made spec p none leads = create_new-Made spec p
  named-Made spec p (some id) leads = present-Made spec p id (Dict.get p.machines id) leads refl

  -- `Create` once it has counted the call.
  abbrev counted : MachineSpec → Fake.Fake → Fake.Fake
  counted spec p = record p { create_calls = p.create_calls + 1; last_spec = some spec }

  abbrev by_lookup : MachineSpec → Fake.Fake → Option Text → Result Error MachineState × Fake.Fake
  by_lookup spec q o = elim o [
    | some id ↦ (Fake.or_missing (Dict.get q.machines id), q)
    | none ↦ Fake.create_new faults spec q
  ]

  module _ (creates : faults.create_err ≡ none) where
    create_counted :
        (spec : MachineSpec) (p : Fake.Fake)
        → Fake.create faults spec p ≡ by_lookup spec (counted spec p) (Dict.get p.by_name spec.name)
    unfolding Fake.create
    create_counted spec p = rw creates

    create-Made : (spec : MachineSpec) (p : Fake.Fake) → Made spec (Fake.create faults spec p)
    create-Made spec p =
        subst (Made spec) (sym (create_counted spec p))
          (named-Made spec (counted spec p) (Dict.get p.by_name spec.name) refl)

    created-Leads :
        (spec : MachineSpec) (p q : Fake.Fake) (s : MachineState)
        → Fake.create faults spec p ≡ (ok s, q)
        → Leads q spec.name s
    unfolding Made
    created-Leads spec p q s h = subst (Made spec) h (create-Made spec p)

    create_again :
        (spec : MachineSpec) (p : Fake.Fake) (s : MachineState)
        → Leads p spec.name s
        → Fake.create faults spec p ≡ (ok s, counted spec p)
    create_again spec p s h =
        create_counted spec p
        ∙ ap (by_lookup spec (counted spec p)) h.by_name
        ∙ ap (λ o. (Fake.or_missing o, counted spec p)) h.machine

  found_by_name :
      faults.find_err ≡ none
      → (name : Text) (p : Fake.Fake) (s : MachineState) → Leads p name s
      → Fake.find_by_name faults name p ≡ (ok s, p)
  unfolding Fake.find_by_name
  found_by_name finds name p s h =
      ap (λ e. (Fake.unless e (Fake.named faults p (Dict.get p.by_name name)), p)) finds
      ∙ ap (λ o. (Fake.named faults p o, p)) h.by_name
      ∙ ap (λ o. (Fake.or_missing o, p)) h.machine

  -- Where a test injects no failure of `Create` or `FindByName`, the in-memory backend keeps the
  -- contract of `Create`.
  pub fake-Idempotent :
      faults.create_err ≡ none → faults.find_err ≡ none → Idempotent (Fake.fake faults) view
  fake-Idempotent creates finds = record {
    finds = λ spec a b c s made alike.
        let leads = Leads-view b c spec.name s alike (created-Leads creates spec a b s made) in
        (s, c, found_by_name finds spec.name c s leads, alike);
    adopts = λ spec again a b c s made same alike.
        let leads = Leads-view b c spec.name s alike (created-Leads creates spec a b s made) in
        let renamed : Leads c again.name s = subst (λ n. Leads c n s) (sym same) leads in
        (s, counted again c, create_again creates again c s renamed, alike, refl);
  }
