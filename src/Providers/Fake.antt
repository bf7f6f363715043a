-- ===== src/Providers/Fake.antt =====
-- internal/providers/fake/fake.go: the in-memory backend. The failures that a test injects are fixed
-- for a run. A name always leads to a machine; the nil that Go would return otherwise is an error here.
pub mod Contract
mod Digits
mod Examples
use cluster_api_provider_hyd.Base.{
  ℕ, zero, suc, ◌+◌, ◌/◌, ◌%◌, Bool, true, false, Option, none, some, List, [], ◌∷◌, ◌++◌, Eq, ◌==◌,
  nat_eq, list_eq, ltb, if◌then◌else◌, Text, text,
}
use cluster_api_provider_hyd.Base.Dict
use cluster_api_provider_hyd.Base.Dict.{Dict}
use cluster_api_provider_hyd.Base.Exec.{Result, ok, err}
use cluster_api_provider_hyd.Providers.Errors.{Error, not_found, other}
use cluster_api_provider_hyd.Providers.Identity.{
  is_empty, hostname_type, MachineSpec, MachineState, InfrastructureSpec, MachineProvider,
}

pub record Faults : Type 0 where
  pub create_err : Option Error
  pub infrastructure_err : Option Error
  pub get_err : Option Error
  pub find_err : Option Error
  pub delete_err : Option Error
  pub default_storage_pool : Text
  pub ready_on_create : Bool

pub record Fake : Type 0 where
  pub machines : Dict Text MachineState
  pub by_name : Dict Text Text
  pub partials : Dict Text (Unit {0})
  pub next_id : ℕ
  pub create_calls : ℕ
  pub delete_calls : ℕ
  pub infrastructure_checks : ℕ
  pub delete_by_name_pools : List Text
  pub last_spec : Option MachineSpec

unfoldable pub new : Fake
new = record {
  machines = Dict.empty;
  by_name = Dict.empty;
  partials = Dict.empty;
  next_id = 0;
  create_calls = 0;
  delete_calls = 0;
  infrastructure_checks = 0;
  delete_by_name_pools = [];
  last_spec = none;
}

-- `%d`, by its digits from the last; a number has no more digits than itself, plus one.
unfoldable pub decimal : ℕ → ℕ → Text → Text
decimal zero n rest = rest
decimal (suc fuel) n rest =
    let digit = 48 + n % 10 in
    let more = decimal fuel (n / 10) (digit ∷ rest) in if ltb n 10 then digit ∷ rest else more

unfoldable pub fake_id : ℕ → Text
fake_id n = text "fake-" ++ decimal (suc n) n []

abbrev pub or_missing : Option MachineState → Result Error MachineState
or_missing none = err other
or_missing (some s) = ok s

-- The machine that an injected failure, or what is there, answers with.
abbrev pub unless : {A : Type 0} → Option Error → Result Error A → Result Error A
unless none r = r
unless (some e) r = err e

-- Takes out the first name that leads to the id.
unfoldable pub forget : Text → List Text → Dict Text Text → Dict Text Text
forget id [] names = names
forget id (name ∷ rest) names =
    let later = forget id rest names in
    elim (Dict.get names name) [
      | none ↦ later
      | some mapped ↦ (if mapped == id then Dict.delete names name else later)
    ]

-- `deleteLocked`
unfoldable pub delete_locked : Fake → Text → Fake
delete_locked p id = elim (Dict.get p.machines id) [
  | none ↦ p
  | some state ↦ record p {
    by_name = forget state.id (Dict.keys p.by_name) p.by_name;
    machines = Dict.delete p.machines id;
  }
]

module _ (faults : Faults) where
  abbrev pub made : MachineSpec → Text → MachineState
  made spec id = record {
    id = id;
    name = spec.name;
    ready = faults.ready_on_create;
    addresses = record { type = hostname_type; address = spec.name } ∷ [];
  }

  unfoldable pub create_new : MachineSpec → Fake → Result Error MachineState × Fake
  create_new spec p =
      let id = fake_id (suc p.next_id) in
      (
        ok (made spec id),
        record p {
          next_id = suc p.next_id;
          machines = Dict.put p.machines id (made spec id);
          by_name = Dict.put p.by_name spec.name id;
        },
      )

  unfoldable pub create : MachineSpec → Fake → Result Error MachineState × Fake
  create spec p =
      let q : Fake = record p { create_calls = p.create_calls + 1; last_spec = some spec } in
      elim faults.create_err [
        | some e ↦ (err e, q)
        | none ↦ elim (Dict.get q.by_name spec.name) [
          | some id ↦ (or_missing (Dict.get q.machines id), q)
          | none ↦ create_new spec q
        ]
      ]

  unfoldable pub get : Text → Fake → Result Error MachineState × Fake
  get id p = (
    unless faults.get_err (elim (Dict.get p.machines id) [ none ↦ err not_found | some s ↦ ok s ]),
    p,
  )

  abbrev pub named : Fake → Option Text → Result Error MachineState
  named p none = err not_found
  named p (some id) = or_missing (Dict.get p.machines id)

  unfoldable pub find_by_name : Text → Fake → Result Error MachineState × Fake
  find_by_name name p = (unless faults.find_err (named p (Dict.get p.by_name name)), p)

  unfoldable pub delete : Text → Fake → Result Error (Unit {0}) × Fake
  delete id p =
      let q : Fake = record p { delete_calls = p.delete_calls + 1 } in
      elim faults.delete_err [ some e ↦ (err e, q) | none ↦ (ok tt, delete_locked q id) ]

  unfoldable pub delete_by_name : Text → Text → Fake → Result Error (Unit {0}) × Fake
  delete_by_name name pool p =
      let q : Fake = record p {
        delete_calls = p.delete_calls + 1;
        delete_by_name_pools = p.delete_by_name_pools ++ pool ∷ [];
      } in
      let r : Fake = record q { partials = Dict.delete q.partials name } in
      elim faults.delete_err [
        | some e ↦ (err e, q)
        | none ↦ elim (Dict.get r.by_name name) [
          | none ↦ (ok tt, r)
          | some id ↦ (ok tt, delete_locked r id)
        ]
      ]

  unfoldable pub ensure_infrastructure : InfrastructureSpec → Fake → Result Error (Unit {0}) × Fake
  ensure_infrastructure spec p = (
    unless faults.infrastructure_err (ok tt),
    record p { infrastructure_checks = p.infrastructure_checks + 1 },
  )

  unfoldable pub storage_pool_for : Text → Text
  storage_pool_for requested = if is_empty requested then faults.default_storage_pool else requested

  abbrev pub fake : MachineProvider Fake
  fake = record {
    name = text "fake";
    storage_pool_for = storage_pool_for;
    create = create;
    get = get;
    find_by_name = find_by_name;
    delete = delete;
    ensure_infrastructure = ensure_infrastructure;
    delete_by_name = delete_by_name;
  }
