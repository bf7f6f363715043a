-- ===== src/Providers/Identity.antt =====
-- internal/providers/provider.go: what crosses the boundary to a backend, and the providerID. A
-- string is its bytes; an int32 or int64 is a number that the API server has validated.
pub mod Format
mod Examples
use cluster_api_provider_hyd.Base.{
  ℕ, ◌≡◌, Bool, true, false, not, ◌&&◌, ◌||◌, Option, none, some, List, [], ◌∷◌, ◌++◌, Eq, ◌==◌,
  nat_eq, list_eq, leb, if◌then◌else◌, length, take, drop, Text, text, is_some, list_beq_iff, ◌↔◌,
  arith,
}
use cluster_api_provider_hyd.Base.Exec.{Result, ok, err, Exec}
use cluster_api_provider_hyd.Providers.Errors.{Error, other}

pub data AddressType : Type 0 where
  hostname_type internal_ip external_ip : AddressType

abbrev type_beq : AddressType → AddressType → Bool
type_beq hostname_type hostname_type = true
type_beq internal_ip internal_ip = true
type_beq external_ip external_ip = true
type_beq a b = false

type_beq_iff : (a b : AddressType) → (type_beq a b ≡ true) ↔ (a ≡ b)
type_beq_iff hostname_type b = elim b [
  | hostname_type ↦ ground arith
  | internal_ip ↦ ground arith
  | external_ip ↦ ground arith
]
type_beq_iff internal_ip b = elim b [
  | hostname_type ↦ ground arith
  | internal_ip ↦ ground arith
  | external_ip ↦ ground arith
]
type_beq_iff external_ip b = elim b [
  | hostname_type ↦ ground arith
  | internal_ip ↦ ground arith
  | external_ip ↦ ground arith
]

pub record Address : Type 0 where
  pub type : AddressType
  pub address : Text

abbrev address_beq : Address → Address → Bool
address_beq a b = type_beq a.type b.type && a.address == b.address

pub address_beq_iff : (a b : Address) → (address_beq a b ≡ true) ↔ (a ≡ b)
address_beq_iff a b = ground (arith, type_beq_iff a.type b.type, list_beq_iff a.address b.address)

instance abbrev pub address_eq : Eq Address
address_eq = record { beq = address_beq; beq_iff = address_beq_iff }

pub record Image : Type 0 where
  pub name : Text
  pub url : Text
  pub checksum : Text

pub record ManagedNetwork : Type 0 where
  pub name : Text
  pub subnet : Text
  pub dhcp_start : Text
  pub dhcp_end : Text

pub record MachineSpec : Type 0 where
  pub name : Text
  pub vcpus : ℕ
  pub memory_bytes : ℕ
  pub disk_bytes : ℕ
  pub image : Image
  pub networks : List Text
  pub managed_network : Option ManagedNetwork
  pub storage_pool : Text
  pub hostname : Text
  pub bootstrap_data : Text

pub record MachineState : Type 0 where
  pub id : Text
  pub name : Text
  pub ready : Bool
  pub addresses : List Address

-- The platform of the node that a machine becomes.
pub record NodePlatform : Type 0 where
  pub architecture : Text
  pub operating_system : Text

pub record InfrastructureSpec : Type 0 where
  pub storage_pool : Text
  pub image : Image
  pub managed_network : Option ManagedNetwork

-- A backend whose own state is a `B`: what a call answers, and the state after it.
pub record MachineProvider (B : Type 0) : Type 0 where
  pub name : Text
  pub storage_pool_for : Text → Text
  pub create : MachineSpec → Exec Error B MachineState
  pub get : Text → Exec Error B MachineState
  pub find_by_name : Text → Exec Error B MachineState
  pub delete : Text → Exec Error B (Unit {0})
  pub ensure_infrastructure : InfrastructureSpec → Exec Error B (Unit {0})
  pub delete_by_name : Text → Text → Exec Error B (Unit {0})

-- What internal/providers/provider.go asks of `Create`: the machine that it made is found by its name,
-- and another call with the name, whatever else the spec says, returns that machine and makes none.
-- `view` is what the backend holds, apart from connections, caches and counters.
pub record Idempotent {B V : Type 0} (prov : MachineProvider B) (view : B → V) : Type 0 where
  pub finds :
      (spec : MachineSpec) (a b c : B) (s : MachineState)
      → prov.create spec a ≡ (ok s, b)
      → view c ≡ view b
      → (t : MachineState) × (d : B) × (prov.find_by_name spec.name c ≡ (ok t, d))
        × (view d ≡ view b)
  pub adopts :
      (spec again : MachineSpec) (a b c : B) (s : MachineState)
      → prov.create spec a ≡ (ok s, b)
      → again.name ≡ spec.name
      → view c ≡ view b
      → (t : MachineState) × (d : B) × (prov.create again c ≡ (ok t, d))
        × (view d ≡ view b)
        × (t.id ≡ s.id)

abbrev pub slash : ℕ
slash = 47

abbrev pub scheme : Text
scheme = text "hydra://"

unfoldable pub provider_id : Text → Text → Text
provider_id backend id = scheme ++ backend ++ slash ∷ id

-- What stands before the first slash, and what after it.
unfoldable pub cut_slash : Text → Option (Text × Text)
cut_slash [] = none
cut_slash (c ∷ rest) =
    let later = cut_slash rest in
    if c == slash
    then some ([], rest)
    else elim later [ none ↦ none | some p ↦ some (c ∷ p.0, p.1) ]

abbrev pub is_empty : Text → Bool
is_empty [] = true
is_empty (c ∷ s) = false

abbrev pub parse_rest : Option (Text × Text) → Result Error (Text × Text)
parse_rest none = err other
parse_rest (some p) = if is_empty p.0 || is_empty p.1 then err other else ok p

unfoldable pub parse_provider_id : Text → Result Error (Text × Text)
parse_provider_id s =
    if leb (length s) (length scheme) || not (take (length scheme) s == scheme)
    then err other
    else parse_rest (cut_slash (drop (length scheme) s))
