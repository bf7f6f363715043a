-- ===== src/Controller/Hypervisors.antt =====
-- internal/controller/hypervisor.go: the canonical form of a hypervisor's address, and the connection
-- request that a HydraCluster makes. `net.SplitHostPort`, `net.JoinHostPort` and `strconv.Atoi` are
-- written out; the reader is never nil.
use cluster_api_provider_hyd.Base.{
  ℕ, ◌+◌, ◌-◌, ◌*◌, Bool, false, not, ◌&&◌, ◌||◌, Option, none, some, [], ◌∷◌, ◌++◌, ◌==◌, nat_eq,
  list_eq, leb, if◌then◌else◌, contains, Text, text,
}
use cluster_api_provider_hyd.Base.Exec.{Result, ok, err}
use cluster_api_provider_hyd.Providers.Errors.{Error, terminal}
use cluster_api_provider_hyd.Providers.Identity.{is_empty}
use cluster_api_provider_hyd.Controller.Objects.{HydraCluster, HypervisorSpec, Secret}
use cluster_api_provider_hyd.Controller.World.{TlsCredentials, Hypervisor, Env}
use cluster_api_provider_hyd.Controller.Linkage.{if_found}

abbrev pub colon : ℕ
colon = 58

abbrev pub opening : ℕ
opening = 91

abbrev pub closing : ℕ
closing = 93

-- What stands before the last `c`, and what after it.
unfoldable pub cut_last : ℕ → Text → Option (Text × Text)
cut_last c [] = none
cut_last c (x ∷ s) =
    let later = cut_last c s in
    elim later [ none ↦ (if x == c then some ([], s) else none) | some p ↦ some (x ∷ p.0, p.1) ]

unfoldable pub cut_first : ℕ → Text → Option (Text × Text)
cut_first c [] = none
cut_first c (x ∷ s) =
    let later = cut_first c s in
    if x == c then some ([], s) else elim later [ none ↦ none | some p ↦ some (x ∷ p.0, p.1) ]

-- A host in brackets, after the opening one, and the port.
abbrev bracketed : Option (Text × Text) → Text → Option (Text × Text)
bracketed none port = none
bracketed (some p) port =
    if not (is_empty p.1)
      || (contains opening p.0 || (contains opening port || contains closing port))
    then none
    else some (p.0, port)

abbrev plain : Text → Text → Option (Text × Text)
plain host port =
    if contains colon host
      || (contains opening host
          || (contains closing host || (contains opening port || contains closing port)))
    then none
    else some (host, port)

abbrev split_at : Option (Text × Text) → Option (Text × Text)
split_at none = none
split_at (some p) = elim p.0 [
  | [] ↦ plain [] p.1
  | c ∷ rest ↦
      (if c == opening then bracketed (cut_first closing rest) p.1 else plain (c ∷ rest) p.1)
]

unfoldable pub split_host_port : Text → Option (Text × Text)
split_host_port s = split_at (cut_last colon s)

unfoldable pub join_host_port : Text → Text → Text
join_host_port host port =
    if contains colon host then opening ∷ (host ++ closing ∷ colon ∷ port) else host ++ colon ∷ port

unfoldable pub trim_prefix : ℕ → Text → Text
trim_prefix c [] = []
trim_prefix c (x ∷ s) = if x == c then s else x ∷ s

unfoldable pub trim_suffix : ℕ → Text → Text
trim_suffix c [] = []
trim_suffix c (x ∷ s) = let rest = trim_suffix c s in if is_empty s && x == c then [] else x ∷ rest

abbrev is_digit : ℕ → Bool
is_digit c = leb 48 c && leb c 57

unfoldable pub digits : ℕ → Text → Option ℕ
digits n [] = some n
digits n (c ∷ s) = let more = digits (n * 10 + (c - 48)) s in if is_digit c then more else none

abbrev in_port_range : Option ℕ → Bool
in_port_range none = false
in_port_range (some n) = leb 1 n && leb n 65535

-- `Atoi` of the port gives a number from 1 to 65535. A plus sign may stand in front; with a minus
-- sign no number is in range, and neither is one that overflows.
unfoldable pub valid_port : Text → Bool
valid_port [] = false
valid_port (c ∷ s) =
    if c == 43
    then not (is_empty s) && in_port_range (digits 0 s)
    else in_port_range (digits 0 (c ∷ s))

abbrev pub default_hypervisor_port : Text
default_hypervisor_port = text "16514"

abbrev or_default : Text → Option (Text × Text) → Text × Text
or_default address none =
    (trim_suffix closing (trim_prefix opening address), default_hypervisor_port)
or_default address (some p) = p

unfoldable pub canonical_hypervisor : Text → Result Error Text
canonical_hypervisor address =
    let p = or_default address (split_host_port address) in
    if not (valid_port p.1) || is_empty p.0 then err terminal else ok (join_host_port p.0 p.1)

unfoldable pub check_credentials : {B : Type 0} → Env B → TlsCredentials → Result Error (Unit {0})
check_credentials env creds =
    if is_empty creds.ca_cert || (is_empty creds.client_cert || is_empty creds.client_key)
    then err terminal
    else if not (env.key_pair_matches creds.client_cert creds.client_key)
    then err terminal
    else if not (env.holds_certificate creds.ca_cert)
    then err terminal
    else ok tt

abbrev pub credentials_of : Secret → TlsCredentials
credentials_of s = record {
  ca_cert = s.ca_cert;
  client_cert = s.client_cert;
  client_key = s.client_key;
}

abbrev pub request : Text → Secret → Result Error (Unit {0}) → Result Error (Option Hypervisor)
request address secret (err e) = err terminal
request address secret (ok _) = ok (
    some (record {
      address = address;
      credentials = credentials_of secret;
      credentials_version = secret.uid ++ 47 ∷ secret.resource_version;
    }))

abbrev pub with_address :
    {B : Type 0} → Env B → HypervisorSpec → Result Error Text → Result Error (Option Hypervisor)
with_address env spec (err e) = err e
with_address env spec (ok address) =
    if_found (env.reader.get_secret spec.credentials_secret)
      (λ secret. request address secret (check_credentials env (credentials_of secret)))
      (err terminal)

unfoldable pub hypervisor_of :
    {B : Type 0} → Env B → Option HypervisorSpec → Result Error (Option Hypervisor)
hypervisor_of env none = ok none
hypervisor_of env (some spec) = with_address env spec (canonical_hypervisor spec.address)

unfoldable pub confirmed_hypervisor : HydraCluster → Bool
confirmed_hypervisor hc = elim hc.hypervisor [
  | none ↦ false
  | some spec ↦ elim hc.confirmed [ none ↦ false | some address ↦ address == spec.address ]
]
