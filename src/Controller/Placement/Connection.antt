-- ===== src/Controller/Placement/Connection.antt =====
-- To which hypervisor a machine's connection goes.
use cluster_api_provider_hyd.Base.{
  ◌≡◌, ◌∙◌, true, not, Option, none, some, Text, list_eq, nat_eq, list_beq_iff, if◌then◌else◌,
  if_cases, arith,
}
use cluster_api_provider_hyd.Base.Exec.{Result, ok, err, passes}
use cluster_api_provider_hyd.Providers.Errors.{Error, waiting, for_hypervisor_credentials, terminal}
use cluster_api_provider_hyd.Providers.Identity.{is_empty}
use cluster_api_provider_hyd.Controller.Objects.{HypervisorSpec, Secret}
use cluster_api_provider_hyd.Controller.World.{Env, Hypervisor}
use cluster_api_provider_hyd.Controller.Linkage.{Link, if_found}
use cluster_api_provider_hyd.Controller.Hypervisors.{
  canonical_hypervisor, hypervisor_of, with_address, request,
}
use cluster_api_provider_hyd.Controller.Placement.{
  hypervisor_for, hypervisor_spec, terminal_waits, names,
}

request-address :
    (address : Text) (secret : Secret) (checked : Result Error (Unit {0})) (h : Hypervisor)
    → request address secret checked ≡ ok (some h)
    → h.address ≡ address
request-address address secret (err e) h made = ground arith
request-address address secret (ok _) h made = ground arith

found-address :
    (address : Text) (read : Result Error Secret) (checked : Secret → Result Error (Unit {0}))
    (h : Hypervisor)
    → if_found read (λ secret. request address secret (checked secret)) (err terminal) ≡ ok (some h)
    → h.address ≡ address
found-address address (ok secret) checked h made =
    request-address address secret (checked secret) h made
found-address address (err e) checked h made = ground arith

waits-address : {A : Type 0} (r : Result Error A) (a : A) → terminal_waits r ≡ ok a → r ≡ ok a
waits-address (ok b) a h = h
waits-address (err e) a h = ground arith

named-address :
    {B : Type 0} (env : Env B) (spec : HypervisorSpec) (r : Result Error Text) (placement : Text)
    (h : Hypervisor)
    → names r placement ≡ true
    → with_address env spec r ≡ ok (some h)
    → h.address ≡ placement
named-address env spec (err e) placement h named made = ground arith
named-address env spec (ok address) placement h named made =
    found-address address (env.reader.get_secret spec.credentials_secret) _ h made
    ∙ (list_beq_iff address placement).0 named

spec-address :
    {B : Type 0} (env : Env B) (o : Option HypervisorSpec) (placement : Text) (h : Hypervisor)
    → (elim o as (λ _. Result Error (Option Hypervisor)) [
      | none ↦ err (waiting for_hypervisor_credentials)
      | some spec ↦
          (if not (names (canonical_hypervisor spec.address) placement)
            then err (waiting for_hypervisor_credentials)
            else terminal_waits (hypervisor_of env (some spec)))
    ])
      ≡ ok (some h)
    → h.address ≡ placement
unfolding hypervisor_of
spec-address env none placement h made = ground arith
spec-address env (some spec) placement h made =
    let (named, rest) =
      passes (waiting for_hypervisor_credentials)
        (not (names (canonical_hypervisor spec.address) placement)) made in
    named-address env spec (canonical_hypervisor spec.address) placement h (ground arith)
      (waits-address (with_address env spec (canonical_hypervisor spec.address)) (some h) rest)

-- A connection that is asked for by name is to the machine's placement, whatever its cluster names.
pub hypervisor_for-address :
    {B : Type 0} (env : Env B) (link : Link) (placement : Text) (h : Hypervisor)
    → hypervisor_for env link placement ≡ ok (some h)
    → h.address ≡ placement
unfolding hypervisor_for
hypervisor_for-address env link placement h =
    if_cases (λ (r : Result Error (Option Hypervisor)). r ≡ ok (some h) → h.address ≡ placement)
      (is_empty placement) (λ _ made. ground arith)
      (λ _ made. spec-address env (hypervisor_spec link.hydra_cluster) placement h made)
