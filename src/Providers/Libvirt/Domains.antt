-- ===== src/Providers/Libvirt/Domains.antt =====
-- internal/providers/libvirt/libvirt.go: a domain is started, looked up and reported.
use cluster_api_provider_hyd.Base.{
  ℕ, Bool, true, Option, none, some, List, [], ◌∷◌, ◌++◌, ◌==◌, nat_eq, if◌then◌else◌, Text,
}
use cluster_api_provider_hyd.Base.Exec.{Result, ok, err, Exec, pure, raise, ◌>>=◌, ◌>>◌}
use cluster_api_provider_hyd.Providers.Errors.{Error, not_found, invalid_id, terminal, other}
use cluster_api_provider_hyd.Providers.Identity.{hostname_type, internal_ip, Address, MachineState}
use cluster_api_provider_hyd.Providers.Libvirt.Documents.{DomainDef, hotplug_root_ports}
use cluster_api_provider_hyd.Providers.Libvirt.Uuids.{format_uuid, parse_uuid}
use cluster_api_provider_hyd.Providers.Libvirt.Client.{
  Client, Run, Domain, RpcError, AddrSource, agent, lease, is_not_found, call, ask, begin,
  context_over, domain_lookup_by_name, domain_lookup_by_uuid, domain_is_active, domain_create,
  domain_get_state, domain_get_inactive_xml, domain_set_autostart, domain_interface_addresses,
}

-- `startSteps`: what a start does to libvirtd, or to a test's double of it.
pub record StartSteps (S : Type 0) : Type 0 where
  pub is_active : Exec Error S Bool
  pub read_xml : Exec Error S (Option DomainDef)
  pub start : Exec Error S (Unit {0})

module _ {S : Type 0} where
  abbrev pub start_if_quiet : Exec Error S (Unit {0}) → List Text → Exec Error S (Unit {0})
  start_if_quiet start [] = start
  start_if_quiet start (index ∷ bad) = raise terminal

  abbrev pub start_checked : Exec Error S (Unit {0}) → Option DomainDef → Exec Error S (Unit {0})
  start_checked start none = raise other
  start_checked start (some def) = start_if_quiet start (hotplug_root_ports def.devices.controllers)

  -- A domain that runs is left alone. One that does not is started only as libvirt defined it: without
  -- a root port that takes devices while the machine runs.
  unfoldable pub start_verified : StartSteps S → Exec Error S (Unit {0})
  start_verified s =
      s.is_active >>= λ active. if active then pure tt else s.read_xml >>= start_checked s.start

abbrev pub domain_running : ℕ
domain_running = 1

-- The addresses that a machine can be reached at.
unfoldable pub routable : List (Text × Bool) → List Address
routable [] = []
routable (a ∷ addrs) =
    let rest = routable addrs in
    if a.1 then record { type = internal_ip; address = a.0 } ∷ rest else rest

module _ {H : Type 0} (client : Client H) where
  unfoldable pub start_steps_for : Domain → StartSteps (Run H)
  start_steps_for dom = record {
    is_active = ask client (domain_is_active dom) >>= λ active. pure (active == 1);
    read_xml = ask client (domain_get_inactive_xml dom);
    start = ask client (domain_create dom);
  }

  unfoldable pub ensure_running : Domain → Exec Error (Run H) (Unit {0})
  ensure_running dom =
      start_verified (start_steps_for dom) >> ask client (domain_set_autostart dom true)

  -- A source that fails is passed over, unless the context is over.
  unfoldable pub addresses_from : Domain → List AddrSource → Exec Error (Run H) (List Address)
  addresses_from dom [] = pure []
  addresses_from dom (source ∷ sources) =
      call client (domain_interface_addresses dom source) >>= λ r. elim r [
        | err e ↦ context_over client >>= λ over.
            (if over then raise other else addresses_from dom sources)
        | ok addrs ↦ elim (routable addrs) [
          | [] ↦ addresses_from dom sources
          | a ∷ rest ↦ pure (a ∷ rest)
        ]
      ]

  unfoldable pub addresses_of : Domain → Exec Error (Run H) (List Address)
  addresses_of dom = addresses_from dom (agent ∷ lease ∷ [])

  unfoldable pub state_of : Domain → Exec Error (Run H) MachineState
  state_of dom = ask client (domain_get_state dom) >>= λ st. addresses_of dom >>= λ addrs.
      pure (record {
        id = format_uuid dom.uuid;
        name = dom.name;
        ready = st == domain_running;
        addresses = addrs ++ record { type = hostname_type; address = dom.name } ∷ [];
      })

  -- An error of a lookup, for which an object that is not there is `absent`.
  abbrev pub lookup_failed : {A : Type 0} → Error → RpcError → Exec Error (Run H) A
  lookup_failed absent e = if is_not_found e then raise absent else raise other

  abbrev pub found_or : {A : Type 0} → Error → Result RpcError A → Exec Error (Run H) A
  found_or absent (ok a) = pure a
  found_or absent (err e) = lookup_failed absent e

  unfoldable pub lookup_by_uuid : Text → Exec Error (Run H) Domain
  lookup_by_uuid id = elim (parse_uuid id) [
    | none ↦ raise invalid_id
    | some uuid ↦ call client (domain_lookup_by_uuid uuid) >>= found_or not_found
  ]

  unfoldable pub get : Text → Exec Error (Run H) MachineState
  get id = begin client >> (lookup_by_uuid id >>= state_of)

  unfoldable pub find_by_name : Text → Exec Error (Run H) MachineState
  find_by_name name =
      begin client
      >> (call client (domain_lookup_by_name name) >>= λ r. found_or not_found r >>= state_of)
