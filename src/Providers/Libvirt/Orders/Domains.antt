-- ===== src/Providers/Libvirt/Orders/Domains.antt =====
-- internal/providers/libvirt/libvirt.go: what starting, finding and reporting a domain keeps.
use cluster_api_provider_hyd.Base.{
  true, Option, none, some, List, [], ◌∷◌, ◌≡◌, refl, ◌==◌, nat_eq, Text,
}
use cluster_api_provider_hyd.Base.Exec.{
  Result, ok, err, pure, raise, ◌>>=◌, Keeps, Keeps-pure, Keeps-raise, Keeps-bind, Keeps-if,
  Keeps-result, Keeps-option,
}
use cluster_api_provider_hyd.Providers.Errors.{Error, not_found, invalid_id, other}
use cluster_api_provider_hyd.Providers.Identity.{Address}
use cluster_api_provider_hyd.Providers.Libvirt.Documents.{DomainDef, hotplug_root_ports}
use cluster_api_provider_hyd.Providers.Libvirt.Uuids.{parse_uuid}
use cluster_api_provider_hyd.Providers.Libvirt.Client.{
  Client, Domain, Event, Call, RpcError, AddrSource, agent, lease, is_not_found, call, ask,
  context_over, noted, domain_lookup_by_uuid, domain_is_active, domain_create, domain_get_state,
  domain_get_inactive_xml, domain_set_autostart, domain_interface_addresses,
}
use cluster_api_provider_hyd.Providers.Libvirt.Client.Journal.{
  Logged, Keeps-call, Keeps-ask, Keeps-asked, Keeps-context_over, Logged-ask,
}
use cluster_api_provider_hyd.Providers.Libvirt.Domains.{
  start_steps_for, start_verified, start_checked, start_if_quiet, ensure_running, routable,
  addresses_from, addresses_of, state_of, found_or, lookup_by_uuid,
}
use cluster_api_provider_hyd.Providers.Libvirt.Orders.{Frees, Rules, is_free}

module _ {H : Type 0} (client : Client H) {P : List Event → Type 0} (frees : Frees P) where
  pub Keeps-free : (c : Call) → is_free c ≡ true → Keeps (Logged client P) (call client c)
  Keeps-free c is = Keeps-call client P c λ r past. frees.free c r past is

  pub Keeps-ask_free : (c : Call) → is_free c ≡ true → Keeps (Logged client P) (ask client c)
  Keeps-ask_free c is = Keeps-ask client P c λ r past. frees.free c r past is

  found-Keeps :
      (dom : Domain) (sources : List AddrSource) (addrs : List Address)
      → Keeps (Logged client P) (addresses_from client dom sources)
      → Keeps
          (Logged client P)
          (elim addrs [ [] ↦ addresses_from client dom sources | a ∷ rest ↦ pure (a ∷ rest) ])
  found-Keeps dom sources [] k = k
  found-Keeps dom sources (a ∷ rest) k = Keeps-pure (a ∷ rest)

  addresses_from-Keeps :
      (dom : Domain) (sources : List AddrSource)
      → Keeps (Logged client P) (addresses_from client dom sources)
  unfolding addresses_from
  addresses_from-Keeps dom [] = Keeps-pure []
  addresses_from-Keeps dom (source ∷ sources) =
      let later = addresses_from-Keeps dom sources in
      Keeps-bind (call client (domain_interface_addresses dom source)) _
        (Keeps-free (domain_interface_addresses dom source) refl)
        λ r.
          Keeps-result r (λ addrs. found-Keeps dom sources (routable addrs) later)
            λ e.
              Keeps-bind (context_over client) _ (Keeps-context_over client P)
                λ over. Keeps-if over (λ _. Keeps-raise other) λ _. later

  pub state_of-Keeps : (dom : Domain) → Keeps (Logged client P) (state_of client dom)
  unfolding state_of addresses_of
  state_of-Keeps dom =
      Keeps-bind (ask client (domain_get_state dom)) _ (Keeps-ask_free (domain_get_state dom) refl)
        λ st.
          Keeps-bind (addresses_of client dom) _ (addresses_from-Keeps dom (agent ∷ lease ∷ []))
            λ addrs. Keeps-pure _

  pub found_or-Keeps :
      {A : Type 0} (absent : Error) (r : Result RpcError A)
      → Keeps (Logged client P) (found_or client absent r)
  found_or-Keeps absent (ok a) = Keeps-pure a
  found_or-Keeps absent (err e) =
      Keeps-if (is_not_found e) (λ _. Keeps-raise absent) λ _. Keeps-raise other

  pub lookup_by_uuid-Keeps : (id : Text) → Keeps (Logged client P) (lookup_by_uuid client id)
  unfolding lookup_by_uuid
  lookup_by_uuid-Keeps id = Keeps-option (parse_uuid id) (Keeps-raise invalid_id) λ uuid.
      Keeps-bind (call client (domain_lookup_by_uuid uuid)) _
        (Keeps-free (domain_lookup_by_uuid uuid) refl) (found_or-Keeps not_found)

module _ {H : Type 0} (client : Client H) {machine : Text} {P : List Event → Type 0}
    (rules : Rules machine P) where
  start_if_quiet-Logged :
      (dom : Domain) (def : DomainDef) (bad : List Text) (h : H) (past : List Event)
      → hotplug_root_ports def.devices.controllers ≡ bad
      → P past
      → Logged client P
          (start_if_quiet
            (ask client (domain_create dom))
            bad
            (noted (domain_get_inactive_xml dom) (ok (some def)) h past)).1
  unfolding raise
  start_if_quiet-Logged dom def [] h past quiet kept =
      Logged-ask client P (domain_create dom)
        (noted (domain_get_inactive_xml dom) (ok (some def)) h past)
        λ r. rules.start dom def r past quiet kept
  start_if_quiet-Logged dom def (index ∷ bad) h past loud kept = rules.frees.free _ _ past refl kept

  start_checked-Logged :
      (dom : Domain) (read : Option DomainDef) (h : H) (past : List Event)
      → P past
      → Logged client P
          (start_checked
            (ask client (domain_create dom))
            read
            (noted (domain_get_inactive_xml dom) (ok read) h past)).1
  unfolding raise
  start_checked-Logged dom none h past kept = rules.frees.free _ _ past refl kept
  start_checked-Logged dom (some def) h past kept =
      start_if_quiet-Logged dom def (hotplug_root_ports def.devices.controllers) h past refl kept

  start_verified-Keeps :
      (dom : Domain) → Keeps (Logged client P) (start_verified (start_steps_for client dom))
  unfolding start_verified start_steps_for
  start_verified-Keeps dom =
      Keeps-bind (ask client (domain_is_active dom) >>= λ active. pure (active == 1)) _
        (Keeps-bind (ask client (domain_is_active dom)) (λ active. pure (active == 1))
          (Keeps-ask_free client rules.frees (domain_is_active dom) refl) λ active. Keeps-pure _)
        λ active.
          Keeps-if active (λ _. Keeps-pure tt)
            λ _.
              Keeps-asked client P (domain_get_inactive_xml dom)
                (start_checked (ask client (domain_create dom))) (start_checked-Logged dom)
                λ e past. rules.frees.free _ _ past refl

  pub ensure_running-Keeps : (dom : Domain) → Keeps (Logged client P) (ensure_running client dom)
  unfolding ensure_running
  ensure_running-Keeps dom =
      Keeps-bind (start_verified (start_steps_for client dom)) _ (start_verified-Keeps dom)
        λ _. Keeps-ask_free client rules.frees (domain_set_autostart dom true) refl
