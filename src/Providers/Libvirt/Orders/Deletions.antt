-- ===== src/Providers/Libvirt/Orders/Deletions.antt =====
-- internal/providers/libvirt/libvirt.go: which volumes a deletion deletes.
use cluster_api_provider_hyd.Base.{ℕ, Option, none, some, List, ◌≡◌, refl, Text, if◌then◌else◌}
use cluster_api_provider_hyd.Base.Exec.{
  Result, ok, err, Exec, raise, attempt, ◌>>=◌, Keeps, Keeps-pure, Keeps-raise, Keeps-bind,
  Keeps-if, Keeps-attempt,
}
use cluster_api_provider_hyd.Base.Exec.Yields.{
  Each, Yields, Yields-pure, Yields-raise, Yields-if, Yields-attempt, Yields-bind,
  Keeps-bind-Yields,
}
use cluster_api_provider_hyd.Providers.Errors.{Error, not_found, invalid_id, other}
use cluster_api_provider_hyd.Providers.Identity.{is_empty}
use cluster_api_provider_hyd.Providers.Libvirt.Uuids.{parse_uuid}
use cluster_api_provider_hyd.Providers.Libvirt.Domains.{found_or, lookup_by_uuid}
use cluster_api_provider_hyd.Providers.Libvirt.Volumes.{
  Config, root_volume_name, cidata_volume_name,
}
use cluster_api_provider_hyd.Providers.Libvirt.Deleting.{
  delete_domain, delete_found, delete, delete_leftovers, delete_by_name,
}
use cluster_api_provider_hyd.Providers.Libvirt.Client.{
  Client, Run, Event, Domain, RpcError, answered, is_not_found, call, begin, domain_lookup_by_name,
  domain_lookup_by_uuid,
}
use cluster_api_provider_hyd.Providers.Libvirt.Client.Journal.{Logged, Orderly, Keeps-begin}
use cluster_api_provider_hyd.Providers.Libvirt.Orders.Domains.{Keeps-free, lookup_by_uuid-Keeps}
use cluster_api_provider_hyd.Providers.Libvirt.Orders.Volumes.{root-is_owned, cidata-is_owned}
use cluster_api_provider_hyd.Providers.Libvirt.Orders.Deleting.{
  delete_volume_any_pool-Keeps, delete_domain-Keeps,
}
use cluster_api_provider_hyd.Providers.Libvirt.Orders.Licences.{Licence, licences}

-- The domain that a lookup answers has the name.
abbrev pub Named : Text → Option (Result RpcError Domain) → Type 0
Named machine (some (ok dom)) = dom.name ≡ machine
Named machine o = Unit

-- A lookup by a name answers a domain of that name.
abbrev pub LooksUp : {H : Type 0} → Client H → Type 0
LooksUp {H} client =
    (name : Text) (h : H) → Named name (client.rpc (domain_lookup_by_name name) h).0

module _ {H : Type 0} (client : Client H) (config : Config) (machine : Text) where
  abbrev IsNamed : Domain → Type 0
  IsNamed dom = dom.name ≡ machine

  by_name-Each :
      (name : Text) (o : Option (Result RpcError Domain) × H) (past : List Event)
      → Named machine o.0
      → Each (Each IsNamed) (answered client (domain_lookup_by_name name) o past).0
  by_name-Each name (none, h) past named = tt
  by_name-Each name (some (ok dom), h) past named = named
  by_name-Each name (some (err e), h) past named = tt

  by_uuid-Each :
      (uuid : List ℕ) (o : Option (Result RpcError Domain) × H) (past : List Event)
      → Named machine o.0
      → Each (Each IsNamed) (answered client (domain_lookup_by_uuid uuid) o past).0
  by_uuid-Each uuid (none, h) past named = tt
  by_uuid-Each uuid (some (ok dom), h) past named = named
  by_uuid-Each uuid (some (err e), h) past named = tt

  leftovers-Keeps :
      (requested : Text)
      → Keeps
          (Logged client (Orderly (Licence machine)))
          (delete_leftovers client config machine requested)
  leftovers-Keeps requested =
      let own = if is_empty requested then config.storage_pool else requested in
      Keeps-bind _ _
        (delete_volume_any_pool-Keeps client (licences machine) (root_volume_name machine) own
          (root-is_owned machine))
        λ _.
          delete_volume_any_pool-Keeps client (licences machine) (cidata_volume_name machine) own
            (cidata-is_owned machine)

  found_by_name-Keeps :
      (requested : Text) (r : Result RpcError Domain)
      → Each IsNamed r
      → Keeps (Logged client (Orderly (Licence machine))) (elim r [
        | ok dom ↦ delete_domain client dom
        | err e ↦
            (if is_not_found e
              then delete_leftovers client config machine requested
              else raise other)
      ])
  found_by_name-Keeps requested (ok dom) named =
      delete_domain-Keeps client (licences machine) dom named λ r past kept. (tt, kept)
  found_by_name-Keeps requested (err e) named =
      Keeps-if (is_not_found e) (λ _. leftovers-Keeps requested) λ _. Keeps-raise other

  -- Where a lookup by a name answers a domain of that name: while a machine is deleted by its name, every
  -- volume that is deleted was directly before that found by the name `<machine>.qcow2` or
  -- `<machine>-cidata.iso`, or at a path that ends in one of these.
  pub delete_by_name-Orderly :
      (requested : Text)
      → LooksUp client
      → Keeps
          (Logged client (Orderly (Licence machine)))
          (delete_by_name client config machine requested)
  unfolding delete_by_name call
  delete_by_name-Orderly requested names =
      let rules = licences machine in
      Keeps-bind (begin client) _ (Keeps-begin client (Orderly (Licence machine))) λ _.
        Keeps-bind-Yields {Q = Each IsNamed} (call client (domain_lookup_by_name machine)) _
          (Keeps-free client rules.named.frees (domain_lookup_by_name machine) refl)
          (record {
            at = λ s.
                by_name-Each machine (client.rpc (domain_lookup_by_name machine) s.host) s.journal
                  (names machine s.host);
          })
          (found_by_name-Keeps requested)

  found_or-Yields :
      (r : Result RpcError Domain) → Each IsNamed r → Yields IsNamed (found_or client not_found r)
  found_or-Yields (ok dom) named = Yields-pure dom named
  found_or-Yields (err e) named =
      Yields-if (is_not_found e) (λ _. Yields-raise not_found) λ _. Yields-raise other

  lookup_by_uuid-Yields :
      (id : Text)
      → ((uuid : List ℕ) (h : H)
          → parse_uuid id ≡ some uuid
          → Named machine (client.rpc (domain_lookup_by_uuid uuid) h).0)
      → Yields IsNamed (lookup_by_uuid client id)
  unfolding lookup_by_uuid call
  lookup_by_uuid-Yields id names = of (parse_uuid id) names
    where
      of :
          (o : Option (List ℕ))
          → ((uuid : List ℕ) (h : H)
              → o ≡ some uuid
              → Named machine (client.rpc (domain_lookup_by_uuid uuid) h).0)
          → Yields {E = Error} {S = Run H} IsNamed (elim o as (λ _. Exec Error (Run H) Domain) [
            | none ↦ raise invalid_id
            | some uuid ↦ call client (domain_lookup_by_uuid uuid) >>= found_or client not_found
          ])
      of none names = Yields-raise invalid_id
      of (some uuid) names =
          Yields-bind {Q = Each IsNamed} (call client (domain_lookup_by_uuid uuid)) _
            (record {
              at = λ s.
                  by_uuid-Each uuid (client.rpc (domain_lookup_by_uuid uuid) s.host) s.journal
                    (names uuid s.host refl);
            })
            found_or-Yields

  delete_found-Keeps :
      (r : Result Error Domain)
      → Each IsNamed r
      → Keeps (Logged client (Orderly (Licence machine))) (delete_found client r)
  delete_found-Keeps (ok dom) named =
      delete_domain-Keeps client (licences machine) dom named λ r past kept. (tt, kept)
  delete_found-Keeps (err not_found) named = Keeps-pure tt
  delete_found-Keeps (err e) named = Keeps-raise e

  -- Where a lookup by the id answers a domain of the machine's name: while a machine is deleted by its id,
  -- every volume that is deleted was directly before that found by the name `<machine>.qcow2` or
  -- `<machine>-cidata.iso`, or at a path that ends in one of these.
  pub delete-Orderly :
      (id : Text)
      → ((uuid : List ℕ) (h : H)
          → parse_uuid id ≡ some uuid
          → Named machine (client.rpc (domain_lookup_by_uuid uuid) h).0)
      → Keeps (Logged client (Orderly (Licence machine))) (delete client id)
  unfolding delete
  delete-Orderly id names =
      Keeps-bind (begin client) _ (Keeps-begin client (Orderly (Licence machine))) λ _.
        Keeps-bind-Yields {Q = Each IsNamed} (attempt (lookup_by_uuid client id)) _
          (Keeps-attempt _ (lookup_by_uuid-Keeps client (licences machine).named.frees id))
          (Yields-attempt _ (lookup_by_uuid-Yields id names)) delete_found-Keeps
