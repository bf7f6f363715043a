-- ===== src/Providers/Libvirt/Orders/Leftovers.antt =====
-- internal/providers/libvirt/libvirt.go: what a deletion by name that succeeded has done.
use cluster_api_provider_hyd.Base.{true, List, ◌∷◌, ◌≡◌, Text, if◌then◌else◌, ◌⊎◌, inl, inr}
use cluster_api_provider_hyd.Base.Exec.{
  Result, ok, err, Exec, pure, raise, Post, Triple, Triple-bind, Triple-raise, Triple-if,
  Triple-keeping, Post-map,
}
use cluster_api_provider_hyd.Providers.Errors.{Error, other}
use cluster_api_provider_hyd.Providers.Identity.{is_empty}
use cluster_api_provider_hyd.Providers.Libvirt.Volumes.{
  Config, root_volume_name, cidata_volume_name, unless_gone, partition_owned_disks,
}
use cluster_api_provider_hyd.Providers.Libvirt.Deleting.{
  delete_volume_any_pool, delete_domain, delete_leftovers, delete_by_name, disk_sources_of,
  delete_volumes,
}
use cluster_api_provider_hyd.Providers.Libvirt.Client.{
  Client, Run, Event, Domain, RpcError, is_not_found, call, begin, noted, domain_undefine,
  domain_lookup_by_name,
}
use cluster_api_provider_hyd.Providers.Libvirt.Client.Journal.{Logged, Post-then}
use cluster_api_provider_hyd.Providers.Libvirt.Orders.{event, Grows, PathRules-of_Grows}
use cluster_api_provider_hyd.Providers.Libvirt.Orders.Volumes.{cidata-is_owned}
use cluster_api_provider_hyd.Providers.Libvirt.Orders.Deleting.{delete_volume_any_pool-Keeps}
use cluster_api_provider_hyd.Providers.Libvirt.Orders.Sweeps.{
  Cleared, Cleared-later, Anything, Post-any, tolerate-Post, delete_volume_any_pool-Triple,
}

-- The last call undefined the domain, or found it gone.
pub data Undefined (dom : Domain) : List Event → Type 0 where
  undefined : (past : List Event) → Undefined dom (event (domain_undefine dom) (ok tt) ∷ past)
  gone :
      (e : RpcError) (past : List Event)
      → is_not_found e ≡ true
      → Undefined dom (event (domain_undefine dom) (err e) ∷ past)

module _ {H : Type 0} (client : Client H) where
  Triple-any :
      {A : Type 0} {P : Run H → Type 0} (m : Exec Error (Run H) A)
      → Triple P m (λ _. Anything) Anything
  Triple-any m = record { at = λ s h. Post-any (m s) }

  unless_gone-Undefined :
      (dom : Domain) (r : Result RpcError Unit) (h : H) (past : List Event)
      → Post
          (λ _. Logged client (Undefined dom))
          Anything
          (unless_gone r (noted (domain_undefine dom) r h past))
  unfolding pure
  unless_gone-Undefined dom (ok done) h past = undefined past
  unless_gone-Undefined dom (err e) h past =
      tolerate-Post (λ _. Logged client (Undefined dom)) (is_not_found e) _
        λ absent. gone e past absent

  delete_domain-Triple :
      {P : Run H → Type 0} (dom : Domain)
      → Triple P (delete_domain client dom) (λ _. Logged client (Undefined dom)) Anything
  unfolding delete_domain
  delete_domain-Triple {P} dom = Triple-bind {P = P} _ _ (Triple-any _) λ _.
      Triple-bind _ _ (Triple-any _) λ _.
        Triple-bind _ _ (Triple-any (disk_sources_of client dom)) λ disks.
          Triple-bind _ _
            (Triple-any (delete_volumes client (partition_owned_disks dom.name disks).0))
            λ _. record {
              at = λ s h.
                  Post-then client (λ _. Logged client (Undefined dom)) Anything
                    (domain_undefine dom) unless_gone s
                    λ r g. unless_gone-Undefined dom r g s.journal;
            }

module _ {H : Type 0} (client : Client H) (config : Config) (machine requested : Text) where
  -- The pool that a machine's volumes are in, as far as the caller and the configuration know.
  abbrev pub own_pool : Text
  own_pool = if is_empty requested then config.storage_pool else requested

  -- A domain of some name is undefined, or neither volume is left in the machine's own pool.
  abbrev pub Deleted : List Event → Type 0
  Deleted past =
      ((dom : Domain) × Undefined dom past)
      ⊎ (Cleared client (root_volume_name machine) own_pool past
          × Cleared client (cidata_volume_name machine) own_pool past)

  leftovers-Triple :
      {P : Run H → Type 0}
      → Triple P
          (delete_leftovers client config machine requested)
          (λ _. Logged client Deleted)
          Anything
  leftovers-Triple {P} =
      let root = Cleared client (root_volume_name machine) own_pool in
      let grows : Grows root = record {
        grow = λ e past h. Cleared-later client (root_volume_name machine) own_pool e past h;
      } in
      Triple-bind _ _
        (delete_volume_any_pool-Triple client (root_volume_name machine) own_pool {P = P})
        λ _. record {
          at = λ s h.
              Post-map Anything
                (delete_volume_any_pool client (cidata_volume_name machine) own_pool s)
                (λ _ t both. inr both)
                ((Triple-keeping _
                    (delete_volume_any_pool-Keeps client
                      (PathRules-of_Grows {machine = machine} grows) (cidata_volume_name machine)
                      own_pool (cidata-is_owned machine))
                    (delete_volume_any_pool-Triple client (cidata_volume_name machine) own_pool
                      {P = Anything})).at
                  s (h, tt));
        }

  found-Triple :
      {P : Run H → Type 0} (r : Result RpcError Domain)
      → Triple P
          (elim r as (λ _. Exec Error (Run H) (Unit {0})) [
            | ok dom ↦ delete_domain client dom
            | err e ↦
                (if is_not_found e
                  then delete_leftovers client config machine requested
                  else raise other)
          ])
          (λ _. Logged client Deleted)
          Anything
  found-Triple {P} (ok dom) = record {
    at = λ s h.
        Post-map Anything (delete_domain client dom s) (λ _ t gone. inl (dom, gone))
          ((delete_domain-Triple client {P = P} dom).at s h);
  }
  found-Triple (err e) =
      Triple-if (is_not_found e) (λ _. leftovers-Triple) λ _. Triple-raise other λ s h. tt

  -- If a deletion by name succeeds, a domain that was found is undefined or was gone, or else each of the
  -- two volumes was, in the machine's own pool, deleted, gone or not found, or that pool does not exist,
  -- or no pool is named by the caller or the configuration.
  pub delete_by_name-Deleted :
      (s : Run H)
      → Post
          (λ _. Logged client Deleted)
          (λ _. Unit)
          (delete_by_name client config machine requested s)
  unfolding delete_by_name
  delete_by_name-Deleted s =
      (Triple-bind {P = Anything} _ _ (Triple-any client (begin client)) λ _.
          Triple-bind _ _ (Triple-any client (call client (domain_lookup_by_name machine)))
            λ r. found-Triple r).at
        s tt
