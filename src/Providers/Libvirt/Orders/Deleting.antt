-- ===== src/Providers/Libvirt/Orders/Deleting.antt =====
-- internal/providers/libvirt/libvirt.go: what deleting a machine keeps.
use cluster_api_provider_hyd.Base.{
  Bool, true, false, not, ◌||◌, Option, none, some, List, [], ◌∷◌, ◌≡◌, refl, ◌==◌, nat_eq, list_eq,
  Text, if_cases, subst,
}
use cluster_api_provider_hyd.Base.Paths.{base, dir}
use cluster_api_provider_hyd.Base.Exec.{
  Result, ok, err, pure, still, ◌>>=◌, Keeps, Keeps-pure, Keeps-raise, Keeps-bind, Keeps-if,
}
use cluster_api_provider_hyd.Providers.Errors.{other}
use cluster_api_provider_hyd.Providers.Identity.{is_empty}
use cluster_api_provider_hyd.Providers.Libvirt.Documents.{DomainDef, PoolDef}
use cluster_api_provider_hyd.Providers.Libvirt.Volumes.{
  is_owned, partition_owned_disks, unless_gone, delete_looked_up,
}
use cluster_api_provider_hyd.Providers.Libvirt.Deleting.{
  is_network_pool_type, holds, searched, sweep, own_pool_absent, check_swept, log_stopped,
  delete_volume_any_pool, place_of, places_of, stopped_pools, confirm_reclaimed, delete_at,
  delete_volume_by_path, delete_volumes, sources_read, sources_answered, disk_sources_of,
  unless_stopped, delete_domain,
}
use cluster_api_provider_hyd.Providers.Libvirt.Client.{
  Client, Event, Domain, StoragePool, StorageVol, RpcError, is_not_found, is_no_storage_vol,
  is_context_err, is_invalid_state, call, noted, list_active_pools, list_inactive_pools,
  pool_lookup_by_name, pool_get_xml, vol_lookup_by_name, vol_lookup_by_path, vol_delete,
  domain_get_xml, domain_destroy, domain_set_autostart, domain_undefine,
}
use cluster_api_provider_hyd.Providers.Libvirt.Client.Journal.{Logged, Keeps-then, Keeps-call}
use cluster_api_provider_hyd.Providers.Libvirt.Orders.{PathRules, event}
use cluster_api_provider_hyd.Providers.Libvirt.Orders.Domains.{Keeps-free, Keeps-ask_free}
use cluster_api_provider_hyd.Providers.Libvirt.Orders.Volumes.{
  tolerate-Keeps, unless_gone-Keeps, Logged-delete,
}

-- Every path ends in one of the machine's two names.
abbrev pub AllOwned : Text → List Text → Type 0
AllOwned machine [] = Unit
AllOwned machine (path ∷ paths) = (is_owned machine (base path) ≡ true) × AllOwned machine paths

pub partition-AllOwned :
    (machine : Text) (disks : List Text) → AllOwned machine (partition_owned_disks machine disks).0
unfolding partition_owned_disks
partition-AllOwned machine [] = tt
partition-AllOwned machine (d ∷ disks) =
    let rest = partition-AllOwned machine disks in
    if_cases (λ (p : List Text × List Text). AllOwned machine p.0) (is_owned machine (base d))
      (λ own. (own, rest)) λ _. rest

module _ {H : Type 0} (client : Client H) {machine : Text} {P : List Event → Type 0}
    (rules : PathRules machine P) where
  own_pool_absent-Keeps :
      (r : Result RpcError StoragePool) → Keeps (Logged client P) (own_pool_absent client r)
  own_pool_absent-Keeps (ok pool) = Keeps-raise other
  own_pool_absent-Keeps (err e) = tolerate-Keeps (Logged client P) (is_not_found e)

  check_swept-Keeps :
      (own : Text) (swept : Bool) → Keeps (Logged client P) (check_swept client own swept)
  check_swept-Keeps own swept =
      Keeps-if (is_empty own || swept) (λ _. Keeps-pure tt)
        λ _.
          Keeps-bind (call client (pool_lookup_by_name own)) _
            (Keeps-free client rules.named.frees (pool_lookup_by_name own) refl)
            own_pool_absent-Keeps

  log_stopped-Keeps :
      (r : Result RpcError (List StoragePool)) → Keeps (Logged client P) (log_stopped client r)
  log_stopped-Keeps (ok stopped) = Keeps-pure tt
  log_stopped-Keeps (err e) =
      Keeps-if (is_context_err e) (λ _. Keeps-raise other) λ _. Keeps-pure tt

  searched-Logged :
      (pool : StoragePool) (name own : Text) (r : Result RpcError StorageVol) (h : H)
      (past : List Event)
      → is_owned machine name ≡ true
      → P past
      → Logged client P
          (searched client pool own r (noted (vol_lookup_by_name pool name) r h past)).1
  unfolding pure
  searched-Logged pool name own (ok vol) h past mine kept =
      let deleted : Logged client P ((call client (vol_delete vol) >>= unless_gone) _).1 =
        Logged-delete client P vol (noted (vol_lookup_by_name pool name) (ok vol) h past)
          λ r. rules.named.delete_named pool name vol r past mine kept in
      still (Logged client P) (call client (vol_delete vol) >>= unless_gone)
        (λ _. pure (pool.name == own)) _ deleted λ _. Keeps-pure _
  searched-Logged pool name own (err e) h past mine kept =
      (err-Keeps e).at (noted (vol_lookup_by_name pool name) (err e) h past)
        (rules.named.frees.free _ _ past refl kept)
    where
      err-Keeps : (e : RpcError) → Keeps (Logged client P) (searched client pool own (err e))
      err-Keeps e =
          Keeps-if (is_no_storage_vol e) (λ _. Keeps-pure _)
            λ _. Keeps-if (is_not_found e) (λ _. Keeps-pure _) λ _. Keeps-raise other

  sweep-Keeps :
      (name own : Text) (pools : List StoragePool) (swept : Bool)
      → is_owned machine name ≡ true
      → Keeps (Logged client P) (sweep client name own pools swept)
  unfolding sweep
  sweep-Keeps name own [] swept mine = Keeps-pure swept
  sweep-Keeps name own (pool ∷ pools) swept mine =
      Keeps-bind (call client (vol_lookup_by_name pool name) >>= searched client pool own) _
        (Keeps-then client P (vol_lookup_by_name pool name) (searched client pool own)
          λ r h past. searched-Logged pool name own r h past mine)
        λ hit. sweep-Keeps name own pools (swept || hit) mine

  pub delete_volume_any_pool-Keeps :
      (name own : Text)
      → is_owned machine name ≡ true
      → Keeps (Logged client P) (delete_volume_any_pool client name own)
  unfolding delete_volume_any_pool
  delete_volume_any_pool-Keeps name own mine =
      Keeps-bind _ _ (Keeps-ask_free client rules.named.frees list_active_pools refl) λ pools.
        Keeps-bind _ _
          (Keeps-bind _ _ (sweep-Keeps name own pools false mine) (check_swept-Keeps own))
          λ _.
            Keeps-bind _ _ (Keeps-free client rules.named.frees list_inactive_pools refl)
              log_stopped-Keeps

  place_of-Keeps :
      (pool : StoragePool) (read : Option PoolDef)
      → Keeps (Logged client P) (place_of client pool read)
  place_of-Keeps pool none = Keeps-raise other
  place_of-Keeps pool (some def) =
      Keeps-if (is_empty def.target_path)
        (λ _. Keeps-if (is_network_pool_type def.type) (λ _. Keeps-pure []) λ _. Keeps-raise other)
        λ _. Keeps-pure _

  places_of-Keeps : (pools : List StoragePool) → Keeps (Logged client P) (places_of client pools)
  unfolding places_of
  places_of-Keeps [] = Keeps-pure []
  places_of-Keeps (pool ∷ pools) =
      Keeps-bind _ _
        (Keeps-bind _ _ (Keeps-ask_free client rules.named.frees (pool_get_xml pool) refl)
          (place_of-Keeps pool))
        λ here. Keeps-bind _ _ (places_of-Keeps pools) λ rest. Keeps-pure _

  pub confirm_reclaimed-Keeps :
      (path : Text) → Keeps (Logged client P) (confirm_reclaimed client path)
  unfolding confirm_reclaimed stopped_pools
  confirm_reclaimed-Keeps path =
      Keeps-bind (stopped_pools client) _
        (Keeps-bind _ _ (Keeps-ask_free client rules.named.frees list_inactive_pools refl)
          places_of-Keeps)
        λ stopped. Keeps-if (holds (dir path) stopped) (λ _. Keeps-raise other) λ _. Keeps-pure tt

  found-Logged :
      (path : Text) (vol : StorageVol) (h : H) (past : List Event)
      → is_owned machine (base path) ≡ true
      → P past
      → Logged client P
          ((call client (vol_delete vol) >>= unless_gone)
            (noted (vol_lookup_by_path path) (ok vol) h past)).1
  found-Logged path vol h past mine kept =
      Logged-delete client P vol _ λ r. rules.delete_at path vol r past mine kept

  again-Logged :
      (path : Text) (r : Result RpcError StorageVol) (h : H) (past : List Event)
      → is_owned machine (base path) ≡ true
      → P past
      → Logged client P (delete_looked_up client r (noted (vol_lookup_by_path path) r h past)).1
  again-Logged path (ok vol) h past mine kept = found-Logged path vol h past mine kept
  again-Logged path (err e) h past mine kept =
      (tolerate-Keeps (Logged client P) (is_not_found e)).at _
        (rules.named.frees.free _ _ past refl kept)

  delete_at-Logged :
      (path : Text) (r : Result RpcError StorageVol) (h : H) (past : List Event)
      → is_owned machine (base path) ≡ true
      → P past
      → Logged client P (delete_at client path r (noted (vol_lookup_by_path path) r h past)).1
  delete_at-Logged path (ok vol) h past mine kept = found-Logged path vol h past mine kept
  delete_at-Logged path (err e) h past mine kept =
      (Keeps-if (not (is_not_found e)) (λ _. Keeps-raise other)
          λ _. Keeps-bind (confirm_reclaimed client path) _ (confirm_reclaimed-Keeps path) λ _.
            Keeps-then client P (vol_lookup_by_path path) (delete_looked_up client)
              λ r h past. again-Logged path r h past mine).at
        _ (rules.named.frees.free _ _ past refl kept)

  pub delete_volume_by_path-Keeps :
      (path : Text)
      → is_owned machine (base path) ≡ true
      → Keeps (Logged client P) (delete_volume_by_path client path)
  unfolding delete_volume_by_path
  delete_volume_by_path-Keeps path mine =
      Keeps-then client P (vol_lookup_by_path path) (delete_at client path)
        λ r h past. delete_at-Logged path r h past mine

  delete_volumes-Keeps :
      (paths : List Text)
      → AllOwned machine paths
      → Keeps (Logged client P) (delete_volumes client paths)
  unfolding delete_volumes
  delete_volumes-Keeps [] mine = Keeps-pure tt
  delete_volumes-Keeps (path ∷ paths) mine =
      Keeps-bind _ _ (delete_volume_by_path-Keeps path mine.0)
        λ _. delete_volumes-Keeps paths mine.1

  sources_read-Keeps :
      (read : Option DomainDef) → Keeps (Logged client P) (sources_read client read)
  sources_read-Keeps none = Keeps-raise other
  sources_read-Keeps (some def) = Keeps-pure _

  sources_answered-Keeps :
      (r : Result RpcError (Option DomainDef)) → Keeps (Logged client P) (sources_answered client r)
  sources_answered-Keeps (ok def) = sources_read-Keeps def
  sources_answered-Keeps (err e) =
      Keeps-if (is_not_found e) (λ _. Keeps-pure []) λ _. Keeps-raise other

  disk_sources_of-Keeps : (dom : Domain) → Keeps (Logged client P) (disk_sources_of client dom)
  unfolding disk_sources_of
  disk_sources_of-Keeps dom =
      Keeps-bind _ _ (Keeps-free client rules.named.frees (domain_get_xml dom) refl)
        sources_answered-Keeps

  pub unless_stopped-Keeps :
      (r : Result RpcError Unit) → Keeps (Logged client P) (unless_stopped client r)
  unless_stopped-Keeps (ok done) = Keeps-pure tt
  unless_stopped-Keeps (err e) =
      tolerate-Keeps (Logged client P) (is_not_found e || is_invalid_state e)

  pub delete_domain-Keeps :
      (dom : Domain)
      → dom.name ≡ machine
      → ((r : Result RpcError Unit) (past : List Event)
          → P past
          → P (event (domain_undefine dom) r ∷ past))
      → Keeps (Logged client P) (delete_domain client dom)
  unfolding delete_domain
  delete_domain-Keeps dom same undefine =
      Keeps-bind _ _
        (Keeps-bind _ _ (Keeps-free client rules.named.frees (domain_destroy dom) refl)
          unless_stopped-Keeps)
        λ _.
          Keeps-bind _ _
            (Keeps-bind _ _
              (Keeps-free client rules.named.frees (domain_set_autostart dom false) refl)
              unless_stopped-Keeps)
            λ _. Keeps-bind _ _ (disk_sources_of-Keeps dom) λ disks.
              Keeps-bind _ _
                (delete_volumes-Keeps (partition_owned_disks dom.name disks).0 (
                  subst (λ m. AllOwned m (partition_owned_disks dom.name disks).0) same
                    (partition-AllOwned dom.name disks)))
                λ _.
                  Keeps-bind _ _ (Keeps-call client P (domain_undefine dom) undefine)
                    (unless_gone-Keeps (Logged client P))
