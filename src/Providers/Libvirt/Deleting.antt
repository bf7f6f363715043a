-- ===== src/Providers/Libvirt/Deleting.antt =====
-- internal/providers/libvirt/libvirt.go: what a machine leaves behind is deleted.
use cluster_api_provider_hyd.Base.{
  Bool, false, not, ◌||◌, Option, none, some, List, [], ◌∷◌, ◌++◌, ◌==◌, list_eq, nat_eq,
  if◌then◌else◌, Text, text,
}
use cluster_api_provider_hyd.Base.Exec.{Result, ok, err, Exec, pure, raise, attempt, ◌>>=◌, ◌>>◌}
use cluster_api_provider_hyd.Base.Paths.{dir, clean}
use cluster_api_provider_hyd.Providers.Errors.{Error, not_found, other}
use cluster_api_provider_hyd.Providers.Identity.{is_empty}
use cluster_api_provider_hyd.Providers.Libvirt.Documents.{DomainDef, DiskDef, PoolDef}
use cluster_api_provider_hyd.Providers.Libvirt.Domains.{lookup_by_uuid}
use cluster_api_provider_hyd.Providers.Libvirt.Volumes.{
  Config, root_volume_name, cidata_volume_name, partition_owned_disks, tolerate, unless_gone,
  delete_looked_up,
}
use cluster_api_provider_hyd.Providers.Libvirt.Client.{
  Client, Run, Domain, StoragePool, StorageVol, RpcError, is_not_found, is_no_storage_vol,
  is_context_err, is_invalid_state, call, ask, begin, list_active_pools, list_inactive_pools,
  pool_lookup_by_name, pool_get_xml, vol_lookup_by_name, vol_lookup_by_path, vol_delete,
  domain_get_xml, domain_destroy, domain_set_autostart, domain_undefine, domain_lookup_by_name,
}

unfoldable pub is_network_pool_type : Text → Bool
is_network_pool_type t =
    t == text "rbd" || (t == text "sheepdog" || (t == text "gluster" || t == text "iscsi-direct"))

-- Whether one of the pools, with their directories, has this directory.
unfoldable pub holds : Text → List (Text × Text) → Bool
holds d [] = false
holds d (p ∷ pools) = clean p.1 == d || holds d pools

-- A disk that is no file has nothing to delete.
unfoldable pub files_of : List DiskDef → List Text
files_of [] = []
files_of (d ∷ disks) =
    let rest = files_of disks in if is_empty d.source_file then rest else d.source_file ∷ rest

module _ {H : Type 0} (client : Client H) where
  -- Whether the pool is the machine's own, where it was searched.
  abbrev pub searched : StoragePool → Text → Result RpcError StorageVol → Exec Error (Run H) Bool
  searched pool own (ok vol) =
      (call client (vol_delete vol) >>= unless_gone) >> pure (pool.name == own)
  searched pool own (err e) =
      if is_no_storage_vol e
      then pure (pool.name == own)
      else if is_not_found e
      then pure false
      else raise other

  -- The pools that run, with whether the machine's own was searched.
  unfoldable pub sweep : Text → Text → List StoragePool → Bool → Exec Error (Run H) Bool
  sweep vol_name own [] swept = pure swept
  sweep vol_name own (pool ∷ pools) swept =
      (call client (vol_lookup_by_name pool vol_name) >>= searched pool own) >>= λ hit.
      sweep vol_name own pools (swept || hit)

  -- A pool that exists and was not searched is an error.
  abbrev pub own_pool_absent : Result RpcError StoragePool → Exec Error (Run H) (Unit {0})
  own_pool_absent (ok pool) = raise other
  own_pool_absent (err e) = tolerate (is_not_found e)

  abbrev pub check_swept : Text → Bool → Exec Error (Run H) (Unit {0})
  check_swept own swept =
      if is_empty own || swept
      then pure tt
      else call client (pool_lookup_by_name own) >>= own_pool_absent

  -- The pools that do not run are only logged.
  abbrev pub log_stopped : Result RpcError (List StoragePool) → Exec Error (Run H) (Unit {0})
  log_stopped (ok stopped) = pure tt
  log_stopped (err e) = if is_context_err e then raise other else pure tt

  unfoldable pub delete_volume_any_pool : Text → Text → Exec Error (Run H) (Unit {0})
  delete_volume_any_pool vol_name own = ask client list_active_pools >>= λ pools.
      (sweep vol_name own pools false >>= check_swept own)
      >> (call client list_inactive_pools >>= log_stopped)

  -- A pool of storage on the network has no directory.
  abbrev pub place_of : StoragePool → Option PoolDef → Exec Error (Run H) (List (Text × Text))
  place_of pool none = raise other
  place_of pool (some def) =
      if is_empty def.target_path
      then (if is_network_pool_type def.type then pure [] else raise other)
      else pure ((pool.name, def.target_path) ∷ [])

  unfoldable pub places_of : List StoragePool → Exec Error (Run H) (List (Text × Text))
  places_of [] = pure []
  places_of (pool ∷ pools) = (ask client (pool_get_xml pool) >>= place_of pool) >>= λ here.
      places_of pools >>= λ rest. pure (here ++ rest)

  unfoldable pub stopped_pools : Exec Error (Run H) (List (Text × Text))
  stopped_pools = ask client list_inactive_pools >>= places_of

  -- A volume that is not found may be in a pool that does not run.
  unfoldable pub confirm_reclaimed : Text → Exec Error (Run H) (Unit {0})
  confirm_reclaimed path =
      stopped_pools >>= λ stopped. if holds (dir path) stopped then raise other else pure tt

  abbrev pub delete_missed : Text → RpcError → Exec Error (Run H) (Unit {0})
  delete_missed path e =
      if not (is_not_found e)
      then raise other
      else confirm_reclaimed path
        >> (call client (vol_lookup_by_path path) >>= delete_looked_up client)

  abbrev pub delete_at : Text → Result RpcError StorageVol → Exec Error (Run H) (Unit {0})
  delete_at path (ok vol) = call client (vol_delete vol) >>= unless_gone
  delete_at path (err e) = delete_missed path e

  -- A volume that is not found is looked for again after the pools that do not run are ruled out.
  unfoldable pub delete_volume_by_path : Text → Exec Error (Run H) (Unit {0})
  delete_volume_by_path path = call client (vol_lookup_by_path path) >>= delete_at path

  unfoldable pub delete_volumes : List Text → Exec Error (Run H) (Unit {0})
  delete_volumes [] = pure tt
  delete_volumes (path ∷ paths) = delete_volume_by_path path >> delete_volumes paths

  abbrev pub sources_read : Option DomainDef → Exec Error (Run H) (List Text)
  sources_read none = raise other
  sources_read (some def) = pure (files_of def.devices.disks)

  -- A domain that is gone has no disks.
  abbrev pub sources_answered : Result RpcError (Option DomainDef) → Exec Error (Run H) (List Text)
  sources_answered (ok def) = sources_read def
  sources_answered (err e) = if is_not_found e then pure [] else raise other

  unfoldable pub disk_sources_of : Domain → Exec Error (Run H) (List Text)
  disk_sources_of dom = call client (domain_get_xml dom) >>= sources_answered

  -- A domain that is gone, or whose state does not allow the call, is what the call was for.
  abbrev pub unless_stopped : Result RpcError Unit → Exec Error (Run H) (Unit {0})
  unless_stopped (ok done) = pure tt
  unless_stopped (err e) = tolerate (is_not_found e || is_invalid_state e)

  -- The domain goes last, since its definition is what says which disks are left.
  unfoldable pub delete_domain : Domain → Exec Error (Run H) (Unit {0})
  delete_domain dom =
      (call client (domain_destroy dom) >>= unless_stopped)
      >> ((call client (domain_set_autostart dom false) >>= unless_stopped)
          >> (disk_sources_of dom >>= λ disks.
              delete_volumes (partition_owned_disks dom.name disks).0
              >> (call client (domain_undefine dom) >>= unless_gone)))

  abbrev pub delete_found : Result Error Domain → Exec Error (Run H) (Unit {0})
  delete_found (ok dom) = delete_domain dom
  delete_found (err not_found) = pure tt
  delete_found (err e) = raise e

  unfoldable pub delete : Text → Exec Error (Run H) (Unit {0})
  delete id = begin client >> (attempt (lookup_by_uuid client id) >>= delete_found)

module _ {H : Type 0} (client : Client H) (config : Config) where
  abbrev pub delete_leftovers : Text → Text → Exec Error (Run H) (Unit {0})
  delete_leftovers name requested =
      let own = if is_empty requested then config.storage_pool else requested in
      delete_volume_any_pool client (root_volume_name name) own
      >> delete_volume_any_pool client (cidata_volume_name name) own

  -- With no domain, volumes of a machine that was never defined may be left.
  unfoldable pub delete_by_name : Text → Text → Exec Error (Run H) (Unit {0})
  delete_by_name name requested =
      begin client
      >> (call client (domain_lookup_by_name name) >>= λ r. elim r [
        | ok dom ↦ delete_domain client dom
        | err e ↦ (if is_not_found e then delete_leftovers name requested else raise other)
      ])
