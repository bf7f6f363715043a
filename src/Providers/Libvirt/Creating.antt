-- ===== src/Providers/Libvirt/Creating.antt =====
-- internal/providers/libvirt/libvirt.go: a machine is made.
use cluster_api_provider_hyd.Base.{Option, none, some, [], ◌∷◌, ◌++◌, if◌then◌else◌, Text}
use cluster_api_provider_hyd.Base.Exec.{Result, ok, err, Exec, pure, raise, attempt, ◌>>=◌, ◌>>◌}
use cluster_api_provider_hyd.Providers.Errors.{Error, other}
use cluster_api_provider_hyd.Providers.Identity.{
  is_empty, ManagedNetwork, MachineSpec, MachineState,
}
use cluster_api_provider_hyd.Providers.Libvirt.Documents.{domain_xml, volume_xml}
use cluster_api_provider_hyd.Providers.Libvirt.Domains.{ensure_running, state_of}
use cluster_api_provider_hyd.Providers.Libvirt.Networks.{resolve_network}
use cluster_api_provider_hyd.Providers.Libvirt.Volumes.{
  Config, ignore, tolerate, root_volume_name, lookup_pool_named, resolve_backing_path, volume_path,
  delete_volume, ensure_cloud_init_volume,
}
use cluster_api_provider_hyd.Providers.Libvirt.Client.{
  Client, Run, Domain, StoragePool, StorageVol, RpcError, is_not_found, is_already_exists, call,
  ask, begin, domain_lookup_by_name, domain_define_xml, vol_create_xml,
}

module _ {H : Type 0} (client : Client H) (config : Config) where
  -- The volumes of a machine that was not defined, which nothing would reclaim. Whether a deletion
  -- fails is passed over.
  unfoldable pub rollback : StoragePool → Text → Text → Exec Error (Run H) (Unit {0})
  rollback pool vol_name cidata_vol =
      ignore (delete_volume client config pool.name vol_name)
      >> (if is_empty cidata_vol
          then pure tt
          else ignore (delete_volume client config pool.name cidata_vol))

  -- Rolls back if `m` fails.
  abbrev pub settled :
      {A : Type 0} → StoragePool → Text → Text → Result Error A → Exec Error (Run H) A
  settled pool vol_name cidata_vol (ok a) = pure a
  settled pool vol_name cidata_vol (err e) = rollback pool vol_name cidata_vol >> raise e

  abbrev pub or_rollback :
      {A : Type 0} → StoragePool → Text → Text → Exec Error (Run H) A → Exec Error (Run H) A
  or_rollback pool vol_name cidata_vol m = attempt m >>= settled pool vol_name cidata_vol

  abbrev pub cidata_path_of : StoragePool → Text → Exec Error (Run H) Text
  cidata_path_of pool cidata_vol =
      if is_empty cidata_vol then pure [] else volume_path client pool cidata_vol

  abbrev pub networked : MachineSpec → Option ManagedNetwork → Exec Error (Run H) MachineSpec
  networked spec none = pure spec
  networked spec (some managed) = resolve_network client managed >>= λ bridge.
      pure (record spec { networks = spec.networks ++ bridge ∷ [] })

  -- The domain on the volumes that were made.
  unfoldable pub define : StoragePool → MachineSpec → Text → Exec Error (Run H) Domain
  define pool spec cidata_vol =
      let vol_name = root_volume_name spec.name in
      or_rollback pool vol_name cidata_vol (volume_path client pool vol_name) >>= λ root_path.
      or_rollback pool vol_name cidata_vol (cidata_path_of pool cidata_vol) >>= λ cidata_path.
      or_rollback pool vol_name cidata_vol (networked spec spec.managed_network) >>= λ wired.
      or_rollback pool vol_name cidata_vol
        (ask client (domain_define_xml (domain_xml wired root_path cidata_path)))

  unfoldable pub start_and_report : Domain → Exec Error (Run H) MachineState
  start_and_report dom = ensure_running client dom >> state_of client dom

  -- An attempt that failed before left the volume, and it is taken.
  abbrev pub unless_existing : Result RpcError StorageVol → Exec Error (Run H) (Unit {0})
  unless_existing (ok vol) = pure tt
  unless_existing (err e) = tolerate (is_already_exists e)

  abbrev pub imaged : StoragePool → Text → Result Error Text → Exec Error (Run H) Text
  imaged pool vol_name (ok cidata_vol) = pure cidata_vol
  imaged pool vol_name (err e) = ignore (delete_volume client config pool.name vol_name) >> raise e

  -- The volumes first: a domain that is defined is complete.
  unfoldable pub make : MachineSpec → Exec Error (Run H) MachineState
  make spec = lookup_pool_named client config spec.storage_pool >>= λ pool.
      resolve_backing_path client config pool spec.image >>= λ backing_path.
      let vol_name = root_volume_name spec.name in
      (call client (vol_create_xml pool (volume_xml vol_name backing_path spec.disk_bytes))
        >>= unless_existing)
      >> (attempt (ensure_cloud_init_volume client config pool spec)
          >>= imaged pool vol_name
          >>= λ cidata_vol. define pool spec cidata_vol >>= start_and_report)

  -- A domain with the name is the machine, whatever else the spec says.
  unfoldable pub create : MachineSpec → Exec Error (Run H) MachineState
  create spec =
      begin client
      >> (call client (domain_lookup_by_name spec.name) >>= λ r. elim r [
        | ok dom ↦ start_and_report dom
        | err e ↦ (if is_not_found e then make spec else raise other)
      ])
