-- ===== src/Providers/Libvirt/Volumes.antt =====
-- internal/providers/libvirt/libvirt.go: the volumes of a machine, their names, and how they are made and
-- deleted.
pub mod Owned
use cluster_api_provider_hyd.Base.{
  ℕ, Bool, true, false, not, ◌&&◌, ◌||◌, Option, none, some, List, [], ◌∷◌, ◌++◌, ◌==◌, list_eq,
  nat_eq, if◌then◌else◌, length, Text, text,
}
use cluster_api_provider_hyd.Base.Exec.{Result, ok, err, Exec, pure, raise, attempt, ◌>>=◌, ◌>>◌}
use cluster_api_provider_hyd.Base.Paths.{base, dir, clean}
use cluster_api_provider_hyd.Providers.Errors.{Error, terminal, other}
use cluster_api_provider_hyd.Providers.Identity.{is_empty, Image, MachineSpec}
use cluster_api_provider_hyd.Providers.Libvirt.Documents.{PoolDef, raw_volume_xml}
use cluster_api_provider_hyd.Providers.Libvirt.Domains.{found_or}
use cluster_api_provider_hyd.Providers.Libvirt.Client.{
  Client, Run, StoragePool, StorageVol, RpcError, is_not_found, is_already_exists,
  is_no_storage_vol, call, ask, list_active_pools, list_inactive_pools, pool_lookup_by_name,
  pool_get_xml, vol_create_xml, vol_lookup_by_name, vol_lookup_by_path, vol_get_path, vol_delete,
  vol_upload,
}

-- What `cloudinit.ISO` refuses: data that it can never take, and anything else.
pub data IsoError : Type 0 where
  invalid unwritten : IsoError

-- What a backend was configured with, and the image that `cloudinit.ISO` makes of a machine's bootstrap
-- data.
pub record Config : Type 0 where
  pub storage_pool : Text
  pub base_image : Text
  pub iso : MachineSpec → Result IsoError Text

unfoldable pub root_volume_name : Text → Text
root_volume_name machine = machine ++ text ".qcow2"

unfoldable pub cidata_volume_name : Text → Text
cidata_volume_name machine = machine ++ text "-cidata.iso"

unfoldable pub is_owned : Text → Text → Bool
is_owned machine name = name == root_volume_name machine || name == cidata_volume_name machine

-- The machine's own disks, in their order; the others are left alone.
unfoldable pub partition_owned_disks : Text → List Text → List Text × List Text
partition_owned_disks machine [] = ([], [])
partition_owned_disks machine (d ∷ disks) =
    let rest = partition_owned_disks machine disks in
    if is_owned machine (base d) then (d ∷ rest.0, rest.1) else (rest.0, d ∷ rest.1)

abbrev pub tolerate : {H : Type 0} → Bool → Exec Error (Run H) (Unit {0})
tolerate fine = if fine then pure tt else raise other

-- A deletion of what is gone has succeeded.
abbrev pub unless_gone : {H : Type 0} → Result RpcError Unit → Exec Error (Run H) (Unit {0})
unless_gone (ok done) = pure tt
unless_gone (err e) = tolerate (is_not_found e)

-- Whatever `m` returns is passed over.
abbrev pub ignore : {H : Type 0} → Exec Error (Run H) (Unit {0}) → Exec Error (Run H) (Unit {0})
ignore m = attempt m >> pure tt

module _ {H : Type 0} (client : Client H) where
  unfoldable pub volume_path : StoragePool → Text → Exec Error (Run H) Text
  volume_path pool vol_name =
      ask client (vol_lookup_by_name pool vol_name) >>= λ vol. ask client (vol_get_path vol)

  abbrev pub delete_looked_up : Result RpcError StorageVol → Exec Error (Run H) (Unit {0})
  delete_looked_up (ok vol) = call client (vol_delete vol) >>= unless_gone
  delete_looked_up (err e) = tolerate (is_not_found e)

module _ {H : Type 0} (client : Client H) (config : Config) where
  unfoldable pub lookup_pool_named : Text → Exec Error (Run H) StoragePool
  lookup_pool_named requested =
      let name = if is_empty requested then config.storage_pool else requested in
      if is_empty name
      then raise terminal
      else call client (pool_lookup_by_name name) >>= found_or client terminal

  unfoldable pub resolve_backing_path : StoragePool → Image → Exec Error (Run H) Text
  resolve_backing_path pool img =
      let name = if is_empty img.name then config.base_image else img.name in
      if is_empty img.name && not (is_empty img.url)
      then raise terminal
      else if is_empty name
      then raise terminal
      else call client (vol_lookup_by_name pool name) >>= λ r.
          found_or client terminal r >>= λ vol. ask client (vol_get_path vol)

  -- A pool that is not there is no terminal error here.
  unfoldable pub delete_volume : Text → Text → Exec Error (Run H) (Unit {0})
  delete_volume pool_name vol_name = attempt (lookup_pool_named pool_name) >>= λ r. elim r [
    | err e ↦ raise other
    | ok pool ↦ call client (vol_lookup_by_name pool vol_name) >>= delete_looked_up client
  ]

  -- A volume with the name that an earlier attempt left is deleted and made again.
  unfoldable pub create_cloud_init_volume : StoragePool → Text → ℕ → Exec Error (Run H) StorageVol
  create_cloud_init_volume pool vol_name size =
      call client (vol_create_xml pool (raw_volume_xml vol_name size)) >>= λ r. elim r [
        | ok vol ↦ pure vol
        | err e ↦
            (if not (is_already_exists e)
              then raise other
              else delete_volume pool.name vol_name
                >> ask client (vol_create_xml pool (raw_volume_xml vol_name size)))
      ]

  abbrev pub uploaded : StoragePool → Text → Result RpcError Unit → Exec Error (Run H) Text
  uploaded pool vol_name (ok done) = pure vol_name
  uploaded pool vol_name (err e) = ignore (delete_volume pool.name vol_name) >> raise other

  abbrev pub write_image : StoragePool → Text → Text → Exec Error (Run H) Text
  write_image pool vol_name image = create_cloud_init_volume pool vol_name (length image) >>= λ vol.
      call client (vol_upload vol image) >>= uploaded pool vol_name

  abbrev pub rendered : StoragePool → Text → Result IsoError Text → Exec Error (Run H) Text
  rendered pool vol_name (ok image) = write_image pool vol_name image
  rendered pool vol_name (err invalid) = raise terminal
  rendered pool vol_name (err unwritten) = raise other

  -- The name of the volume with the bootstrap data, which is empty where there is none.
  unfoldable pub ensure_cloud_init_volume : StoragePool → MachineSpec → Exec Error (Run H) Text
  ensure_cloud_init_volume pool spec =
      if is_empty spec.bootstrap_data
      then pure []
      else rendered pool (cidata_volume_name spec.name) (config.iso spec)
