-- ===== src/Providers/Libvirt/Orders/Rollback.antt =====
-- internal/providers/libvirt/libvirt.go: a machine's domain is defined on its volumes, or these are rolled back.
use cluster_api_provider_hyd.Base.{List, ◌∷◌, ◌≡◌, Text, false}
use cluster_api_provider_hyd.Base.Exec.{ok, Exec}
use cluster_api_provider_hyd.Providers.Identity.{is_empty, MachineSpec}
use cluster_api_provider_hyd.Providers.Libvirt.Documents.{domain_xml}
use cluster_api_provider_hyd.Providers.Libvirt.Volumes.{Config, root_volume_name}
use cluster_api_provider_hyd.Providers.Libvirt.Client.{
  Client, Run, Event, Domain, StoragePool, domain_define_xml,
}
use cluster_api_provider_hyd.Providers.Libvirt.Client.Journal.{Logged}
use cluster_api_provider_hyd.Providers.Libvirt.Orders.{event}
use cluster_api_provider_hyd.Providers.Libvirt.Orders.Drops.{RolledBack}
use cluster_api_provider_hyd.Providers.Libvirt.Orders.Paths.{Untouched, HasPath, CidataPath}

-- The last call defined the domain on the volumes.
pub data Defined (start : List Event) (pool : StoragePool) (spec : MachineSpec) (cidata : Text)
    (dom : Domain) : List Event → Type 0 where
  defined :
      (networks : List Text) (root_path cidata_path : Text) (past : List Event)
      → Untouched start past
      → HasPath start pool (root_volume_name spec.name) root_path past
      → CidataPath start pool cidata cidata_path past
      → Defined start pool spec cidata dom (
          event
            (domain_define_xml
              (domain_xml (record spec { networks = networks }) root_path cidata_path))
            (ok dom)
          ∷ past)

module _ {H : Type 0} (client : Client H) (config : Config) (start : List Event)
    (pool : StoragePool) (spec : MachineSpec) (cidata : Text)
    (named : is_empty pool.name ≡ false) where
  abbrev root : Text
  root = root_volume_name spec.name

  abbrev Back : Run H → Type 0
  Back = Logged client (RolledBack (Untouched start) pool.name root cidata)

  abbrev Rooted : Text → List Event → Type 0
  Rooted root_path past = Untouched start past × HasPath start pool root root_path past

  abbrev Complete : Text → Text → List Event → Type 0
  Complete root_path cidata_path past =
      Rooted root_path past × CidataPath start pool cidata cidata_path past
