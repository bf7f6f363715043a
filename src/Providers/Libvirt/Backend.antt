-- ===== src/Providers/Libvirt/Backend.antt =====
-- internal/providers/libvirt/libvirt.go: the backend as the controllers see it.
use cluster_api_provider_hyd.Base.{if◌then◌else◌, Text, text}
use cluster_api_provider_hyd.Providers.Identity.{is_empty, MachineProvider}
use cluster_api_provider_hyd.Providers.Libvirt.Client.{Client, Run}
use cluster_api_provider_hyd.Providers.Libvirt.Domains.{get, find_by_name}
use cluster_api_provider_hyd.Providers.Libvirt.Volumes.{Config}
use cluster_api_provider_hyd.Providers.Libvirt.Networks.{ensure_infrastructure}
use cluster_api_provider_hyd.Providers.Libvirt.Deleting.{delete, delete_by_name}
use cluster_api_provider_hyd.Providers.Libvirt.Creating.{create}

module _ {H : Type 0} (client : Client H) (config : Config) where
  unfoldable pub storage_pool_for : Text → Text
  storage_pool_for requested = if is_empty requested then config.storage_pool else requested

  unfoldable pub libvirt : MachineProvider (Run H)
  libvirt = record {
    name = text "libvirt";
    storage_pool_for = storage_pool_for;
    create = create client config;
    get = get client;
    find_by_name = find_by_name client;
    delete = delete client;
    ensure_infrastructure = ensure_infrastructure client config;
    delete_by_name = delete_by_name client config;
  }
