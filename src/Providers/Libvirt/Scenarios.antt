-- ===== src/Providers/Libvirt/Scenarios.antt =====
-- internal/providers/libvirt: runs against a small libvirtd, and the theorems at them.
use cluster_api_provider_hyd.Base.{
  ℕ, true, false, Option, none, some, List, [], ◌∷◌, ◌≡◌, refl, Text, text, ◌==◌, list_eq, nat_eq,
  if_cases,
}
use cluster_api_provider_hyd.Base.Paths.{base, words, last_word}
use cluster_api_provider_hyd.Base.Exec.{Result, ok, err, Keeps, Post}
use cluster_api_provider_hyd.Providers.Errors.{Error}
use cluster_api_provider_hyd.Providers.Identity.{MachineState, cut_slash}
use cluster_api_provider_hyd.Providers.Libvirt.Documents.{
  DomainDef, network_xml, domain_xml, devices_of, root_ports, ports_from, pcie_device_count,
  virtio_disks, virtio_channel, hotplug_root_ports, volume_xml, raw_volume_xml,
}
use cluster_api_provider_hyd.Providers.Fake.{decimal}
use cluster_api_provider_hyd.Base.Exec.{pure, raise, attempt, ◌>>=◌}
use cluster_api_provider_hyd.Providers.Libvirt.Uuids.{format_uuid, parse_uuid, encode}
use cluster_api_provider_hyd.Providers.Libvirt.Subnets.{
  subnet_parts, parse_cidr, parse_ipv4, fields, digits, dotted,
}
use cluster_api_provider_hyd.Providers.Libvirt.Creating.{
  create, make, define, rollback, start_and_report,
}
use cluster_api_provider_hyd.Providers.Libvirt.Domains.{
  ensure_running, start_verified, start_steps_for, state_of, addresses_of, addresses_from, routable,
}
use cluster_api_provider_hyd.Providers.Libvirt.Networks.{
  attachable_network, verify_network, bring_up, network_bridge, agrees,
}
use cluster_api_provider_hyd.Providers.Libvirt.Deleting.{
  delete, delete_by_name, delete_domain, disk_sources_of, files_of, delete_volumes,
  delete_volume_by_path,
}
use cluster_api_provider_hyd.Providers.Libvirt.Volumes.{
  lookup_pool_named, resolve_backing_path, volume_path, delete_volume, ensure_cloud_init_volume,
  create_cloud_init_volume, root_volume_name, cidata_volume_name, is_owned, partition_owned_disks,
}
use cluster_api_provider_hyd.Providers.Libvirt.Client.{
  call, begin, context_over, Run, Domain, RpcError, domain_lookup_by_uuid,
}
use cluster_api_provider_hyd.Providers.Libvirt.Documents.Ports.{ports_in, domain_xml-ports}
use cluster_api_provider_hyd.Providers.Libvirt.Volumes.Owned.{in_dir, owned_disks_complete}
use cluster_api_provider_hyd.Providers.Libvirt.Client.Journal.{Logged, Orderly}
use cluster_api_provider_hyd.Providers.Libvirt.Orders.Licences.{
  CreateLicence, Licence, create-Orderly,
}
use cluster_api_provider_hyd.Providers.Libvirt.Orders.Deletions.{
  Named, LooksUp, delete_by_name-Orderly, delete-Orderly,
}
use cluster_api_provider_hyd.Providers.Libvirt.Orders.Undefined.{Emptied, delete_domain-Emptied}
use cluster_api_provider_hyd.Providers.Libvirt.Orders.Leftovers.{Deleted, delete_by_name-Deleted}
use cluster_api_provider_hyd.Providers.Libvirt.Orders.Usable.{Usable, attachable_network-Usable}
use cluster_api_provider_hyd.Providers.Libvirt.Daemon.{
  Host, zeros, found, libvirtd, config, managed, spec, empty,
}

-- A machine is made, and then deleted by its name.
made : Result Error MachineState × Run Host
unfolding config empty create make define rollback start_and_report ensure_running start_verified
    start_steps_for state_of addresses_of addresses_from routable lookup_pool_named
    resolve_backing_path volume_path delete_volume ensure_cloud_init_volume create_cloud_init_volume
    attachable_network verify_network bring_up network_bridge agrees subnet_parts parse_cidr
    parse_ipv4 fields digits dotted decimal cut_slash domain_xml devices_of root_ports ports_from
    pcie_device_count virtio_disks virtio_channel hotplug_root_ports volume_xml raw_volume_xml
    network_xml root_volume_name cidata_volume_name call begin context_over format_uuid encode pure
    raise attempt ◌>>=◌ libvirtd base words last_word
made = create libvirtd config spec empty

unmade : Result Error (Unit {0}) × Run Host
unfolding made delete_by_name delete_domain disk_sources_of files_of partition_owned_disks is_owned
    delete_volumes delete_volume_by_path
unmade = delete_by_name libvirtd config (text "m") [] made.1

abbrev answer : {A : Type 0} → Result Error A → Option A
answer (ok a) = some a
answer (err e) = none

test_made :
    (made.1.host.volumes ≡ text "m-cidata.iso" ∷ text "m.qcow2" ∷ text "base" ∷ [])
    × (made.1.host.active ≡ true)
unfolding made
test_made = (refl, refl)

test_unmade :
    (unmade.0 ≡ ok tt) × (unmade.1.host.volumes ≡ text "base" ∷ []) × (unmade.1.host.domain ≡ none)
unfolding unmade
test_unmade = (refl, refl, refl)

found-Named : (o : Option DomainDef) (name : Text) → Named name (some (found o name))
found-Named none name = tt
found-Named (some d) name =
    if_cases (λ (r : Result RpcError Domain). Named name (some r)) (d.name == name) (λ _. refl)
      λ _. tt

names : LooksUp libvirtd
unfolding libvirtd
names name h = found-Named h.domain name

create-Orderly_example :
    Keeps (Logged libvirtd (Orderly (CreateLicence (text "m")))) (create libvirtd config spec)
create-Orderly_example = create-Orderly libvirtd config spec

delete_by_name-Orderly_example :
    Keeps
      (Logged libvirtd (Orderly (Licence (text "m"))))
      (delete_by_name libvirtd config (text "m") (text "p"))
delete_by_name-Orderly_example = delete_by_name-Orderly libvirtd config (text "m") (text "p") names

by_uuid :
    (uuid : List ℕ) (h : Host)
    → parse_uuid (format_uuid zeros) ≡ some uuid
    → Named (text "m") (libvirtd.rpc (domain_lookup_by_uuid uuid) h).0
unfolding libvirtd
by_uuid uuid h is = found-Named h.domain (text "m")

delete-Orderly_example :
    Keeps (Logged libvirtd (Orderly (Licence (text "m")))) (delete libvirtd (format_uuid zeros))
delete-Orderly_example = delete-Orderly libvirtd config (text "m") (format_uuid zeros) by_uuid

delete_domain-Emptied_example :
    Keeps
      (Logged libvirtd (Orderly Emptied))
      (delete_domain libvirtd (record { name = text "m"; uuid = zeros }))
delete_domain-Emptied_example =
    delete_domain-Emptied libvirtd (record { name = text "m"; uuid = zeros })

delete_by_name-Deleted_example :
    Post
      (λ _. Logged libvirtd (Deleted libvirtd config (text "m") []))
      (λ _. Unit)
      (delete_by_name libvirtd config (text "m") [] empty)
delete_by_name-Deleted_example = delete_by_name-Deleted libvirtd config (text "m") [] empty

attachable_network-Usable_example :
    Post
      (λ bridge t. Usable managed bridge t.journal)
      (λ _. Unit)
      (attachable_network libvirtd managed false empty)
attachable_network-Usable_example = attachable_network-Usable libvirtd managed false empty

owned_disks_complete_example :
    let root = in_dir (text "/p") (root_volume_name (text "m")) in
    let cidata = in_dir (text "/p") (cidata_volume_name (text "m")) in
    (partition_owned_disks (text "m") (files_of (domain_xml spec root cidata).devices.disks)
      ≡ (root ∷ cidata ∷ [], []))
    × (partition_owned_disks (text "m") (files_of (domain_xml spec root []).devices.disks)
        ≡ (root ∷ [], []))
owned_disks_complete_example = owned_disks_complete spec (text "/p") (refl, tt)

domain_xml-ports_example :
    let controllers = (domain_xml spec (text "/p/m.qcow2") []).devices.controllers in
    (hotplug_root_ports controllers ≡ []) × (ports_in controllers ≡ 6)
domain_xml-ports_example = domain_xml-ports spec (text "/p/m.qcow2") []
