-- ===== src/Providers/Libvirt/Documents/Ports.antt =====
-- internal/providers/libvirt/xml.go: the PCIe root ports of a new machine.
use cluster_api_provider_hyd.Base.{
  ℕ, zero, suc, ◌+◌, ◌≡◌, nat_eq, list_eq, List, [], ◌∷◌, length, Text, refl, arith, ap, map, tally,
}
use cluster_api_provider_hyd.Providers.Identity.{MachineSpec}
use cluster_api_provider_hyd.Providers.Libvirt.Documents.{
  ControllerDef, ports_from, root_ports, hotplug_root_ports, is_root_port, domain_xml, devices_of,
  pcie_device_count, bridged, virtio_disks, virtio_channel, cidata_disks, spare_root_ports,
}

-- How many of the controllers are root ports.
unfoldable pub ports_in : List ControllerDef → ℕ
ports_in [] = 0
ports_in (c ∷ rest) = tally (is_root_port c) + ports_in rest

ports_from-quiet : (n i : ℕ) → hotplug_root_ports (ports_from n i) ≡ []
unfolding hotplug_root_ports ports_from
ports_from-quiet zero i = refl
ports_from-quiet (suc n) i = ports_from-quiet n (suc i)

ports_in-ports_from : (n i : ℕ) → ports_in (ports_from n i) ≡ n
unfolding ports_in ports_from
ports_in-ports_from zero i = refl
ports_in-ports_from (suc n) i = omega (arith, ports_in-ports_from n (suc i))

length-bridged : (networks : List Text) → length (map bridged networks) ≡ length networks
length-bridged [] = refl
length-bridged (n ∷ rest) = ap suc (length-bridged rest)

cidata_disks-virtio : (path : Text) → virtio_disks (cidata_disks path) ≡ 0
unfolding virtio_disks
cidata_disks-virtio [] = refl
cidata_disks-virtio (c ∷ path) = refl

-- The document that `domainXML` writes for a machine has no root port that takes a device while the
-- machine runs, so the check before a start passes it. It has a root port for each of the machine's
-- networks, the root disk, the channel and libvirt's own two devices, and two more.
pub domain_xml-ports :
    (spec : MachineSpec) (root_path cidata_path : Text)
    → let controllers = (domain_xml spec root_path cidata_path).devices.controllers in
      (hotplug_root_ports controllers ≡ []) × (ports_in controllers ≡ length spec.networks + 6)
unfolding domain_xml root_ports hotplug_root_ports ports_in devices_of pcie_device_count
    virtio_disks virtio_channel
domain_xml-ports spec root_path cidata_path =
    let count = pcie_device_count (devices_of spec root_path cidata_path) in
    (
      ports_from-quiet (count + spare_root_ports) 1,
      omega (
        arith,
        ports_in-ports_from (count + spare_root_ports) 1,
        length-bridged spec.networks,
        cidata_disks-virtio cidata_path,
      ),
    )
