-- ===== src/Providers/Libvirt/Documents.antt =====
-- internal/providers/libvirt/xml.go: the documents that libvirt is given and answers with. A document is
-- the value that `encoding/xml` writes or reads; one that cannot be read is `none` where it is asked for.
-- An attribute that is left out reads as the empty text.
pub mod Ports
use cluster_api_provider_hyd.Base.{
  ℕ, zero, suc, ◌+◌, Bool, true, false, not, ◌||◌, Option, none, some, List, [], ◌∷◌, ◌++◌, map,
  ◌==◌, list_eq, nat_eq, if◌then◌else◌, length, Text, text,
}
use cluster_api_provider_hyd.Providers.Identity.{is_empty, MachineSpec, ManagedNetwork}
use cluster_api_provider_hyd.Providers.Fake.{decimal}

-- `target` is the element's `hotplug`.
pub record ControllerDef : Type 0 where
  pub type : Text
  pub index : Text
  pub model : Text
  pub target : Option Text

pub record DiskDef : Type 0 where
  pub type : Text
  pub device : Text
  pub driver_name : Text
  pub driver_type : Text
  pub source_file : Text
  pub target_dev : Text
  pub target_bus : Text
  pub read_only : Bool

pub record InterfaceDef : Type 0 where
  pub type : Text
  pub source_bridge : Text
  pub model_type : Text

pub record ConsoleDef : Type 0 where
  pub type : Text
  pub target_type : Text
  pub target_port : Text

pub record ChannelDef : Type 0 where
  pub type : Text
  pub target_type : Text
  pub target_name : Text

pub record Devices : Type 0 where
  pub controllers : List ControllerDef
  pub disks : List DiskDef
  pub interfaces : List InterfaceDef
  pub console : ConsoleDef
  pub channels : List ChannelDef

pub record DomainDef : Type 0 where
  pub type : Text
  pub name : Text
  pub memory_unit : Text
  pub memory : ℕ
  pub vcpu : ℕ
  pub os_arch : Text
  pub os_machine : Text
  pub os_type : Text
  pub boot : List Text
  pub acpi : Bool
  pub apic : Bool
  pub devices : Devices

-- `backing` is the path of a backing store, which is a qcow2 image.
pub record VolumeDef : Type 0 where
  pub name : Text
  pub capacity : ℕ
  pub format : Text
  pub backing : Option Text

pub record PoolDef : Type 0 where
  pub type : Text
  pub target_path : Text

pub record NetworkDef : Type 0 where
  pub name : Text
  pub forward_mode : Text
  pub bridge_name : Text
  pub bridge_stp : Text
  pub ip_address : Text
  pub ip_netmask : Text
  pub dhcp : Option (Text × Text)

abbrev pub net_forward_open : Text
net_forward_open = text "open"

-- A network of Hydra's: libvirt chooses the bridge.
unfoldable pub network_xml : ManagedNetwork → Text → Text → NetworkDef
network_xml spec gateway netmask = record {
  name = spec.name;
  forward_mode = net_forward_open;
  bridge_name = [];
  bridge_stp = text "on";
  ip_address = gateway;
  ip_netmask = netmask;
  dhcp = some (spec.dhcp_start, spec.dhcp_end);
}

abbrev pub pci_controller_type : Text
pci_controller_type = text "pci"

abbrev pub pcie_root_port_model : Text
pcie_root_port_model = text "pcie-root-port"

abbrev pub pcie_root_port_hotplug : Text
pcie_root_port_hotplug = text "off"

abbrev pub model_virtio : Text
model_virtio = text "virtio"

abbrev pub libvirt_default_pcie_devices : ℕ
libvirt_default_pcie_devices = 2

abbrev pub spare_root_ports : ℕ
spare_root_ports = 2

unfoldable pub virtio_disks : List DiskDef → ℕ
virtio_disks [] = 0
virtio_disks (d ∷ disks) =
    let rest = virtio_disks disks in if d.target_bus == model_virtio then suc rest else rest

-- One controller serves every channel.
unfoldable pub virtio_channel : List ChannelDef → ℕ
virtio_channel [] = 0
virtio_channel (c ∷ channels) =
    let rest = virtio_channel channels in if c.target_type == model_virtio then 1 else rest

unfoldable pub pcie_device_count : Devices → ℕ
pcie_device_count dv =
    length dv.interfaces
    + libvirt_default_pcie_devices
    + virtio_disks dv.disks
    + virtio_channel dv.channels

-- `strconv.Itoa`
abbrev pub itoa : ℕ → Text
itoa n = decimal (suc n) n []

abbrev pub root_port : ℕ → ControllerDef
root_port i = record {
  type = pci_controller_type;
  index = itoa i;
  model = pcie_root_port_model;
  target = some pcie_root_port_hotplug;
}

-- The ports from the `i`th on.
unfoldable pub ports_from : ℕ → ℕ → List ControllerDef
ports_from zero i = []
ports_from (suc n) i = root_port i ∷ ports_from n (suc i)

unfoldable pub root_ports : ℕ → List ControllerDef
root_ports n =
    record { type = pci_controller_type; index = text "0"; model = text "pcie-root"; target = none }
    ∷ ports_from n 1

abbrev pub root_disk : Text → DiskDef
root_disk path = record {
  type = text "file";
  device = text "disk";
  driver_name = text "qemu";
  driver_type = text "qcow2";
  source_file = path;
  target_dev = text "vda";
  target_bus = model_virtio;
  read_only = false;
}

-- The image with the bootstrap data, if the machine has one.
abbrev pub cidata_disks : Text → List DiskDef
cidata_disks path =
    if is_empty path
    then []
    else record {
      type = text "file";
      device = text "cdrom";
      driver_name = text "qemu";
      driver_type = text "raw";
      source_file = path;
      target_dev = text "sda";
      target_bus = text "sata";
      read_only = true;
    }
      ∷ []

abbrev pub bridged : Text → InterfaceDef
bridged network = record {
  type = text "bridge";
  source_bridge = network;
  model_type = model_virtio;
}

unfoldable pub devices_of : MachineSpec → Text → Text → Devices
devices_of spec root_path cidata_path = record {
  controllers = [];
  disks = root_disk root_path ∷ cidata_disks cidata_path;
  interfaces = map bridged spec.networks;
  console = record { type = text "pty"; target_type = text "serial"; target_port = text "0" };
  channels =
      record {
        type = text "unix";
        target_type = model_virtio;
        target_name = text "org.qemu.guest_agent.0";
      }
      ∷ [];
}

unfoldable pub domain_xml : MachineSpec → Text → Text → DomainDef
domain_xml spec root_path cidata_path =
    let dv = devices_of spec root_path cidata_path in
    record {
      type = text "kvm";
      name = spec.name;
      memory_unit = text "bytes";
      memory = spec.memory_bytes;
      vcpu = spec.vcpus;
      os_arch = text "x86_64";
      os_machine = text "q35";
      os_type = text "hvm";
      boot = text "hd" ∷ [];
      acpi = true;
      apic = true;
      devices = record dv { controllers = root_ports (pcie_device_count dv + spare_root_ports) };
    }

abbrev pub hotplug_off : Option Text → Bool
hotplug_off none = false
hotplug_off (some hotplug) = hotplug == pcie_root_port_hotplug

abbrev pub is_root_port : ControllerDef → Bool
is_root_port c = not (not (c.type == pci_controller_type) || not (c.model == pcie_root_port_model))

-- The indices of the root ports that a device can be added to while the machine runs.
unfoldable pub hotplug_root_ports : List ControllerDef → List Text
hotplug_root_ports [] = []
hotplug_root_ports (c ∷ rest) =
    let bad = hotplug_root_ports rest in
    if not (is_root_port c) then bad else if hotplug_off c.target then bad else c.index ∷ bad

unfoldable pub volume_xml : Text → Text → ℕ → VolumeDef
volume_xml name base_image size = record {
  name = name;
  capacity = size;
  format = text "qcow2";
  backing = some base_image;
}

unfoldable pub raw_volume_xml : Text → ℕ → VolumeDef
raw_volume_xml name size = record {
  name = name;
  capacity = size;
  format = text "raw";
  backing = none;
}
