-- ===== src/Providers/Libvirt/Volumes/Owned.antt =====
-- internal/providers/libvirt: the disks that a machine is made with are those that its deletion reclaims.
use cluster_api_provider_hyd.Base.{
  arith, true, false, [], ◌∷◌, ◌++◌, ◌≡◌, refl, Text, text, list_eq, nat_eq, ==_refl,
}
use cluster_api_provider_hyd.Base.Paths.{base, base-append, NoSlash, blank, slash}
use cluster_api_provider_hyd.Providers.Identity.{MachineSpec, is_empty}
use cluster_api_provider_hyd.Providers.Libvirt.Documents.{domain_xml, devices_of}
use cluster_api_provider_hyd.Providers.Libvirt.Volumes.{
  root_volume_name, cidata_volume_name, is_owned, partition_owned_disks,
}
use cluster_api_provider_hyd.Providers.Libvirt.Deleting.{files_of}

-- The path of a volume in the directory of its pool.
abbrev pub in_dir : Text → Text → Text
in_dir dir name = dir ++ slash ∷ name

append-NoSlash : (s t : Text) → NoSlash s → NoSlash t → NoSlash (s ++ t)
append-NoSlash [] t h g = g
append-NoSlash (c ∷ s) t h g = (h.0, append-NoSlash s t h.1 g)

append-blank : (s t : Text) → blank t ≡ false → blank (s ++ t) ≡ false
append-blank [] t h = h
append-blank (c ∷ s) t h = refl

append_slash-not_empty : (dir name : Text) → is_empty (in_dir dir name) ≡ false
append_slash-not_empty [] name = refl
append_slash-not_empty (c ∷ dir) name = refl

root-base :
    (dir machine : Text)
    → NoSlash machine
    → base (in_dir dir (root_volume_name machine)) ≡ root_volume_name machine
unfolding root_volume_name
root-base dir machine plain =
    base-append dir (machine ++ text ".qcow2")
      (append-NoSlash machine (text ".qcow2") plain (ground arith))
      (append-blank machine (text ".qcow2") refl)

cidata-base :
    (dir machine : Text)
    → NoSlash machine
    → base (in_dir dir (cidata_volume_name machine)) ≡ cidata_volume_name machine
unfolding cidata_volume_name
cidata-base dir machine plain =
    base-append dir (machine ++ text "-cidata.iso")
      (append-NoSlash machine (text "-cidata.iso") plain (ground arith))
      (append-blank machine (text "-cidata.iso") refl)

root-owned :
    (dir machine : Text)
    → NoSlash machine
    → is_owned machine (base (in_dir dir (root_volume_name machine))) ≡ true
unfolding is_owned
root-owned dir machine plain =
    ground (arith, root-base dir machine plain, ==_refl (root_volume_name machine))

cidata-owned :
    (dir machine : Text)
    → NoSlash machine
    → is_owned machine (base (in_dir dir (cidata_volume_name machine))) ≡ true
unfolding is_owned
cidata-owned dir machine plain =
    ground (arith, cidata-base dir machine plain, ==_refl (cidata_volume_name machine))

-- Where a machine's name has no slash and libvirt keeps its volumes in a directory: the disks of the
-- domain that `Create` defines, with or without bootstrap data, are all those that a deletion
-- of the machine takes for its own, in their order.
pub owned_disks_complete :
    (spec : MachineSpec) (dir : Text)
    → NoSlash spec.name
    → let root = in_dir dir (root_volume_name spec.name) in
      let cidata = in_dir dir (cidata_volume_name spec.name) in
      (partition_owned_disks spec.name (files_of (domain_xml spec root cidata).devices.disks)
        ≡ (root ∷ cidata ∷ [], []))
      × (partition_owned_disks spec.name (files_of (domain_xml spec root []).devices.disks)
          ≡ (root ∷ [], []))
unfolding domain_xml devices_of files_of partition_owned_disks
owned_disks_complete spec dir plain =
    let root = root-owned dir spec.name plain in
    let cidata = cidata-owned dir spec.name plain in
    let root_full = append_slash-not_empty dir (root_volume_name spec.name) in
    let cidata_full = append_slash-not_empty dir (cidata_volume_name spec.name) in
    (ground arith, ground arith)
