-- ===== src/Providers/Libvirt/Orders/Licences.antt =====
-- internal/providers/libvirt/libvirt.go: what the journal shows before a start and before a deletion.
use cluster_api_provider_hyd.Base.{arith, true, some, List, [], ◌∷◌, ◌≡◌, refl, Text}
use cluster_api_provider_hyd.Base.Paths.{base}
use cluster_api_provider_hyd.Base.Exec.{ok, Keeps}
use cluster_api_provider_hyd.Providers.Identity.{MachineSpec}
use cluster_api_provider_hyd.Providers.Libvirt.Documents.{DomainDef, hotplug_root_ports}
use cluster_api_provider_hyd.Providers.Libvirt.Volumes.{Config, is_owned}
use cluster_api_provider_hyd.Providers.Libvirt.Creating.{create}
use cluster_api_provider_hyd.Providers.Libvirt.Client.{
  Client, Call, Event, Domain, StoragePool, StorageVol, domain_create, domain_undefine, vol_delete,
  domain_get_inactive_xml, vol_lookup_by_name, vol_lookup_by_path,
}
use cluster_api_provider_hyd.Providers.Libvirt.Client.Journal.{Logged, Orderly}
use cluster_api_provider_hyd.Providers.Libvirt.Orders.{Rules, PathRules, is_free, event}
use cluster_api_provider_hyd.Providers.Libvirt.Orders.Creating.{create-Keeps}

-- The last call found the volume in a pool under one of the machine's two names.
pub data FoundByName (machine : Text) (vol : StorageVol) : List Event → Type 0 where
  by_name :
      (pool : StoragePool) (name : Text) (past : List Event)
      → is_owned machine name ≡ true
      → FoundByName machine vol (event (vol_lookup_by_name pool name) (ok vol) ∷ past)

-- The last call found the volume so, or at a path that ends in one of the two names.
pub data Found (machine : Text) (vol : StorageVol) (past : List Event) : Type 0 where
  named : FoundByName machine vol past → Found machine vol past
  by_path :
      (path : Text) (before : List Event)
      → is_owned machine (base path) ≡ true
      → past ≡ event (vol_lookup_by_path path) (ok vol) ∷ before
      → Found machine vol past

-- The last call read the domain's definition, and no root port of it takes devices at run time.
pub data Quiet (dom : Domain) : List Event → Type 0 where
  read :
      (def : DomainDef) (past : List Event)
      → hotplug_root_ports def.devices.controllers ≡ []
      → Quiet dom (event (domain_get_inactive_xml dom) (ok (some def)) ∷ past)

-- What a call needs of the calls before it, if a deletion needs what `F` says.
abbrev Licensed : (StorageVol → List Event → Type 0) → Call → List Event → Type 0
Licensed F (domain_create dom) past = Quiet dom past
Licensed F (vol_delete vol) past = F vol past
Licensed F c past = Unit

-- While a machine is made, and while one is deleted.
abbrev pub CreateLicence : Text → Call → List Event → Type 0
CreateLicence machine = Licensed (FoundByName machine)

abbrev pub Licence : Text → Call → List Event → Type 0
Licence machine = Licensed (Found machine)

Licensed-free :
    (F : StorageVol → List Event → Type 0) (c : Call) (past : List Event)
    → is_free c ≡ true
    → Licensed F c past
Licensed-free F (domain_create dom) past free = ground arith
Licensed-free F (vol_delete vol) past free = ground arith
Licensed-free F (domain_undefine dom) past free = ground arith
Licensed-free F c past free = tt

named_licences :
    (machine : Text) (F : StorageVol → List Event → Type 0)
    → ((vol : StorageVol) (past : List Event) → FoundByName machine vol past → F vol past)
    → Rules machine (Orderly (Licensed F))
named_licences machine F given = record {
  frees = record { free = λ c r past free kept. (Licensed-free F c past free, kept) };
  start = λ dom def r past quiet kept. (read def past quiet, (tt, kept));
  delete_named =
      λ pool name vol r past own kept. (given vol _ (by_name pool name past own), (tt, kept));
}

pub licences : (machine : Text) → PathRules machine (Orderly (Licence machine))
licences machine = record {
  named = named_licences machine (Found machine) λ vol past. named;
  delete_at = λ path vol r past own kept. (by_path path past own refl, (tt, kept));
}

module _ {H : Type 0} (client : Client H) (config : Config) where
  -- While a machine is made, every start of a domain comes directly after its definition was read with
  -- no root port that takes devices at run time, and every volume that is deleted was directly before
  -- that found in a pool by the name `<machine>.qcow2` or `<machine>-cidata.iso`.
  pub create-Orderly :
      (spec : MachineSpec)
      → Keeps (Logged client (Orderly (CreateLicence spec.name))) (create client config spec)
  create-Orderly spec =
      create-Keeps client config spec
        (named_licences spec.name (FoundByName spec.name) λ vol past found. found)
