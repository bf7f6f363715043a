-- ===== src/Providers/Libvirt/Orders.antt =====
-- internal/providers/libvirt/libvirt.go: in what order the backend makes its calls of libvirtd. A start,
-- the deletion of a volume and that of a domain are looked at with what stands before them.
pub mod Domains
pub mod Volumes
pub mod Networks
pub mod Deleting
pub mod Creating
pub mod Licences
pub mod Deletions
pub mod Reclaims
pub mod Undefined
pub mod Sweeps
pub mod Leftovers
pub mod Drops
pub mod Paths
pub mod Rollback
pub mod Usable
use cluster_api_provider_hyd.Base.{Bool, true, false, Option, none, some, List, [], ◌∷◌, ◌≡◌, Text}
use cluster_api_provider_hyd.Base.Paths.{base}
use cluster_api_provider_hyd.Base.Exec.{Result, ok, err}
use cluster_api_provider_hyd.Providers.Libvirt.Documents.{DomainDef, hotplug_root_ports}
use cluster_api_provider_hyd.Providers.Libvirt.Volumes.{is_owned}
use cluster_api_provider_hyd.Providers.Libvirt.Client.{
  Call, Answer, Event, Domain, StoragePool, StorageVol, RpcError, domain_create, domain_undefine,
  vol_delete, domain_get_inactive_xml, vol_lookup_by_name, vol_lookup_by_path,
}

abbrev pub is_free : Call → Bool
is_free (domain_create dom) = false
is_free (vol_delete vol) = false
is_free (domain_undefine dom) = false
is_free c = true

abbrev pub event : (c : Call) → Result RpcError (Answer c) → Event
event c r = record { call = c; answer = r }

-- What a predicate of the journal has to bear for the backend to keep it, while no domain is started or
-- undefined and no volume deleted.
pub record Frees (P : List Event → Type 0) : Type 0 where
  pub free :
      (c : Call) (r : Result RpcError (Answer c)) (past : List Event)
      → is_free c ≡ true
      → P past
      → P (event c r ∷ past)

-- And while the backend works for a machine.
pub record Rules (machine : Text) (P : List Event → Type 0) : Type 0 where
  pub frees : Frees P
  -- A start comes directly after the domain's definition was read, which has no port for hotplugging.
  pub start :
      (dom : Domain) (def : DomainDef) (r : Result RpcError Unit) (past : List Event)
      → hotplug_root_ports def.devices.controllers ≡ []
      → P past
      → P (event (domain_create dom) r ∷ event (domain_get_inactive_xml dom) (ok (some def)) ∷ past)
  -- A deletion comes directly after the volume was found by one of the machine's two names.
  pub delete_named :
      (pool : StoragePool) (name : Text) (vol : StorageVol) (r : Result RpcError Unit)
      (past : List Event)
      → is_owned machine name ≡ true
      → P past
      → P (event (vol_delete vol) r ∷ event (vol_lookup_by_name pool name) (ok vol) ∷ past)

-- And while it deletes one: a volume may also be found at a path that ends in one of the two names.
pub record PathRules (machine : Text) (P : List Event → Type 0) : Type 0 where
  pub named : Rules machine P
  pub delete_at :
      (path : Text) (vol : StorageVol) (r : Result RpcError Unit) (past : List Event)
      → is_owned machine (base path) ≡ true
      → P past
      → P (event (vol_delete vol) r ∷ event (vol_lookup_by_path path) (ok vol) ∷ past)

-- What no further call takes away.
pub record Grows (N : List Event → Type 0) : Type 0 where
  pub grow : (e : Event) (past : List Event) → N past → N (e ∷ past)

pub PathRules-and :
    {machine : Text} {P N : List Event → Type 0}
    → PathRules machine P
    → Grows N
    → PathRules machine (λ past. P past × N past)
PathRules-and rules grows =
    let named = rules.named in
    record {
      named = record {
        frees = record {
          free =
              λ c r past is kept. (named.frees.free c r past is kept.0, grows.grow _ past kept.1);
        };
        start = λ dom def r past quiet kept.
            (named.start dom def r past quiet kept.0, grows.grow _ _ (grows.grow _ past kept.1));
        delete_named = λ pool name vol r past own kept. (
          named.delete_named pool name vol r past own kept.0,
          grows.grow _ _ (grows.grow _ past kept.1),
        );
      };
      delete_at = λ path vol r past own kept.
          (rules.delete_at path vol r past own kept.0, grows.grow _ _ (grows.grow _ past kept.1));
    }

pub PathRules-of_Grows : {machine : Text} {N : List Event → Type 0} → Grows N → PathRules machine N
PathRules-of_Grows grows = record {
  named = record {
    frees = record { free = λ c r past is kept. grows.grow _ past kept };
    start = λ dom def r past quiet kept. grows.grow _ _ (grows.grow _ past kept);
    delete_named = λ pool name vol r past own kept. grows.grow _ _ (grows.grow _ past kept);
  };
  delete_at = λ path vol r past own kept. grows.grow _ _ (grows.grow _ past kept);
}
