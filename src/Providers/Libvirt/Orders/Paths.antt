-- ===== src/Providers/Libvirt/Orders/Paths.antt =====
-- internal/providers/libvirt/libvirt.go: the volumes' paths and the networks that a domain is defined with.
use cluster_api_provider_hyd.Base.{
  Option, none, some, List, [], ◌∷◌, ◌++◌, ◌≡◌, refl, Text, true, false,
}
use cluster_api_provider_hyd.Base.Exec.{
  Result, ok, err, pure, raise, Post, Post-map, Triple, Triple-bind, Triple-if, Triple-kept,
}
use cluster_api_provider_hyd.Providers.Identity.{is_empty, ManagedNetwork, MachineSpec}
use cluster_api_provider_hyd.Providers.Libvirt.Volumes.{Config, volume_path}
use cluster_api_provider_hyd.Providers.Libvirt.Networks.{resolve_network}
use cluster_api_provider_hyd.Providers.Libvirt.Creating.{cidata_path_of, networked}
use cluster_api_provider_hyd.Providers.Libvirt.Client.{
  Client, Call, Answer, Event, StoragePool, StorageVol, RpcError, noted, ask, or_other,
  vol_lookup_by_name, vol_get_path,
}
use cluster_api_provider_hyd.Providers.Libvirt.Client.Journal.{Logged, Post-then}
use cluster_api_provider_hyd.Providers.Libvirt.Orders.{Frees, is_free, event}
use cluster_api_provider_hyd.Providers.Libvirt.Orders.Networks.{attachable_network-Keeps}

-- Since `start`, no volume was deleted, and no domain started or undefined.
pub data Untouched (start : List Event) : List Event → Type 0 where
  here : Untouched start start
  more :
      (c : Call) (r : Result RpcError (Answer c)) (past : List Event)
      → is_free c ≡ true
      → Untouched start past
      → Untouched start (event c r ∷ past)

-- And libvirt was asked for the path of the volume.
pub data HasPath (start : List Event) (pool : StoragePool) (name path : Text)
    : List Event → Type 0 where
  read :
      (vol : StorageVol) (past : List Event)
      → Untouched start past
      → HasPath start pool name path (
          event (vol_get_path vol) (ok path) ∷ event (vol_lookup_by_name pool name) (ok vol) ∷ past)
  before :
      (e : Event) (past : List Event)
      → HasPath start pool name path past
      → HasPath start pool name path (e ∷ past)

-- The path of the volume with the bootstrap data, which is empty where there is none.
pub data CidataPath (start : List Event) (pool : StoragePool) (cidata path : Text)
    (past : List Event) : Type 0 where
  without : is_empty cidata ≡ true → path ≡ [] → CidataPath start pool cidata path past
  with_data :
      is_empty cidata ≡ false
      → HasPath start pool cidata path past
      → CidataPath start pool cidata path past

-- The last call found the volume.
data FoundAt (P : List Event → Type 0) (pool : StoragePool) (name : Text) (vol : StorageVol)
    : List Event → Type 0 where
  looked :
      (past : List Event)
      → P past
      → FoundAt P pool name vol (event (vol_lookup_by_name pool name) (ok vol) ∷ past)

pub CidataPath-grows :
    (start : List Event) (pool : StoragePool) (cidata path : Text) (e : Event) (past : List Event)
    → CidataPath start pool cidata path past
    → CidataPath start pool cidata path (e ∷ past)
CidataPath-grows start pool cidata path e past (without absent is) = without absent is
CidataPath-grows start pool cidata path e past (with_data present asked) =
    with_data present (before e past asked)

module _ {H : Type 0} (client : Client H) where
  pub Triple-ask :
      (P : List Event → Type 0) (c : Call) (Q : Answer c → List Event → Type 0)
      (R : List Event → Type 0)
      → ((a : Answer c) (past : List Event) → P past → Q a (event c (ok a) ∷ past))
      → ((e : RpcError) (past : List Event) → P past → R (event c (err e) ∷ past))
      → Triple (Logged client P) (ask client c) (λ a. Logged client (Q a)) (Logged client R)
  unfolding pure raise
  Triple-ask P c Q R good bad = record {
    at = λ s h.
        Post-then client (λ a. Logged client (Q a)) (Logged client R) c (or_other client) s
          λ r g. answer r g s.journal h;
  }
    where
      answer :
          (r : Result RpcError (Answer c)) (g : H) (past : List Event)
          → P past
          → Post (λ a. Logged client (Q a)) (Logged client R) (or_other client r (noted c r g past))
      answer (ok a) g past h = good a past h
      answer (err e) g past h = bad e past h

module _ (start : List Event) where
  -- What holds of the calls so far, besides.
  pub record Carried (P : List Event → Type 0) : Type 0 where
    pub frees : Frees P
    pub since : (past : List Event) → P past → Untouched start past

  pub untouched-Carried : Carried (Untouched start)
  untouched-Carried = record {
    frees = record { free = λ c r past is kept. more c r past is kept };
    since = λ past kept. kept;
  }

  pub path-Carried :
      {P : List Event → Type 0} (pool : StoragePool) (name path : Text)
      → Carried P
      → Carried (λ past. P past × HasPath start pool name path past)
  path-Carried pool name path carried = record {
    frees = record {
      free = λ c r past is kept. (carried.frees.free c r past is kept.0, before _ past kept.1);
    };
    since = λ past kept. carried.since past kept.0;
  }

module _ {H : Type 0} (client : Client H) (start : List Event) where
  pub volume_path-Triple :
      {P : List Event → Type 0} (carried : Carried start P) (pool : StoragePool) (name : Text)
      → Triple
          (Logged client P)
          (volume_path client pool name)
          (λ path. Logged client (λ past. P past × HasPath start pool name path past))
          (Logged client P)
  unfolding volume_path
  volume_path-Triple {P} carried pool name =
      let frees = carried.frees in
      Triple-bind (ask client (vol_lookup_by_name pool name)) _
        (Triple-ask client P (vol_lookup_by_name pool name) (FoundAt P pool name) P
          (λ vol past h. looked past h) λ e past h. frees.free _ (err e) past refl h)
        λ vol.
          Triple-ask client (FoundAt P pool name vol) (vol_get_path vol) _ P (got vol)
            λ e past h. frees.free _ (err e) past refl (known vol past h)
    where
      known : (vol : StorageVol) (past : List Event) → FoundAt P pool name vol past → P past
      known vol past (looked rest h) = carried.frees.free _ (ok vol) rest refl h

      got :
          (vol : StorageVol) (path : Text) (past : List Event)
          → FoundAt P pool name vol past
          → P (event (vol_get_path vol) (ok path) ∷ past)
            × HasPath start pool name path (event (vol_get_path vol) (ok path) ∷ past)
      got vol path past (looked rest h) = (
        carried.frees.free _ (ok path) _ refl (known vol _ (looked rest h)),
        read vol rest (carried.since rest h),
      )

  pub cidata_path_of-Triple :
      {P : List Event → Type 0} (config : Config) (carried : Carried start P) (pool : StoragePool)
      (cidata : Text)
      → Triple
          (Logged client P)
          (cidata_path_of client config pool cidata)
          (λ path. Logged client (λ past. P past × CidataPath start pool cidata path past))
          (Logged client P)
  unfolding pure
  cidata_path_of-Triple {P} config carried pool cidata =
      Triple-if (is_empty cidata) (λ absent. record { at = λ s h. (h, without absent refl) })
        λ present. record {
          at = λ s h.
              Post-map (Logged client P) (volume_path client pool cidata s)
                (λ path t g. (g.0, with_data present g.1))
                ((volume_path-Triple carried pool cidata).at s h);
        }

  -- The networks of the machine, and that of its cluster.
  abbrev Wired : MachineSpec → MachineSpec → Type 0
  Wired spec wired = (networks : List Text) × (wired ≡ record spec { networks = networks })

  pub networked-Triple :
      {P : List Event → Type 0} (config : Config) (frees : Frees P) (spec : MachineSpec)
      (o : Option ManagedNetwork)
      → Triple
          (Logged client P)
          (networked client config spec o)
          (λ wired s. P s.journal × Wired spec wired)
          (Logged client P)
  unfolding pure
  networked-Triple config frees spec none = record { at = λ s h. (h, (spec.networks, refl)) }
  networked-Triple config frees spec (some managed) =
      Triple-bind (resolve_network client managed) _
        (Triple-kept (resolve_network client managed)
          (attachable_network-Keeps client frees managed false) (λ _ s h. h) λ s h. h)
        λ bridge. record { at = λ s h. (h, (spec.networks ++ bridge ∷ [], refl)) }
