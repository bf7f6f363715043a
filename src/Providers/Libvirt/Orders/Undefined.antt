-- ===== src/Providers/Libvirt/Orders/Undefined.antt =====
-- internal/providers/libvirt/libvirt.go: a domain is undefined after its disks are reclaimed.
use cluster_api_provider_hyd.Base.{
  Bool-cases, inl, inr, arith, true, false, Option, none, some, List, [], ◌∷◌, ◌≡◌, refl, Text,
}
use cluster_api_provider_hyd.Base.Exec.{
  Result, ok, err, Exec, pure, raise, ◌>>=◌, Keeps, Keeps-bind, Post, Triple, Triple-bind,
  Triple-kept, Triple-weaken, Post-same,
}
use cluster_api_provider_hyd.Providers.Errors.{Error}
use cluster_api_provider_hyd.Providers.Libvirt.Documents.{DomainDef}
use cluster_api_provider_hyd.Providers.Libvirt.Volumes.{partition_owned_disks, unless_gone}
use cluster_api_provider_hyd.Providers.Libvirt.Deleting.{
  files_of, sources_answered, disk_sources_of, delete_domain,
}
use cluster_api_provider_hyd.Providers.Libvirt.Client.{
  Client, Run, Call, Event, Domain, RpcError, is_not_found, call, noted, domain_get_xml,
  domain_destroy, domain_set_autostart, domain_undefine,
}
use cluster_api_provider_hyd.Providers.Libvirt.Client.Journal.{Logged, Orderly, Post-then}
use cluster_api_provider_hyd.Providers.Libvirt.Orders.{
  PathRules, Grows, PathRules-and, is_free, event,
}
use cluster_api_provider_hyd.Providers.Libvirt.Orders.Domains.{Keeps-free}
use cluster_api_provider_hyd.Providers.Libvirt.Orders.Deleting.{
  partition-AllOwned, unless_stopped-Keeps,
}
use cluster_api_provider_hyd.Providers.Libvirt.Orders.Reclaims.{
  AllReclaimed, tolerate-Post, delete_volumes-Triple,
}

-- The disks that the domain's definition named, or none where the domain was gone.
pub data Disks (dom : Domain) (disks : List Text) : List Event → Type 0 where
  listed :
      (def : DomainDef) (past : List Event)
      → disks ≡ files_of def.devices.disks
      → Disks dom disks (event (domain_get_xml dom) (ok (some def)) ∷ past)
  no_domain :
      (e : RpcError) (past : List Event)
      → is_not_found e ≡ true
      → disks ≡ []
      → Disks dom disks (event (domain_get_xml dom) (err e) ∷ past)
  before : (e : Event) (past : List Event) → Disks dom disks past → Disks dom disks (e ∷ past)

-- Before a domain is undefined, its disks were read and those of the machine reclaimed.
abbrev pub Emptied : Call → List Event → Type 0
Emptied (domain_undefine dom) past =
    (disks : List Text) × Disks dom disks past
    × AllReclaimed (partition_owned_disks dom.name disks).0 past
Emptied c past = Unit

Emptied-free : (c : Call) (past : List Event) → is_free c ≡ true → Emptied c past
Emptied-free (domain_undefine dom) past free = ground arith
Emptied-free c past free = tt

emptied : (machine : Text) → PathRules machine (Orderly Emptied)
emptied machine = record {
  named = record {
    frees = record { free = λ c r past free kept. (Emptied-free c past free, kept) };
    start = λ dom def r past quiet kept. (tt, (tt, kept));
    delete_named = λ pool name vol r past own kept. (tt, (tt, kept));
  };
  delete_at = λ path vol r past own kept. (tt, (tt, kept));
}

Disks-Grows : (dom : Domain) (disks : List Text) → Grows (Disks dom disks)
Disks-Grows dom disks = record { grow = λ e past. Disks.before e past }

module _ {H : Type 0} (client : Client H) (dom : Domain) where
  abbrev Kept : Run H → Type 0
  Kept = Logged client (Orderly Emptied)

  abbrev Listed : List Text → Run H → Type 0
  Listed disks s = Orderly Emptied s.journal × Disks dom disks s.journal

  sources-Post :
      (r : Result RpcError (Option DomainDef)) (h : H) (past : List Event)
      → Orderly Emptied past
      → Post Listed Kept (sources_answered client r (noted (domain_get_xml dom) r h past))
  unfolding pure raise
  sources-Post (ok none) h past kept = (tt, kept)
  sources-Post (ok (some def)) h past kept = ((tt, kept), listed def past refl)
  sources-Post (err e) h past kept = elim (Bool-cases (is_not_found e)) [
    | inl absent ↦ rw absent ((tt, kept), no_domain e past absent refl)
    | inr failed ↦ rw failed (tt, kept)
  ]

  disk_sources_of-Triple : Triple Kept (disk_sources_of client dom) Listed Kept
  unfolding disk_sources_of
  disk_sources_of-Triple = record {
    at = λ s kept.
        Post-then client Listed Kept (domain_get_xml dom) _ s
          λ r h. sources-Post r h s.journal kept;
  }

  unless_gone-Kept :
      (r : Result RpcError Unit) (s : Run H) → Kept s → Post (λ _. Kept) Kept (unless_gone r s)
  unfolding pure
  unless_gone-Kept (ok done) s kept = kept
  unless_gone-Kept (err e) s kept =
      tolerate-Post (λ _. Kept) Kept (is_not_found e) s (λ _. kept) kept

  undefined-Post :
      (disks : List Text) (r : Result RpcError Unit) (g : H) (past : List Event)
      → (Orderly Emptied past × Disks dom disks past)
        × AllReclaimed (partition_owned_disks dom.name disks).0 past
      → Post (λ _. Kept) Kept (unless_gone r (noted (domain_undefine dom) r g past))
  undefined-Post disks r g past h = unless_gone-Kept r _ ((disks, h.0.1, h.1), h.0.0)

  undefine-Triple :
      (disks : List Text)
      → Triple
          (λ s.
            (Orderly Emptied s.journal × Disks dom disks s.journal)
            × AllReclaimed (partition_owned_disks dom.name disks).0 s.journal)
          (call client (domain_undefine dom) >>= unless_gone)
          (λ _. Kept)
          Kept
  undefine-Triple disks = record {
    at = λ s h.
        Post-then client (λ _. Kept) Kept (domain_undefine dom) unless_gone s
          λ r g. undefined-Post disks r g s.journal h;
  }

  -- When a domain is deleted, it is undefined only after libvirt was asked for its disks, and after each of
  -- them whose file has one of the machine's two names was found and deleted, or was gone.
  pub delete_domain-Emptied : Keeps Kept (delete_domain client dom)
  unfolding delete_domain
  delete_domain-Emptied = record {
    at = λ s kept. Post-same Kept (delete_domain client dom s) (whole.at s kept);
  }
    where
      still_Kept :
          (m : Exec Error (Run H) (Unit {0})) → Keeps Kept m → Triple Kept m (λ _. Kept) Kept
      still_Kept m k = Triple-kept m k (λ _ s h. h) λ s h. h

      free : (c : Call) → is_free c ≡ true → Keeps Kept (call client c)
      free c is = Keeps-free client (emptied dom.name).named.frees c is

      whole : Triple Kept (delete_domain client dom) (λ _. Kept) Kept
      whole =
          Triple-bind _ _
            (still_Kept _ (
              Keeps-bind _ _ (free (domain_destroy dom) refl)
                (unless_stopped-Keeps client (emptied dom.name))))
            λ _.
              Triple-bind _ _
                (still_Kept _ (
                  Keeps-bind _ _ (free (domain_set_autostart dom false) refl)
                    (unless_stopped-Keeps client (emptied dom.name))))
                λ _. Triple-bind (disk_sources_of client dom) _ disk_sources_of-Triple λ disks.
                  Triple-bind _ _
                    (Triple-weaken
                      (delete_volumes-Triple client
                        (PathRules-and (emptied dom.name) (Disks-Grows dom disks))
                        (partition_owned_disks dom.name disks).0
                        (partition-AllOwned dom.name disks))
                      λ s h. h.0)
                    λ _. undefine-Triple disks
