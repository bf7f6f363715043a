-- ===== src/Providers/Libvirt/Orders/Reclaims.antt =====
-- internal/providers/libvirt/libvirt.go: what deleting a list of volumes reclaims.
use cluster_api_provider_hyd.Base.{Bool, true, false, not, List, [], ◌∷◌, ◌≡◌, refl, Text}
use cluster_api_provider_hyd.Base.Paths.{base}
use cluster_api_provider_hyd.Base.Exec.{
  Result, ok, err, pure, raise, ◌>>=◌, Post, Triple, Triple-bind, Triple-kept, Triple-raise,
  Triple-if,
}
use cluster_api_provider_hyd.Providers.Errors.{Error, other}
use cluster_api_provider_hyd.Providers.Libvirt.Volumes.{
  is_owned, unless_gone, tolerate, delete_looked_up,
}
use cluster_api_provider_hyd.Providers.Libvirt.Deleting.{
  delete_at, delete_missed, delete_volume_by_path, delete_volumes, confirm_reclaimed,
}
use cluster_api_provider_hyd.Providers.Libvirt.Client.{
  Client, Run, Event, StorageVol, RpcError, is_not_found, call, noted, vol_lookup_by_path,
  vol_delete,
}
use cluster_api_provider_hyd.Providers.Libvirt.Client.Journal.{Logged, Post-then}
use cluster_api_provider_hyd.Providers.Libvirt.Orders.{PathRules, Grows, PathRules-and, event}
use cluster_api_provider_hyd.Providers.Libvirt.Orders.Deleting.{AllOwned, confirm_reclaimed-Keeps}

-- The volume at the path was deleted, was gone when it was to be deleted, or was not found.
pub data Reclaimed (path : Text) : List Event → Type 0 where
  deleted :
      (vol : StorageVol) (past : List Event)
      → Reclaimed path
          (event (vol_delete vol) (ok tt) ∷ event (vol_lookup_by_path path) (ok vol) ∷ past)
  gone :
      (vol : StorageVol) (e : RpcError) (past : List Event)
      → is_not_found e ≡ true
      → Reclaimed path
          (event (vol_delete vol) (err e) ∷ event (vol_lookup_by_path path) (ok vol) ∷ past)
  missing :
      (e : RpcError) (past : List Event)
      → is_not_found e ≡ true
      → Reclaimed path (event (vol_lookup_by_path path) (err e) ∷ past)
  before : (e : Event) (past : List Event) → Reclaimed path past → Reclaimed path (e ∷ past)

abbrev pub AllReclaimed : List Text → List Event → Type 0
AllReclaimed [] past = Unit
AllReclaimed (path ∷ paths) past = Reclaimed path past × AllReclaimed paths past

Reclaimed-Grows : (path : Text) → Grows (Reclaimed path)
Reclaimed-Grows path = record { grow = λ e past. Reclaimed.before e past }

pub tolerate-Post :
    {H : Type 0} (Q : Unit {0} → Run H → Type 0) (R : Run H → Type 0) (fine : Bool) (s : Run H)
    → (fine ≡ true → Q tt s)
    → R s
    → Post Q R (tolerate fine s)
unfolding pure raise
tolerate-Post Q R true s good bad = good refl
tolerate-Post Q R false s good bad = bad

module _ {H : Type 0} (client : Client H) {machine : Text} {P : List Event → Type 0}
    (rules : PathRules machine P) (path : Text) (mine : is_owned machine (base path) ≡ true) where
  abbrev Done : Unit {0} → Run H → Type 0
  Done done s = P s.journal × Reclaimed path s.journal

  unless_gone-Post :
      (vol : StorageVol) (past : List Event) (r : Result RpcError Unit) (g : H)
      → P past
      → Post Done (Logged client P) (
          unless_gone r
            (noted (vol_delete vol) r g (event (vol_lookup_by_path path) (ok vol) ∷ past)))
  unfolding pure
  unless_gone-Post vol past (ok done) g kept =
      (rules.delete_at path vol (ok done) past mine kept, deleted vol past)
  unless_gone-Post vol past (err e) g kept =
      let now = rules.delete_at path vol (err e) past mine kept in
      tolerate-Post Done (Logged client P) (is_not_found e) _
        (λ absent. (now, gone vol e past absent)) now

  deletion-Post :
      (vol : StorageVol) (h : H) (past : List Event)
      → P past
      → Post Done (Logged client P) (
          (call client (vol_delete vol) >>= unless_gone)
            (noted (vol_lookup_by_path path) (ok vol) h past))
  deletion-Post vol h past kept =
      Post-then client Done (Logged client P) (vol_delete vol) unless_gone _
        λ r g. unless_gone-Post vol past r g kept

  again-Post :
      (r : Result RpcError StorageVol) (h : H) (past : List Event)
      → P past
      → Post Done
          (Logged client P)
          (delete_looked_up client r (noted (vol_lookup_by_path path) r h past))
  again-Post (ok vol) h past kept = deletion-Post vol h past kept
  again-Post (err e) h past kept =
      let now = rules.named.frees.free (vol_lookup_by_path path) (err e) past refl kept in
      tolerate-Post Done (Logged client P) (is_not_found e) _
        (λ absent. (now, missing e past absent)) now

  again-Triple :
      Triple
        (Logged client P)
        (call client (vol_lookup_by_path path) >>= delete_looked_up client)
        Done
        (Logged client P)
  again-Triple = record {
    at = λ s kept.
        Post-then client Done (Logged client P) (vol_lookup_by_path path) (delete_looked_up client)
          s λ r h. again-Post r h s.journal kept;
  }

  missed-Triple :
      (e : RpcError) → Triple (Logged client P) (delete_missed client path e) Done (Logged client P)
  missed-Triple e =
      Triple-if (not (is_not_found e)) (λ _. Triple-raise other λ s kept. kept)
        λ _.
          Triple-bind (confirm_reclaimed client path) _
            (Triple-kept (confirm_reclaimed client path) (confirm_reclaimed-Keeps client rules path)
              (λ _ s kept. kept) λ s kept. kept)
            λ _. again-Triple

  delete_at-Post :
      (r : Result RpcError StorageVol) (h : H) (past : List Event)
      → P past
      → Post Done
          (Logged client P)
          (delete_at client path r (noted (vol_lookup_by_path path) r h past))
  delete_at-Post (ok vol) h past kept = deletion-Post vol h past kept
  delete_at-Post (err e) h past kept =
      (missed-Triple e).at _
        (rules.named.frees.free (vol_lookup_by_path path) (err e) past refl kept)

  delete_volume_by_path-Triple :
      Triple (Logged client P) (delete_volume_by_path client path) Done (Logged client P)
  unfolding delete_volume_by_path
  delete_volume_by_path-Triple = record {
    at = λ s kept.
        Post-then client Done (Logged client P) (vol_lookup_by_path path) (delete_at client path) s
          λ r h. delete_at-Post r h s.journal kept;
  }

module _ {H : Type 0} (client : Client H) {machine : Text} where
  pub delete_volumes-Triple :
      {P : List Event → Type 0} (rules : PathRules machine P) (paths : List Text)
      → AllOwned machine paths
      → Triple
          (Logged client P)
          (delete_volumes client paths)
          (λ _ s. P s.journal × AllReclaimed paths s.journal)
          (Logged client P)
  unfolding delete_volumes pure
  delete_volumes-Triple rules [] mine = record { at = λ s kept. (kept, tt) }
  delete_volumes-Triple {P} rules (path ∷ paths) mine =
      let both = PathRules-and rules (Reclaimed-Grows path) in
      Triple-bind (delete_volume_by_path client path) _
        (delete_volume_by_path-Triple client rules path mine.0)
        λ _. record {
          at = λ s kept.
              Post-both (delete_volumes client paths s)
                ((delete_volumes-Triple both paths mine.1).at s kept);
        }
    where
      Post-both :
          (r : Result Error (Unit {0}) × Run H)
          → Post
              (λ _ s. (P s.journal × Reclaimed path s.journal) × AllReclaimed paths s.journal)
              (λ s. P s.journal × Reclaimed path s.journal)
              r
          → Post (λ _ s. P s.journal × AllReclaimed (path ∷ paths) s.journal) (Logged client P) r
      Post-both (ok done, s) h = (h.0.0, (h.0.1, h.1))
      Post-both (err e, s) h = h.0
