-- ===== src/Controller/Templates/Settling.antt =====
-- internal/controller/hydramachinetemplate_controller.go: a status patch is an event of the object that was
-- patched, so a reconcile must come to rest.
use cluster_api_provider_hyd.Base.{
  true, false, Option, none, some, ◌≡◌, refl, ◌∙◌, inl, inr, nat_eq, list_eq, Bool-cases,
}
use cluster_api_provider_hyd.Base.Exec.{Result, ok, err, pure, ◌>>=◌, Post, Post-map}
use cluster_api_provider_hyd.Providers.Errors.{Error}
use cluster_api_provider_hyd.Controller.Objects.{Cluster, PauseReason}
use cluster_api_provider_hyd.Controller.Linkage.{paused_reason}
use cluster_api_provider_hyd.Controller.Clusters.{owner_cluster_of}
use cluster_api_provider_hyd.Controller.Templates.{
  TemplateEnv, TemplateWorld, set_paused, publish, unless_paused, reconcile,
}
use cluster_api_provider_hyd.Controller.Templates.Telling.{
  Fresh, Same, Told, unless_paused-Post, alike, still-Fresh,
}

module _ (env : TemplateEnv) where
  -- Another reconcile does nothing.
  abbrev pub Rests : TemplateWorld → Type 0
  Rests w = Fresh w × (reconcile env w ≡ (ok tt, w))

  idle :
      (signal : Option PauseReason) (w v : TemplateWorld)
      → Told env signal w v
      → unless_paused env signal v ≡ (ok tt, v)
  unfolding set_paused publish ◌>>=◌ pure
  idle (some reason) w v h = rw h.1.1 refl
  idle none w v h = rw (h.0.1.1, h.1) refl

  deleted-idle : (w : TemplateWorld) → w.template.deleting ≡ true → reconcile env w ≡ (ok tt, w)
  unfolding reconcile ◌>>=◌ pure
  deleted-idle w gone = rw gone refl

  pub signalled :
      (w v : TemplateWorld) (cluster : Option Cluster)
      → w.template.deleting ≡ false
      → owner_cluster_of env.reader w.template.owner_references ≡ ok cluster
      → Same v.template w.template
      → reconcile env v ≡ unless_paused env (paused_reason w.template.paused_annotation cluster) v
  unfolding reconcile ◌>>=◌
  signalled w v cluster alive owner (d, o, a) = rw (d, alive, o, owner, a) refl

  failed :
      (w : TemplateWorld) (e : Error)
      → w.template.deleting ≡ false
      → owner_cluster_of env.reader w.template.owner_references ≡ err e
      → reconcile env w ≡ (err e, w)
  unfolding reconcile ◌>>=◌
  failed w e alive owner = rw (alive, owner) refl

  Rests-of :
      (w : TemplateWorld) (cluster : Option Cluster)
      → w.template.deleting ≡ false
      → owner_cluster_of env.reader w.template.owner_references ≡ ok cluster
      → Fresh w
      → Post (λ _. Rests) (λ _. Unit {0}) (reconcile env w)
  Rests-of w cluster alive owner fresh =
      let signal = paused_reason w.template.paused_annotation cluster in
      rw (signalled w w cluster alive owner (refl, refl, refl)) (
        Post-map (λ _. Unit {0}) (unless_paused env signal w)
          (λ _ v told. (
            still-Fresh env signal w v told,
            signalled w v cluster alive owner (alike env signal w v told) ∙ idle signal w v told,
          ))
          (unless_paused-Post env signal w fresh))

  owner_known :
      (w : TemplateWorld) (owner : Result Error (Option Cluster))
      → w.template.deleting ≡ false
      → owner_cluster_of env.reader w.template.owner_references ≡ owner
      → Fresh w
      → Post (λ _. Rests) (λ _. Unit {0}) (reconcile env w)
  owner_known w (ok cluster) alive found fresh = Rests-of w cluster alive found fresh
  owner_known w (err e) alive found fresh = rw (failed w e alive found) tt

  -- A reconcile of a template as it is stored that returns no error leaves the copy as it is stored, and
  -- the next reconcile returns no error and changes nothing: it writes no status.
  pub reconcile-Rests :
      (w : TemplateWorld) → Fresh w → Post (λ _. Rests) (λ _. Unit {0}) (reconcile env w)
  reconcile-Rests w fresh = elim (Bool-cases w.template.deleting) [
    | inl gone ↦ rw (deleted-idle w gone) (fresh, deleted-idle w gone)
    | inr alive ↦
        owner_known w (owner_cluster_of env.reader w.template.owner_references) alive refl fresh
  ]
