-- ===== src/Controller/Templates/Telling.antt =====
-- internal/controller/hydramachinetemplate_controller.go: what a reconcile has told when it returns no error:
-- the pause signals, and the node unless one of them pauses.
use cluster_api_provider_hyd.Base.{
  true, Option, none, some, ◌∷◌, ◌≡◌, refl, ap, ◌∙◌, inl, inr, nat_eq, list_eq, arith, Bool-cases,
  ==_refl,
}
use cluster_api_provider_hyd.Base.Exec.{pure, ◌>>=◌, Post, Post-map, Post-continue}
use cluster_api_provider_hyd.Providers.Errors.{Error}
use cluster_api_provider_hyd.Providers.Identity.{NodePlatform}
use cluster_api_provider_hyd.Controller.Objects.{PauseReason}
use cluster_api_provider_hyd.Controller.World.{answer}
use cluster_api_provider_hyd.Controller.Status.{says, says_own}
use cluster_api_provider_hyd.Controller.Templates.{
  HydraMachineTemplate, TemplateEnv, TemplateWorld, capacity_for, node_info_for, paused_by,
  published, is_published, written, patch_status, set_paused, publish, unless_paused,
}
use cluster_api_provider_hyd.Controller.Templates.Sizes.{capacity_equal_iff}

published-is_published :
    (platform : NodePlatform) (t : HydraMachineTemplate)
    → is_published platform (published (capacity_for t) (node_info_for platform) t) ≡ true
unfolding is_published published node_info_for capacity_for
published-is_published platform t = ground (
  arith,
  (capacity_equal_iff (capacity_for t) (capacity_for t)).1 (λ name. refl),
  ==_refl platform.architecture,
  ==_refl platform.operating_system,
)

paused_by-says :
    (signal : Option PauseReason) (t : HydraMachineTemplate)
    → says (paused_by signal t).paused signal ≡ true
unfolding paused_by
paused_by-says signal t = says_own (record { signal = signal; observed_generation = t.generation })

-- The copy is the template as it is stored.
abbrev pub Fresh : TemplateWorld → Type 0
Fresh w = w.template ≡ w.stored

-- What decides whether a template is reconciled, and the node that its machines become.
abbrev pub Same : HydraMachineTemplate → HydraMachineTemplate → Type 0
Same t u =
    (t.deleting ≡ u.deleting)
    × (t.owner_references ≡ u.owner_references)
    × (t.paused_annotation ≡ u.paused_annotation)

abbrev pub Paused : TemplateWorld → Option PauseReason → TemplateWorld → Type 0
Paused w signal v = Fresh v × (Same v.template w.template × (says v.template.paused signal ≡ true))

Paused-of :
    (w : TemplateWorld) (signal : Option PauseReason) (v : TemplateWorld)
    → (v.template ≡ paused_by signal w.template) × Fresh v
    → Paused w signal v
unfolding paused_by
Paused-of w signal v (changed, fresh) = (
  fresh,
  (
    (
      ap (λ t. t.deleting) changed,
      ap (λ t. t.owner_references) changed,
      ap (λ t. t.paused_annotation) changed,
    ),
    rw changed (paused_by-says signal w.template),
  ),
)

module _ (env : TemplateEnv) where
  patch_status-Post :
      (change : HydraMachineTemplate → HydraMachineTemplate) (w : TemplateWorld)
      → Fresh w
      → Post
          (λ _ v. (v.template ≡ change w.template) × Fresh v)
          (λ _. Unit {0})
          (patch_status env change w)
  unfolding patch_status
  patch_status-Post change w fresh = answered (env.write_fails w.log)
    where
      answered :
          (fails : Option Error)
          → Post
              (λ _ v. (v.template ≡ change w.template) × Fresh v)
              (λ _. Unit {0})
              (answer fails, record (written fails change w) { log = fails ∷ w.log })
      answered none = (refl, ap change fresh)
      answered (some e) = tt

  set_paused-Post :
      (signal : Option PauseReason) (w : TemplateWorld)
      → Fresh w
      → Post (λ _. Paused w signal) (λ _. Unit {0}) (set_paused env signal w)
  unfolding set_paused ◌>>=◌ pure
  set_paused-Post signal w fresh = elim (Bool-cases (says w.template.paused signal)) [
    | inl said ↦ rw said (fresh, ((refl, refl, refl), said))
    | inr new ↦ rw new (
        Post-map (λ _. Unit {0}) (patch_status env (paused_by signal) w)
          (λ _ v h. Paused-of w signal v h) (patch_status-Post (paused_by signal) w fresh))
  ]

  abbrev pub Published : TemplateWorld → TemplateWorld → Type 0
  Published w v = Paused w none v × (is_published env.platform v.template ≡ true)

  Published-of :
      (w v u : TemplateWorld)
      → Paused w none v
      → (u.template ≡ published (capacity_for v.template) (node_info_for env.platform) v.template)
        × Fresh u
      → Published w u
  unfolding published
  Published-of w v u (_, ((d, o, a), said)) (changed, fresh) = (
    (
      fresh,
      (
        (
          ap (λ t. t.deleting) changed ∙ d,
          ap (λ t. t.owner_references) changed ∙ o,
          ap (λ t. t.paused_annotation) changed ∙ a,
        ),
        rw changed said,
      ),
    ),
    rw changed (published-is_published env.platform v.template),
  )

  publish-Post :
      (w v : TemplateWorld)
      → Paused w none v
      → Post (λ _. Published w) (λ _. Unit {0}) (publish env v)
  unfolding publish ◌>>=◌ pure
  publish-Post w v h = elim (Bool-cases (is_published env.platform v.template)) [
    | inl done ↦ rw done (h, done)
    | inr new ↦
        let change = published (capacity_for v.template) (node_info_for env.platform) in
        rw new (
          Post-map (λ _. Unit {0}) (patch_status env change v) (λ _ u g. Published-of w v u h g)
            (patch_status-Post change v h.0))
  ]

  -- Where the signals are told, and the node published unless one pauses, nothing is left to do.
  abbrev pub Told : Option PauseReason → TemplateWorld → TemplateWorld → Type 0
  Told (some reason) w v = Paused w (some reason) v
  Told none w v = Published w v

  pub unless_paused-Post :
      (signal : Option PauseReason) (w : TemplateWorld)
      → Fresh w
      → Post (λ _. Told signal w) (λ _. Unit {0}) (unless_paused env signal w)
  unfolding ◌>>=◌
  unless_paused-Post (some reason) w fresh = set_paused-Post (some reason) w fresh
  unless_paused-Post none w fresh =
      Post-continue {Q = λ _. Paused w none} (set_paused env none w) (λ _. publish env)
        (λ _. record { at = λ v h. publish-Post w v h }) (set_paused-Post none w fresh)

  pub alike :
      (signal : Option PauseReason) (w v : TemplateWorld)
      → Told signal w v
      → Same v.template w.template
  alike (some reason) w v h = h.1.0
  alike none w v h = h.0.1.0

  pub still-Fresh : (signal : Option PauseReason) (w v : TemplateWorld) → Told signal w v → Fresh v
  still-Fresh (some reason) w v h = h.0
  still-Fresh none w v h = h.0.0
