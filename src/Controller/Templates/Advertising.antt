-- ===== src/Controller/Templates/Advertising.antt =====
-- internal/controller/hydramachinetemplate_controller.go: what the stored status says of the node.
use cluster_api_provider_hyd.Base.{
  true, false, Option, none, some, ◌≡◌, refl, subst, ◌∙◌, nat_eq, list_eq, arith,
}
use cluster_api_provider_hyd.Base.Exec.{ok, Post, Post-map}
use cluster_api_provider_hyd.Controller.Objects.{Cluster}
use cluster_api_provider_hyd.Controller.Linkage.{paused_reason}
use cluster_api_provider_hyd.Controller.Clusters.{owner_cluster_of}
use cluster_api_provider_hyd.Controller.Templates.{
  HydraMachineTemplate, TemplateEnv, TemplateWorld, capacity_for, node_info_for, is_published, cpu,
  memory, ephemeral_storage, unless_paused, reconcile,
}
use cluster_api_provider_hyd.Controller.Templates.Sizes.{amount, capacity_equal_iff}
use cluster_api_provider_hyd.Base.Dict.{get, get-put}
use cluster_api_provider_hyd.Controller.Templates.Telling.{Fresh, unless_paused-Post}
use cluster_api_provider_hyd.Controller.Templates.Settling.{signalled}

capacity_for-cpu : (t : HydraMachineTemplate) → amount (get (capacity_for t) cpu) ≡ some t.vcpus
unfolding capacity_for
capacity_for-cpu t = rw (get-put, get-put, get-put) refl

capacity_for-memory :
    (t : HydraMachineTemplate) → amount (get (capacity_for t) memory) ≡ some t.memory.value
unfolding capacity_for
capacity_for-memory t = rw (get-put, get-put) refl

capacity_for-storage :
    (t : HydraMachineTemplate)
    → amount (get (capacity_for t) ephemeral_storage) ≡ some t.disk_size.value
unfolding capacity_for
capacity_for-storage t = rw get-put refl

module _ (env : TemplateEnv) where
  -- What the stored status says of the node that a machine of the template becomes.
  pub record Advertised (t : HydraMachineTemplate) : Type 0 where
    pub cpus : amount (get t.capacity cpu) ≡ some t.vcpus
    pub memory_size : amount (get t.capacity memory) ≡ some t.memory.value
    pub storage : amount (get t.capacity ephemeral_storage) ≡ some t.disk_size.value
    pub architecture : t.node_info.architecture ≡ env.platform.architecture
    pub operating_system : t.node_info.operating_system ≡ env.platform.operating_system

  Advertised-of : (t : HydraMachineTemplate) → is_published env.platform t ≡ true → Advertised t
  unfolding is_published node_info_for
  Advertised-of t done =
      let same = (capacity_equal_iff t.capacity (capacity_for t)).0 (ground (arith, done)) in
      record {
        cpus = same cpu ∙ capacity_for-cpu t;
        memory_size = same memory ∙ capacity_for-memory t;
        storage = same ephemeral_storage ∙ capacity_for-storage t;
        architecture =
            (list_eq.beq_iff t.node_info.architecture env.platform.architecture).0
              (ground (arith, done));
        operating_system =
            (list_eq.beq_iff t.node_info.operating_system env.platform.operating_system).0
              (ground (arith, done));
      }

  -- A reconcile that returns no error, of a template as it is stored that is neither being deleted nor
  -- paused, leaves a stored status that gives the sizes of the template's machines and the backend's
  -- platform.
  pub reconcile-Advertised :
      (w : TemplateWorld) (cluster : Option Cluster)
      → Fresh w
      → w.template.deleting ≡ false
      → owner_cluster_of env.reader w.template.owner_references ≡ ok cluster
      → paused_reason w.template.paused_annotation cluster ≡ none
      → Post (λ _ v. Advertised v.stored) (λ _. Unit {0}) (reconcile env w)
  reconcile-Advertised w cluster fresh alive owner active =
      rw (signalled env w w cluster alive owner (refl, refl, refl), active)
        (Post-map (λ _. Unit {0}) (unless_paused env none w)
          (λ _ v told. subst Advertised told.0.0 (Advertised-of v.template told.1))
          (unless_paused-Post env none w fresh))
