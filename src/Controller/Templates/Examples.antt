-- ===== src/Controller/Templates/Examples.antt =====
-- internal/controller/hydramachinetemplate_controller.go: a template of a cluster is published.
use cluster_api_provider_hyd.Base.{
  true, false, none, some, [], ◌∷◌, ◌≡◌, refl, ◌↔◌, nat_eq, list_eq, Text, text, contains, ◌==◌,
  if◌then◌else◌, if_cases, arith, sym, ap, ◌∙◌,
}
use cluster_api_provider_hyd.Base.Dict.{empty, get, put, size, every}
use cluster_api_provider_hyd.Base.Exec.{Result, ok, err, Post, pure, ◌>>=◌}
use cluster_api_provider_hyd.Providers.Errors.{Error, not_found}
use cluster_api_provider_hyd.Providers.Identity.{cut_slash}
use cluster_api_provider_hyd.Controller.Objects.{OwnerRef, Cluster}
use cluster_api_provider_hyd.Controller.Linkage.{owner_ref_of_kind, paused_reason}
use cluster_api_provider_hyd.Controller.Status.{says}
use cluster_api_provider_hyd.Controller.Clusters.{owner_cluster_of}
use cluster_api_provider_hyd.Controller.Templates.{
  HydraMachineTemplate, TemplateEnv, TemplateWorld, binary_si, capacity_for, capacity_equal,
  is_published, patch_status, set_paused, publish, reconcile, cluster_to_templates,
}
use cluster_api_provider_hyd.Controller.Templates.Settling.{Rests, reconcile-Rests}
use cluster_api_provider_hyd.Controller.Templates.Advertising.{Advertised, reconcile-Advertised}
use cluster_api_provider_hyd.Controller.Templates.Watching.{Owns, cluster_to_templates_iff}

abbrev prod : Cluster
prod = record {
  namespace = text "default";
  name = text "prod";
  uid = text "1";
  infra_ref = record { kind = text "HydraCluster"; api_group = []; name = text "lab" };
  paused = false;
  paused_annotation = false;
  infrastructure_provisioned = false;
  endpoint = record { host = []; port = 0 };
}

abbrev answer_for : Text → Result Error Cluster
answer_for name = if name == text "prod" then ok prod else err not_found

abbrev env : TemplateEnv
env = record {
  reader = record {
    get_machine = λ name. err not_found;
    get_cluster = answer_for;
    get_hydra_cluster = λ name. err not_found;
    get_secret = λ name. err not_found;
  };
  platform = record { architecture = text "amd64"; operating_system = text "linux" };
  write_fails = λ log. none;
}

abbrev owner : OwnerRef
owner = record {
  kind = text "Cluster";
  api_version = text "cluster.x-k8s.io/v1beta2";
  name = text "prod";
  uid = text "1";
}

abbrev small : HydraMachineTemplate
small = record {
  namespace = text "default";
  name = text "small";
  generation = 1;
  deleting = false;
  owner_references = owner ∷ [];
  paused_annotation = false;
  vcpus = 2;
  memory = record { value = 4096; notation = binary_si };
  disk_size = record { value = 40960; notation = binary_si };
  capacity = empty;
  node_info = record { architecture = []; operating_system = [] };
  paused = none;
}

abbrev start : TemplateWorld
start = record { template = small; stored = small; log = [] }

-- Nothing pauses the template, so the one write is that of the capacity.
one_write : (reconcile env start).1.log ≡ none ∷ []
unfolding reconcile set_paused publish patch_status says paused_reason owner_cluster_of
    owner_ref_of_kind cut_slash is_published capacity_equal ◌>>=◌ pure size every get empty
    capacity_for put
one_write = refl

answered : (name : Text) (c : Cluster) → answer_for name ≡ ok c → c.name ≡ name
answered name c =
    if_cases (λ r. r ≡ ok c → c.name ≡ name) (name == text "prod")
      (λ hit h.
        sym (ap (λ (d : Cluster). d.name) {x = prod} {y = c} (ground (arith, h)))
        ∙ sym ((list_eq.beq_iff name (text "prod")).0 hit))
      λ _ h. ground (arith, h)

owner_found : owner_cluster_of env.reader small.owner_references ≡ ok (some prod)
unfolding owner_cluster_of owner_ref_of_kind cut_slash
owner_found = refl

not_paused : paused_reason false (some prod) ≡ none
unfolding paused_reason
not_paused = refl

reconcile-Rests_example : Post (λ _. Rests env) (λ _. Unit {0}) (reconcile env start)
reconcile-Rests_example = reconcile-Rests env start refl

reconcile-Advertised_example :
    Post (λ _ v. Advertised env v.stored) (λ _. Unit {0}) (reconcile env start)
reconcile-Advertised_example =
    reconcile-Advertised env start (some prod) refl refl owner_found not_paused

cluster_to_templates_iff_example :
    (contains (text "small") (cluster_to_templates prod (small ∷ [])) ≡ true)
    ↔ Owns env.reader prod (text "small") (small ∷ [])
cluster_to_templates_iff_example =
    cluster_to_templates_iff env.reader prod refl answered (small ∷ []) (text "small")
