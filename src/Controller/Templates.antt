-- ===== src/Controller/Templates.antt =====
-- internal/controller/hydramachinetemplate_controller.go and api/v1alpha1/hydramachinetemplate_types.go:
-- the capacity and the platform of the node that a machine of a template becomes. A quantity is its value
-- and the notation in which it is printed.
pub mod Sizes
pub mod Telling
pub mod Settling
pub mod Advertising
pub mod Watching
mod Examples
use cluster_api_provider_hyd.Base.{
  ℕ, Bool, true, false, not, ◌&&◌, ◌||◌, Option, none, some, List, [], ◌∷◌, ◌==◌, nat_eq, list_eq,
  if◌then◌else◌, Text, text,
}
use cluster_api_provider_hyd.Base.Dict.{Dict, empty, get, put, size, every}
use cluster_api_provider_hyd.Base.Exec.{Result, ok, err, Exec, pure, ◌>>=◌, ◌>>◌}
use cluster_api_provider_hyd.Providers.Errors.{Error}
use cluster_api_provider_hyd.Providers.Identity.{is_empty, NodePlatform}
use cluster_api_provider_hyd.Controller.Objects.{OwnerRef, Cluster, PauseReason, PausedCondition}
use cluster_api_provider_hyd.Controller.World.{Reader, answer}
use cluster_api_provider_hyd.Controller.Linkage.{owner_ref_of_kind, paused_reason}
use cluster_api_provider_hyd.Controller.Status.{says}
use cluster_api_provider_hyd.Controller.Clusters.{cluster_kind, owner_cluster_of}

-- `resource.Format`
pub data Notation : Type 0 where
  decimal_si binary_si decimal_exponent : Notation

pub record Quantity : Type 0 where
  pub value : ℕ
  pub notation : Notation

pub record HydraNodeInfo : Type 0 where
  pub architecture : Text
  pub operating_system : Text

abbrev pub HydraNodeCapacity : Type 0
HydraNodeCapacity = Dict Text Quantity

pub record HydraMachineTemplate : Type 0 where
  pub namespace : Text
  pub name : Text
  pub generation : ℕ
  pub deleting : Bool
  pub owner_references : List OwnerRef
  pub paused_annotation : Bool
  pub vcpus : ℕ
  pub memory : Quantity
  pub disk_size : Quantity
  pub capacity : HydraNodeCapacity
  pub node_info : HydraNodeInfo
  pub paused : Option PausedCondition

-- The status writes, the latest first: whether each failed.
abbrev pub Writes : Type 0
Writes = List (Option Error)

pub record TemplateEnv : Type 0 where
  pub reader : Reader
  pub platform : NodePlatform
  pub write_fails : Writes → Option Error

pub record TemplateWorld : Type 0 where
  pub template : HydraMachineTemplate
  pub stored : HydraMachineTemplate
  pub log : Writes

abbrev pub TemplateAction : Type 0 → Type 0
TemplateAction A = Exec Error TemplateWorld A

abbrev pub cpu : Text
cpu = text "cpu"

abbrev pub memory : Text
memory = text "memory"

abbrev pub ephemeral_storage : Text
ephemeral_storage = text "ephemeral-storage"

unfoldable pub capacity_for : HydraMachineTemplate → HydraNodeCapacity
capacity_for t =
    put (put (put empty cpu (record { value = t.vcpus; notation = decimal_si })) memory t.memory)
      ephemeral_storage t.disk_size

-- `got.Cmp(want) == 0`, where the key is there.
abbrev pub matches : Option Quantity → Quantity → Bool
matches none want = false
matches (some got) want = got.value == want.value

unfoldable pub capacity_equal : HydraNodeCapacity → HydraNodeCapacity → Bool
capacity_equal a b = size a == size b && every (λ name want. matches (get a name) want) b

unfoldable pub node_info_for : NodePlatform → HydraNodeInfo
node_info_for p = record { architecture = p.architecture; operating_system = p.operating_system }

abbrev pub same_node_info : HydraNodeInfo → HydraNodeInfo → Bool
same_node_info a b = a.architecture == b.architecture && a.operating_system == b.operating_system

unfoldable pub paused_by : Option PauseReason → HydraMachineTemplate → HydraMachineTemplate
paused_by signal t = record t {
  paused = some (record { signal = signal; observed_generation = t.generation });
}

unfoldable pub published :
    HydraNodeCapacity → HydraNodeInfo → HydraMachineTemplate → HydraMachineTemplate
published capacity node_info t = record t { capacity = capacity; node_info = node_info }

-- Whether a write would change nothing.
unfoldable pub is_published : NodePlatform → HydraMachineTemplate → Bool
is_published platform t =
    capacity_equal t.capacity (capacity_for t)
    && same_node_info t.node_info (node_info_for platform)

abbrev pub written :
    Option Error → (HydraMachineTemplate → HydraMachineTemplate) → TemplateWorld → TemplateWorld
written none change w = record w { template = change w.template; stored = change w.stored }
written (some e) change w = record w { template = change w.template }

abbrev pub here : TemplateAction HydraMachineTemplate
here w = (ok w.template, w)

abbrev pub returned : {A : Type 0} → Result Error A → TemplateAction A
returned r w = (r, w)

module _ (env : TemplateEnv) where
  unfoldable pub patch_status :
      (HydraMachineTemplate → HydraMachineTemplate) → TemplateAction (Unit {0})
  patch_status change w =
      let fails = env.write_fails w.log in
      (answer fails, record (written fails change w) { log = fails ∷ w.log })

  unfoldable pub set_paused : Option PauseReason → TemplateAction (Unit {0})
  set_paused signal =
      here >>= λ t. if says t.paused signal then pure tt else patch_status (paused_by signal)

  unfoldable pub publish : TemplateAction (Unit {0})
  publish = here >>= λ t.
      if is_published env.platform t
      then pure tt
      else patch_status (published (capacity_for t) (node_info_for env.platform))

  abbrev pub unless_paused : Option PauseReason → TemplateAction (Unit {0})
  unless_paused (some reason) = set_paused (some reason)
  unless_paused none = set_paused none >> publish

  unfoldable pub reconcile : TemplateAction (Unit {0})
  reconcile = here >>= λ t.
      if t.deleting
      then pure tt
      else returned (owner_cluster_of env.reader t.owner_references) >>= λ cluster.
          unless_paused (paused_reason t.paused_annotation cluster)

abbrev owned_by : Cluster → Option OwnerRef → Bool
owned_by cluster none = false
owned_by cluster (some ref) =
    not (not (ref.name == cluster.name) || (not (is_empty ref.uid) && not (ref.uid == cluster.uid)))

-- The templates of the cluster's namespace that an event of the cluster concerns, by name.
unfoldable pub cluster_to_templates : Cluster → List HydraMachineTemplate → List Text
cluster_to_templates cluster [] = []
cluster_to_templates cluster (t ∷ rest) =
    let later = cluster_to_templates cluster rest in
    if owned_by cluster (owner_ref_of_kind t.owner_references cluster_kind)
    then t.name ∷ later
    else later
