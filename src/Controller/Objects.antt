-- ===== src/Controller/Objects.antt =====
-- The Kubernetes objects that internal/controller reads and writes (api/v1alpha1 and Cluster API's
-- types), as far as it does. An optional string, label or annotation whose absence reads as "" is a
-- text; an annotation of which only the presence counts is a Bool, and so is an optional boolean that
-- is false when absent. A condition keeps no message and no transition time.
use cluster_api_provider_hyd.Base.{ℕ, Bool, Option, List, Text}
use cluster_api_provider_hyd.Providers.Errors.{Wait}
use cluster_api_provider_hyd.Providers.Identity.{Address, Image, ManagedNetwork}

pub record OwnerRef : Type 0 where
  pub kind : Text
  pub api_version : Text
  pub name : Text
  pub uid : Text

-- The phase that an error is recorded for.
pub data Phase : Type 0 where
  provisioning deleting : Phase

pub data Reason : Type 0 where
  is_provisioned is_provisioning : Reason
  waits : Wait → Reason
  phase_failed phase_failed_retrying : Phase → Reason
  infrastructure_verified infrastructure_unverified infrastructure_invalid : Reason

pub record Condition : Type 0 where
  pub status : Bool
  pub reason : Reason
  pub observed_generation : ℕ

-- Which of the signals pauses an object.
pub data PauseReason : Type 0 where
  own_annotation : PauseReason
  cluster_spec cluster_annotation : Text → PauseReason

-- The Paused condition: its message names the signal, and status and reason say whether there is one.
pub record PausedCondition : Type 0 where
  pub signal : Option PauseReason
  pub observed_generation : ℕ

pub record HydraMachine : Type 0 where
  pub namespace : Text
  pub name : Text
  pub uid : Text
  pub generation : ℕ
  pub deleting : Bool
  pub finalizer : Bool
  pub owner_references : List OwnerRef
  pub cluster_label : Text
  pub standalone_annotation : Bool
  pub paused_annotation : Bool
  pub storage_pool_annotation : Text
  pub hypervisor_annotation : Text
  pub provider_id : Text
  pub vcpus : ℕ
  pub memory : ℕ
  pub disk_size : ℕ
  pub image : Option Image
  pub networks : List Text
  pub provisioned : Option Bool
  pub addresses : List Address
  pub ready : Option Condition
  pub provisioning_failed : Option Condition
  pub paused : Option PausedCondition

-- An infrastructureRef.
pub record InfraRef : Type 0 where
  pub kind : Text
  pub api_group : Text
  pub name : Text

pub record Machine : Type 0 where
  pub namespace : Text
  pub name : Text
  pub uid : Text
  pub cluster_label : Text
  pub data_secret_name : Text
  pub infra_ref : InfraRef

-- Where the API server of a workload cluster is reached.
pub record ApiEndpoint : Type 0 where
  pub host : Text
  pub port : ℕ

pub record Cluster : Type 0 where
  pub namespace : Text
  pub name : Text
  pub uid : Text
  pub infra_ref : InfraRef
  pub paused : Bool
  pub paused_annotation : Bool
  pub infrastructure_provisioned : Bool
  pub endpoint : ApiEndpoint

pub record HypervisorSpec : Type 0 where
  pub address : Text
  pub credentials_secret : Text

pub record HydraCluster : Type 0 where
  pub namespace : Text
  pub name : Text
  pub generation : ℕ
  pub deleting : Bool
  pub owner_references : List OwnerRef
  pub paused_annotation : Bool
  pub endpoint : ApiEndpoint
  pub hypervisor : Option HypervisorSpec
  -- `status.hypervisor.address`
  pub confirmed : Option Text
  pub base_image : Option Image
  pub networks : List Text
  pub storage_pool : Text
  pub managed_network : Option ManagedNetwork
  pub provisioned : Option Bool
  pub ready : Option Condition
  pub infrastructure_failed : Option Condition
  pub paused : Option PausedCondition

-- A Secret's data under the keys that are read: an absent key, or its bytes.
pub record Secret : Type 0 where
  pub uid : Text
  pub resource_version : Text
  pub value : Option Text
  pub ca_cert : Text
  pub client_cert : Text
  pub client_key : Text
