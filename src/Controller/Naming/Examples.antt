-- ===== src/Controller/Naming/Examples.antt =====
-- Names of concrete machines.
use cluster_api_provider_hyd.Base.{
  ◌≤◌, ◌≡◌, refl, true, false, none, [], ◌++◌, length, nat_eq, Text, text, arith,
}
use cluster_api_provider_hyd.Controller.Objects.{HydraMachine}
use cluster_api_provider_hyd.Controller.Naming.{
  backend_name, hostname_for, trim_right, max_hostname_length,
}
use cluster_api_provider_hyd.Controller.Naming.Bounds.{names-fit}
use cluster_api_provider_hyd.Controller.Naming.Distinct.{backend_name-distinct}

-- It holds the identity, so that it tells identities apart, as far as it is long enough.
abbrev digest : Text → Text
digest s = s ++ text "00112233445566778899"

abbrev worker : HydraMachine
worker = record {
  namespace = text "default";
  name = text "a-machine-whose-name-is-a-good-deal-longer-than-a-hostname.may.be";
  uid = text "1";
  generation = 1;
  deleting = false;
  finalizer = false;
  owner_references = [];
  cluster_label = [];
  standalone_annotation = true;
  paused_annotation = false;
  storage_pool_annotation = [];
  hypervisor_annotation = [];
  provider_id = [];
  vcpus = 2;
  memory = 4096;
  disk_size = 8192;
  image = none;
  networks = [];
  provisioned = none;
  addresses = [];
  ready = none;
  provisioning_failed = none;
  paused = none;
}

-- The same object, later.
abbrev changed : HydraMachine
changed = record worker { generation = 2; finalizer = true }

names-fit_example :
    (length (backend_name digest worker) ≤ 61)
    × (length (hostname_for digest worker) ≤ max_hostname_length)
names-fit_example = names-fit digest worker

long_name_cut :
    hostname_for digest worker
    ≡ text "a-machine-whose-name-is-a-good-deal-longer-than-a-host-default/"
unfolding hostname_for trim_right
long_name_cut = refl

named_alike : backend_name digest worker ≡ backend_name digest changed
unfolding backend_name
named_alike = refl

backend_name-distinct_example :
    (worker.namespace ≡ changed.namespace)
    × (worker.name ≡ changed.name)
    × (worker.uid ≡ changed.uid)
backend_name-distinct_example =
    backend_name-distinct digest worker changed refl refl refl refl (omega arith) (omega arith)
      (λ _. refl) named_alike
