-- ===== src/Controller/Machines/Restart.antt =====
-- A reconcile after one that made a machine on the in-memory backend and lost its id.
use cluster_api_provider_hyd.Base.{
  ◌≡◌, refl, true, false, none, some, [], ◌∷◌, text, list_eq, nat_eq,
}
use cluster_api_provider_hyd.Base.Dict
use cluster_api_provider_hyd.Base.Exec.{ok, err}
use cluster_api_provider_hyd.Providers.Errors.{not_found}
use cluster_api_provider_hyd.Providers.Identity.{MachineSpec, MachineState}
use cluster_api_provider_hyd.Providers.Fake
use cluster_api_provider_hyd.Providers.Fake.Contract.{view, fake-Idempotent}
use cluster_api_provider_hyd.Controller.Objects.{HydraMachine}
use cluster_api_provider_hyd.Controller.World.{Env, World}
use cluster_api_provider_hyd.Controller.Linkage.{no_link}
use cluster_api_provider_hyd.Controller.Naming.{backend_name}
use cluster_api_provider_hyd.Controller.Spec.{name_only}
use cluster_api_provider_hyd.Controller.Machines
use cluster_api_provider_hyd.Controller.Machines.Retry.{Adopted, unrecorded_machine-Adopted}

abbrev sound : Fake.Faults
sound = record {
  create_err = none;
  infrastructure_err = none;
  get_err = none;
  find_err = none;
  delete_err = none;
  default_storage_pool = [];
  ready_on_create = false;
}

abbrev env : Env Fake.Fake
env = record {
  reader = record {
    get_machine = λ name. err not_found;
    get_cluster = λ name. err not_found;
    get_hydra_cluster = λ name. err not_found;
    get_secret = λ name. err not_found;
  };
  write_fails = λ log. none;
  provider = some (Fake.fake sound);
  provider_for = none;
  releases = false;
  sha256_hex = λ s. text "00112233445566778899aabbccddeeff";
  key_pair_matches = λ cert key. true;
  holds_certificate = λ cert. true;
}

abbrev worker : HydraMachine
worker = record {
  namespace = text "default";
  name = text "worker";
  uid = text "1";
  generation = 1;
  deleting = false;
  finalizer = true;
  owner_references = [];
  cluster_label = [];
  standalone_annotation = true;
  paused_annotation = false;
  storage_pool_annotation = text "vms";
  hypervisor_annotation = [];
  provider_id = [];
  vcpus = 2;
  memory = 4096;
  disk_size = 8192;
  image = none;
  networks = text "br0" ∷ [];
  provisioned = none;
  addresses = [];
  ready = none;
  provisioning_failed = none;
  paused = none;
}

abbrev spec : MachineSpec
spec = record (name_only (backend_name env.sha256_hex worker)) {
  vcpus = 2;
  storage_pool = text "vms";
}

abbrev machine : MachineState
machine = Fake.made sound spec (Fake.fake_id 1)

abbrev after : Fake.Fake
after = (Fake.create sound spec Fake.new).1

made_first : Fake.create sound spec Fake.new ≡ (ok machine, after)
unfolding Fake.create Fake.create_new Fake.new Dict.get Dict.empty
made_first = refl

abbrev restarted : World Fake.Fake
restarted = record { machine = worker; stored = worker; backend = after; log = [] }

unrecorded_machine-Adopted_example :
    Adopted env view
      (Fake.fake sound)
      machine.id
      (view after)
      (Machines.ensure_machine env (Fake.fake sound) no_link [] restarted).1
unrecorded_machine-Adopted_example =
    unrecorded_machine-Adopted env view (Fake.fake sound) (fake-Idempotent sound refl refl) no_link
      [] spec machine Fake.new after restarted refl made_first refl refl refl
