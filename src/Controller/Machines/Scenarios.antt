-- ===== src/Controller/Machines/Scenarios.antt =====
-- A standalone machine on a backend that holds one machine, and the theorems at it.
use cluster_api_provider_hyd.Base.{
  ℕ, ◌+◌, ◌≡◌, ◌≤◌, ◌⊎◌, ◌↔◌, refl, true, false, none, some, List, [], ◌∷◌, Text, text, length,
}
use cluster_api_provider_hyd.Base.Exec.{ok, err, Post, ◌>>=◌, attempt, pure, raise}
use cluster_api_provider_hyd.Providers.Errors.{not_found, terminal, waiting, for_owner}
use cluster_api_provider_hyd.Providers.Identity.{
  Address, internal_ip, hostname_type, MachineProvider, MachineState, parse_provider_id, cut_slash,
}
use cluster_api_provider_hyd.Controller.Objects.{HydraMachine}
use cluster_api_provider_hyd.Controller.World.{Env, World, Reader, here, returned, on_backend}
use cluster_api_provider_hyd.Controller.Linkage.{Link, no_link, cluster_ready_for_create}
use cluster_api_provider_hyd.Controller.Naming.{backend_name}
use cluster_api_provider_hyd.Controller.Spec.{
  fresh_addresses, to_machine_addresses, max_status_addresses,
}
use cluster_api_provider_hyd.Controller.Addresses.{Sublist, Fresh, AllIn, addresses_reported}
use cluster_api_provider_hyd.Controller.Machines
use cluster_api_provider_hyd.Controller.Machines.Stable.{Both}
use cluster_api_provider_hyd.Controller.Machines.Records.{
  IsProvisioned, Places, milestone_stays, placement_stays,
}
use cluster_api_provider_hyd.Controller.Machines.Targets.{Owned, deletion_target_Owned}
use cluster_api_provider_hyd.Controller.Machines.Teardown.{
  HasFinalizer, Held, finalizer_outlasts_sweep,
}
use cluster_api_provider_hyd.Controller.Machines.Gate.{Ready, creation_let_through, gate_blocks}
use cluster_api_provider_hyd.Controller.Machines.Provision.{
  Refused, finalizer_first, Recorded, record_placement_lem, BuiltWhereRecorded,
  built_where_recorded,
}
use cluster_api_provider_hyd.Controller.Machines.Reports.{FailedAfter, failures_reported}

-- A digest that is long enough.
abbrev digest : Text → Text
digest s = text "00112233445566778899aabbccddeeff"

-- The only machine of the backend, which counts its deletions.
abbrev running : MachineState
running = record {
  id = text "0b7a";
  name = text "default-worker-00112233445566778899";
  ready = true;
  addresses = record { type = internal_ip; address = text "10.0.0.7" } ∷ [];
}

abbrev holding : MachineProvider ℕ
holding = record {
  name = text "libvirt";
  storage_pool_for = λ pool. pool;
  create = λ spec n. (ok running, n);
  get = λ id n. (ok running, n);
  find_by_name = λ name n. (ok running, n);
  delete = λ id n. (ok tt, n + 1);
  ensure_infrastructure = λ spec n. (ok tt, n);
  delete_by_name = λ name pool n. (ok tt, n + 1);
}

-- The backend without its machine.
abbrev vacant : MachineProvider ℕ
vacant = record holding {
  find_by_name = λ name n. (err not_found, n);
  get = λ id n. (err not_found, n);
}

abbrev no_objects : Reader
no_objects = record {
  get_machine = λ name. err not_found;
  get_cluster = λ name. err not_found;
  get_hydra_cluster = λ name. err not_found;
  get_secret = λ name. err not_found;
}

abbrev env : Env ℕ
env = record {
  reader = no_objects;
  write_fails = λ log. none;
  provider = some holding;
  provider_for = none;
  releases = true;
  sha256_hex = digest;
  key_pair_matches = λ cert key. true;
  holds_certificate = λ cert. true;
}

abbrev worker : HydraMachine
worker = record {
  namespace = text "default";
  name = text "worker";
  uid = text "1";
  generation = 1;
  deleting = false;
  finalizer = true;
  owner_references = [];
  cluster_label = [];
  standalone_annotation = true;
  paused_annotation = false;
  storage_pool_annotation = text "vms";
  hypervisor_annotation = text "h1:16514";
  provider_id = text "hydra://libvirt/0b7a";
  vcpus = 2;
  memory = 4096;
  disk_size = 8192;
  image = none;
  networks = text "br0" ∷ [];
  provisioned = some true;
  addresses = [];
  ready = none;
  provisioning_failed = none;
  paused = none;
}

-- One that nothing was made for yet.
abbrev unmade : HydraMachine
unmade = record worker {
  finalizer = false;
  storage_pool_annotation = [];
  hypervisor_annotation = [];
  provider_id = [];
}

abbrev at : HydraMachine → World ℕ
at m = record { machine = m; stored = m; backend = 0; log = [] }

abbrev alone : Link
alone = record no_link { standalone = true }

milestone_stays_example : Both IsProvisioned (Machines.reconcile env (at worker)).1
milestone_stays_example = milestone_stays env (at worker) (refl, refl)

placement_stays_example :
    Both (Places (text "vms") (text "h1:16514")) (Machines.reconcile env (at worker)).1
placement_stays_example =
    placement_stays env (at worker) (text "vms") (text "h1:16514")
      ((refl, refl, refl, refl), (refl, refl, refl, refl))

-- What a run computes with.
run_reconciles : Unit {0}
unfolding Machines.deletion_target_for Machines.target_of Machines.target_by_id
    Machines.target_after Machines.machine_id_for Machines.verify_ownership backend_name
    parse_provider_id cut_slash ◌>>=◌ attempt pure raise on_backend returned here
run_reconciles = tt

targets_worker : (Machines.deletion_target_for env holding worker (at worker)).0 ≡ ok (text "0b7a")
unfolding run_reconciles
targets_worker = refl

deletion_target_Owned_example : Owned env holding worker (text "0b7a")
deletion_target_Owned_example =
    deletion_target_Owned env holding worker (at worker) (text "0b7a") targets_worker refl

finalizer_outlasts_sweep_example :
    Held env worker alone (Machines.reconcile_delete env holding alone (at worker)).1
finalizer_outlasts_sweep_example =
    finalizer_outlasts_sweep env holding alone (at worker) (refl, refl)

creation_let_through_example : (cluster_ready_for_create alone ≡ ok tt) ↔ Ready alone
creation_let_through_example = creation_let_through alone

waits_for_owner : cluster_ready_for_create no_link ≡ err (waiting for_owner)
unfolding cluster_ready_for_create
waits_for_owner = refl

gate_blocks_example :
    Machines.ensure_machine env vacant no_link [] (at unmade) ≡ (err (waiting for_owner), at unmade)
gate_blocks_example =
    gate_blocks env vacant no_link [] (at unmade) (waiting for_owner) refl refl waits_for_owner

finalizer_first_example :
    Both HasFinalizer (Machines.reconcile_normal env vacant alone [] (at unmade)).1
    ⊎ Refused env (at unmade) (Machines.reconcile_normal env vacant alone [] (at unmade)).1
finalizer_first_example = finalizer_first env vacant alone [] (at unmade) (λ h. h)

record_placement_lem_example :
    Post
      (Recorded env (text "h2:16514") (at unmade))
      (λ _. Unit)
      (Machines.record_placement env (text "fast") (text "h2:16514") (at unmade))
record_placement_lem_example =
    record_placement_lem env (text "fast") (text "h2:16514") (at unmade) (refl, refl)

built_where_recorded_example :
    Post
      (BuiltWhereRecorded env)
      (λ _. Unit)
      (Machines.spec_to_create env vacant alone [] (at unmade))
built_where_recorded_example = built_where_recorded env vacant alone [] (at unmade) (refl, refl)

abbrev held_back : HydraMachine
held_back = record worker { paused_annotation = true; deleting = true }

failures_reported_example :
    FailedAfter env
      (err terminal)
      none
      (Machines.report env holding (err terminal) (at worker)).1.machine.provisioning_failed
failures_reported_example = failures_reported env holding (err terminal) (at worker)

abbrev twice : List Address
twice =
    record { type = internal_ip; address = text "10.0.0.7" }
    ∷ record { type = hostname_type; address = text "worker" }
    ∷ record { type = internal_ip; address = text "10.0.0.7" }
    ∷ []

addresses_reported_example :
    Sublist (to_machine_addresses twice) twice
    × Fresh [] (to_machine_addresses twice)
    × (length (to_machine_addresses twice) ≤ max_status_addresses)
    × ((length (to_machine_addresses twice) ≡ max_status_addresses)
        ⊎ AllIn [] twice (to_machine_addresses twice))
addresses_reported_example = addresses_reported twice

reported_once : length (to_machine_addresses twice) ≡ 2
unfolding to_machine_addresses fresh_addresses
reported_once = refl
