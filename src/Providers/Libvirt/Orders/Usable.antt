-- ===== src/Providers/Libvirt/Orders/Usable.antt =====
-- internal/providers/libvirt/libvirt.go: the managed network that machines are attached to.
use cluster_api_provider_hyd.Base.{
  arith, ℕ, Bool, true, false, not, Option, none, some, List, ◌∷◌, ◌≡◌, refl, Text, ◌==◌, nat_eq,
  if_cases,
}
use cluster_api_provider_hyd.Base.Exec.{
  Result, ok, err, Exec, pure, raise, ◌>>=◌, ◌>>◌, Post, Triple, Triple-bind, Triple-raise,
  Triple-if, Triple-kept,
}
use cluster_api_provider_hyd.Providers.Errors.{Error, other}
use cluster_api_provider_hyd.Providers.Identity.{is_empty, ManagedNetwork}
use cluster_api_provider_hyd.Providers.Libvirt.Documents.{NetworkDef, network_xml}
use cluster_api_provider_hyd.Providers.Libvirt.Subnets.{subnet_parts}
use cluster_api_provider_hyd.Providers.Libvirt.Networks.{
  agrees, started, unless_started, start_network, bring_up, bridge_in, network_bridge,
  create_network, checked, verify_network, attached, attachable_network,
}
use cluster_api_provider_hyd.Providers.Libvirt.Client.{
  Client, Run, Event, Network, RpcError, is_not_found, call, noted, network_lookup_by_name,
  network_define_xml, network_is_active, network_create, network_get_xml, network_set_autostart,
}
use cluster_api_provider_hyd.Providers.Libvirt.Client.Journal.{
  Logged, Post-then, Post-asked, Keeps-ask,
}
use cluster_api_provider_hyd.Providers.Libvirt.Orders.{event}
use cluster_api_provider_hyd.Providers.Libvirt.Orders.Sweeps.{Anything, Post-any}

-- libvirt's definition of the network is what the cluster declares, or was made of that.
pub data Matches (spec : ManagedNetwork) (net : Network) : List Event → Type 0 where
  agreed :
      (parts : Text × Text) (def : NetworkDef) (past : List Event)
      → subnet_parts spec.subnet ≡ ok parts
      → agrees spec parts.0 parts.1 def ≡ true
      → Matches spec net (event (network_get_xml net) (ok (some def)) ∷ past)
  defined :
      (parts : Text × Text) (past : List Event)
      → subnet_parts spec.subnet ≡ ok parts
      → Matches spec net
          (event (network_define_xml (network_xml spec parts.0 parts.1)) (ok net) ∷ past)
  before : (e : Event) (past : List Event) → Matches spec net past → Matches spec net (e ∷ past)

-- After the network matched, libvirt said that it runs, or started it.
pub data Runs (spec : ManagedNetwork) (net : Network) : List Event → Type 0 where
  active :
      (n : ℕ) (past : List Event)
      → Matches spec net past
      → (n == 0) ≡ false
      → Runs spec net (event (network_is_active net) (ok n) ∷ past)
  created :
      (past : List Event)
      → Matches spec net past
      → Runs spec net (event (network_create net) (ok tt) ∷ past)
  before : (e : Event) (past : List Event) → Runs spec net past → Runs spec net (e ∷ past)

-- After that, the last call read the bridge.
pub data Usable (spec : ManagedNetwork) (bridge : Text) : List Event → Type 0 where
  read :
      (net : Network) (def : NetworkDef) (past : List Event)
      → Runs spec net past
      → bridge ≡ def.bridge_name
      → is_empty bridge ≡ false
      → Usable spec bridge (event (network_get_xml net) (ok (some def)) ∷ past)

module _ {H : Type 0} (client : Client H) (spec : ManagedNetwork) (net : Network) where
  abbrev Up : Unit {0} → Run H → Type 0
  Up done s = Runs spec net s.journal

  not_zero : (again : ℕ) → (again == 1) ≡ true → (again == 0) ≡ false
  not_zero again is = ground arith

  started-Post :
      (r : Result RpcError ℕ) (h : H) (past : List Event)
      → Matches spec net past
      → Post Up Anything (started client r (noted (network_is_active net) r h past))
  unfolding pure raise
  started-Post (ok again) h past m =
      if_cases
        (λ (run : Exec Error (Run H) (Unit {0})).
          Post Up Anything (run (noted (network_is_active net) (ok again) h past)))
        (again == 1) (λ is. active again past m (not_zero again is)) λ _. tt
  started-Post (err e) h past m = tt

  unless_started-Post :
      (r : Result RpcError Unit) (h : H) (past : List Event)
      → Matches spec net past
      → Post Up Anything (unless_started client net r (noted (network_create net) r h past))
  unfolding pure
  unless_started-Post (ok done) h past m = created past m
  unless_started-Post (err e) h past m =
      Post-then client Up Anything (network_is_active net) (started client) _
        λ r g. started-Post r g _ (Matches.before _ past m)

  start_network-Post :
      (n : ℕ) (h : H) (past : List Event)
      → Matches spec net past
      → Post Up Anything (start_network client net n (noted (network_is_active net) (ok n) h past))
  unfolding pure
  start_network-Post n h past m =
      if_cases
        (λ (run : Exec Error (Run H) (Unit {0})).
          Post Up Anything (run (noted (network_is_active net) (ok n) h past)))
        (n == 0)
        (λ _.
          Post-then client Up Anything (network_create net) (unless_started client net) _
            λ r g. unless_started-Post r g _ (Matches.before _ past m))
        λ is. active n past m is

  bring_up-Triple : Triple (Logged client (Matches spec net)) (bring_up client net) Up Anything
  unfolding bring_up
  bring_up-Triple =
      Triple-bind _ _
        (record {
          at = λ s m.
              Post-asked client Up Anything (network_is_active net) (start_network client net) s
                (λ n h. start_network-Post n h s.journal m) λ t. tt;
        })
        λ _.
          Triple-kept _
            (Keeps-ask client (Runs spec net) (network_set_autostart net)
              λ r past h. Runs.before _ past h)
            (λ _ s h. h) λ s h. tt

  bridge_in-Post :
      (read : Option NetworkDef) (h : H) (past : List Event)
      → Runs spec net past
      → Post
          (λ bridge. Logged client (Usable spec bridge))
          Anything
          (bridge_in client read (noted (network_get_xml net) (ok read) h past))
  unfolding pure raise
  bridge_in-Post none h past up = tt
  bridge_in-Post (some def) h past up =
      if_cases
        (λ (run : Exec Error (Run H) Text).
          Post (λ bridge. Logged client (Usable spec bridge)) Anything
            (run (noted (network_get_xml net) (ok (some def)) h past)))
        (is_empty def.bridge_name) (λ _. tt) λ full. read net def past up refl full

  up-Triple :
      Triple
        (Logged client (Matches spec net))
        (bring_up client net >> network_bridge client net)
        (λ bridge. Logged client (Usable spec bridge))
        Anything
  unfolding network_bridge
  up-Triple = Triple-bind _ _ bring_up-Triple λ _. record {
    at = λ s up.
        Post-asked client (λ bridge. Logged client (Usable spec bridge)) Anything
          (network_get_xml net) (bridge_in client) s (λ read h. bridge_in-Post read h s.journal up)
          λ t. tt;
  }

module _ {H : Type 0} (client : Client H) (spec : ManagedNetwork) where
  abbrev Attached : Text → Run H → Type 0
  Attached bridge = Logged client (Usable spec bridge)

  checked-Post :
      (net : Network) (parts : Text × Text) (read : Option NetworkDef) (h : H) (past : List Event)
      → subnet_parts spec.subnet ≡ ok parts
      → Post Attached Anything (
          checked client spec parts.0 parts.1 net read
            (noted (network_get_xml net) (ok read) h past))
  unfolding raise
  checked-Post net parts none h past subnet = tt
  checked-Post net parts (some def) h past subnet =
      if_cases
        (λ (run : Exec Error (Run H) Text).
          Post Attached Anything (run (noted (network_get_xml net) (ok (some def)) h past)))
        (agrees spec parts.0 parts.1 def)
        (λ agree. (up-Triple client spec net).at _ (agreed parts def past subnet agree)) λ _. tt

  attached-Triple :
      {P : Run H → Type 0} (define : Bool) (parts : Text × Text) (r : Result RpcError Network)
      → subnet_parts spec.subnet ≡ ok parts
      → Triple P (attached client spec define parts.0 parts.1 r) Attached Anything
  unfolding verify_network create_network
  attached-Triple define parts (ok net) subnet = record {
    at = λ s h.
        Post-asked client Attached Anything (network_get_xml net)
          (checked client spec parts.0 parts.1 net) s
          (λ read g. checked-Post net parts read g s.journal subnet) λ t. tt;
  }
  attached-Triple define parts (err e) subnet =
      Triple-if (not (is_not_found e)) (λ _. Triple-raise other λ s h. tt)
        λ _.
          Triple-if (not define) (λ _. Triple-raise other λ s h. tt)
            λ _. record {
              at = λ s h.
                  Post-asked client Attached Anything
                    (network_define_xml (network_xml spec parts.0 parts.1))
                    (λ net. bring_up client net >> network_bridge client net) s
                    (λ net g. (up-Triple client spec net).at _ (defined parts s.journal subnet))
                    λ t. tt;
            }

  -- If a managed network is returned for machines to attach to, libvirt's definition of it has the forward
  -- mode "open" and the gateway, netmask and DHCP range that the cluster declares, or was made of these;
  -- after that libvirt said that it runs or started it; and after that, in the last call, the bridge that is
  -- returned was read, which is not empty.
  pub attachable_network-Usable :
      (define : Bool) (s : Run H)
      → Post
          (λ bridge t. Usable spec bridge t.journal)
          (λ _. Unit)
          (attachable_network client spec define s)
  unfolding attachable_network raise
  attachable_network-Usable define s = found (subnet_parts spec.subnet) refl
    where
      found :
          (r : Result Error (Text × Text))
          → subnet_parts spec.subnet ≡ r
          → Post Attached Anything (
              (elim r as (λ _. Exec Error (Run H) Text) [
                | err e ↦ raise e
                | ok parts ↦
                    call client (network_lookup_by_name spec.name)
                    >>= attached client spec define parts.0 parts.1
              ])
                s)
      found (err e) subnet = tt
      found (ok parts) subnet =
          (Triple-bind {P = Anything} {Q = λ _. Anything} _ _
              (record { at = λ t h. Post-any (call client (network_lookup_by_name spec.name) t) })
              λ r. attached-Triple define parts r subnet).at
            s tt
