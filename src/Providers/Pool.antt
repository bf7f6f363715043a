-- ===== src/Providers/Pool.antt =====
-- internal/providers/pool.go: the connection pool. Each definition here is one section that the
-- code runs under `p.mu`; Pool/Flights.antt puts the sections together into calls.
--
-- A `*poolEntry` is named by its `id`, and so is a `*ownerGets`, by its key in `gets`. A nil map is
-- the empty one. Counters do not wrap. The hooks `afterReserve` and `beforeBind` are for tests only
-- and left out; so are the log lines.
pub mod Calls
pub mod Flights
pub mod Frames
pub mod Ownership
pub mod Binding
pub mod Releasing
pub mod Evolution
pub mod Soundness
pub mod Reserving
pub mod Installing
pub mod Launching
pub mod Finishing
pub mod Reachable
pub mod Stepping
pub mod Accounts
pub mod Accounting
pub mod Properties
mod Scenarios
pub mod Labels
use cluster_api_provider_hyd.Base.{
  ℕ, suc, ◌+◌, ◌-◌, ◌≡◌, ◌↔◌, Bool, true, false, not, ◌&&◌, Option, none, some, List, [], ◌∷◌, ◌++◌,
  String, arith, Eq, ◌==◌, nat_eq, string_eq, ltb, leb, if◌then◌else◌, maybe, is_some, tally,
}
use cluster_api_provider_hyd.Base.Dict
use cluster_api_provider_hyd.Base.Dict.{Dict}
use text.Mathlib.TextEquality.{eq_iff}

pub record Owner : Type 0 where
  pub kind : String
  pub namespace : String
  pub name : String

abbrev owner_beq : Owner → Owner → Bool
owner_beq a b = a.kind == b.kind && (a.namespace == b.namespace && a.name == b.name)

pub owner_beq_iff : (a b : Owner) → (owner_beq a b ≡ true) ↔ (a ≡ b)
owner_beq_iff a b =
    ground (arith, eq_iff a.kind b.kind, eq_iff a.namespace b.namespace, eq_iff a.name b.name)

instance abbrev pub owner_eq : Eq Owner
owner_eq = record { beq = owner_beq; beq_iff = owner_beq_iff }

-- `Owner{}`, which `get` reads as pinned.
abbrev pub pinned_owner : Owner
pinned_owner = record { kind = ""; namespace = ""; name = "" }

pub data PoolError : Type 0 where
  pool_closed no_owner owner_released dial_failed context_done : PoolError

-- A provider, named by the number of the connection that it speaks over, or an error.
pub data Outcome : Type 0 where
  provider : ℕ → Outcome
  failed : PoolError → Outcome

abbrev pub max_hypervisor_labels : ℕ
max_hypervisor_labels = 16

abbrev pub other_hypervisor : String
other_hypervisor = "other"

-- `poolEntry`; `release` names the connection that the release function closes. The channel `open`
-- is in Pool/Flights.antt.
pub record Entry : Type 0 where
  pub id : ℕ
  pub name : String
  pub label : String
  pub prov : Option ℕ
  pub release : Option ℕ
  pub owners : Dict Owner (Unit {0})
  pub pinned : Bool
  pub pending : ℕ

-- `ownerGets`
pub record OwnerGets : Type 0 where
  pub in_flight : ℕ
  pub releases : ℕ

-- The fields of `Pool`, down to `closes`, which lists the connections whose closing it counts.
-- `getting` holds addresses in `gets`. Below are the things outside that the sections write: the
-- gauge `ProviderConnections` by its increments and decrements, the hypervisor labels whose series
-- were dropped, the connections that came up after `CloseAll` and are closed uncounted, and those
-- stored in an entry that has left the pool, which nothing would close.
pub record Pool : Type 0 where
  pub conns : Dict String Entry
  pub owners : Dict Owner String
  pub labels : Dict String ℕ
  pub closed : Bool
  pub getting : Dict Owner ℕ
  pub gets : Dict ℕ OwnerGets
  pub closes : List ℕ
  pub label_limit : ℕ
  pub gauge_ups : ℕ
  pub gauge_downs : ℕ
  pub dropped : List String
  pub detached : List ℕ
  pub lost : List ℕ
  pub next_id : ℕ

pub new_pool : ℕ → Pool
new_pool label_limit = record {
  conns = Dict.empty;
  owners = Dict.empty;
  labels = Dict.empty;
  closed = false;
  getting = Dict.empty;
  gets = Dict.empty;
  closes = [];
  label_limit = label_limit;
  gauge_ups = 0;
  gauge_downs = 0;
  dropped = [];
  detached = [];
  lost = [];
  next_id = 0;
}

-- m[k] of a map to numbers
abbrev pub count_at : Dict String ℕ → String → ℕ
count_at m k = maybe 0 (λ n. n) (Dict.get m k)

unfoldable pub limit : Pool → ℕ
limit p = if ltb 0 p.label_limit then p.label_limit else max_hypervisor_labels

unfoldable pub named_labels : Pool → ℕ
named_labels p =
    let n = Dict.size p.labels in if ltb 0 (count_at p.labels other_hypervisor) then n - 1 else n

unfoldable pub acquire_label : Pool → String → String × Pool
acquire_label p name =
    let label : String =
      if count_at p.labels name == 0 && leb (limit p) (named_labels p)
      then other_hypervisor
      else name in
    (label, record p { labels = Dict.put p.labels label (count_at p.labels label + 1) })

unfoldable pub idle : Entry → Bool
idle e = Dict.size e.owners == 0 && (not e.pinned && e.pending == 0)

-- `p.labels[e.label]--`, and the drop of its series with the last: the counters and the labels
-- whose series were dropped. The counter is a Go int, but
-- the test takes a negative one as it takes 0.
unfoldable pub drop_label : Pool → String → Dict String ℕ × List String
drop_label p label =
    let n : ℕ = count_at p.labels label - 1 in
    if n == 0
    then (Dict.delete p.labels label, label ∷ p.dropped)
    else (Dict.put p.labels label n, p.dropped)

abbrev pub opt_list {ℓ} : {A : Type ℓ} → Option A → List A
opt_list none = []
opt_list (some a) = a ∷ []

-- `removeLocked`. What it hands to `closeInBackground` is on `closes` from here on.
unfoldable pub remove : Pool → String → Entry → Pool
unfolding drop_label
remove p key e =
    let (labels, dropped) = drop_label p e.label in
    record p {
      conns = Dict.delete p.conns key;
      labels = labels;
      dropped = dropped;
      closes = opt_list e.release ++ p.closes;
      gauge_downs = p.gauge_downs + tally (is_some e.prov);
    }

unfoldable pub unbind : Pool → Owner → String → Pool
unfolding idle remove
unbind p owner key = elim (Dict.get p.conns key) [
  | none ↦ p
  | some e ↦
      let e' : Entry = record e { owners = Dict.delete e.owners owner } in
      if idle e' then remove p key e' else record p { conns = Dict.put p.conns key e' }
]

unfoldable pub bind : Pool → Owner → String → Entry → Pool
unfolding unbind
bind p owner key e =
    let owned : Dict String Entry =
      Dict.put p.conns key (record e { owners = Dict.put e.owners owner tt }) in
    if owner == pinned_owner
    then record p { conns = Dict.put p.conns key (record e { pinned = true }) }
    else elim (Dict.get p.owners owner) [
      | none ↦ record p { conns = owned; owners = Dict.put p.owners owner key }
      | some previous ↦
          if previous == key
          then record p { conns = owned }
          else unbind (record p { conns = owned; owners = Dict.put p.owners owner key }) owner
              previous
    ]
