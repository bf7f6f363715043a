-- ===== src/Providers/Pool/Calls.antt =====
-- internal/providers/pool.go: the sections of `get`, `ensureOpen`, `Release` and `CloseAll`, each
-- of which the code runs under `p.mu` in one piece.
use cluster_api_provider_hyd.Base.{
  ℕ, suc, ◌+◌, ◌-◌, Bool, true, false, not, ◌&&◌, Option, none, some, List, [], ◌∷◌, ◌++◌, String,
  ◌==◌, nat_eq, string_eq, if◌then◌else◌,
}
use cluster_api_provider_hyd.Base.Dict
use cluster_api_provider_hyd.Base.Dict.{Dict}
use cluster_api_provider_hyd.Providers.Pool.{
  Owner, owner_eq, pinned_owner, pool_closed, owner_released, dial_failed, Outcome, provider,
  failed, Entry, OwnerGets, Pool, acquire_label, idle, remove, unbind, bind, opt_list,
}

-- A call of `get` between its two sections: `e`, by its key and id, `og`, by its address in `gets`,
-- and `releasesBefore`.
pub record Ticket : Type 0 where
  pub owner : Owner
  pub key : String
  pub entry : ℕ
  pub gets : Option ℕ
  pub before : ℕ

abbrev pub fresh_gets : OwnerGets
fresh_gets = record { in_flight = 0; releases = 0 }

abbrev gets_at : Pool → ℕ → OwnerGets
gets_at p a = elim (Dict.get p.gets a) [ none ↦ fresh_gets | some og ↦ og ]

-- `startGetLocked`: the address and how many Releases had landed, with the new pool.
unfoldable pub start_get : Pool → Owner → Option ℕ × ℕ × Pool
start_get p owner =
    if owner == pinned_owner then (none, 0, p) else elim (Dict.get p.getting owner) [
      | none ↦ (
        some p.next_id,
        0,
        record p {
          getting = Dict.put p.getting owner p.next_id;
          gets = Dict.put p.gets p.next_id (record { in_flight = 1; releases = 0 });
          next_id = suc p.next_id;
        },
      )
      | some a ↦
          let og = gets_at p a in
          (
            some a,
            og.releases,
            record p { gets = Dict.put p.gets a (record og { in_flight = og.in_flight + 1 }) },
          )
    ]

abbrev is_address : ℕ → Option ℕ → Bool
is_address a none = false
is_address a (some b) = b == a

-- `endGetLocked`: whether a Release landed meanwhile, with the new pool.
unfoldable pub end_get : Pool → Ticket → Bool × Pool
end_get p t = elim t.gets [
  | none ↦ (false, p)
  | some a ↦
      let og = gets_at p a in
      let left : ℕ = og.in_flight - 1 in
      let q : Pool = record p { gets = Dict.put p.gets a (record og { in_flight = left }) } in
      (
        not (og.releases == t.before),
        if left == 0 && is_address a (Dict.get p.getting t.owner)
            then record q { getting = Dict.delete p.getting t.owner }
            else q,
      )
]

-- `e := p.conns[key]`, made if it is not there, then `e.pending++` and `startGetLocked`.
unfoldable pub reserve : Pool → Owner → String → Entry → Ticket × Pool
unfolding start_get
reserve p owner key e =
    let q : Pool = record p {
      conns = Dict.put p.conns key (record e { pending = e.pending + 1 });
    } in
    let (og, before, r) = start_get q owner in
    (record { owner = owner; key = key; entry = e.id; gets = og; before = before }, r)

-- The first section of `get`; `none` when the pool is closed.
unfoldable pub begin_get : Pool → Owner → String → String → Option (Ticket × Pool)
unfolding acquire_label reserve
begin_get p owner key name = if p.closed then none else elim (Dict.get p.conns key) [
  | some e ↦ some (reserve p owner key e)
  | none ↦
      let (label, q) = acquire_label p name in
      some (
        reserve (record q { next_id = suc p.next_id }) owner key
          (record {
            id = p.next_id;
            name = name;
            label = label;
            prov = none;
            release = none;
            owners = Dict.empty;
            pinned = false;
            pending = 0;
          }))
]

-- The entry that a ticket points to, while the pool holds it.
unfoldable pub entry_of : Pool → Ticket → Option Entry
entry_of p t = elim (Dict.get p.conns t.key) [
  | none ↦ none
  | some e ↦ if e.id == t.entry then some e else none
]

-- What `ensureOpen` sees in its first section. An entry out of the pool has no provider.
pub data Look : Type 0 where
  answered : Outcome → Look
  must_dial : Look

unfoldable pub look : Pool → Ticket → Look
unfolding entry_of
look p t = if p.closed then answered (failed pool_closed) else elim (entry_of p t) [
  | none ↦ must_dial
  | some e ↦ elim e.prov [ none ↦ must_dial | some c ↦ answered (provider c) ]
]

-- What `open` returned: a connection, and whether it came with a release function, or an error.
pub data Dialed : Type 0 where
  up : ℕ → Bool → Dialed
  down : Dialed

abbrev pub release_of : ℕ → Bool → Option ℕ
release_of c true = some c
release_of c false = none

-- `e.prov, e.release = prov, release`
unfoldable pub store : Pool → Ticket → ℕ → Option ℕ → Pool
unfolding entry_of
store p t c release = elim (entry_of p t) [
  | none ↦ record p { lost = opt_list release ++ p.lost; gauge_ups = p.gauge_ups + 1 }
  | some e ↦ record p {
    conns = Dict.put p.conns t.key (record e { prov = some c; release = release });
    gauge_ups = p.gauge_ups + 1;
  }
]

-- The second section of `ensureOpen`.
unfoldable pub install : Pool → Ticket → Dialed → Outcome × Pool
unfolding store
install p t down = (failed dial_failed, p)
install p t (up c releases) =
    let release = release_of c releases in
    if p.closed
    then (failed pool_closed, record p { detached = opt_list release ++ p.detached })
    else (provider c, store p t c release)

-- `e.pending--`; nothing reads the counter of an entry that has left the pool.
unfoldable pub unreserve : Pool → Ticket → Pool
unfolding entry_of
unreserve p t = elim (entry_of p t) [
  | none ↦ p
  | some e ↦ record p { conns = Dict.put p.conns t.key (record e { pending = e.pending - 1 }) }
]

-- The entry of an overtaken call goes, if nobody else wants it.
unfoldable pub abandon : Pool → Ticket → Pool
unfolding entry_of idle remove
abandon p t = elim (entry_of p t) [ none ↦ p | some e ↦ if idle e then remove p t.key e else p ]

unfoldable pub settle : Pool → Ticket → Pool
unfolding entry_of bind
settle p t = elim (entry_of p t) [ none ↦ p | some e ↦ bind p t.owner t.key e ]

-- The last section of `get`, given what `ensureOpen` returned. While the pool is open the entry is
-- still in it, so the cases above that find none never run.
unfoldable pub finish_get : Pool → Ticket → Outcome → Outcome × Pool
unfolding unreserve end_get abandon settle
finish_get p t outcome =
    let (overtaken, q) = end_get (unreserve p t) t in
    if p.closed
    then (failed pool_closed, q)
    else if overtaken
    then (failed owner_released, abandon q t)
    else (outcome, settle q t)

-- `og.releases++`, when Gets of the owner are in flight.
unfoldable pub note_release : Pool → Owner → Pool
note_release p owner = elim (Dict.get p.getting owner) [
  | none ↦ p
  | some a ↦
      let og = gets_at p a in
      record p { gets = Dict.put p.gets a (record og { releases = og.releases + 1 }) }
]

-- `Release`
unfoldable pub release : Pool → Owner → Pool
unfolding note_release unbind
release p owner =
    let q = note_release p owner in
    elim (Dict.get p.owners owner) [
      | none ↦ q
      | some key ↦ unbind (record q { owners = Dict.delete q.owners owner }) owner key
    ]

abbrev remove_at : Pool → String → Pool
remove_at p key = elim (Dict.get p.conns key) [ none ↦ p | some e ↦ remove p key e ]

-- The loop of `CloseAll` over the keys that the map had.
unfoldable pub remove_all : List String → Pool → Pool
unfolding remove
remove_all [] p = p
remove_all (key ∷ keys) p = remove_all keys (remove_at p key)

-- `CloseAll`, up to its wait for `closes` to be empty.
unfoldable pub close_all : Pool → Pool
unfolding remove_all
close_all p = record (remove_all (Dict.keys p.conns) (record p { closed = true })) {
  owners = Dict.empty;
}
