-- ===== src/Providers/Pool/Properties.antt =====
-- internal/providers/pool.go: what the pool promises its callers, after any sequence of events.
use cluster_api_provider_hyd.Base.{
  ℕ, ◌+◌, ◌≤◌, ◌≡◌, ◌↔◌, true, false, none, some, List, [], String, arith, nat_eq, string_eq,
}
use cluster_api_provider_hyd.Base.Dict
use cluster_api_provider_hyd.Base.Dict.{Dict}
use cluster_api_provider_hyd.Providers.Pool.{
  Owner, owner_eq, Entry, count_at, limit, named_labels, idle,
}
use cluster_api_provider_hyd.Providers.Pool.Calls.{entry_of}
use cluster_api_provider_hyd.Providers.Pool.Flights.{Event, Flight, System, initial, run}
use cluster_api_provider_hyd.Providers.Pool.Labels.{labelled, connected}
use cluster_api_provider_hyd.Providers.Pool.Ownership.{owns}
use cluster_api_provider_hyd.Providers.Pool.Soundness.{in_slot}
use cluster_api_provider_hyd.Providers.Pool.Reachable.{reachable-Sound}
use cluster_api_provider_hyd.Providers.Pool.Accounts.{reachable-Accounted}

abbrev pub after : ℕ → List Event → System
after label_limit events = run (initial label_limit) events

-- After any events, no target is idle: each has an owner, is pinned, or is reserved by a Get in
-- flight. So the last owner to leave takes the connection out of the pool.
pub no_idle_target :
    (n : ℕ) (es : List Event) (key : String) (e : Entry)
    → Dict.get (after n es).pool.conns key ≡ some e
    → idle e ≡ false
no_idle_target n es key e found = (reachable-Sound n es).busy key e found

-- After any events, a Get in flight still finds the entry that it reserved in the pool, unless the
-- pool has been closed, and then the pool has no entry at all.
pub reserved_until_closed :
    (n : ℕ) (es : List Event) (g : ℕ) (f : Flight)
    → Dict.get (after n es).flights g ≡ some f
    → ((after n es).pool.closed ≡ false
        → (e : Entry) × (entry_of (after n es).pool f.ticket ≡ some e))
      × ((after n es).pool.closed ≡ true → (k : String) → Dict.get (after n es).pool.conns k ≡ none)
reserved_until_closed n es g f flying = (
  λ live. (reachable-Sound n es).flights.reserved live g f flying,
  (reachable-Sound n es).emptied,
)

-- After any events, the pool's map of owners gives an owner the target `key` exactly when the pool
-- holds an entry at `key` that lists the owner.
pub owner_target :
    (n : ℕ) (es : List Event) (o : Owner) (key : String)
    → (Dict.get (after n es).pool.owners o ≡ some key)
      ↔ ((e : Entry) × (Dict.get (after n es).pool.conns key ≡ some e) × (owns e o ≡ true))
owner_target n es o key = (
  (reachable-Sound n es).owned.held o key,
  λ (e, found, listed). (reachable-Sound n es).owned.known key e o found listed,
)

-- After any events, no two Gets are in the `open` slot of one entry at once: concurrent callers for
-- one target never dial at the same time.
pub one_dial_at_once :
    (n : ℕ) (es : List Event) (g h : ℕ) (f₁ f₂ : Flight)
    → Dict.get (after n es).flights g ≡ some f₁
    → Dict.get (after n es).flights h ≡ some f₂
    → in_slot f₁.phase ≡ true
    → in_slot f₂.phase ≡ true
    → f₁.ticket.entry ≡ f₂.ticket.entry
    → g ≡ h
one_dial_at_once n es g h f₁ f₂ there₁ there₂ in₁ in₂ same =
    let v = reachable-Sound n es in ground (arith, v.slots g f₁ there₁ in₁, v.slots h f₂ there₂ in₂)

-- After any events, each label's counter is the number of entries with that label, and no more
-- hypervisors than the limit have a label of their own.
pub labels_bounded :
    (n : ℕ) (es : List Event) (label : String)
    → let p = (after n es).pool in
      (count_at p.labels label ≡ Dict.total (labelled label) p.conns) × (named_labels p ≤ limit p)
labels_bounded n es label =
    ((reachable-Accounted n es).counted label, (reachable-Accounted n es).bounded)

-- After any events, the gauge's increments less its decrements are the number of entries with an
-- open connection, and no connection was stored in an entry that had left the pool.
pub gauge_exact :
    (n : ℕ) (es : List Event)
    → let p = (after n es).pool in
      (p.gauge_ups ≡ p.gauge_downs + Dict.total connected p.conns) × (p.lost ≡ [])
gauge_exact n es = ((reachable-Accounted n es).gauged, (reachable-Accounted n es).unlost)
