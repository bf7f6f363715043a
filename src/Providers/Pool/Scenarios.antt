-- ===== src/Providers/Pool/Scenarios.antt =====
-- Runs of the pool: two owners of one hypervisor, and the theorems at these runs.
use cluster_api_provider_hyd.Base.{
  ℕ, ◌+◌, ◌≤◌, ◌≡◌, ◌↔◌, refl, true, false, none, some, List, [], ◌∷◌, String, nat_eq, string_eq,
}
use cluster_api_provider_hyd.Base.Dict
use cluster_api_provider_hyd.Providers.Pool.{
  Owner, owner_eq, Entry, idle, count_at, limit, named_labels,
}
use cluster_api_provider_hyd.Providers.Pool.Calls.{
  up, entry_of, begin_get, look, install, finish_get, release,
}
use cluster_api_provider_hyd.Providers.Pool.Flights.{
  Event, Flight, starts, enters, looks, dials, finishes, releases, initial, run, step,
}
use cluster_api_provider_hyd.Providers.Pool.Labels.{labelled, connected}
use cluster_api_provider_hyd.Providers.Pool.Ownership.{owns}
use cluster_api_provider_hyd.Providers.Pool.Soundness.{in_slot}
use cluster_api_provider_hyd.Providers.Pool.Properties.{
  after, no_idle_target, reserved_until_closed, owner_target, one_dial_at_once, labels_bounded,
  gauge_exact,
}

abbrev alice : Owner
alice = record { kind = "HydraMachine"; namespace = "default"; name = "alice" }

abbrev bob : Owner
bob = record { kind = "HydraCluster"; namespace = "default"; name = "bob" }

abbrev one_open : List Event
one_open =
    starts 0 alice "tls|h1:16514|1" "h1:16514"
    ∷ enters 0
    ∷ looks 0
    ∷ dials 0 (up 7 true)
    ∷ finishes 0
    ∷ []

abbrev two_queued : List Event
two_queued =
    starts 0 alice "tls|h1:16514|1" "h1:16514"
    ∷ starts 1 bob "tls|h1:16514|1" "h1:16514"
    ∷ enters 0
    ∷ []

abbrev closed_again : List Event
closed_again =
    starts 0 alice "tls|h1:16514|1" "h1:16514"
    ∷ enters 0
    ∷ looks 0
    ∷ dials 0 (up 7 true)
    ∷ finishes 0
    ∷ releases alice
    ∷ []

-- What a run computes with.
run_opens : Unit {0}
unfolding run initial step begin_get look install finish_get release Dict.get Dict.put Dict.delete
    Dict.empty Dict.size Dict.keys
run_opens = tt

closed_again_closes : (after 0 closed_again).pool.closes ≡ 7 ∷ []
unfolding run_opens
closed_again_closes = refl

abbrev key : String
key = "tls|h1:16514|1"

opened_entry : (e : Entry) × (Dict.get (after 0 one_open).pool.conns key ≡ some e)
unfolding run_opens
opened_entry = (_, refl)

no_idle_target_example : idle opened_entry.0 ≡ false
no_idle_target_example = no_idle_target 0 one_open key opened_entry.0 opened_entry.1

alice_flight : (f : Flight) × (Dict.get (after 0 two_queued).flights 0 ≡ some f)
unfolding run_opens
alice_flight = (_, refl)

alice_holds : in_slot alice_flight.0.phase ≡ true
unfolding run_opens alice_flight
alice_holds = refl

reserved_until_closed_example :
    ((after 0 two_queued).pool.closed ≡ false
      → (e : Entry) × (entry_of (after 0 two_queued).pool alice_flight.0.ticket ≡ some e))
    × ((after 0 two_queued).pool.closed ≡ true
        → (k : String) → Dict.get (after 0 two_queued).pool.conns k ≡ none)
reserved_until_closed_example = reserved_until_closed 0 two_queued 0 alice_flight.0 alice_flight.1

owner_target_example :
    (Dict.get (after 0 one_open).pool.owners alice ≡ some key)
    ↔ ((e : Entry) × (Dict.get (after 0 one_open).pool.conns key ≡ some e) × (owns e alice ≡ true))
owner_target_example = owner_target 0 one_open alice key

one_dial_at_once_example : ◌≡◌ {A = ℕ} 0 0
one_dial_at_once_example =
    one_dial_at_once 0 two_queued 0 0 alice_flight.0 alice_flight.0 alice_flight.1 alice_flight.1
      alice_holds alice_holds refl

labels_bounded_example :
    let p = (after 0 one_open).pool in
    (count_at p.labels "h1:16514" ≡ Dict.total (labelled "h1:16514") p.conns)
    × (named_labels p ≤ limit p)
labels_bounded_example = labels_bounded 0 one_open "h1:16514"

gauge_exact_example :
    let p = (after 0 closed_again).pool in
    (p.gauge_ups ≡ p.gauge_downs + Dict.total connected p.conns) × (p.lost ≡ [])
gauge_exact_example = gauge_exact 0 closed_again
