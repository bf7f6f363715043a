-- ===== src/Providers/Pool/Reachable.antt =====
-- internal/providers/pool.go: every event keeps the invariant, so it holds in every reachable state.
use cluster_api_provider_hyd.Base.{
  ℕ, ◌≡◌, refl, sym, ◌∙◌, inl, inr, true, some, List, [], ◌∷◌, String, arith, nat_eq, string_eq,
  Option-cases, if-holds,
}
use cluster_api_provider_hyd.Base.Dict
use cluster_api_provider_hyd.Base.Dict.{Dict}
use cluster_api_provider_hyd.Providers.Pool.{Owner, owner_eq, pinned_owner, Entry, Pool}
use cluster_api_provider_hyd.Providers.Pool.Calls.{release, close_all}
use cluster_api_provider_hyd.Providers.Pool.Flights.{
  System, Event, Flight, starts, starts_pinned, gives_up, enters, looks, dials, finishes, releases,
  closes_all, closed_one, accepts, step, initial, run, on_flight,
}
use cluster_api_provider_hyd.Providers.Pool.Releasing.{release-Owned, release-Busy, close_all-empty}
use cluster_api_provider_hyd.Providers.Pool.Evolution.{
  Evolves, Evolves-same, entry_of-get, release-Evolves,
}
use cluster_api_provider_hyd.Providers.Pool.Soundness.{Sound, Evolves-Reserved}
use cluster_api_provider_hyd.Providers.Pool.Launching.{launch-Sound}
use cluster_api_provider_hyd.Providers.Pool.Stepping.{
  remove_all-closed, give_up-Sound, enter-Sound, look_step-Sound, dial_step-Sound,
  finish_step-Sound,
}

on_flight-Sound :
    (s : System) (g : ℕ) (k : Flight → System)
    → Sound s
    → ((f : Flight) → Dict.get s.flights g ≡ some f → Sound (k f))
    → Sound (on_flight s g k)
on_flight-Sound s g k v each = elim (Option-cases (Dict.get s.flights g)) [
  | inl gone ↦ rw (gone, on_flight) v
  | inr (f, there) ↦ rw (there, on_flight) (each f there)
]

release-Sound :
    (s : System) (owner : Owner) → Sound s → Sound (record s { pool = release s.pool owner })
release-Sound s owner v =
    let ev : Evolves s.pool (release s.pool owner) = release-Evolves s.pool owner in
    record {
      owned = release-Owned s.pool owner v.owned;
      busy = release-Busy s.pool owner v.busy;
      emptied = λ shut k. ev.absent k (v.emptied (sym ev.closed ∙ shut) k);
      flights = Evolves-Reserved ev v.flights;
      slots = v.slots;
    }

close_all-closed : (p : Pool) → ((close_all p).closed ≡ true) × ((close_all p).owners ≡ Dict.empty)
unfolding close_all
close_all-closed p = (remove_all-closed (Dict.keys p.conns) (record p { closed = true }), refl)

close_all-Sound : (s : System) → Sound s → Sound (record s { pool = close_all s.pool })
close_all-Sound s v =
    let (shut, ownerless) = close_all-closed s.pool in
    let gone = close_all-empty s.pool in
    record {
      owned = record {
        held = λ o k h. ground (arith, ownerless, Dict.get-empty {V = String} o);
        known = λ k e o found. ground (arith, gone k);
      };
      busy = λ k e found. ground (arith, gone k);
      emptied = λ _. gone;
      flights = record {
        reserved = λ live. cc;
        pending = λ k e found. ground (arith, gone k);
        unopened = λ g f e there dials found.
            let at = entry_of-get (close_all s.pool) f.ticket found in
            ground (arith, gone f.ticket.key);
      };
      slots = v.slots;
    }

-- Every event keeps the invariant.
pub step-Sound : (s : System) (ev : Event) → Sound s → Sound (step s ev)
unfolding step
step-Sound s (starts g owner key name) v =
    if-holds Sound (accepts owner) (launch-Sound s g owner key name v) v
step-Sound s (starts_pinned g key name) v = launch-Sound s g pinned_owner key name v
step-Sound s (gives_up g) v = on_flight-Sound s g _ v (λ f there. give_up-Sound s g f there v)
step-Sound s (enters g) v = on_flight-Sound s g _ v (λ f there. enter-Sound s g f there v)
step-Sound s (looks g) v = on_flight-Sound s g _ v (λ f there. look_step-Sound s g f there v)
step-Sound s (dials g d) v = on_flight-Sound s g _ v (λ f there. dial_step-Sound s g f there v d)
step-Sound s (finishes g) v = on_flight-Sound s g _ v (λ f there. finish_step-Sound s g f there v)
step-Sound s (releases owner) v = release-Sound s owner v
step-Sound s closes_all v = close_all-Sound s v
step-Sound s (closed_one c) v = record {
  owned = record { held = v.owned.held; known = v.owned.known };
  busy = v.busy;
  emptied = v.emptied;
  flights = Evolves-Reserved (Evolves-same refl refl) v.flights;
  slots = v.slots;
}

pub initial-Sound : (n : ℕ) → Sound (initial n)
unfolding initial
initial-Sound n = record {
  owned = record {
    held = λ o k h. ground (arith, Dict.get-empty {V = String} o);
    known = λ k e o found. ground (arith, Dict.get-empty {V = Entry} k);
  };
  busy = λ k e found. ground (arith, Dict.get-empty {V = Entry} k);
  emptied = λ _ k. Dict.get-empty k;
  flights = record {
    reserved = λ _ g f there. ground (arith, Dict.get-empty {V = Flight} g);
    pending = λ k e found. ground (arith, Dict.get-empty {V = Entry} k);
    unopened = λ g f e there. ground (arith, Dict.get-empty {V = Flight} g);
  };
  slots = λ g f there. ground (arith, Dict.get-empty {V = Flight} g);
}

run-Sound : (s : System) (es : List Event) → Sound s → Sound (run s es)
unfolding run
run-Sound s [] v = v
run-Sound s (e ∷ es) v = run-Sound (step s e) es (step-Sound s e v)

-- So it holds after any events, from the empty pool.
pub reachable-Sound : (n : ℕ) (es : List Event) → Sound (run (initial n) es)
reachable-Sound n es = run-Sound (initial n) es (initial-Sound n)
