-- ===== src/Providers/Pool/Accounts.antt =====
-- internal/providers/pool.go: labels and gauge stay right under every interleaving of calls.
use cluster_api_provider_hyd.Base.{
  ℕ, ◌≡◌, refl, inl, inr, some, List, [], ◌∷◌, String, arith, nat_eq, string_eq, Option-cases,
  if-holds,
}
use cluster_api_provider_hyd.Base.Dict
use cluster_api_provider_hyd.Base.Dict.{Dict}
use cluster_api_provider_hyd.Providers.Pool.{
  Owner, owner_eq, pinned_owner, other_hypervisor, limit, named_labels,
}
use cluster_api_provider_hyd.Providers.Pool.Calls.{
  Dialed, Look, answered, must_dial, look, begin_get,
}
use cluster_api_provider_hyd.Providers.Pool.Flights.{
  System, Event, Flight, Phase, starts, starts_pinned, gives_up, enters, looks, dials, finishes,
  releases, closes_all, closed_one, queued, holding, dialing, opened, step, initial, run, accepts,
  launch, enter, give_up, look_step, dial_step, finish_step, after_look, on_flight,
}
use cluster_api_provider_hyd.Providers.Pool.Soundness.{Sound}
use cluster_api_provider_hyd.Providers.Pool.Reachable.{step-Sound, initial-Sound}
use cluster_api_provider_hyd.Providers.Pool.Labels.{
  connected, labelled, Accounted, Accounted-transfer,
}
use cluster_api_provider_hyd.Providers.Pool.Accounting.{
  begin_get-Accounted, install-Accounted, finish_get-Accounted, release-Accounted,
  close_all-Accounted,
}

launch-Accounted :
    (s : System) (g : ℕ) (owner : Owner) (key name : String)
    → Accounted s.pool
    → Accounted (launch s g owner key name).pool
unfolding launch
launch-Accounted s g owner key name v = elim (Option-cases (Dict.get s.flights g)) [
  | inr (f, there) ↦ rw (there, launch) v
  | inl absent ↦ elim (Option-cases (begin_get s.pool owner key name)) [
    | inl refused ↦ rw (absent, refused, launch) v
    | inr ((t, q), started) ↦
        rw (absent, started, launch) (begin_get-Accounted s.pool owner key name started v)
  ]
]

module _ (s : System) (g : ℕ) (v : Accounted s.pool) where
  enter-Accounted : (f : Flight) (phase : Phase) → Accounted (enter s g f phase).pool
  unfolding enter
  enter-Accounted f queued = ground (arith, v)
  enter-Accounted f _ = v

  give_up-Accounted : (f : Flight) (phase : Phase) → Accounted (give_up s g f phase).pool
  unfolding give_up
  give_up-Accounted f queued = v
  give_up-Accounted f _ = v

  look_step-Accounted : (f : Flight) (phase : Phase) → Accounted (look_step s g f phase).pool
  unfolding look_step
  look_step-Accounted f holding = by_look (look s.pool f.ticket)
    where
      by_look : (l : Look) → Accounted (after_look s g f l).pool
      by_look (answered r) = v
      by_look must_dial = v
  look_step-Accounted f _ = v

  dial_step-Accounted :
      (f : Flight) (d : Dialed) (phase : Phase)
      → Sound s
      → Dict.get s.flights g ≡ some f
      → f.phase ≡ phase
      → Accounted (dial_step s g f d phase).pool
  unfolding dial_step
  dial_step-Accounted f d dialing w flying at =
      install-Accounted s.pool f.ticket d
        (λ live.
          let (e, found) = w.flights.reserved live g f flying in
          (e, found, w.flights.unopened g f e flying at found))
        v
  dial_step-Accounted f d _ w flying at = v

  finish_step-Accounted : (f : Flight) (phase : Phase) → Accounted (finish_step s g f phase).pool
  unfolding finish_step
  finish_step-Accounted f (opened r) = finish_get-Accounted s.pool f.ticket r v
  finish_step-Accounted f _ = v

  on_flight-Accounted :
      (k : Flight → System)
      → ((f : Flight) → Dict.get s.flights g ≡ some f → Accounted (k f).pool)
      → Accounted (on_flight s g k).pool
  on_flight-Accounted k each = elim (Option-cases (Dict.get s.flights g)) [
    | inl gone ↦ rw (gone, on_flight) v
    | inr (f, there) ↦ rw (there, on_flight) (each f there)
  ]

step-Accounted : (s : System) (ev : Event) → Sound s → Accounted s.pool → Accounted (step s ev).pool
unfolding step
step-Accounted s (starts g owner key name) w v =
    if-holds (λ (z : System). Accounted z.pool) (accepts owner)
      (launch-Accounted s g owner key name v) v
step-Accounted s (starts_pinned g key name) w v = launch-Accounted s g pinned_owner key name v
step-Accounted s (gives_up g) w v =
    on_flight-Accounted s g v _ (λ f _. give_up-Accounted s g v f f.phase)
step-Accounted s (enters g) w v =
    on_flight-Accounted s g v _ (λ f _. enter-Accounted s g v f f.phase)
step-Accounted s (looks g) w v =
    on_flight-Accounted s g v _ (λ f _. look_step-Accounted s g v f f.phase)
step-Accounted s (dials g d) w v =
    on_flight-Accounted s g v _ (λ f there. dial_step-Accounted s g v f d f.phase w there refl)
step-Accounted s (finishes g) w v =
    on_flight-Accounted s g v _ (λ f _. finish_step-Accounted s g v f f.phase)
step-Accounted s (releases owner) w v = release-Accounted s.pool owner v
step-Accounted s closes_all w v = close_all-Accounted s.pool v
step-Accounted s (closed_one c) w v = Accounted-transfer v refl refl refl refl refl refl

run-Accounted :
    (s : System) (es : List Event) → Sound s → Accounted s.pool → Accounted (run s es).pool
unfolding run
run-Accounted s [] w v = v
run-Accounted s (e ∷ es) w v =
    run-Accounted (step s e) es (step-Sound s e w) (step-Accounted s e w v)

initial-Accounted : (n : ℕ) → Accounted (initial n).pool
unfolding initial named_labels limit
initial-Accounted n = record {
  counted = λ l. ground (arith, Dict.get-empty {V = ℕ} l, Dict.total-empty (labelled l));
  positive = λ l. ground (arith, Dict.get-empty {V = ℕ} l);
  gauged = ground (arith, Dict.total-empty connected);
  bounded =
      ground
        (arith, Dict.size-empty String ℕ ⦃e = string_eq⦄, Dict.get-empty {V = ℕ} other_hypervisor);
  unlost = refl;
}

pub reachable-Accounted : (n : ℕ) (es : List Event) → Accounted (run (initial n) es).pool
reachable-Accounted n es = run-Accounted (initial n) es (initial-Sound n) (initial-Accounted n)
