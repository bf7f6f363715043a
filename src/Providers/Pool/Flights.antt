-- ===== src/Providers/Pool/Flights.antt =====
-- internal/providers/pool.go: calls of the pool that overlap. Each `Get` in flight has a number and
-- a phase; an event is one section under the lock, or one thing that happens between two of them.
-- Every interleaving of calls is a list of events, and an event that cannot happen changes nothing.
use cluster_api_provider_hyd.Base.{
  ℕ, Bool, not, ◌||◌, none, some, List, [], ◌∷◌, String, ◌==◌, nat_eq, string_eq, if◌then◌else◌,
  is_some, erase,
}
use cluster_api_provider_hyd.Base.Dict
use cluster_api_provider_hyd.Base.Dict.{Dict}
use cluster_api_provider_hyd.Providers.Pool.{
  Owner, pinned_owner, context_done, Outcome, failed, Pool, new_pool,
}
use cluster_api_provider_hyd.Providers.Pool.Calls.{
  Ticket, begin_get, Look, answered, must_dial, look, Dialed, install, finish_get, release,
  close_all,
}

-- Where a Get is: queued for the entry's `open` slot, in the slot before it has looked, dialling in
-- the slot, or back from `ensureOpen` with its result.
pub data Phase : Type 0 where
  queued : Phase
  holding : Phase
  dialing : Phase
  opened : Outcome → Phase

pub record Flight : Type 0 where
  pub ticket : Ticket
  pub phase : Phase

-- `slots` has the entries, by id, whose channel `open` is full, with the Get that filled it.
pub record System : Type 0 where
  pub pool : Pool
  pub flights : Dict ℕ Flight
  pub slots : Dict ℕ ℕ

pub data Event : Type 0 where
  starts : ℕ → Owner → String → String → Event
  starts_pinned : ℕ → String → String → Event
  gives_up : ℕ → Event
  enters : ℕ → Event
  looks : ℕ → Event
  dials : ℕ → Dialed → Event
  finishes : ℕ → Event
  releases : Owner → Event
  closes_all : Event
  closed_one : ℕ → Event

-- The check of `Get`.
unfoldable pub accepts : Owner → Bool
accepts owner = not (owner.kind == "" || owner.name == "")

-- `get`, up to the end of its first section.
unfoldable pub launch : System → ℕ → Owner → String → String → System
launch s g owner key name = elim (Dict.get s.flights g) [
  | some f ↦ s
  | none ↦ elim (begin_get s.pool owner key name) [
    | none ↦ s
    | some (t, p) ↦ record s {
      pool = p;
      flights = Dict.put s.flights g (record { ticket = t; phase = queued });
    }
  ]
]

abbrev pub at_phase : System → ℕ → Flight → Phase → System
at_phase s g f phase = record s { flights = Dict.put s.flights g (record f { phase = phase }) }

-- The slot is left when `ensureOpen` returns.
abbrev pub leave : System → ℕ → Flight → Outcome → System
leave s g f r = record (at_phase s g f (opened r)) { slots = Dict.delete s.slots f.ticket.entry }

-- `case e.open <- struct{}{}`
unfoldable pub enter : System → ℕ → Flight → Phase → System
enter s g f queued =
    if is_some (Dict.get s.slots f.ticket.entry)
    then s
    else record (at_phase s g f holding) { slots = Dict.put s.slots f.ticket.entry g }
enter s g f _ = s

-- `case <-ctx.Done()`
unfoldable pub give_up : System → ℕ → Flight → Phase → System
give_up s g f queued = at_phase s g f (opened (failed context_done))
give_up s g f _ = s

abbrev pub after_look : System → ℕ → Flight → Look → System
after_look s g f (answered r) = leave s g f r
after_look s g f must_dial = at_phase s g f dialing

unfoldable pub look_step : System → ℕ → Flight → Phase → System
look_step s g f holding = after_look s g f (look s.pool f.ticket)
look_step s g f _ = s

unfoldable pub dial_step : System → ℕ → Flight → Dialed → Phase → System
dial_step s g f d dialing =
    let (r, p) = install s.pool f.ticket d in leave (record s { pool = p }) g f r
dial_step s g f d _ = s

unfoldable pub finish_step : System → ℕ → Flight → Phase → System
finish_step s g f (opened r) = record s {
  pool = (finish_get s.pool f.ticket r).1;
  flights = Dict.delete s.flights g;
}
finish_step s g f _ = s

abbrev pub on_flight : System → ℕ → (Flight → System) → System
on_flight s g k = elim (Dict.get s.flights g) [ none ↦ s | some f ↦ k f ]

unfoldable pub step : System → Event → System
unfolding accepts launch enter give_up look_step dial_step finish_step
step s (starts g owner key name) = if accepts owner then launch s g owner key name else s
step s (starts_pinned g key name) = launch s g pinned_owner key name
step s (gives_up g) = on_flight s g (λ f. give_up s g f f.phase)
step s (enters g) = on_flight s g (λ f. enter s g f f.phase)
step s (looks g) = on_flight s g (λ f. look_step s g f f.phase)
step s (dials g d) = on_flight s g (λ f. dial_step s g f d f.phase)
step s (finishes g) = on_flight s g (λ f. finish_step s g f f.phase)
step s (releases owner) = record s { pool = release s.pool owner }
step s closes_all = record s { pool = close_all s.pool }
step s (closed_one c) = record s { pool = record (s.pool) { closes = erase c s.pool.closes } }

unfoldable pub initial : ℕ → System
unfolding new_pool
initial label_limit = record {
  pool = new_pool label_limit;
  flights = Dict.empty;
  slots = Dict.empty;
}

unfoldable pub run : System → List Event → System
run s [] = s
run s (e ∷ es) = run (step s e) es
