-- ===== src/Providers/Libvirt/Connection/Closing.antt =====
-- internal/providers/libvirt/libvirt.go: a provider that was closed never connects again.
use cluster_api_provider_hyd.Base.{
  ℕ, Bool, true, false, Option, none, some, List, [], ◌∷◌, ◌≡◌, refl, ◌∙◌, ◌==◌, nat_eq, arith,
  if_cases,
}
use cluster_api_provider_hyd.Base.Dict.{get}
use cluster_api_provider_hyd.Providers.Libvirt.Connection.{
  Stage, not_dialed, connecting, handshaking, connected, DialAttempt, Provider, Event, calls,
  gives_up, returns, ends_at_limit, dials, arrives, fails_to_dial, arrives_late, finishes,
  shakes_hands, closes, recycles, dies, recycle, abandon, ensure_connected, nobody_waits, withdrawn,
  abandon_dial, dial_begins, dial_ends, dial_fails, handshake_ends, attempt_ends, returned, step,
  run,
}

-- `q` is closed, on the same client, and no attempt has begun since `p`.
pub record Closed (p q : Provider) : Type 0 where
  pub closed : q.closed ≡ true
  pub same_client : q.lv ≡ p.lv
  pub no_attempt : q.attempts ≡ p.attempts

module _ (p : Provider) (shut : p.closed ≡ true) where
  here : Closed p p
  here = record { closed = shut; same_client = refl; no_attempt = refl }

  where_any :
      {A : Type 0} (o : Option A) {q : Provider} {f : A → Provider}
      → Closed p q
      → ((a : A) → Closed p (f a))
      → Closed p (elim o [ none ↦ q | some a ↦ f a ])
  where_any none sq sf = sq
  where_any (some a) sq sf = sf a

  recycle-Closed : (q : Provider) → Closed p q → Closed p (recycle q)
  unfolding recycle
  recycle-Closed q h = record {
    closed = h.closed;
    same_client = h.same_client;
    no_attempt = h.no_attempt;
  }

  abandon-Closed : (id : ℕ) (q : Provider) → Closed p q → Closed p (abandon id q)
  unfolding abandon
  abandon-Closed id q h = where_any q.dial h λ a.
      if_cases (Closed p) (a.id == id)
        (λ _. record { closed = h.closed; same_client = h.same_client; no_attempt = h.no_attempt })
        λ _. h

  abandon_dial-Closed : (g id : ℕ) → Closed p (abandon_dial g id p)
  unfolding abandon_dial
  abandon_dial-Closed g id =
      if_cases (Closed p) (nobody_waits (withdrawn g id p).dial)
        (λ _. abandon-Closed id (withdrawn g id p) gone) λ _. gone
    where
      gone : Closed p (withdrawn g id p)
      gone = record { closed = shut; same_client = refl; no_attempt = refl }

  ensure_connected-Closed : (g : ℕ) (up : Bool) → Closed p (ensure_connected g up p)
  unfolding ensure_connected
  ensure_connected-Closed g up =
      if_cases (Closed p) p.closed (λ _. here) λ usable. absurd (ground (arith, usable, shut))

  returned-Closed : (g id : ℕ) (o : Option DialAttempt) → Closed p (returned g id o p)
  returned-Closed g id none = record { closed = shut; same_client = refl; no_attempt = refl }
  returned-Closed g id (some a) =
      if_cases (Closed p) (a.id == id) (λ _. here)
        λ _. record { closed = shut; same_client = refl; no_attempt = refl }

  module _ (a : DialAttempt) where
    dial_begins-Closed : (stage : Stage) → Closed p (dial_begins a stage p)
    dial_begins-Closed not_dialed =
        if_cases (Closed p) p.dialer.abandoned
          (λ _. record { closed = shut; same_client = refl; no_attempt = refl })
          λ _. record { closed = shut; same_client = refl; no_attempt = refl }
    dial_begins-Closed stage = here

    dial_ends-Closed : (stage : Stage) → Closed p (dial_ends a stage p)
    dial_ends-Closed connecting =
        if_cases (Closed p) p.dialer.abandoned
          (λ _. record { closed = shut; same_client = refl; no_attempt = refl })
          λ _. record { closed = shut; same_client = refl; no_attempt = refl }
    dial_ends-Closed stage = here

    dial_fails-Closed : (stage : Stage) → Closed p (dial_fails a stage p)
    dial_fails-Closed connecting = record { closed = shut; same_client = refl; no_attempt = refl }
    dial_fails-Closed stage = here

    handshake_ends-Closed : (well : Bool) (stage : Stage) → Closed p (handshake_ends well a stage p)
    handshake_ends-Closed well handshaking = record {
      closed = shut;
      same_client = refl;
      no_attempt = refl;
    }
    handshake_ends-Closed well stage = here

    attempt_ends-Closed : (stage : Stage) → Closed p (attempt_ends a stage p)
    attempt_ends-Closed (connected true) =
        if_cases (Closed p) p.closed
          (λ _.
            recycle-Closed (record p { dial = none })
              (record { closed = shut; same_client = refl; no_attempt = refl }))
          λ up. absurd (ground (arith, up, shut))
    attempt_ends-Closed (connected false) = record {
      closed = shut;
      same_client = refl;
      no_attempt = refl;
    }
    attempt_ends-Closed stage = here

  step-Closed : (e : Event) → Closed p (step p e)
  unfolding step
  step-Closed (calls g up) = where_any (get p.callers g) (ensure_connected-Closed g up) λ _. here
  step-Closed (gives_up g) = where_any (get p.callers g) here λ id. abandon_dial-Closed g id
  step-Closed (returns g) = where_any (get p.callers g) here λ id. returned-Closed g id p.dial
  step-Closed (ends_at_limit id) = abandon-Closed id p here
  step-Closed dials = where_any p.dial here λ a. dial_begins-Closed a a.stage
  step-Closed arrives = where_any p.dial here λ a. dial_ends-Closed a a.stage
  step-Closed fails_to_dial = where_any p.dial here λ a. dial_fails-Closed a a.stage
  step-Closed finishes = where_any p.dial here λ a. attempt_ends-Closed a a.stage
  step-Closed (shakes_hands well) = where_any p.dial here λ a. handshake_ends-Closed a well a.stage
  step-Closed recycles = recycle-Closed p here
  step-Closed arrives_late = record { closed = shut; same_client = refl; no_attempt = refl }
  step-Closed closes = record { closed = refl; same_client = refl; no_attempt = refl }
  step-Closed (dies n) = record { closed = shut; same_client = refl; no_attempt = refl }

-- Whatever happens to a provider that was closed, it stays closed, keeps its client, and begins no attempt
-- to connect.
pub closed_for_good : (es : List Event) (p : Provider) → p.closed ≡ true → Closed p (run p es)
unfolding run
closed_for_good [] p shut = here p shut
closed_for_good (e ∷ es) p shut =
    let now = step-Closed p shut e in
    let later = closed_for_good es (step p e) now.closed in
    record {
      closed = later.closed;
      same_client = later.same_client ∙ now.same_client;
      no_attempt = later.no_attempt ∙ now.no_attempt;
    }
