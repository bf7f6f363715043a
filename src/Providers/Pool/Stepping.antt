-- ===== src/Providers/Pool/Stepping.antt =====
-- internal/providers/pool.go: that each step of a Get in flight keeps what is sound.
use cluster_api_provider_hyd.Base.{
  ℕ, ◌≡◌, refl, inl, inr, true, false, Option, none, some, List, [], ◌∷◌, String, arith, nat_eq,
  string_eq, is_some, Option-cases, if_cases,
}
use cluster_api_provider_hyd.Base.Dict
use cluster_api_provider_hyd.Base.Dict.{Dict}
use cluster_api_provider_hyd.Providers.Pool.{
  owner_eq, Outcome, provider, failed, context_done, Entry, Pool, remove,
}
use cluster_api_provider_hyd.Providers.Pool.Calls.{
  Ticket, entry_of, Look, answered, must_dial, look, Dialed, up, down, install, release, remove_all,
  store, release_of, finish_get,
}
use cluster_api_provider_hyd.Providers.Pool.Flights.{
  System, Flight, Phase, queued, holding, dialing, opened, enter, give_up, look_step, dial_step,
  finish_step, after_look, leave,
}
use cluster_api_provider_hyd.Providers.Pool.Ownership.{put-Busy}
use cluster_api_provider_hyd.Providers.Pool.Evolution.{Evolves-same, entry_of-get}
use cluster_api_provider_hyd.Providers.Pool.Soundness.{
  in_slot, Sound, Evolves-Reserved, Reserved-pending,
}
use cluster_api_provider_hyd.Providers.Pool.Reserving.{rephase-Reserved}
use cluster_api_provider_hyd.Providers.Pool.Installing.{install-Reserved}
use cluster_api_provider_hyd.Providers.Pool.Launching.{place-Owned, reserved_busy}
use cluster_api_provider_hyd.Providers.Pool.Finishing.{
  Finished, finish_get-Finished, finish_get-Reserved,
}

store-found :
    (p : Pool) (t : Ticket) (c : ℕ) (release : Option ℕ) {e : Entry}
    → entry_of p t ≡ some e
    → ((store p t c release).conns
        ≡ Dict.put p.conns t.key (record e { prov = some c; release = release }))
      × ((store p t c release).owners ≡ p.owners)
      × ((store p t c release).closed ≡ p.closed)
unfolding store
store-found p t c release found = rw (found, store) (refl, refl, refl)

pub remove_all-closed : (keys : List String) (p : Pool) → (remove_all keys p).closed ≡ p.closed
unfolding remove_all
remove_all-closed [] p = refl
remove_all-closed (key ∷ keys) p = elim (Option-cases (Dict.get p.conns key)) [
  | inl gone ↦ ground (arith, gone, remove_all-closed keys p)
  | inr (e, found) ↦ ground (arith, found, remove_all-closed keys (remove p key e))
]

module _ (s : System) (g : ℕ) (f : Flight) (flying : Dict.get s.flights g ≡ some f)
    (v : Sound s) where
  pub give_up-Sound : Sound (give_up s g f f.phase)
  unfolding give_up
  give_up-Sound = by_phase f.phase refl
    where
      moved : Flight
      moved = record f { phase = opened (failed context_done) }

      by_phase : (phase : Phase) → f.phase ≡ phase → Sound (give_up s g f phase)
      by_phase queued at = record {
        owned = v.owned;
        busy = v.busy;
        emptied = v.emptied;
        flights =
            rephase-Reserved s.pool s.flights g f (opened (failed context_done)) flying (λ q. cc)
              v.flights;
        slots = λ h f₁ there inside.
            v.slots h f₁ (ground (arith, Dict.get-put s.flights g h moved)) inside;
      }
      by_phase holding at = v
      by_phase dialing at = v
      by_phase (opened r) at = v

  pub enter-Sound : Sound (enter s g f f.phase)
  unfolding enter
  enter-Sound = by_phase f.phase refl
    where
      moved : Flight
      moved = record f { phase = holding }

      by_phase : (phase : Phase) → f.phase ≡ phase → Sound (enter s g f phase)
      by_phase queued at =
          if_cases Sound (is_some (Dict.get s.slots f.ticket.entry)) (λ taken. v)
            (λ free. record {
              owned = v.owned;
              busy = v.busy;
              emptied = v.emptied;
              flights = rephase-Reserved s.pool s.flights g f holding flying (λ q. cc) v.flights;
              slots = λ h f₁ there inside. ground (
                arith,
                Dict.get-put s.flights g h moved,
                v.slots h f₁,
                free,
                Dict.get-put s.slots f.ticket.entry f₁.ticket.entry g,
              );
            })
      by_phase holding at = v
      by_phase dialing at = v
      by_phase (opened r) at = v

  leave_slots :
      (r : Outcome)
      → in_slot f.phase ≡ true
      → (h : ℕ) (f₁ : Flight)
      → Dict.get (Dict.put s.flights g (record f { phase = opened r })) h ≡ some f₁
      → in_slot f₁.phase ≡ true
      → Dict.get (Dict.delete s.slots f.ticket.entry) f₁.ticket.entry ≡ some h
  leave_slots r mine h f₁ there inside = ground (
    arith,
    Dict.get-put s.flights g h (record f { phase = opened r }),
    v.slots h f₁,
    v.slots g f,
    Dict.get-delete s.slots f.ticket.entry f₁.ticket.entry,
  )

  leave-Sound :
      (r : Outcome)
      → in_slot f.phase ≡ true
      → Sound (record s {
        flights = Dict.put s.flights g (record f { phase = opened r });
        slots = Dict.delete s.slots f.ticket.entry;
      })
  leave-Sound r mine = record {
    owned = v.owned;
    busy = v.busy;
    emptied = v.emptied;
    flights = rephase-Reserved s.pool s.flights g f (opened r) flying (λ q. cc) v.flights;
    slots = leave_slots r mine;
  }

  look_dial :
      look s.pool f.ticket ≡ must_dial
      → (e : Entry) → entry_of s.pool f.ticket ≡ some e
      → e.prov ≡ none
  unfolding look
  look_dial seen e found = ground arith

  pub look_step-Sound : Sound (look_step s g f f.phase)
  unfolding look_step
  look_step-Sound = by_phase f.phase refl
    where
      moved : Flight
      moved = record f { phase = dialing }

      by_look :
          f.phase ≡ holding → (l : Look) → look s.pool f.ticket ≡ l → Sound (after_look s g f l)
      by_look at (answered r) seen = leave-Sound r (rw at)
      by_look at must_dial seen = record {
        owned = v.owned;
        busy = v.busy;
        emptied = v.emptied;
        flights =
            rephase-Reserved s.pool s.flights g f dialing flying (λ _. look_dial seen) v.flights;
        slots = λ h f₁ there inside.
            ground (arith, Dict.get-put s.flights g h moved, v.slots h f₁, v.slots g f);
      }

      by_phase : (phase : Phase) → f.phase ≡ phase → Sound (look_step s g f phase)
      by_phase queued at = v
      by_phase holding at = by_look at (look s.pool f.ticket) refl
      by_phase dialing at = v
      by_phase (opened r) at = v

  abbrev pub landed : Outcome → Pool → System
  landed r p = leave (record s { pool = p }) g f r

  -- A pool that differs in nothing the invariant reads.
  aside-Sound :
      (r : Outcome) (p : Pool)
      → in_slot f.phase ≡ true
      → p.conns ≡ s.pool.conns
      → p.owners ≡ s.pool.owners
      → p.closed ≡ s.pool.closed
      → Sound (landed r p)
  aside-Sound r p mine conns owners closed =
      let w = leave-Sound r mine in
      record {
        owned = record {
          held = λ o k. rw (owners, conns) (v.owned.held o k);
          known = λ k e o. rw (owners, conns) (v.owned.known k e o);
        };
        busy = rw conns v.busy;
        emptied = rw (closed, conns) v.emptied;
        flights = Evolves-Reserved (Evolves-same conns closed) w.flights;
        slots = w.slots;
      }

  store-Sound :
      (c : ℕ) (release : Option ℕ) (p : Pool) (e : Entry)
      → f.phase ≡ dialing
      → s.pool.closed ≡ false
      → entry_of s.pool f.ticket ≡ some e
      → p.conns ≡ Dict.put s.pool.conns f.ticket.key (record e { prov = some c; release = release })
      → p.owners ≡ s.pool.owners
      → p.closed ≡ s.pool.closed
      → Sound (landed (provider c) p)
  store-Sound c release p e at live found conns owners closed =
      let e' : Entry = record e { prov = some c; release = release } in
      let q : Pool = record (s.pool) { conns = Dict.put s.pool.conns f.ticket.key e' } in
      let here = entry_of-get s.pool f.ticket found in
      let placed = place-Owned s.pool f.ticket.key e' (λ o. rw here.0) v.owned in
      record {
        owned = record {
          held = λ o k. rw (owners, conns) (placed.held o k);
          known = λ k e₁ o. rw (owners, conns) (placed.known k e₁ o);
        };
        busy = rw conns (
            put-Busy s.pool f.ticket.key e'
              (reserved_busy e' (Reserved-pending v.flights g f e flying found))
              (λ k e₁ _. v.busy k e₁));
        emptied = λ shut. ground arith;
        flights = Evolves-Reserved {p = q} (Evolves-same conns closed) (
            install-Reserved s.pool s.flights g f e e' (provider c) flying here.0 refl refl here.1
              (λ h f₁ there dials same. ground (arith, v.slots h f₁, v.slots g f)) v.flights);
        slots = leave_slots (provider c) (rw at);
      }

  pub dial_step-Sound : (d : Dialed) → Sound (dial_step s g f d f.phase)
  unfolding dial_step install
  dial_step-Sound d = by_phase d f.phase refl
    where
      by_phase : (d : Dialed) (phase : Phase) → f.phase ≡ phase → Sound (dial_step s g f d phase)
      by_phase d queued at = v
      by_phase d holding at = v
      by_phase d (opened r) at = v
      by_phase down dialing at = aside-Sound _ s.pool (rw at) refl refl refl
      by_phase (up c has) dialing at =
          if_cases (λ (o : Outcome × Pool). Sound (landed o.0 o.1)) s.pool.closed
            (λ shut. aside-Sound _ _ (rw at) refl refl refl)
            (λ live.
              let (e, found) = v.flights.reserved live g f flying in
              let (conns, owners, closed) =
                store-found s.pool f.ticket c (release_of c has) found in
              store-Sound c (release_of c has) _ e at live found conns owners closed)

  pub finish_step-Sound : Sound (finish_step s g f f.phase)
  unfolding finish_step
  finish_step-Sound = by_phase f.phase refl
    where
      by_phase : (phase : Phase) → f.phase ≡ phase → Sound (finish_step s g f phase)
      by_phase queued at = v
      by_phase holding at = v
      by_phase dialing at = v
      by_phase (opened r) at =
          let done : Finished (finish_get s.pool f.ticket r).1 =
            finish_get-Finished s.pool f.ticket r v.owned v.busy v.emptied
              (λ live. v.flights.reserved live g f flying) in
          record {
            owned = done.owned;
            busy = done.busy;
            emptied = done.emptied;
            flights = finish_get-Reserved s.pool s.flights g f r flying v.emptied v.flights;
            slots = λ h f₁ there. v.slots h f₁ (ground (arith, Dict.get-delete s.flights g h));
          }
