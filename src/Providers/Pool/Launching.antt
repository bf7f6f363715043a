-- ===== src/Providers/Pool/Launching.antt =====
-- internal/providers/pool.go: the first section of `get` keeps the invariant.
use cluster_api_provider_hyd.Base.{
  ℕ, suc, ◌+◌, ◌<◌, ◌≡◌, refl, sym, ap, ◌∙◌, inl, inr, false, none, some, String, arith, ◌==◌,
  nat_eq, string_eq, maybe, is_some, Option-cases, Bool-cases,
}
use cluster_api_provider_hyd.Base.Dict
use cluster_api_provider_hyd.Base.Dict.{Dict}
use cluster_api_provider_hyd.Providers.Pool.{Owner, owner_eq, Entry, Pool, acquire_label, idle}
use cluster_api_provider_hyd.Providers.Pool.Calls.{Ticket, start_get, reserve, begin_get}
use cluster_api_provider_hyd.Providers.Pool.Flights.{queued, System, launch}
use cluster_api_provider_hyd.Providers.Pool.Frames.{Frame, start_get-Frame}
use cluster_api_provider_hyd.Providers.Pool.Ownership.{owns, Owned, put-Busy}
use cluster_api_provider_hyd.Providers.Pool.Releasing.{Frame-Owned}
use cluster_api_provider_hyd.Providers.Pool.Evolution.{SameEntry, Evolves-same}
use cluster_api_provider_hyd.Providers.Pool.Soundness.{waits, Sound, Evolves-Reserved}
use cluster_api_provider_hyd.Providers.Pool.Reserving.{add-Reserved}
use cluster_api_provider_hyd.Providers.Pool.Installing.{unwaited}
use mathlib.Core.Path.{subst₂}
use text.Mathlib.TextEquality.{eq_iff}

-- Writes an entry with the owners that the one before it had.
pub place-Owned :
    (p : Pool) (key : String) (e' : Entry)
    → ((o : Owner) → owns e' o ≡ maybe false (λ (e : Entry). owns e o) (Dict.get p.conns key))
    → Owned p
    → Owned (record p { conns = Dict.put p.conns key e' })
place-Owned p key e' same v = record {
  held = λ o k h.
      let (e₁, at, owned) = v.held o k h in
      elim (Bool-cases (key == k)) [
        | inl here ↦
            (e', rw (Dict.get-put p.conns key k e', here), ground (arith, eq_iff key k, same o))
        | inr away ↦ (e₁, rw (Dict.get-put p.conns key k e', away) at, owned)
      ];
  known = λ k e₁ o at owned. elim (Option-cases (Dict.get p.conns key)) [
    | inl missing ↦
        ground (arith, eq_iff key k, Dict.get-put p.conns key k e', same o, v.known k e₁ o)
    | inr (e, found) ↦ ground (
      arith,
      eq_iff key k,
      Dict.get-put p.conns key k e',
      same o,
      v.known k e₁ o,
      v.known key e o,
    )
  ];
}

pub reserved_busy : (e : Entry) → 0 < e.pending → idle e ≡ false
unfolding idle
reserved_busy e h = ground arith

module _ (s : System) (g : ℕ) (owner : Owner) (key : String) (absent : Dict.get s.flights g ≡ none)
    (live : s.pool.closed ≡ false) where
  -- From `p`, which is the pool but for a label and the next id.
  reserve-Sound :
      (p : Pool) (e : Entry)
      → p.conns ≡ s.pool.conns
      → p.owners ≡ s.pool.owners
      → p.closed ≡ s.pool.closed
      → e.pending ≡ Dict.total (waits key e.id) s.flights
      → ((e₁ : Entry) → Dict.get s.pool.conns key ≡ some e₁ → SameEntry e₁ e)
      → ((o : Owner)
          → owns e o ≡ maybe false (λ (e₁ : Entry). owns e₁ o) (Dict.get s.pool.conns key))
      → Sound s
      → Sound (record s {
        pool = (reserve p owner key e).1;
        flights =
            Dict.put s.flights g (record { ticket = (reserve p owner key e).0; phase = queued });
      })
  unfolding reserve
  reserve-Sound p e conns owners closed pend same same_owners v =
      let e' : Entry = record e { pending = e.pending + 1 } in
      let q : Pool = record p { conns = Dict.put p.conns key e' } in
      let t : Ticket = (reserve p owner key e).0 in
      let f : Frame q (start_get q owner).2 = start_get-Frame q owner in
      let before : Owned p = record {
        held = λ o k. rw (owners, conns) (v.owned.held o k);
        known = λ k e₁ o. rw (owners, conns) (v.owned.known k e₁ o);
      } in
      record {
        owned = Frame-Owned (place-Owned p key e' (λ o. rw conns (same_owners o)) before) f;
        busy =
            rw f.conns (
              put-Busy p key e' (reserved_busy e' (omega arith))
                (λ k e₁ _. rw conns (v.busy k e₁)));
        emptied = λ shut. ground (arith, f.closed);
        flights = Evolves-Reserved (Evolves-same f.conns f.closed) (
            add-Reserved p s.flights g t e absent refl (closed ∙ live) pend
              (λ e₁. rw conns (same e₁)) (Evolves-Reserved (Evolves-same conns closed) v.flights));
        slots = λ h f₁ there inside.
            v.slots h f₁
              (ground (arith, Dict.get-put s.flights g h (record { ticket = t; phase = queued })))
              inside;
      }

-- An entry that is made: its label, id and counters are new.
made_entry : Pool → String → Entry
made_entry p name = record {
  id = p.next_id;
  name = name;
  label = (acquire_label p name).0;
  prov = none;
  release = none;
  owners = Dict.empty;
  pinned = false;
  pending = 0;
}

begin_cases {ℓ} :
    (P : Ticket → Pool → Type ℓ) (p : Pool) (owner : Owner) (key name : String) {t : Ticket}
    {q : Pool}
    → begin_get p owner key name ≡ some (t, q)
    → ((e : Entry)
        → p.closed ≡ false
        → Dict.get p.conns key ≡ some e
        → P (reserve p owner key e).0 (reserve p owner key e).1)
    → (p.closed ≡ false
        → Dict.get p.conns key ≡ none
        → let r =
            reserve
              (record ((acquire_label p name).1) { next_id = suc p.next_id })
              owner
              key
              (made_entry p name) in
          P r.0 r.1)
    → P t q
unfolding begin_get made_entry
begin_cases P p owner key name {t = t} {q = q} h old new = elim (Bool-cases p.closed) [
  | inl shut ↦ ground arith
  | inr live ↦ elim (Option-cases (Dict.get p.conns key)) [
    | inr (e, found) ↦ subst₂ P (ground arith) (ground arith) (old e live found)
    | inl missing ↦ subst₂ P (ground arith) (ground arith) (new live missing)
  ]
]

acquire_label-conns :
    (p : Pool) (name : String)
    → ((acquire_label p name).1.conns ≡ p.conns)
      × ((acquire_label p name).1.owners ≡ p.owners)
      × ((acquire_label p name).1.closed ≡ p.closed)
unfolding acquire_label
acquire_label-conns p name = (refl, refl, refl)

pub launch-Sound :
    (s : System) (g : ℕ) (owner : Owner) (key name : String)
    → Sound s
    → Sound (launch s g owner key name)
unfolding launch made_entry
launch-Sound s g owner key name v = elim (Option-cases (Dict.get s.flights g)) [
  | inr (f, there) ↦ rw (there, launch) v
  | inl absent ↦ elim (Option-cases (begin_get s.pool owner key name)) [
    | inl refused ↦ rw (absent, refused, launch) v
    | inr (tq, started) ↦
        rw (absent, started, launch)
          (begin_cases
            (λ t q. Sound (record s {
              pool = q;
              flights = Dict.put s.flights g (record { ticket = t; phase = queued });
            }))
            s.pool owner key name started
            (λ e live found.
              reserve-Sound s g owner key absent live s.pool e refl refl refl
                (v.flights.pending key e found) (λ e₁ found₁. ground (arith, found)) (λ o. rw found)
                v)
            (λ live missing.
              let (conns, owners, closed) = acquire_label-conns s.pool name in
              reserve-Sound s g owner key absent live
                (record ((acquire_label s.pool name).1) { next_id = suc s.pool.next_id })
                (made_entry s.pool name) conns owners closed
                (sym (unwaited v.flights key s.pool.next_id live missing))
                (λ e₁ found₁. ground (arith, missing))
                (λ o. rw missing (ap is_some (Dict.get-empty o))) v))
  ]
]
