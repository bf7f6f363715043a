-- ===== src/Providers/Pool/Finishing.antt =====
-- internal/providers/pool.go: the last section of `get` keeps the invariant.
use cluster_api_provider_hyd.Base.{
  ℕ, ◌-◌, ◌≡◌, sym, ◌∙◌, inl, inr, true, false, none, some, String, arith, ◌==◌, nat_eq, string_eq,
  Option-cases, Bool-cases, if_cases,
}
use cluster_api_provider_hyd.Base.Dict
use cluster_api_provider_hyd.Base.Dict.{Dict}
use cluster_api_provider_hyd.Providers.Pool.{Outcome, Entry, Pool, idle}
use cluster_api_provider_hyd.Providers.Pool.Calls.{
  Ticket, entry_of, end_get, unreserve, abandon, settle, finish_get,
}
use cluster_api_provider_hyd.Providers.Pool.Flights.{Flight}
use cluster_api_provider_hyd.Providers.Pool.Frames.{Frame, end_get-Frame}
use cluster_api_provider_hyd.Providers.Pool.Ownership.{
  Owned, Busy, BusyBut, remove-Busy, remove-Owned,
}
use cluster_api_provider_hyd.Providers.Pool.Binding.{bind-Owned, bind-Busy}
use cluster_api_provider_hyd.Providers.Pool.Releasing.{Frame-Owned}
use cluster_api_provider_hyd.Providers.Pool.Evolution.{
  Evolves-same, entry_of-get, abandon-Evolves, bind-Evolves, settle-Evolves,
}
use cluster_api_provider_hyd.Providers.Pool.Soundness.{Reserved, Evolves-Reserved}
use cluster_api_provider_hyd.Providers.Pool.Reserving.{unreserve-Reserved}
use cluster_api_provider_hyd.Providers.Pool.Launching.{place-Owned}
use text.Mathlib.TextEquality.{eq_iff}

-- The pool between `e.pending--` and what follows: only the entry at `key` may be idle.
record Between (key : String) (p : Pool) : Type 0 where
  owned : Owned p
  busy : BusyBut key p
  emptied : p.closed ≡ true → (k : String) → Dict.get p.conns k ≡ none

unreserve-Between :
    (p : Pool) (t : Ticket)
    → Owned p
    → Busy p
    → (p.closed ≡ true → (k : String) → Dict.get p.conns k ≡ none)
    → Between t.key (unreserve p t)
unfolding unreserve
unreserve-Between p t v b emptied = elim (Option-cases (entry_of p t)) [
  | inl gone ↦ rw (gone, unreserve) (record { owned = v; busy = λ k e _. b k e; emptied = emptied })
  | inr (e, found) ↦
      let e' : Entry = record e { pending = e.pending - 1 } in
      let at = (entry_of-get p t found).0 in
      rw (found, unreserve)
        (record {
          owned = place-Owned p t.key e' (λ o. rw at) v;
          busy = λ k e₁ away found₁.
              ground (arith, eq_iff t.key k, Dict.get-put p.conns t.key k e', b k e₁);
          emptied = λ shut k. ground (arith, emptied shut k, emptied shut t.key);
        })
]

-- What the three endings of `get` leave.
pub record Finished (p : Pool) : Type 0 where
  pub owned : Owned p
  pub busy : Busy p
  pub emptied : p.closed ≡ true → (k : String) → Dict.get p.conns k ≡ none

abandon-Finished :
    (p : Pool) (t : Ticket) (e : Entry)
    → entry_of p t ≡ some e
    → Between t.key p
    → Finished (abandon p t)
unfolding abandon
abandon-Finished p t e found v =
    let at = (entry_of-get p t found).0 in
    let gone =
      λ (shut : p.closed ≡ true) (k : String). (abandon-Evolves p t).absent k (v.emptied shut k) in
    elim (Bool-cases (idle e)) [
      | inl spare ↦
          rw (found, spare, abandon)
            (record {
              owned = remove-Owned p t.key e at spare v.owned;
              busy = remove-Busy p t.key e v.busy;
              emptied = λ shut. ground (arith, v.emptied shut t.key);
            })
      | inr used ↦
          rw (found, used, abandon)
            (record {
              owned = v.owned;
              busy = λ k e₁ found₁. elim (Bool-cases (t.key == k)) [
                | inl here ↦ ground (arith, eq_iff t.key k, at)
                | inr away ↦ ground (arith, eq_iff t.key k, v.busy k e₁)
              ];
              emptied = v.emptied;
            })
    ]

settle-Finished :
    (p : Pool) (t : Ticket) (e : Entry)
    → entry_of p t ≡ some e
    → Between t.key p
    → Finished (settle p t)
unfolding settle
settle-Finished p t e found v =
    let at = (entry_of-get p t found).0 in
    rw (found, settle)
      (record {
        owned = bind-Owned p t.owner t.key e at v.owned;
        busy = bind-Busy p t.owner t.key e v.busy;
        emptied = λ shut.
            ground
              (arith, at, v.emptied (sym (bind-Evolves p t.owner t.key e at).closed ∙ shut) t.key);
      })

unreserve-closed : (p : Pool) (t : Ticket) → (unreserve p t).closed ≡ p.closed
unfolding unreserve
unreserve-closed p t = ground arith

entry_of-unreserve :
    (p q : Pool) (t : Ticket) (e : Entry)
    → entry_of p t ≡ some e
    → q.conns ≡ (unreserve p t).conns
    → entry_of q t ≡ some (record e { pending = e.pending - 1 })
unfolding unreserve entry_of
entry_of-unreserve p q t e found conns = ground (
  arith,
  found,
  conns,
  eq_iff t.key t.key,
  Dict.get-put p.conns t.key t.key (record e { pending = e.pending - 1 }),
)

-- The three endings, for the pool in which the reservation is undone.
finish_cases {ℓ} :
    (P : Pool → Type ℓ) (p : Pool) (t : Ticket) (r : Outcome)
    → (let (overtaken, q) = end_get (unreserve p t) t in
        (p.closed ≡ true → P q)
        → (p.closed ≡ false → overtaken ≡ true → P (abandon q t))
        → (p.closed ≡ false → overtaken ≡ false → P (settle q t))
        → P (finish_get p t r).1)
unfolding finish_get
finish_cases P p t r shut overtaken settled =
    if_cases (λ (o : Outcome × Pool). P o.1) p.closed shut
      (λ live.
        if_cases (λ (o : Outcome × Pool). P o.1) (end_get (unreserve p t) t).0 (overtaken live)
          (settled live))

pub finish_get-Finished :
    (p : Pool) (t : Ticket) (r : Outcome)
    → Owned p
    → Busy p
    → (p.closed ≡ true → (k : String) → Dict.get p.conns k ≡ none)
    → (p.closed ≡ false → (e : Entry) × (entry_of p t ≡ some e))
    → Finished (finish_get p t r).1
finish_get-Finished p t r owned busy emptied reserved =
    let q : Pool = (end_get (unreserve p t) t).1 in
    let f : Frame (unreserve p t) q = end_get-Frame (unreserve p t) t in
    let u : Between t.key (unreserve p t) = unreserve-Between p t owned busy emptied in
    let w : Between t.key q = record {
      owned = Frame-Owned u.owned f;
      busy = rw f.conns u.busy;
      emptied = rw (f.closed, f.conns) u.emptied;
    } in
    finish_cases Finished p t r
      (λ shut. record {
        owned = w.owned;
        busy = λ k e found.
            let gone = w.emptied (f.closed ∙ unreserve-closed p t ∙ shut) k in ground (arith, gone);
        emptied = w.emptied;
      })
      (λ live overtaken.
        let (e, found) = reserved live in
        abandon-Finished q t (record e { pending = e.pending - 1 })
          (entry_of-unreserve p q t e found f.conns) w)
      (λ live alone.
        let (e, found) = reserved live in
        settle-Finished q t (record e { pending = e.pending - 1 })
          (entry_of-unreserve p q t e found f.conns) w)

-- The entries of the other Gets in flight.
pub finish_get-Reserved :
    (p : Pool) (fs : Dict ℕ Flight) (g : ℕ) (f : Flight) (r : Outcome)
    → Dict.get fs g ≡ some f
    → (p.closed ≡ true → (k : String) → Dict.get p.conns k ≡ none)
    → Reserved p fs
    → Reserved (finish_get p f.ticket r).1 (Dict.delete fs g)
finish_get-Reserved p fs g f r flying emptied v =
    let t : Ticket = f.ticket in
    let q : Pool = (end_get (unreserve p t) t).1 in
    let frame : Frame (unreserve p t) q = end_get-Frame (unreserve p t) t in
    let w : Reserved q (Dict.delete fs g) =
      Evolves-Reserved (Evolves-same frame.conns frame.closed)
        (unreserve-Reserved p fs g f flying emptied v) in
    finish_cases (λ z. Reserved z (Dict.delete fs g)) p t r (λ shut. w)
      (λ live overtaken. Evolves-Reserved (abandon-Evolves q t) w)
      (λ live alone. Evolves-Reserved (settle-Evolves q t) w)
