-- ===== src/Providers/Pool/Reserving.antt =====
-- internal/providers/pool.go: a Get enters, changes its phase, installs its connection and leaves.
use cluster_api_provider_hyd.Base.{
  ℕ, ◌+◌, ◌-◌, ◌≡◌, refl, sym, ◌∙◌, inl, inr, true, false, none, some, String, arith, ◌==◌, nat_eq,
  string_eq, Option-cases, Bool-cases,
}
use cluster_api_provider_hyd.Base.Dict
use cluster_api_provider_hyd.Base.Dict.{Dict}
use cluster_api_provider_hyd.Providers.Pool.{owner_eq, Entry, Pool}
use cluster_api_provider_hyd.Providers.Pool.Calls.{Ticket, entry_of, unreserve}
use cluster_api_provider_hyd.Providers.Pool.Flights.{Phase, queued, dialing, Flight}
use cluster_api_provider_hyd.Providers.Pool.Evolution.{SameEntry, entry_of-get, get-entry_of}
use cluster_api_provider_hyd.Providers.Pool.Soundness.{waits, Reserved}
use mathlib.Core.Path.{subst₂}
use text.Mathlib.TextEquality.{eq_iff}

pub rephase-Reserved :
    (p : Pool) (fs : Dict ℕ Flight) (g : ℕ) (f : Flight) (phase : Phase)
    → Dict.get fs g ≡ some f
    → (phase ≡ dialing → (e : Entry) → entry_of p f.ticket ≡ some e → e.prov ≡ none)
    → Reserved p fs
    → Reserved p (Dict.put fs g (record f { phase = phase }))
rephase-Reserved p fs g f phase flying shut v = record {
  reserved = λ live h f₁ there. elim (Bool-cases (g == h)) [
    | inl self ↦
        let (e, found) = v.reserved live g f flying in
        (e, ground (arith, found, Dict.get-put fs g h (record f { phase = phase })))
    | inr other ↦
        v.reserved live h f₁ (ground (arith, Dict.get-put fs g h (record f { phase = phase })))
  ];
  pending = λ k e found.
      v.pending k e found
      ∙ sym (Dict.total-put_same (waits k e.id) fs g f (record f { phase = phase }) flying refl);
  unopened = λ h f₁ e there dials found. elim (Bool-cases (g == h)) [
    | inl self ↦
        shut (ground (arith, Dict.get-put fs g h (record f { phase = phase }))) e
          (ground (arith, found, Dict.get-put fs g h (record f { phase = phase })))
    | inr other ↦
        v.unopened h f₁ e (ground (arith, Dict.get-put fs g h (record f { phase = phase }))) dials
          found
  ];
}

-- After a write to the entry at `key` in place, what a Get points to has no provider if it had none.
written_unopened :
    (p : Pool) (f : Flight) (key : String) (e e' : Entry) {e₁ : Entry}
    → Dict.get p.conns key ≡ some e
    → e'.id ≡ e.id
    → e'.prov ≡ e.prov
    → (Dict.get (Dict.put p.conns key e') f.ticket.key ≡ some e₁) × (e₁.id ≡ f.ticket.entry)
    → ((e₂ : Entry) → entry_of p f.ticket ≡ some e₂ → e₂.prov ≡ none)
    → e₁.prov ≡ none
written_unopened p f key e e' {e₁ = e₁} found id prov at₁ old =
    elim (Bool-cases (key == f.ticket.key)) [
      | inl same ↦ ground (
        arith,
        at₁,
        eq_iff key f.ticket.key,
        Dict.get-put p.conns key f.ticket.key e',
        old e,
        get-entry_of p f.ticket {e = e},
      )
      | inr other ↦ ground (
        arith,
        at₁,
        Dict.get-put p.conns key f.ticket.key e',
        old e₁,
        get-entry_of p f.ticket {e = e₁},
      )
    ]

pub unreserve-Reserved :
    (p : Pool) (fs : Dict ℕ Flight) (g : ℕ) (f : Flight)
    → Dict.get fs g ≡ some f
    → (p.closed ≡ true → (k : String) → Dict.get p.conns k ≡ none)
    → Reserved p fs
    → Reserved (unreserve p f.ticket) (Dict.delete fs g)
unfolding unreserve
unreserve-Reserved p fs g f flying emptied v = elim (Option-cases (entry_of p f.ticket)) [
  | inl gone ↦
      rw (gone, unreserve)
        (record {
          reserved =
              λ live h f₁ there. v.reserved live h f₁ (ground (arith, Dict.get-delete fs g h));
          pending = λ k e found. elim (Bool-cases p.closed) [
            | inl shut ↦ ground (arith, emptied shut k)
            | inr live ↦ let (e₁, found₁) = v.reserved live g f flying in ground arith
          ];
          unopened = λ h f₁ e there dials found.
              v.unopened h f₁ e (ground (arith, Dict.get-delete fs g h)) dials found;
        })
  | inr (e, found) ↦
      let e' : Entry = record e { pending = e.pending - 1 } in
      let key = f.ticket.key in
      let q : Pool = record p { conns = Dict.put p.conns key e' } in
      let at = entry_of-get p f.ticket found in
      rw (found, unreserve)
        (record {
          reserved = λ live h f₁ there.
              let (e₁, found₁) = v.reserved live h f₁ (ground (arith, Dict.get-delete fs g h)) in
              let at₁ = entry_of-get p f₁.ticket found₁ in
              elim (Bool-cases (key == f₁.ticket.key)) [
                | inl same ↦ (
                  e',
                  get-entry_of q f₁.ticket (rw (Dict.get-put p.conns key f₁.ticket.key e', same))
                      (ground (arith, at₁, at, eq_iff key f₁.ticket.key)),
                )
                | inr other ↦ (
                  e₁,
                  get-entry_of q f₁.ticket
                      (rw (Dict.get-put p.conns key f₁.ticket.key e', other) at₁.0) at₁.1,
                )
              ];
          pending = λ k e₁ found₁. ground (
            arith,
            at,
            Dict.get-put p.conns key k e',
            eq_iff key k,
            v.pending k e₁,
            v.pending key e,
            Dict.total-delete_of (waits k e₁.id) fs g f,
            Dict.total-delete_of (waits key e.id) fs g f,
            v.pending key e at.0,
            eq_iff key key,
          );
          unopened = λ h f₁ e₁ there dials found₁.
              let at₁ = entry_of-get q f₁.ticket found₁ in
              written_unopened p f₁ key e e' at.0 refl refl at₁ (λ e₂ found₂.
                v.unopened h f₁ e₂ (ground (arith, Dict.get-delete fs g h)) dials found₂);
        })
]

pub add-Reserved :
    (p : Pool) (fs : Dict ℕ Flight) (g : ℕ) (t : Ticket) (e : Entry)
    → Dict.get fs g ≡ none
    → t.entry ≡ e.id
    → p.closed ≡ false
    → e.pending ≡ Dict.total (waits t.key e.id) fs
    → ((e₁ : Entry) → Dict.get p.conns t.key ≡ some e₁ → SameEntry e₁ e)
    → Reserved p fs
    → Reserved
        (record p { conns = Dict.put p.conns t.key (record e { pending = e.pending + 1 }) })
        (Dict.put fs g (record { ticket = t; phase = queued }))
add-Reserved p fs g t e absent id live pend same v =
    let e' : Entry = record e { pending = e.pending + 1 } in
    let f : Flight = record { ticket = t; phase = queued } in
    let q : Pool = record p { conns = Dict.put p.conns t.key e' } in
    record {
      reserved = λ _ h f₁ there. elim (Bool-cases (g == h)) [
        | inl self ↦ (
          e',
          get-entry_of q f₁.ticket
              (ground (
                arith,
                Dict.get-put fs g h f,
                Dict.get-put p.conns t.key f₁.ticket.key e',
                eq_iff t.key f₁.ticket.key,
              ))
              (ground (arith, Dict.get-put fs g h f)),
        )
        | inr other ↦
            let (e₁, found₁) = v.reserved live h f₁ (ground (arith, Dict.get-put fs g h f)) in
            let at₁ = entry_of-get p f₁.ticket found₁ in
            elim (Bool-cases (t.key == f₁.ticket.key)) [
              | inl here ↦ (
                e',
                get-entry_of q f₁.ticket (rw (Dict.get-put p.conns t.key f₁.ticket.key e', here))
                    (ground (arith, at₁, same e₁, eq_iff t.key f₁.ticket.key)),
              )
              | inr away ↦ (
                e₁,
                get-entry_of q f₁.ticket
                    (rw (Dict.get-put p.conns t.key f₁.ticket.key e', away) at₁.0) at₁.1,
              )
            ]
      ];
      pending = λ k e₁ found₁. elim (Bool-cases (t.key == k)) [
        | inl here ↦
            let same_entry : e₁ ≡ e' =
              ground (arith, Dict.get-put p.conns t.key k e', eq_iff t.key k) in
            let one : waits t.key e.id g f ≡ 1 = ground (arith, eq_iff t.key t.key) in
            let here_path : t.key ≡ k = ground (arith, eq_iff t.key k) in
            subst₂
              (λ (j : String) (x : Entry). x.pending ≡ Dict.total (waits j x.id) (Dict.put fs g f))
              here_path (sym same_entry)
              (omega (arith, pend, Dict.total-put_new (waits t.key e.id) fs g f absent, one))
        | inr away ↦ ground (
          arith,
          Dict.get-put p.conns t.key k e',
          v.pending k e₁,
          Dict.total-put_new (waits k e₁.id) fs g f,
        )
      ];
      unopened = λ h f₁ e₁ there dials found₁.
          let at₁ = entry_of-get q f₁.ticket found₁ in
          elim (Bool-cases (g == h)) [
            | inl self ↦ ground (arith, Dict.get-put fs g h f)
            | inr other ↦
                let flying : Dict.get fs h ≡ some f₁ = ground (arith, Dict.get-put fs g h f) in
                let (e₂, found₂) = v.reserved live h f₁ flying in
                let at₂ = entry_of-get p f₁.ticket found₂ in
                let none₂ = v.unopened h f₁ e₂ flying dials found₂ in
                ground (
                  arith,
                  at₁,
                  at₂,
                  none₂,
                  same e₂,
                  Dict.get-put p.conns t.key f₁.ticket.key e',
                  eq_iff t.key f₁.ticket.key,
                )
          ];
    }
