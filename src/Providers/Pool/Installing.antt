-- ===== src/Providers/Pool/Installing.antt =====
-- internal/providers/pool.go: reservations when a connection is stored.
use cluster_api_provider_hyd.Base.{
  ℕ, ◌≡◌, refl, sym, ap, ◌∙◌, inl, inr, false, none, some, String, arith, ◌==◌, nat_eq, string_eq,
  Bool-cases, zero_or_pos,
}
use cluster_api_provider_hyd.Base.Dict
use cluster_api_provider_hyd.Base.Dict.{Dict}
use cluster_api_provider_hyd.Providers.Pool.{owner_eq, Outcome, Entry, Pool}
use cluster_api_provider_hyd.Providers.Pool.Flights.{dialing, opened, Flight}
use cluster_api_provider_hyd.Providers.Pool.Evolution.{entry_of-get, get-entry_of}
use cluster_api_provider_hyd.Providers.Pool.Soundness.{waits, Reserved}
use mathlib.Core.Path.{subst₂}
use text.Mathlib.TextEquality.{eq_iff}

-- Nobody has reserved what is not in the pool.
pub unwaited :
    {p : Pool} {fs : Dict ℕ Flight} (v : Reserved p fs) (key : String) (id : ℕ)
    → p.closed ≡ false
    → Dict.get p.conns key ≡ none
    → Dict.total (waits key id) fs ≡ 0
unwaited {p} {fs} v key id live missing = elim (zero_or_pos (Dict.total (waits key id) fs)) [
  | inl none_there ↦ none_there
  | inr some_there ↦
      let (g, f, flying, one) = Dict.total_pos (waits key id) fs some_there in
      let (e, found) = v.reserved live g f flying in
      let at = entry_of-get p f.ticket found in ground (arith, at, eq_iff f.ticket.key key)
]

-- A Get that has dialled stores its connection and leaves the slot.
pub install-Reserved :
    (p : Pool) (fs : Dict ℕ Flight) (g : ℕ) (f : Flight) (e e' : Entry) (r : Outcome)
    → Dict.get fs g ≡ some f
    → Dict.get p.conns f.ticket.key ≡ some e
    → e'.id ≡ e.id
    → e'.pending ≡ e.pending
    → e.id ≡ f.ticket.entry
    → ((h : ℕ) (f₁ : Flight)
        → Dict.get fs h ≡ some f₁
        → f₁.phase ≡ dialing
        → f₁.ticket.entry ≡ f.ticket.entry
        → h ≡ g)
    → Reserved p fs
    → Reserved
        (record p { conns = Dict.put p.conns f.ticket.key e' })
        (Dict.put fs g (record f { phase = opened r }))
install-Reserved p fs g f e e' r flying found id pend mine alone v =
    let key = f.ticket.key in
    let f' : Flight = record f { phase = opened r } in
    let q : Pool = record p { conns = Dict.put p.conns key e' } in
    record {
      reserved = λ live h f₁ there. elim (Bool-cases (g == h)) [
        | inl self ↦ (
          e',
          get-entry_of q f₁.ticket
              (ground (
                arith,
                Dict.get-put fs g h f',
                Dict.get-put p.conns key f₁.ticket.key e',
                eq_iff key f₁.ticket.key,
              ))
              (ground (arith, Dict.get-put fs g h f')),
        )
        | inr other ↦
            let (e₁, found₁) = v.reserved live h f₁ (ground (arith, Dict.get-put fs g h f')) in
            let at₁ = entry_of-get p f₁.ticket found₁ in
            elim (Bool-cases (key == f₁.ticket.key)) [
              | inl here ↦ (
                e',
                get-entry_of q f₁.ticket (rw (Dict.get-put p.conns key f₁.ticket.key e', here))
                    (ground (arith, at₁, eq_iff key f₁.ticket.key)),
              )
              | inr away ↦ (
                e₁,
                get-entry_of q f₁.ticket
                    (rw (Dict.get-put p.conns key f₁.ticket.key e', away) at₁.0) at₁.1,
              )
            ]
      ];
      pending = λ k e₁ found₁. elim (Bool-cases (key == k)) [
        | inl here ↦
            let same_entry : e₁ ≡ e' =
              ground (arith, Dict.get-put p.conns key k e', eq_iff key k) in
            let here_path : key ≡ k = ground (arith, eq_iff key k) in
            subst₂
              (λ (j : String) (x : Entry). x.pending ≡ Dict.total (waits j x.id) (Dict.put fs g f'))
              here_path (sym same_entry)
              (pend
                ∙ v.pending key e found
                ∙ ap (λ (n : ℕ). Dict.total (waits key n) fs) (sym id)
                ∙ sym (Dict.total-put_same (waits key e'.id) fs g f f' flying refl))
        | inr away ↦ ground (
          arith,
          Dict.get-put p.conns key k e',
          v.pending k e₁,
          Dict.total-put_same (waits k e₁.id) fs g f f',
        )
      ];
      unopened = λ h f₁ e₁ there dials found₁.
          let at₁ = entry_of-get q f₁.ticket found₁ in
          elim (Bool-cases (g == h)) [
            | inl self ↦ ground (arith, Dict.get-put fs g h f')
            | inr other ↦
                let there' : Dict.get fs h ≡ some f₁ = ground (arith, Dict.get-put fs g h f') in
                elim (Bool-cases (key == f₁.ticket.key)) [
                  | inl here ↦ ground (
                    arith,
                    at₁,
                    alone h f₁ there' dials,
                    Dict.get-put p.conns key f₁.ticket.key e',
                    eq_iff key f₁.ticket.key,
                  )
                  | inr away ↦ v.unopened h f₁ e₁ there' dials (
                      get-entry_of p f₁.ticket
                        (ground (arith, at₁, Dict.get-put p.conns key f₁.ticket.key e')) at₁.1)
                ]
          ];
    }
