-- ===== src/Providers/Pool/Soundness.antt =====
-- internal/providers/pool.go: the invariant of the pool with its Gets in flight, and what keeps it.
use cluster_api_provider_hyd.Base.{
  ℕ, ◌<◌, ◌≡◌, sym, ap, ◌∙◌, inl, inr, Bool, true, false, ◌&&◌, none, some, String, arith, ◌==◌,
  nat_eq, string_eq, tally, Option-cases,
}
use cluster_api_provider_hyd.Base.Dict
use cluster_api_provider_hyd.Base.Dict.{Dict}
use cluster_api_provider_hyd.Providers.Pool.{owner_eq, Entry, Pool}
use cluster_api_provider_hyd.Providers.Pool.Calls.{entry_of}
use cluster_api_provider_hyd.Providers.Pool.Flights.{Phase, holding, dialing, Flight, System}
use cluster_api_provider_hyd.Providers.Pool.Ownership.{Owned, Busy}
use cluster_api_provider_hyd.Providers.Pool.Evolution.{
  Evolves, SameEntry, entry_of-get, get-entry_of,
}
use text.Mathlib.TextEquality.{eq_iff}

-- Whether a Get has reserved the entry `id` at `key`.
abbrev pub waits : String → ℕ → ℕ → Flight → ℕ
waits key id g f = tally (f.ticket.key == key && f.ticket.entry == id)

abbrev pub in_slot : Phase → Bool
in_slot holding = true
in_slot dialing = true
in_slot _ = false

-- What the entries and the Gets in flight say of each other.
pub record Reserved (p : Pool) (flights : Dict ℕ Flight) : Type 0 where
  pub reserved :
      p.closed ≡ false
      → (g : ℕ) (f : Flight) → Dict.get flights g ≡ some f
      → (e : Entry) × (entry_of p f.ticket ≡ some e)
  pub pending :
      (k : String) (e : Entry)
      → Dict.get p.conns k ≡ some e
      → e.pending ≡ Dict.total (waits k e.id) flights
  pub unopened :
      (g : ℕ) (f : Flight) (e : Entry)
      → Dict.get flights g ≡ some f
      → f.phase ≡ dialing
      → entry_of p f.ticket ≡ some e
      → e.prov ≡ none

pub record Sound (s : System) : Type 0 where
  pub owned : Owned s.pool
  pub busy : Busy s.pool
  pub emptied : s.pool.closed ≡ true → (k : String) → Dict.get s.pool.conns k ≡ none
  pub flights : Reserved s.pool s.flights
  pub slots :
      (g : ℕ) (f : Flight)
      → Dict.get s.flights g ≡ some f
      → in_slot f.phase ≡ true
      → Dict.get s.slots f.ticket.entry ≡ some g

-- The entry that a Get has reserved is pending.
pub Reserved-pending :
    {p : Pool} {fs : Dict ℕ Flight} (v : Reserved p fs) (g : ℕ) (f : Flight) (e : Entry)
    → Dict.get fs g ≡ some f
    → entry_of p f.ticket ≡ some e
    → 0 < e.pending
Reserved-pending {p} {fs} v g f e flying found =
    let at = entry_of-get p f.ticket found in
    ground (
      arith,
      at,
      v.pending f.ticket.key e at.0,
      Dict.at-le-total (waits f.ticket.key e.id) fs g,
      eq_iff f.ticket.key f.ticket.key,
    )

-- A section that only evolves the pool keeps all this.
pub Evolves-Reserved :
    {p q : Pool} {fs : Dict ℕ Flight} → Evolves p q → Reserved p fs → Reserved q fs
Evolves-Reserved {p} {q} {fs} ev v = record {
  reserved = λ live g f flying. still g f flying (v.reserved (rw (← ev.closed) live) g f flying);
  pending = λ k e' found'.
      let (e, found, (i, n, _)) = before k e' found' in
      n ∙ v.pending k e found ∙ ap (λ (id : ℕ). Dict.total (waits k id) fs) (sym i);
  unopened = λ g f e' flying dials found'.
      let at = entry_of-get q f.ticket found' in
      let (e, found, (i, _, c)) = before f.ticket.key e' at.0 in
      c ∙ v.unopened g f e flying dials (get-entry_of p f.ticket found (sym i ∙ at.1));
}
  where
    -- What is in `q` was in `p`.
    before :
        (k : String) (e' : Entry)
        → Dict.get q.conns k ≡ some e'
        → (e : Entry) × (Dict.get p.conns k ≡ some e) × SameEntry e e'
    before k e' found' = elim (Option-cases (Dict.get p.conns k)) [
      | inl missing ↦ ground (arith, ev.absent k missing)
      | inr (e, found) ↦ elim (ev.kept k e found) [
        | inl (e₁, found₁, (i, n, c)) ↦ (e, found, (ground arith, ground arith, ground arith))
        | inr (gone, free) ↦ ground arith
      ]
    ]

    still :
        (g : ℕ) (f : Flight)
        → Dict.get fs g ≡ some f
        → (e : Entry) × (entry_of p f.ticket ≡ some e)
        → (e : Entry) × (entry_of q f.ticket ≡ some e)
    still g f flying (e, found) = elim (ev.kept f.ticket.key e (entry_of-get p f.ticket found).0) [
      | inl (e', found', (i, n, c)) ↦
          (e', get-entry_of q f.ticket found' (i ∙ (entry_of-get p f.ticket found).1))
      | inr (gone, free) ↦ absurd (omega (arith, Reserved-pending v g f e flying found))
    ]
