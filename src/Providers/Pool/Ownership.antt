-- ===== src/Providers/Pool/Ownership.antt =====
-- internal/providers/pool.go: who owns what. The two maps of owners agree, and an entry that nobody
-- uses does not stay in the pool.
use cluster_api_provider_hyd.Base.{
  ◌≡◌, ◌≢◌, ◌⊎◌, inl, inr, Bool, true, false, some, String, arith, ◌==◌, nat_eq, string_eq,
  if◌then◌else◌, is_some, Option-cases, Bool-cases,
}
use cluster_api_provider_hyd.Base.Dict
use cluster_api_provider_hyd.Base.Dict.{Dict}
use cluster_api_provider_hyd.Providers.Pool.{
  Owner, owner_eq, owner_beq_iff, Entry, Pool, idle, remove, unbind,
}
use text.Mathlib.TextEquality.{eq_iff}

abbrev pub owns : Entry → Owner → Bool
owns e o = is_some (Dict.get e.owners o)

pub record Owned (p : Pool) : Type 0 where
  pub held :
      (o : Owner) (k : String)
      → Dict.get p.owners o ≡ some k
      → (e : Entry) × (Dict.get p.conns k ≡ some e) × (owns e o ≡ true)
  pub known :
      (k : String) (e : Entry) (o : Owner)
      → Dict.get p.conns k ≡ some e
      → owns e o ≡ true
      → Dict.get p.owners o ≡ some k

-- No entry but the one at `key` may be idle.
abbrev pub BusyBut : String → Pool → Type 0
BusyBut key p = (k : String) (e : Entry) → key ≢ k → Dict.get p.conns k ≡ some e → idle e ≡ false

abbrev pub Busy : Pool → Type 0
Busy p = (k : String) (e : Entry) → Dict.get p.conns k ≡ some e → idle e ≡ false

idle_unowned : (e : Entry) (o : Owner) → idle e ≡ true → owns e o ≡ false
unfolding idle
idle_unowned e o h = ground (arith, Dict.size_zero e.owners o)

pub idle_unreserved : (e : Entry) → idle e ≡ true → e.pending ≡ 0
unfolding idle
idle_unreserved e h = ground arith

pub owned_busy : (e : Entry) (o : Owner) → owns e o ≡ true → idle e ≡ false
owned_busy e o h = ground (arith, idle_unowned e o)

pub remove-Busy : (p : Pool) (key : String) (e : Entry) → BusyBut key p → Busy (remove p key e)
unfolding remove
remove-Busy p key e b k e' found =
    ground (arith, eq_iff key k, Dict.get-delete p.conns key k, b k e')

pub put-Busy :
    (p : Pool) (key : String) (e : Entry)
    → idle e ≡ false
    → BusyBut key p
    → Busy (record p { conns = Dict.put p.conns key e })
put-Busy p key e h b k e' found = ground (arith, eq_iff key k, Dict.get-put p.conns key k e, b k e')

pub unbind-Busy :
    (p : Pool) (owner : Owner) (key : String) → BusyBut key p → Busy (unbind p owner key)
unfolding unbind
unbind-Busy p owner key b = elim (Option-cases (Dict.get p.conns key)) [
  | inl missing ↦ λ k e found. ground (arith, eq_iff key k, b k e)
  | inr (e, found) ↦
      let e' : Entry = record e { owners = Dict.delete e.owners owner } in
      elim (Bool-cases (idle e')) [
        | inl spare ↦ rw (found, spare, unbind) (remove-Busy p key e' b)
        | inr used ↦ rw (found, used, unbind) (put-Busy p key e' used b)
      ]
]

-- Takes an idle entry out.
pub remove-Owned :
    (p : Pool) (key : String) (e : Entry)
    → Dict.get p.conns key ≡ some e
    → idle e ≡ true
    → Owned p
    → Owned (remove p key e)
unfolding remove
remove-Owned p key e found spare v = record {
  held = λ o k h.
      let (e₁, at, owned) = v.held o k h in
      (e₁, ground (arith, eq_iff key k, Dict.get-delete p.conns key k, idle_unowned e o), owned);
  known = λ k e₁ o at owned.
      ground (arith, eq_iff key k, Dict.get-delete p.conns key k, v.known k e₁ o);
}

-- Owned, but for `owner`, which the entry at `key` still lists and which is elsewhere by now.
pub record OwnedBut (owner : Owner) (key : String) (p : Pool) : Type 0 where
  pub apart : Dict.get p.owners owner ≢ some key
  pub held :
      (o : Owner) (k : String)
      → Dict.get p.owners o ≡ some k
      → (e : Entry) × (Dict.get p.conns k ≡ some e) × (owns e o ≡ true)
  pub known :
      (k : String) (e : Entry) (o : Owner)
      → Dict.get p.conns k ≡ some e
      → owns e o ≡ true
      → (Dict.get p.owners o ≡ some k) ⊎ ((o ≡ owner) × (k ≡ key))

module _ (p : Pool) (owner : Owner) (key : String) (e : Entry)
    (found : Dict.get p.conns key ≡ some e) (v : OwnedBut owner key p) where
  abbrev left : Entry
  left = record e { owners = Dict.delete e.owners owner }

  owns-left : (o : Owner) → owns left o ≡ (if owner == o then false else owns e o)
  owns-left o = ground (arith, Dict.get-delete e.owners owner o)

  put-left-Owned : Owned (record p { conns = Dict.put p.conns key left })
  put-left-Owned = record {
    held = λ o k h.
        let (e₁, at, owned) = v.held o k h in
        elim (Bool-cases (key == k)) [
          | inl same ↦ (
            left,
            rw (Dict.get-put p.conns key k left, same),
            ground (arith, eq_iff key k, owns-left o, v.apart, owner_beq_iff owner o),
          )
          | inr other ↦ (e₁, rw (Dict.get-put p.conns key k left, other) at, owned)
        ];
    known = λ k e₁ o at owned. ground (
      arith,
      eq_iff key k,
      Dict.get-put p.conns key k left,
      owns-left o,
      owner_beq_iff owner o,
      v.known k e₁ o,
      v.known key e o,
    );
  }

  remove-left-Owned : idle left ≡ true → Owned (remove p key left)
  unfolding remove
  remove-left-Owned spare = record {
    held = λ o k h.
        let (e₁, at, owned) = v.held o k h in
        (
          e₁,
          ground (
            arith,
            eq_iff key k,
            Dict.get-delete p.conns key k,
            owns-left o,
            v.apart,
            owner_beq_iff owner o,
            idle_unowned left o,
          ),
          owned,
        );
    known = λ k e₁ o at owned.
        ground (arith, eq_iff key k, Dict.get-delete p.conns key k, v.known k e₁ o);
  }

pub unbind-Owned :
    (p : Pool) (owner : Owner) (key : String) → OwnedBut owner key p → Owned (unbind p owner key)
unfolding unbind
unbind-Owned p owner key v = elim (Option-cases (Dict.get p.conns key)) [
  | inl missing ↦
      rw (missing, unbind)
        (record { held = v.held; known = λ k e o at owned. ground (arith, v.known k e o) })
  | inr (e, found) ↦ elim (Bool-cases (idle (left p owner key e found v))) [
    | inl spare ↦ rw (found, spare, unbind) (remove-left-Owned p owner key e found v spare)
    | inr used ↦ rw (found, used, unbind) (put-left-Owned p owner key e found v)
  ]
]
