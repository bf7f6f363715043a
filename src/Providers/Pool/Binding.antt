-- ===== src/Providers/Pool/Binding.antt =====
-- internal/providers/pool.go: `bindLocked`, `Release` and `CloseAll` keep the two maps of owners in
-- agreement, and leave no entry that nobody uses.
use cluster_api_provider_hyd.Base.{
  ◌≡◌, inl, inr, true, false, none, some, String, arith, ◌==◌, nat_eq, string_eq, if◌then◌else◌,
  Option-cases, Bool-cases,
}
use cluster_api_provider_hyd.Base.Dict
use cluster_api_provider_hyd.Base.Dict.{Dict}
use cluster_api_provider_hyd.Providers.Pool.{
  Owner, owner_eq, owner_beq_iff, pinned_owner, Entry, Pool, idle, unbind, bind,
}
use cluster_api_provider_hyd.Providers.Pool.Ownership.{
  owns, Owned, OwnedBut, Busy, BusyBut, owned_busy, put-Busy, unbind-Busy, unbind-Owned,
}
use text.Mathlib.TextEquality.{eq_iff}

module _ (p : Pool) (owner : Owner) (key : String) (e : Entry) where
  abbrev pub joined : Entry
  joined = record e { owners = Dict.put e.owners owner tt }

  abbrev pub joined_pool : Pool
  joined_pool = record p { conns = Dict.put p.conns key joined }

  abbrev pub moved_pool : Pool
  moved_pool = record joined_pool { owners = Dict.put p.owners owner key }

  owns-joined : (o : Owner) → owns joined o ≡ (if owner == o then true else owns e o)
  owns-joined o = ground (arith, Dict.get-put e.owners owner o tt)

  joined_busy : idle joined ≡ false
  joined_busy =
      owned_busy joined owner (ground (arith, owns-joined owner, owner_beq_iff owner owner))

  pin-Owned :
      Dict.get p.conns key ≡ some e
      → Owned p
      → Owned (record p { conns = Dict.put p.conns key (record e { pinned = true }) })
  pin-Owned found v = record {
    held = λ o k h.
        let (e₁, at, owned) = v.held o k h in
        elim (Bool-cases (key == k)) [
          | inl same ↦ (
            record e { pinned = true },
            rw (Dict.get-put p.conns key k (record e { pinned = true }), same),
            ground (arith, eq_iff key k),
          )
          | inr other ↦
              (e₁, rw (Dict.get-put p.conns key k (record e { pinned = true }), other) at, owned)
        ];
    known = λ k e₁ o at owned. ground (
      arith,
      eq_iff key k,
      Dict.get-put p.conns key k (record e { pinned = true }),
      v.known k e₁ o,
      v.known key e o,
    );
  }

  stay-Owned :
      Dict.get p.conns key ≡ some e
      → Dict.get p.owners owner ≡ some key
      → Owned p
      → Owned joined_pool
  stay-Owned found had v = record {
    held = λ o k h.
        let (e₁, at, owned) = v.held o k h in
        elim (Bool-cases (key == k)) [
          | inl same ↦ (
            joined,
            rw (Dict.get-put p.conns key k joined, same),
            ground (arith, eq_iff key k, owns-joined o),
          )
          | inr other ↦ (e₁, rw (Dict.get-put p.conns key k joined, other) at, owned)
        ];
    known = λ k e₁ o at owned. ground (
      arith,
      eq_iff key k,
      Dict.get-put p.conns key k joined,
      owns-joined o,
      owner_beq_iff owner o,
      v.known k e₁ o,
      v.known key e o,
    );
  }

  moved_held :
      Dict.get p.conns key ≡ some e
      → Owned p
      → (o : Owner) (k : String) → Dict.get moved_pool.owners o ≡ some k
      → (e₁ : Entry) × (Dict.get moved_pool.conns k ≡ some e₁) × (owns e₁ o ≡ true)
  moved_held found v o k h = elim (Bool-cases (owner == o)) [
    | inl self ↦ (
      joined,
      ground (
        arith,
        eq_iff key k,
        Dict.get-put p.conns key k joined,
        Dict.get-put p.owners owner o key,
      ),
      rw (owns-joined o, self),
    )
    | inr another ↦
        let (e₁, at, owned) = v.held o k (ground (arith, Dict.get-put p.owners owner o key)) in
        elim (Bool-cases (key == k)) [
          | inl same ↦ (
            joined,
            rw (Dict.get-put p.conns key k joined, same),
            ground (arith, eq_iff key k, owns-joined o),
          )
          | inr other ↦ (e₁, rw (Dict.get-put p.conns key k joined, other) at, owned)
        ]
  ]

  enter-Owned :
      Dict.get p.conns key ≡ some e → Dict.get p.owners owner ≡ none → Owned p → Owned moved_pool
  enter-Owned found new v = record {
    held = moved_held found v;
    known = λ k e₁ o at owned. ground (
      arith,
      eq_iff key k,
      Dict.get-put p.conns key k joined,
      owns-joined o,
      owner_beq_iff owner o,
      Dict.get-put p.owners owner o key,
      v.known k e₁ o,
      v.known key e o,
    );
  }

  move-OwnedBut :
      (previous : String)
      → Dict.get p.conns key ≡ some e
      → Dict.get p.owners owner ≡ some previous
      → (previous == key) ≡ false
      → Owned p
      → OwnedBut owner previous moved_pool
  move-OwnedBut previous found had differs v = record {
    apart = ground (
      arith,
      Dict.get-put p.owners owner owner key,
      owner_beq_iff owner owner,
      eq_iff previous key,
    );
    held = moved_held found v;
    known = λ k e₁ o at owned. ground (
      arith,
      eq_iff key k,
      Dict.get-put p.conns key k joined,
      owns-joined o,
      owner_beq_iff owner o,
      Dict.get-put p.owners owner o key,
      v.known k e₁ o,
      v.known key e o,
    );
  }

-- The four ways through `bindLocked`.
pub bind_cases {ℓ} :
    (P : Pool → Type ℓ) (p : Pool) (owner : Owner) (key : String) (e : Entry)
    → P (record p { conns = Dict.put p.conns key (record e { pinned = true }) })
    → (Dict.get p.owners owner ≡ none → P (moved_pool p owner key e))
    → (Dict.get p.owners owner ≡ some key → P (joined_pool p owner key e))
    → ((previous : String)
        → Dict.get p.owners owner ≡ some previous
        → (previous == key) ≡ false
        → P (unbind (moved_pool p owner key e) owner previous))
    → P (bind p owner key e)
unfolding bind
bind_cases P p owner key e pin enter stay move = elim (Bool-cases (owner == pinned_owner)) [
  | inl zero_owner ↦ rw (zero_owner, bind) pin
  | inr owned ↦ elim (Option-cases (Dict.get p.owners owner)) [
    | inl new ↦ rw (owned, new, bind) (enter new)
    | inr (previous, had) ↦ elim (Bool-cases (previous == key)) [
      | inl same ↦ rw (owned, had, same, bind) (stay (ground (arith, eq_iff previous key)))
      | inr differs ↦ rw (owned, had, differs, bind) (move previous had differs)
    ]
  ]
]

pub bind-Owned :
    (p : Pool) (owner : Owner) (key : String) (e : Entry)
    → Dict.get p.conns key ≡ some e
    → Owned p
    → Owned (bind p owner key e)
bind-Owned p owner key e found v =
    bind_cases Owned p owner key e (pin-Owned p owner key e found v)
      (λ new. enter-Owned p owner key e found new v) (λ had. stay-Owned p owner key e found had v)
      (λ previous had differs.
        unbind-Owned _ owner previous (move-OwnedBut p owner key e previous found had differs v))

pub bind-Busy :
    (p : Pool) (owner : Owner) (key : String) (e : Entry)
    → BusyBut key p
    → Busy (bind p owner key e)
unfolding idle
bind-Busy p owner key e b =
    bind_cases Busy p owner key e (put-Busy p key (record e { pinned = true }) (ground arith) b)
      (λ new. all_busy) (λ had. all_busy)
      (λ previous had differs.
        unbind-Busy (moved_pool p owner key e) owner previous (λ k e₁ _. all_busy k e₁))
  where
    all_busy : Busy (joined_pool p owner key e)
    all_busy = put-Busy p key (joined p owner key e) (joined_busy p owner key e) b
