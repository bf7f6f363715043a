-- ===== src/Providers/Pool/Evolution.antt =====
-- internal/providers/pool.go: what a section may do to the entries of other callers. An entry that
-- somebody has reserved stays where it is, with its provider.
use cluster_api_provider_hyd.Base.{
  ◌≡◌, refl, ◌∙◌, ◌⊎◌, inl, inr, true, none, some, String, arith, ◌==◌, nat_eq, string_eq,
  Option-cases, Bool-cases,
}
use cluster_api_provider_hyd.Base.Dict
use cluster_api_provider_hyd.Base.Dict.{Dict}
use cluster_api_provider_hyd.Providers.Pool.{
  Owner, owner_eq, Entry, Pool, idle, remove, unbind, bind,
}
use cluster_api_provider_hyd.Providers.Pool.Calls.{
  Ticket, entry_of, abandon, settle, note_release, release,
}
use cluster_api_provider_hyd.Providers.Pool.Frames.{Frame, note_release-Frame}
use cluster_api_provider_hyd.Providers.Pool.Ownership.{idle_unreserved}
use cluster_api_provider_hyd.Providers.Pool.Binding.{bind_cases, moved_pool, joined_pool}
use text.Mathlib.TextEquality.{eq_iff}

abbrev pub SameEntry : Entry → Entry → Type 0
SameEntry e e' = (e'.id ≡ e.id) × (e'.pending ≡ e.pending) × (e'.prov ≡ e.prov)

-- `e`, at `k`, is still in `q`, or it has gone from there and nobody had reserved it.
abbrev pub Stays : Pool → String → Entry → Type 0
Stays q k e =
    ((e' : Entry) × (Dict.get q.conns k ≡ some e') × SameEntry e e')
    ⊎ ((Dict.get q.conns k ≡ none) × (e.pending ≡ 0))

pub record Evolves (p q : Pool) : Type 0 where
  pub kept : (k : String) (e : Entry) → Dict.get p.conns k ≡ some e → Stays q k e
  pub absent : (k : String) → Dict.get p.conns k ≡ none → Dict.get q.conns k ≡ none
  pub closed : q.closed ≡ p.closed

pub Evolves-same : {p q : Pool} → q.conns ≡ p.conns → q.closed ≡ p.closed → Evolves p q
Evolves-same conns closed = record {
  kept = λ k e found. inl (e, rw conns found, (refl, refl, refl));
  absent = λ k missing. rw conns missing;
  closed = closed;
}

Evolves-trans : {p q r : Pool} → Evolves p q → Evolves q r → Evolves p r
Evolves-trans {p} {q} {r} f g = record {
  kept = λ k e found. elim (f.kept k e found) [
    | inr (gone, free) ↦ inr (g.absent k gone, free)
    | inl (e', found', (i, n, c)) ↦ elim (g.kept k e' found') [
      | inr (gone, free) ↦ inr (gone, ground arith)
      | inl (e₂, found₂, (i₂, n₂, c₂)) ↦ inl (e₂, found₂, (i₂ ∙ i, n₂ ∙ n, c₂ ∙ c))
    ]
  ];
  absent = λ k missing. g.absent k (f.absent k missing);
  closed = g.closed ∙ f.closed;
}

put-Evolves :
    (p : Pool) (key : String) (e e' : Entry)
    → Dict.get p.conns key ≡ some e
    → SameEntry e e'
    → Evolves p (record p { conns = Dict.put p.conns key e' })
put-Evolves p key e e' found same = record {
  kept = λ k e₁ found₁. elim (Bool-cases (key == k)) [
    | inl here ↦ inl (
      e',
      rw (Dict.get-put p.conns key k e', here),
      (ground (arith, eq_iff key k), ground (arith, eq_iff key k), ground (arith, eq_iff key k)),
    )
    | inr other ↦ inl (e₁, rw (Dict.get-put p.conns key k e', other) found₁, (refl, refl, refl))
  ];
  absent = λ k missing. ground (arith, eq_iff key k, Dict.get-put p.conns key k e');
  closed = refl;
}

remove-Evolves :
    (p : Pool) (key : String) (e e' : Entry)
    → Dict.get p.conns key ≡ some e
    → e.pending ≡ 0
    → Evolves p (remove p key e')
unfolding remove
remove-Evolves p key e e' found free = record {
  kept = λ k e₁ found₁. elim (Bool-cases (key == k)) [
    | inl here ↦ inr (rw (Dict.get-delete p.conns key k, here), ground (arith, eq_iff key k))
    | inr other ↦ inl (e₁, rw (Dict.get-delete p.conns key k, other) found₁, (refl, refl, refl))
  ];
  absent = λ k missing. ground (arith, Dict.get-delete p.conns key k);
  closed = refl;
}

unbind-Evolves : (p : Pool) (owner : Owner) (key : String) → Evolves p (unbind p owner key)
unfolding unbind
unbind-Evolves p owner key = elim (Option-cases (Dict.get p.conns key)) [
  | inl missing ↦ rw (missing, unbind) (Evolves-same refl refl)
  | inr (e, found) ↦
      let e' : Entry = record e { owners = Dict.delete e.owners owner } in
      elim (Bool-cases (idle e')) [
        | inl spare ↦
            rw (found, spare, unbind) (remove-Evolves p key e e' found (idle_unreserved e' spare))
        | inr used ↦ rw (found, used, unbind) (put-Evolves p key e e' found (refl, refl, refl))
      ]
]

pub bind-Evolves :
    (p : Pool) (owner : Owner) (key : String) (e : Entry)
    → Dict.get p.conns key ≡ some e
    → Evolves p (bind p owner key e)
bind-Evolves p owner key e found =
    bind_cases (Evolves p) p owner key e
      (put-Evolves p key e (record e { pinned = true }) found (refl, refl, refl))
      (λ new. Evolves-trans joined (Evolves-same refl refl)) (λ had. joined)
      (λ previous had differs.
        Evolves-trans (Evolves-trans joined (Evolves-same refl refl))
          (unbind-Evolves (moved_pool p owner key e) owner previous))
  where
    joined : Evolves p (joined_pool p owner key e)
    joined =
        put-Evolves p key e (record e { owners = Dict.put e.owners owner tt }) found
          (refl, refl, refl)

pub entry_of-get :
    (p : Pool) (t : Ticket) {e : Entry}
    → entry_of p t ≡ some e
    → (Dict.get p.conns t.key ≡ some e) × (e.id ≡ t.entry)
unfolding entry_of
entry_of-get p t h = ground arith

pub get-entry_of :
    (p : Pool) (t : Ticket) {e : Entry}
    → Dict.get p.conns t.key ≡ some e
    → e.id ≡ t.entry
    → entry_of p t ≡ some e
unfolding entry_of
get-entry_of p t h i = ground arith

pub abandon-Evolves : (p : Pool) (t : Ticket) → Evolves p (abandon p t)
unfolding abandon
abandon-Evolves p t = elim (Option-cases (entry_of p t)) [
  | inl gone ↦ rw (gone, abandon) (Evolves-same refl refl)
  | inr (e, found) ↦ elim (Bool-cases (idle e)) [
    | inl spare ↦
        rw (found, spare, abandon)
          (remove-Evolves p t.key e e (entry_of-get p t found).0 (idle_unreserved e spare))
    | inr used ↦ rw (found, used, abandon) (Evolves-same refl refl)
  ]
]

pub settle-Evolves : (p : Pool) (t : Ticket) → Evolves p (settle p t)
unfolding settle
settle-Evolves p t = elim (Option-cases (entry_of p t)) [
  | inl gone ↦ rw (gone, settle) (Evolves-same refl refl)
  | inr (e, found) ↦ rw (found, settle) (bind-Evolves p t.owner t.key e (entry_of-get p t found).0)
]

pub release-Evolves : (p : Pool) (owner : Owner) → Evolves p (release p owner)
unfolding release
release-Evolves p owner =
    let q : Pool = note_release p owner in
    let f : Frame p q = note_release-Frame p owner in
    let noted : Evolves p q = Evolves-same f.conns f.closed in
    elim (Option-cases (Dict.get p.owners owner)) [
      | inl none_held ↦ rw (none_held, release) noted
      | inr (key, held) ↦
          rw (held, release)
            (Evolves-trans (Evolves-trans noted (Evolves-same refl refl))
              (unbind-Evolves (record q { owners = Dict.delete q.owners owner }) owner key))
    ]
