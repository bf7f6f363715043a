-- ===== src/Providers/Pool/Accounting.antt =====
-- internal/providers/pool.go: that each section of a call keeps the accounts.
use cluster_api_provider_hyd.Base.{
  ℕ, suc, ◌+◌, ◌-◌, ◌≡◌, refl, inl, inr, true, false, Option, none, some, List, [], ◌∷◌, String,
  arith, nat_eq, string_eq, Option-cases, Bool-cases, if-holds, if_cases, subst,
}
use cluster_api_provider_hyd.Base.Dict
use cluster_api_provider_hyd.Base.Dict.{Dict}
use cluster_api_provider_hyd.Providers.Pool.{
  Owner, owner_eq, Outcome, Entry, Pool, limit, named_labels, acquire_label, idle, remove,
}
use cluster_api_provider_hyd.Providers.Pool.Calls.{
  Ticket, Dialed, up, down, store, release_of, end_get, reserve, begin_get, entry_of, install,
  unreserve, abandon, settle, finish_get, note_release, release, remove_all, close_all,
}
use cluster_api_provider_hyd.Providers.Pool.Frames.{
  Frame, start_get-Frame, end_get-Frame, note_release-Frame,
}
use cluster_api_provider_hyd.Providers.Pool.Evolution.{entry_of-get}
use cluster_api_provider_hyd.Providers.Pool.Labels.{
  connected, labelled, Accounted, Accounted-transfer, put-Accounted, remove-Accounted,
  create-Accounted, unbind-Accounted, bind-Accounted,
}

Frame-Accounted : {p q : Pool} → Accounted p → Frame p q → Accounted q
Frame-Accounted v f =
    Accounted-transfer v f.conns f.labels f.label_limit f.gauge_ups f.gauge_downs f.lost

reserve-Accounted :
    (p : Pool) (owner : Owner) (key : String) (e : Entry)
    → Dict.get p.conns key ≡ some e
    → Accounted p
    → Accounted (reserve p owner key e).1
unfolding reserve
reserve-Accounted p owner key e found v =
    let e' : Entry = record e { pending = e.pending + 1 } in
    Frame-Accounted (put-Accounted p key e e' found refl refl v) (start_get-Frame _ owner)

abbrev pub new_entry : Pool → String → Entry
new_entry p name = record {
  id = p.next_id;
  name = name;
  label = (acquire_label p name).0;
  prov = none;
  release = none;
  owners = Dict.empty;
  pinned = false;
  pending = 1;
}

create_reserve-Accounted :
    (p : Pool) (owner : Owner) (key name : String)
    → Dict.get p.conns key ≡ none
    → Accounted p
    → Accounted
        (reserve
          (record ((acquire_label p name).1) { next_id = suc p.next_id })
          owner
          key
          (record (new_entry p name) { pending = 0 })).1
unfolding reserve acquire_label
create_reserve-Accounted p owner key name missing v =
    Frame-Accounted
      (Accounted-transfer (create-Accounted p name key (new_entry p name) missing refl refl v) refl
        refl refl refl refl refl)
      (start_get-Frame _ owner)

pub begin_get-Accounted :
    (p : Pool) (owner : Owner) (key name : String) {t : Ticket} {q : Pool}
    → begin_get p owner key name ≡ some (t, q)
    → Accounted p
    → Accounted q
unfolding begin_get
begin_get-Accounted p owner key name h v = elim (Bool-cases p.closed) [
  | inl shut ↦ ground arith
  | inr live ↦ elim (Option-cases (Dict.get p.conns key)) [
    | inr (e, found) ↦ ground (arith, reserve-Accounted p owner key e found v)
    | inl missing ↦ ground (arith, create_reserve-Accounted p owner key name missing v)
  ]
]

-- A connection is stored in an entry that had none.
store-Accounted :
    (p : Pool) (t : Ticket) (c : ℕ) (rel : Option ℕ) (e : Entry)
    → entry_of p t ≡ some e
    → e.prov ≡ none
    → Accounted p
    → Accounted (store p t c rel)
unfolding store named_labels limit
store-Accounted p t c rel e found old v =
    let e' : Entry = record e { prov = some c; release = rel } in
    let at = (entry_of-get p t found).0 in
    rw (found, store)
      (record {
        counted =
            λ l. ground (arith, v.counted l, Dict.total-put_same (labelled l) p.conns t.key e e');
        positive = v.positive;
        gauged = ground (arith, v.gauged, old, at, Dict.total-put connected p.conns t.key e');
        bounded = v.bounded;
        unlost = v.unlost;
      })

pub install-Accounted :
    (p : Pool) (t : Ticket) (d : Dialed)
    → (p.closed ≡ false → (e : Entry) × (entry_of p t ≡ some e) × (e.prov ≡ none))
    → Accounted p
    → Accounted (install p t d).1
unfolding install
install-Accounted p t down held v = v
install-Accounted p t (up c has) held v =
    if_cases (λ (o : Outcome × Pool). Accounted o.1) p.closed
      (λ shut. Accounted-transfer v refl refl refl refl refl refl)
      (λ live.
        let (e, found, old) = held live in store-Accounted p t c (release_of c has) e found old v)

unreserve-Accounted : (p : Pool) (t : Ticket) → Accounted p → Accounted (unreserve p t)
unfolding unreserve
unreserve-Accounted p t v = elim (Option-cases (entry_of p t)) [
  | inl gone ↦ rw (gone, unreserve) v
  | inr (e, found) ↦
      rw (found, unreserve)
        (put-Accounted p t.key e (record e { pending = e.pending - 1 }) (entry_of-get p t found).0
          refl refl v)
]

abandon-Accounted : (p : Pool) (t : Ticket) → Accounted p → Accounted (abandon p t)
unfolding abandon
abandon-Accounted p t v = elim (Option-cases (entry_of p t)) [
  | inl gone ↦ rw (gone, abandon) v
  | inr (e, found) ↦
      rw (found, abandon)
        (if-holds Accounted (idle e)
          (remove-Accounted p t.key e e (entry_of-get p t found).0 refl refl v) v)
]

settle-Accounted : (p : Pool) (t : Ticket) → Accounted p → Accounted (settle p t)
unfolding settle
settle-Accounted p t v = elim (Option-cases (entry_of p t)) [
  | inl gone ↦ rw (gone, settle) v
  | inr (e, found) ↦
      rw (found, settle) (bind-Accounted p t.owner t.key e (entry_of-get p t found).0 v)
]

pub finish_get-Accounted :
    (p : Pool) (t : Ticket) (r : Outcome) → Accounted p → Accounted (finish_get p t r).1
unfolding finish_get
finish_get-Accounted p t r v =
    let q : Pool = (end_get (unreserve p t) t).1 in
    let w : Accounted q =
      Frame-Accounted (unreserve-Accounted p t v) (end_get-Frame (unreserve p t) t) in
    ground (arith, w, abandon-Accounted q t w, settle-Accounted q t w)

pub release-Accounted : (p : Pool) (owner : Owner) → Accounted p → Accounted (release p owner)
unfolding release
release-Accounted p owner v =
    let q : Pool = note_release p owner in
    let w : Accounted q = Frame-Accounted v (note_release-Frame p owner) in
    elim (Option-cases (Dict.get p.owners owner)) [
      | inl none_held ↦ rw (none_held, release) w
      | inr (key, held) ↦
          rw (held, release)
            (unbind-Accounted _ owner key (Accounted-transfer w refl refl refl refl refl refl))
    ]

remove_all-Accounted : (keys : List String) (p : Pool) → Accounted p → Accounted (remove_all keys p)
unfolding remove_all
remove_all-Accounted [] p v = v
remove_all-Accounted (key ∷ keys) p v = elim (Option-cases (Dict.get p.conns key)) [
  | inl gone ↦ subst Accounted (ground (arith, gone)) (remove_all-Accounted keys p v)
  | inr (e, found) ↦
      subst Accounted (ground (arith, found))
        (remove_all-Accounted keys (remove p key e) (remove-Accounted p key e e found refl refl v))
]

pub close_all-Accounted : (p : Pool) → Accounted p → Accounted (close_all p)
unfolding close_all
close_all-Accounted p v =
    Accounted-transfer
      (remove_all-Accounted (Dict.keys p.conns) (record p { closed = true })
        (Accounted-transfer v refl refl refl refl refl refl))
      refl refl refl refl refl refl
