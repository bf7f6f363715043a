-- ===== src/Providers/Pool/Labels.antt =====
-- internal/providers/pool.go: the hypervisor labels and the connection gauge. What is counted under
-- the lock agrees with the entries that the pool holds.
use cluster_api_provider_hyd.Base.{
  ℕ, ◌+◌, ◌-◌, ◌≤◌, ◌≡◌, ◌≢◌, refl, ◌∙◌, inl, inr, true, none, some, [], String, arith, ◌==◌,
  nat_eq, string_eq, if◌then◌else◌, is_some, tally, Option-cases, if-holds,
}
use cluster_api_provider_hyd.Base.Dict
use cluster_api_provider_hyd.Base.Dict.{Dict}
use cluster_api_provider_hyd.Providers.Pool.{
  Owner, owner_eq, pinned_owner, other_hypervisor, Entry, Pool, count_at, limit, named_labels,
  acquire_label, idle, remove, unbind, bind,
}
use text.Mathlib.TextEquality.{eq_iff}

abbrev pub labelled : String → String → Entry → ℕ
labelled l k e = tally (e.label == l)

abbrev pub connected : String → Entry → ℕ
connected k e = tally (is_some e.prov)

-- A label counts its entries, none is kept at 0, the gauge counts the open connections, no more than the
-- limit have a label of their own, and no connection was stored where nothing would close it.
pub record Accounted (p : Pool) : Type 0 where
  pub counted : (l : String) → count_at p.labels l ≡ Dict.total (labelled l) p.conns
  pub positive : (l : String) → Dict.get p.labels l ≢ some 0
  pub gauged : p.gauge_ups ≡ p.gauge_downs + Dict.total connected p.conns
  pub bounded : named_labels p ≤ limit p
  pub unlost : p.lost ≡ []

-- The other fields do not matter.
pub Accounted-transfer :
    {p q : Pool}
    → Accounted p
    → q.conns ≡ p.conns
    → q.labels ≡ p.labels
    → q.label_limit ≡ p.label_limit
    → q.gauge_ups ≡ p.gauge_ups
    → q.gauge_downs ≡ p.gauge_downs
    → q.lost ≡ p.lost
    → Accounted q
unfolding named_labels limit
Accounted-transfer v conns labels lim ups downs lost = record {
  unlost = lost ∙ v.unlost;
  counted = λ l. rw (conns, labels) (v.counted l);
  positive = λ l. rw labels (v.positive l);
  gauged = rw (conns, ups, downs) v.gauged;
  bounded = rw (labels, lim) v.bounded;
}

-- A write to an entry in place, which keeps its label and whether it is open.
pub put-Accounted :
    (p : Pool) (key : String) (e e' : Entry)
    → Dict.get p.conns key ≡ some e
    → e'.label ≡ e.label
    → e'.prov ≡ e.prov
    → Accounted p
    → Accounted (record p { conns = Dict.put p.conns key e' })
unfolding named_labels limit
put-Accounted p key e e' found label prov v = record {
  counted = λ l. ground (arith, v.counted l, Dict.total-put_same (labelled l) p.conns key e e');
  positive = v.positive;
  gauged = ground (arith, v.gauged, Dict.total-put_same connected p.conns key e e');
  bounded = v.bounded;
  unlost = v.unlost;
}

pub remove-Accounted :
    (p : Pool) (key : String) (e e' : Entry)
    → Dict.get p.conns key ≡ some e
    → e'.label ≡ e.label
    → e'.prov ≡ e.prov
    → Accounted p
    → Accounted (remove p key e')
unfolding named_labels limit remove
remove-Accounted p key e e' found label prov v = record {
  counted = λ l. ground (
    arith,
    v.counted l,
    Dict.total-delete_of (labelled l) p.conns key e,
    Dict.get-put p.labels e'.label l (count_at p.labels e'.label - 1),
    Dict.get-delete p.labels e'.label l,
    eq_iff e'.label l,
  );
  positive = λ l. ground (
    arith,
    v.positive l,
    Dict.get-put p.labels e'.label l (count_at p.labels e'.label - 1),
    Dict.get-delete p.labels e'.label l,
  );
  gauged = ground (arith, v.gauged, Dict.total-delete_of connected p.conns key e);
  unlost = v.unlost;
  bounded = ground (
    arith,
    v.bounded,
    v.positive e'.label,
    Dict.get-put p.labels e'.label other_hypervisor (count_at p.labels e'.label - 1),
    Dict.get-delete p.labels e'.label other_hypervisor,
    Dict.size-put p.labels e'.label (count_at p.labels e'.label - 1),
    Dict.size-delete p.labels e'.label,
    eq_iff e'.label other_hypervisor,
  );
}

-- A new target's entry, under the label that it acquired.
pub create-Accounted :
    (p : Pool) (name key : String) (e : Entry)
    → Dict.get p.conns key ≡ none
    → e.label ≡ (acquire_label p name).0
    → e.prov ≡ none
    → Accounted p
    → Accounted (record ((acquire_label p name).1) { conns = Dict.put p.conns key e })
unfolding named_labels limit acquire_label
create-Accounted p name key e missing label prov v = record {
  counted = λ l. ground (
    arith,
    v.counted l,
    Dict.total-put_new (labelled l) p.conns key e,
    Dict.get-put p.labels e.label l (count_at p.labels e.label + 1),
    eq_iff e.label l,
  );
  positive = λ l.
      ground (arith, v.positive l, Dict.get-put p.labels e.label l (count_at p.labels e.label + 1));
  gauged = ground (arith, v.gauged, Dict.total-put_new connected p.conns key e);
  unlost = v.unlost;
  bounded = ground (
    arith,
    v.bounded,
    v.positive e.label,
    v.positive other_hypervisor,
    Dict.get-put p.labels e.label other_hypervisor (count_at p.labels e.label + 1),
    Dict.size-put p.labels e.label (count_at p.labels e.label + 1),
    eq_iff e.label other_hypervisor,
    eq_iff name other_hypervisor,
  );
}

pub unbind-Accounted :
    (p : Pool) (owner : Owner) (key : String) → Accounted p → Accounted (unbind p owner key)
unfolding unbind
unbind-Accounted p owner key v = elim (Option-cases (Dict.get p.conns key)) [
  | inl missing ↦ rw (missing, unbind) v
  | inr (e, found) ↦
      let e' : Entry = record e { owners = Dict.delete e.owners owner } in
      rw (found, unbind)
        (if-holds Accounted (idle e') (remove-Accounted p key e e' found refl refl v)
          (put-Accounted p key e e' found refl refl v))
]

pub bind-Accounted :
    (p : Pool) (owner : Owner) (key : String) (e : Entry)
    → Dict.get p.conns key ≡ some e
    → Accounted p
    → Accounted (bind p owner key e)
unfolding bind
bind-Accounted p owner key e found v =
    if-holds Accounted (owner == pinned_owner)
      (put-Accounted p key e (record e { pinned = true }) found refl refl v)
      (elim (Dict.get p.owners owner)
        as (λ o. Accounted (elim o [
          | none ↦ record p { conns = owned; owners = Dict.put p.owners owner key }
          | some previous ↦
              if previous == key
              then record p { conns = owned }
              else unbind (record p { conns = owned; owners = Dict.put p.owners owner key }) owner
                  previous
        ])) [
          | none ↦ moved
          | some previous ↦
              if-holds Accounted (previous == key) kept (unbind-Accounted _ owner previous moved)
        ])
  where
    owned : Dict String Entry
    owned = Dict.put p.conns key (record e { owners = Dict.put e.owners owner tt })

    kept : Accounted (record p { conns = owned })
    kept =
        put-Accounted p key e (record e { owners = Dict.put e.owners owner tt }) found refl refl v

    moved : Accounted (record p { conns = owned; owners = Dict.put p.owners owner key })
    moved = Accounted-transfer kept refl refl refl refl refl refl
