-- ===== src/Providers/Pool/Releasing.antt =====
-- internal/providers/pool.go: ownership after Release and CloseAll.
use cluster_api_provider_hyd.Base.{
  ◌≡◌, refl, inl, inr, true, none, List, [], ◌∷◌, String, arith, nat_eq, string_eq, if◌then◌else◌,
  Option-cases, contains,
}
use cluster_api_provider_hyd.Base.Dict
use cluster_api_provider_hyd.Base.Dict.{Dict}
use cluster_api_provider_hyd.Providers.Pool.{Owner, owner_eq, owner_beq_iff, Pool, remove}
use cluster_api_provider_hyd.Providers.Pool.Calls.{note_release, release, remove_all, close_all}
use cluster_api_provider_hyd.Providers.Pool.Frames.{Frame, note_release-Frame}
use cluster_api_provider_hyd.Providers.Pool.Ownership.{Owned, Busy, unbind-Busy, unbind-Owned}
use text.Mathlib.TextEquality.{eq_iff}

pub Frame-Owned : {p q : Pool} → Owned p → Frame p q → Owned q
Frame-Owned v f = record {
  held = λ o k. rw (f.owners, f.conns) (v.held o k);
  known = λ k e o. rw (f.owners, f.conns) (v.known k e o);
}

pub release-Owned : (p : Pool) (owner : Owner) → Owned p → Owned (release p owner)
unfolding release
release-Owned p owner v =
    let q : Pool = note_release p owner in
    let f : Frame p q = note_release-Frame p owner in
    let w : Owned q = Frame-Owned v f in
    elim (Option-cases (Dict.get p.owners owner)) [
      | inl none_held ↦ rw (none_held, release) w
      | inr (key, held) ↦
          rw (held, release)
            (unbind-Owned (record q { owners = Dict.delete q.owners owner }) owner key
              (record {
                apart =
                    ground (arith, Dict.get-delete q.owners owner owner, owner_beq_iff owner owner);
                held = λ o k h. w.held o k (ground (arith, Dict.get-delete q.owners owner o));
                known = λ k e o at owned. ground (
                  arith,
                  Dict.get-delete q.owners owner o,
                  owner_beq_iff owner o,
                  w.known k e o,
                  f.owners,
                );
              }))
    ]

pub release-Busy : (p : Pool) (owner : Owner) → Busy p → Busy (release p owner)
unfolding release
release-Busy p owner b =
    let q : Pool = note_release p owner in
    let f : Frame p q = note_release-Frame p owner in
    let c : Busy q = rw f.conns b in
    elim (Option-cases (Dict.get p.owners owner)) [
      | inl none_held ↦ rw (none_held, release) c
      | inr (key, held) ↦
          rw (held, release)
            (unbind-Busy (record q { owners = Dict.delete q.owners owner }) owner key
              (λ k e _. c k e))
    ]

-- `CloseAll` empties the pool.
remove_all-get :
    (keys : List String) (p : Pool) (k : String)
    → Dict.get (remove_all keys p).conns k ≡ (if contains k keys then none else Dict.get p.conns k)
unfolding remove_all remove
remove_all-get [] p k = refl
remove_all-get (key ∷ keys) p k = elim (Option-cases (Dict.get p.conns key)) [
  | inl gone ↦ ground (arith, gone, remove_all-get keys p k, eq_iff key k)
  | inr (e, found) ↦ ground (
    arith,
    found,
    remove_all-get keys (remove p key e) k,
    Dict.get-delete p.conns key k,
    eq_iff key k,
  )
]

pub close_all-empty : (p : Pool) (k : String) → Dict.get (close_all p).conns k ≡ none
unfolding close_all
close_all-empty p k = elim (Option-cases (Dict.get p.conns k)) [
  | inl gone ↦ ground (arith, remove_all-get (Dict.keys p.conns) (record p { closed = true }) k)
  | inr (e, found) ↦ ground (
    arith,
    remove_all-get (Dict.keys p.conns) (record p { closed = true }) k,
    Dict.contains-keys p.conns k e,
  )
]
