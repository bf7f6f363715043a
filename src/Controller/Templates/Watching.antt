-- ===== src/Controller/Templates/Watching.antt =====
-- internal/controller/hydramachinetemplate_controller.go: which templates an event of a Cluster concerns.
use cluster_api_provider_hyd.Base.{
  Bool, true, false, not, ◌&&◌, ◌||◌, Option, none, some, List, [], ◌∷◌, ◌≡◌, refl, sym, ap, subst,
  ◌∙◌, ◌↔◌, ◌⊎◌, inl, inr, ◌==◌, nat_eq, list_eq, if◌then◌else◌, Text, arith, Bool-cases, contains,
}
use cluster_api_provider_hyd.Base.Exec.{Result, ok, err}
use cluster_api_provider_hyd.Providers.Errors.{Error}
use cluster_api_provider_hyd.Providers.Identity.{is_empty}
use cluster_api_provider_hyd.Controller.Objects.{OwnerRef, Cluster}
use cluster_api_provider_hyd.Controller.World.{Reader}
use cluster_api_provider_hyd.Controller.Linkage.{owner_ref_of_kind, if_found}
use cluster_api_provider_hyd.Controller.Clusters.{
  cluster_kind, owner_cluster_of, owner_from, same_owner,
}
use cluster_api_provider_hyd.Controller.Templates.{
  HydraMachineTemplate, owned_by, cluster_to_templates,
}

==_sym : (a b : Text) → (a == b) ≡ (b == a)
==_sym a b = swap (a == b) (b == a) (λ h. (right.1 (sym (left.0 h)))) λ h. left.1 (sym (right.0 h))
  where
    left : ((a == b) ≡ true) ↔ (a ≡ b)
    left = list_eq.beq_iff a b

    right : ((b == a) ≡ true) ↔ (b ≡ a)
    right = list_eq.beq_iff b a

    swap : (s t : Bool) → (s ≡ true → t ≡ true) → (t ≡ true → s ≡ true) → s ≡ t
    swap s t f g = ground (arith, f, g)

passes_iff :
    (named unstated other : Bool)
    → (not (not named || (not unstated && not other)) ≡ true)
      ↔ ((named ≡ true) × ((not unstated && not other) ≡ false))
passes_iff named unstated other = ground arith

abbrev unless_other : Bool → Cluster → Result Error (Option Cluster)
unless_other other c = if other then ok none else ok (some c)

unless_other_iff :
    (other : Bool) (c cluster : Cluster)
    → (unless_other other c ≡ ok (some cluster)) ↔ ((c ≡ cluster) × (other ≡ false))
unless_other_iff true c cluster = ground arith
unless_other_iff false c cluster = ground arith

or_true : (a : Bool) {b : Bool} → b ≡ true → (a || b) ≡ true
or_true a h = ground (arith, h)

still_false :
    (unstated : Bool) {a b : Bool}
    → a ≡ b
    → (not unstated && not a) ≡ false
    → (not unstated && not b) ≡ false
still_false unstated same h = subst (λ b. (not unstated && not b) ≡ false) same h

owned_by_iff :
    (ref : OwnerRef) (cluster : Cluster)
    → (owned_by cluster (some ref) ≡ true) ↔ (
        (ref.name ≡ cluster.name)
        × ((not (is_empty ref.uid) && not (cluster.uid == ref.uid)) ≡ false))
owned_by_iff ref cluster =
    let test = passes_iff (ref.name == cluster.name) (is_empty ref.uid) (ref.uid == cluster.uid) in
    let named = list_eq.beq_iff ref.name cluster.name in
    (
      λ owned. (
        named.0 (test.0 owned).0,
        still_false (is_empty ref.uid) (==_sym ref.uid cluster.uid) (test.0 owned).1,
      ),
      λ both.
          test.1
            (named.1 both.0, still_false (is_empty ref.uid) (==_sym cluster.uid ref.uid) both.1),
    )

module _ (reader : Reader) (cluster : Cluster) where
  -- A template of the name, of which the cluster is the owner that a reconcile finds.
  pub data Owns (name : Text) : List HydraMachineTemplate → Type 0 where
    first :
        (t : HydraMachineTemplate) (rest : List HydraMachineTemplate)
        → t.name ≡ name
        → owner_cluster_of reader t.owner_references ≡ ok (some cluster)
        → Owns name (t ∷ rest)
    later :
        (t : HydraMachineTemplate) (rest : List HydraMachineTemplate)
        → Owns name rest
        → Owns name (t ∷ rest)

  -- It is the first, or among the others.
  first_or_later :
      {t : HydraMachineTemplate} {ts : List HydraMachineTemplate} {name : Text}
      → Owns name (t ∷ ts)
      → ((t.name ≡ name) × (owner_cluster_of reader t.owner_references ≡ ok (some cluster)))
        ⊎ Owns name ts
  first_or_later (first t rest named owned) = inl (named, owned)
  first_or_later (later t rest owned) = inr owned

module _ (reader : Reader) (cluster : Cluster) (held : reader.get_cluster cluster.name ≡ ok cluster)
    (answered : (name : Text) (c : Cluster) → reader.get_cluster name ≡ ok c → c.name ≡ name) where
  found_owner :
      (ref : OwnerRef) (r : Result Error Cluster)
      → reader.get_cluster ref.name ≡ r
      → if_found r (same_owner ref) (ok none) ≡ ok (some cluster)
      → owned_by cluster (some ref) ≡ true
  found_owner ref (ok c) asked h =
      let (same, other) = (unless_other_iff _ c cluster).0 h in
      (owned_by_iff ref cluster).1 (
        sym (answered ref.name cluster (asked ∙ ap ok same)),
        subst (λ d. (not (is_empty ref.uid) && not (d.uid == ref.uid)) ≡ false) same other,
      )
  found_owner ref (err e) asked h = ground (arith, h)

  owned_found :
      (ref : OwnerRef)
      → owned_by cluster (some ref) ≡ true
      → if_found (reader.get_cluster ref.name) (same_owner ref) (ok none) ≡ ok (some cluster)
  owned_found ref owned =
      let (named, other) = (owned_by_iff ref cluster).0 owned in
      rw (named, held) ((unless_other_iff _ cluster cluster).1 (refl, other))

  owner_from_iff :
      (o : Option OwnerRef)
      → (owned_by cluster o ≡ true) ↔ (owner_from reader o ≡ ok (some cluster))
  owner_from_iff none = ground arith
  owner_from_iff (some ref) = (owned_found ref, found_owner ref (reader.get_cluster ref.name) refl)

  concerned :
      (o : Bool) (t : HydraMachineTemplate) (ts : List HydraMachineTemplate) (name : Text)
      → (o ≡ true) ↔ (owner_cluster_of reader t.owner_references ≡ ok (some cluster))
      → (contains name (cluster_to_templates cluster ts) ≡ true) ↔ Owns reader cluster name ts
      → (contains name (
            if o then t.name ∷ cluster_to_templates cluster ts else cluster_to_templates cluster ts)
          ≡ true)
        ↔ Owns reader cluster name (t ∷ ts)
  concerned true t ts name owns rest = (
    λ there. elim (Bool-cases (t.name == name)) [
      | inl hit ↦ first t ts ((list_eq.beq_iff t.name name).0 hit) (owns.0 refl)
      | inr miss ↦ later t ts (
          rest.0
            (subst (λ b. (b || contains name (cluster_to_templates cluster ts)) ≡ true) miss there))
    ],
    λ owned. elim (first_or_later reader cluster owned) [
      | inl (named, _) ↦ rw ((list_eq.beq_iff t.name name).1 named) refl
      | inr others ↦ or_true (t.name == name) (rest.1 others)
    ],
  )
  concerned false t ts name owns rest = (
    λ there. later t ts (rest.0 there),
    λ owned. elim (first_or_later reader cluster owned) [
      | inl (_, owner) ↦ absurd (ground (arith, owns.1 owner))
      | inr others ↦ rest.1 others
    ],
  )

  -- An event of a cluster that the API server holds under its name concerns exactly the templates of
  -- which a reconcile finds that cluster to be the owner.
  pub cluster_to_templates_iff :
      (ts : List HydraMachineTemplate) (name : Text)
      → (contains name (cluster_to_templates cluster ts) ≡ true) ↔ Owns reader cluster name ts
  unfolding cluster_to_templates owner_cluster_of
  cluster_to_templates_iff [] name = (λ there. ground (arith, there), λ owned. elim owned [ ])
  cluster_to_templates_iff (t ∷ ts) name =
      concerned _ t ts name (owner_from_iff (owner_ref_of_kind t.owner_references cluster_kind))
        (cluster_to_templates_iff ts name)
