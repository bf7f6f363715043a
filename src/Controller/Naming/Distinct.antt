-- ===== src/Controller/Naming/Distinct.antt =====
-- Whose machine a backend name is.
use cluster_api_provider_hyd.Base.{
  ◌≤◌, ◌≡◌, sym, ap, ◌∙◌, false, Option, some, ◌∷◌, ◌++◌, nat_eq, length, take, contains,
  length-take_of, append_same_tail, Text, arith,
}
use cluster_api_provider_hyd.Providers.Identity.{slash, cut_slash}
use cluster_api_provider_hyd.Providers.Identity.Format.{cut_slash-append}
use cluster_api_provider_hyd.Controller.Objects.{HydraMachine}
use cluster_api_provider_hyd.Controller.Naming.{backend_name, full_identity, hyphen}

-- The text in front of the first slash, and behind it, where there is no slash in front.
cut_same :
    (a b s t : Text)
    → contains slash a ≡ false
    → contains slash b ≡ false
    → a ++ slash ∷ s ≡ b ++ slash ∷ t
    → (a ≡ b) × (s ≡ t)
cut_same a b s t ha hb same =
    let cuts : ◌≡◌ {A = Option (Text × Text)} (some (a, s)) (some (b, t)) =
      sym (cut_slash-append a s ha) ∙ ap cut_slash same ∙ cut_slash-append b t hb in
    ground arith

module _ (sha256_hex : Text → Text) (m n : HydraMachine) where
  -- Two objects with one backend name are one object: they have the same namespace, name and UID.
  -- Namespaces and names hold no slash, the digests are at least 20 bytes long, and those of these two
  -- identities do not agree in 20 bytes unless the identities are the same.
  pub backend_name-distinct :
      contains slash m.namespace ≡ false
      → contains slash m.name ≡ false
      → contains slash n.namespace ≡ false
      → contains slash n.name ≡ false
      → 20 ≤ length (sha256_hex (full_identity m))
      → 20 ≤ length (sha256_hex (full_identity n))
      → (take 20 (sha256_hex (full_identity m)) ≡ take 20 (sha256_hex (full_identity n))
          → full_identity m ≡ full_identity n)
      → backend_name sha256_hex m ≡ backend_name sha256_hex n
      → (m.namespace ≡ n.namespace) × (m.name ≡ n.name) × (m.uid ≡ n.uid)
  unfolding backend_name
  backend_name-distinct ms mn ns nn lm ln no_collision same =
      let dm : Text = take 20 (sha256_hex (full_identity m)) in
      let dn : Text = take 20 (sha256_hex (full_identity n)) in
      let long : length (hyphen ∷ dm) ≡ length (hyphen ∷ dn) = omega (
        arith,
        length-take_of 20 (sha256_hex (full_identity m)) lm,
        length-take_of 20 (sha256_hex (full_identity n)) ln,
      ) in
      let tails : hyphen ∷ dm ≡ hyphen ∷ dn =
        append_same_tail _ _ (hyphen ∷ dm) (hyphen ∷ dn) same long in
      let (spaces, rest) =
        cut_same m.namespace n.namespace (m.name ++ slash ∷ m.uid) (n.name ++ slash ∷ n.uid) ms ns
          (no_collision (ground arith)) in
      let (names, uids) = cut_same m.name n.name m.uid n.uid mn nn rest in (spaces, names, uids)
