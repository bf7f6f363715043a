-- ===== src/Controller/Naming.antt =====
-- internal/controller/hydramachine_controller.go: what a machine is called on the backend and in
-- its guest. A byte string is cut where Go cuts it.
pub mod Bounds
pub mod Distinct
mod Examples
use cluster_api_provider_hyd.Base.{
  ℕ, ◌-◌, ◌||◌, ◌&&◌, [], ◌∷◌, ◌++◌, ◌==◌, nat_eq, leb, if◌then◌else◌, length, take, Text,
}
use cluster_api_provider_hyd.Providers.Identity.{is_empty, slash}
use cluster_api_provider_hyd.Controller.Objects.{HydraMachine}

abbrev pub max_readable_name_prefix : ℕ
max_readable_name_prefix = 40

abbrev pub max_hostname_length : ℕ
max_hostname_length = 63

abbrev pub hyphen : ℕ
hyphen = 45

abbrev pub dot : ℕ
dot = 46

-- The identity that is hashed.
abbrev pub full_identity : HydraMachine → Text
full_identity m = m.namespace ++ slash ∷ (m.name ++ slash ∷ m.uid)

-- `strings.TrimRight(s, "-.")`
unfoldable pub trim_right : Text → Text
trim_right [] = []
trim_right (c ∷ s) =
    let rest = trim_right s in if is_empty rest && (c == hyphen || c == dot) then [] else c ∷ rest

module _ (sha256_hex : Text → Text) where
  unfoldable pub backend_name : HydraMachine → Text
  backend_name m =
      let readable = m.namespace ++ hyphen ∷ m.name in
      (if leb (length readable) max_readable_name_prefix
        then readable
        else take max_readable_name_prefix readable)
      ++ hyphen ∷ take 20 (sha256_hex (full_identity m))

  unfoldable pub hostname_for : HydraMachine → Text
  hostname_for m =
      if leb (length m.name) max_hostname_length
      then m.name
      else let digest = take 8 (sha256_hex (full_identity m)) in
        let prefix = trim_right (take (max_hostname_length - length digest - 1) m.name) in
        if is_empty prefix then digest else prefix ++ hyphen ∷ digest
