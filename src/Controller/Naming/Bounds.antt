-- ===== src/Controller/Naming/Bounds.antt =====
-- How long the names of a machine are.
use cluster_api_provider_hyd.Base.{
  suc, ◌-◌, ◌≤◌, ◌&&◌, ◌||◌, [], ◌∷◌, ◌++◌, ◌==◌, nat_eq, leb, if◌then◌else◌, if_cases, length,
  take, length-append, length-take, Text, arith,
}
use cluster_api_provider_hyd.Providers.Identity.{is_empty}
use cluster_api_provider_hyd.Controller.Objects.{HydraMachine}
use cluster_api_provider_hyd.Controller.Naming.{
  backend_name, hostname_for, trim_right, full_identity, max_hostname_length,
  max_readable_name_prefix, hyphen, dot,
}

trim_right-shorter : (s : Text) → length (trim_right s) ≤ length s
unfolding trim_right
trim_right-shorter [] = omega arith
trim_right-shorter (c ∷ s) =
    if_cases (λ (t : Text). length t ≤ suc (length s))
      (is_empty (trim_right s) && (c == hyphen || c == dot)) (λ _. omega arith)
      (λ _. omega (arith, trim_right-shorter s))

module _ (sha256_hex : Text → Text) (m : HydraMachine) where
  readable-fits :
      (s : Text)
      → length
          (if leb (length s) max_readable_name_prefix then s else take max_readable_name_prefix s)
        ≤ max_readable_name_prefix
  readable-fits s =
      if_cases (λ (t : Text). length t ≤ max_readable_name_prefix)
        (leb (length s) max_readable_name_prefix) (λ short. ground arith)
        (λ _. length-take max_readable_name_prefix s)

  -- The part of a long name that is kept, with the digest, fits.
  cut-fits :
      (digest prefix : Text)
      → length digest ≤ 8
      → length prefix ≤ max_hostname_length - length digest - 1
      → length (if is_empty prefix then digest else prefix ++ hyphen ∷ digest) ≤ max_hostname_length
  cut-fits digest prefix short fits =
      if_cases (λ (t : Text). length t ≤ max_hostname_length) (is_empty prefix) (λ _. omega arith)
        (λ _. omega (arith, length-append prefix (hyphen ∷ digest)))

  -- A backend name has at most 61 bytes, so that with a suffix such as ".qcow2" it is a filename, and a
  -- hostname has at most the 63 bytes that a guest accepts, however long the object's name is.
  pub names-fit :
      (length (backend_name sha256_hex m) ≤ 61)
      × (length (hostname_for sha256_hex m) ≤ max_hostname_length)
  unfolding backend_name hostname_for
  names-fit =
      let readable : Text = m.namespace ++ hyphen ∷ m.name in
      let front : Text =
        if leb (length readable) max_readable_name_prefix
        then readable
        else take max_readable_name_prefix readable in
      let digest : Text = take 8 (sha256_hex (full_identity m)) in
      let kept : Text = take (max_hostname_length - length digest - 1) m.name in
      (
        omega (
          arith,
          readable-fits readable,
          length-take 20 (sha256_hex (full_identity m)),
          length-append front (hyphen ∷ take 20 (sha256_hex (full_identity m))),
        ),
        if_cases (λ (t : Text). length t ≤ max_hostname_length)
            (leb (length m.name) max_hostname_length) (λ short. ground arith)
            (λ _. cut-fits digest (trim_right kept) (length-take 8 (sha256_hex (full_identity m))) (
              omega (
                arith,
                trim_right-shorter kept,
                length-take (max_hostname_length - length digest - 1) m.name,
              ))),
      )
