-- ===== src/Providers/Identity/Format.antt =====
-- The providerID is read back as it was written, and nothing else is read.
use cluster_api_provider_hyd.Base.{
  ℕ, zero, suc, inl, inr, ◌≡◌, ◌↔◌, refl, sym, ap, ◌∙◌, false, not, ◌||◌, some, [], ◌∷◌, ◌++◌, ◌==◌,
  nat_eq, list_eq, leb, length, take, drop, contains, Text, Option-cases, Bool-cases, list_beq_iff,
  arith, nat_beq_iff, subst,
}
use cluster_api_provider_hyd.Base.Exec.{ok, passes}
use cluster_api_provider_hyd.Providers.Errors.{other}
use cluster_api_provider_hyd.Providers.Identity.{
  provider_id, cut_slash, parse_provider_id, slash, scheme, is_empty, parse_rest,
}

pub cut_slash-append :
    (b i : Text) → contains slash b ≡ false → cut_slash (b ++ slash ∷ i) ≡ some (b, i)
unfolding cut_slash
cut_slash-append [] i h = refl
cut_slash-append (c ∷ b) i h =
    let deeper = cut_slash-append b i in ground (arith, nat_beq_iff c slash, deeper)

cut_slash_exact :
    (s b i : Text) → cut_slash s ≡ some (b, i) → (s ≡ b ++ slash ∷ i) × (contains slash b ≡ false)
unfolding cut_slash
cut_slash_exact [] b i h = ground arith
cut_slash_exact (c ∷ s) b i h = elim (Bool-cases (c == slash)) [
  | inl e ↦ ground (arith, nat_beq_iff c slash)
  | inr e ↦ elim (Option-cases (cut_slash s)) [
    | inl n ↦ ground arith
    | inr (p, f) ↦
        (let deeper = cut_slash_exact s p.0 p.1 f in ground (arith, deeper, nat_beq_iff c slash))
  ]
]

take-append : (s r : Text) → take (length s) (s ++ r) ≡ s
take-append [] r = refl
take-append (c ∷ s) r = ap (λ t. c ∷ t) (take-append s r)

take-drop : (n : ℕ) (s : Text) → take n s ++ drop n s ≡ s
take-drop zero s = refl
take-drop (suc n) [] = refl
take-drop (suc n) (c ∷ s) = ap (λ t. c ∷ t) (take-drop n s)

length-scheme : (r : Text) → is_empty r ≡ false → leb (length (scheme ++ r)) (length scheme) ≡ false
length-scheme [] h = ground arith
length-scheme (c ∷ r) h = ground arith

slash_inside : (b i : Text) → is_empty (b ++ slash ∷ i) ≡ false
slash_inside [] i = refl
slash_inside (c ∷ b) i = refl

-- The test in front, as what it says of the text.
has_scheme :
    (s : Text)
    → (leb (length s) (length scheme) || not (take (length scheme) s == scheme)) ≡ false
    → s ≡ scheme ++ drop (length scheme) s
has_scheme s h =
    let front : take (length scheme) s ≡ scheme =
      ground (arith, list_beq_iff (take (length scheme) s) scheme) in
    sym (take-drop (length scheme) s) ∙ ap (λ t. t ++ drop (length scheme) s) front

parse_rest_exact :
    (r b i : Text)
    → parse_rest (cut_slash r) ≡ ok (b, i)
    → (r ≡ b ++ slash ∷ i)
      × (is_empty b ≡ false)
      × (is_empty i ≡ false)
      × (contains slash b ≡ false)
parse_rest_exact r b i h = elim (Option-cases (cut_slash r)) [
  | inl n ↦ ground arith
  | inr (p, f) ↦ (let exact = cut_slash_exact r p.0 p.1 f in ground (arith, exact))
]

parse_rest_writes :
    (b i : Text)
    → is_empty b ≡ false
    → is_empty i ≡ false
    → contains slash b ≡ false
    → parse_rest (cut_slash (b ++ slash ∷ i)) ≡ ok (b, i)
parse_rest_writes b i hb hi hc = ground (arith, cut_slash-append b i hc)

parse-provider_id :
    (b i : Text)
    → is_empty b ≡ false
    → is_empty i ≡ false
    → contains slash b ≡ false
    → parse_provider_id (provider_id b i) ≡ ok (b, i)
unfolding parse_provider_id provider_id
parse-provider_id b i hb hi hc =
    let r : Text = b ++ slash ∷ i in
    let long = length-scheme r (slash_inside b i) in
    ground (arith, long, parse_rest_writes b i hb hi hc)

parse_exact :
    (s b i : Text)
    → parse_provider_id s ≡ ok (b, i)
    → (s ≡ scheme ++ drop (length scheme) s)
      × (parse_rest (cut_slash (drop (length scheme) s)) ≡ ok (b, i))
unfolding parse_provider_id
parse_exact s b i h =
    let (f, read) =
      passes other (leb (length s) (length scheme) || not (take (length scheme) s == scheme)) h in
    (has_scheme s f, read)

-- Reading a providerID returns a backend and an id exactly when the text is what `provider_id`
-- writes for them, neither is empty and the backend holds no slash.
pub parse_provider_id_iff :
    (s b i : Text)
    → (parse_provider_id s ≡ ok (b, i)) ↔ (
        (s ≡ provider_id b i)
        × (is_empty b ≡ false)
        × (is_empty i ≡ false)
        × (contains slash b ≡ false))
unfolding parse_provider_id provider_id
parse_provider_id_iff s b i = (
  (λ h.
      let (whole, read) = parse_exact s b i h in
      let (split, hb, hi, hc) = parse_rest_exact (drop (length scheme) s) b i read in
      (whole ∙ ap (λ t. scheme ++ t) split, hb, hi, hc)),
  λ h. subst (λ t. parse_provider_id t ≡ ok (b, i)) (sym h.0) (parse-provider_id b i h.1 h.2 h.3),
)
