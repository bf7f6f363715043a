-- ===== src/Providers/Libvirt/Uuids/Trip.antt =====
-- internal/providers/libvirt/xml.go: a UUID that was written is read back.
use mathlib.Core.List.{append-nil}
use cluster_api_provider_hyd.Base.{
  subst, ℕ, zero, suc, ◌+◌, ◌*◌, ◌/◌, ◌%◌, ◌<◌, ◌≡◌, refl, ap, ◌∙◌, sym, false, some, List, [], ◌∷◌,
  ◌++◌, ◌==◌, nat_eq, length, take, drop, Text, arith,
}
use cluster_api_provider_hyd.Providers.Libvirt.Uuids.{
  dash, hex_digit, encode, hex_value, decode, strip, format_uuid, parse_uuid, decode_long,
}

abbrev pub IsBytes : List ℕ → Type 0
IsBytes [] = Unit
IsBytes (b ∷ rest) = (b < 256) × IsBytes rest

abbrev IsDashless : Text → Type 0
IsDashless [] = Unit
IsDashless (c ∷ s) = ((c == dash) ≡ false) × IsDashless s

strip-IsDashless : (s : Text) → IsDashless s → strip s ≡ s
unfolding strip
strip-IsDashless [] h = refl
strip-IsDashless (c ∷ s) h = ground (arith, strip-IsDashless s h.1)

strip-append : (s t : Text) → strip (s ++ t) ≡ strip s ++ strip t
unfolding strip
strip-append [] t = refl
strip-append (c ∷ s) t = ground (arith, strip-append s t)

strip-dash : (s t : Text) → IsDashless s → strip (s ++ dash ∷ t) ≡ s ++ strip t
unfolding strip
strip-dash s t h = strip-append s (dash ∷ t) ∙ ap (λ front. front ++ strip t) (strip-IsDashless s h)

take-IsDashless : (n : ℕ) (s : Text) → IsDashless s → IsDashless (take n s)
take-IsDashless zero s h = tt
take-IsDashless (suc n) [] h = tt
take-IsDashless (suc n) (c ∷ s) h = (h.0, take-IsDashless n s h.1)

drop-IsDashless : (n : ℕ) (s : Text) → IsDashless s → IsDashless (drop n s)
drop-IsDashless zero s h = h
drop-IsDashless (suc n) [] h = tt
drop-IsDashless (suc n) (c ∷ s) h = drop-IsDashless n s h.1

hex_digit-not_dash : (n : ℕ) → (hex_digit n == dash) ≡ false
hex_digit-not_dash n = ground arith

encode-IsDashless : (u : List ℕ) → IsDashless (encode u)
unfolding encode
encode-IsDashless [] = tt
encode-IsDashless (b ∷ rest) =
    (hex_digit-not_dash (b / 16), (hex_digit-not_dash (b % 16), encode-IsDashless rest))

length-encode : (u : List ℕ) → length (encode u) ≡ 2 * length u
unfolding encode
length-encode [] = refl
length-encode (b ∷ rest) = omega (arith, length-encode rest)

hex_value-hex_digit : (n : ℕ) → n < 16 → hex_value (hex_digit n) ≡ some n
hex_value-hex_digit n h = ground arith

decode-encode : (u : List ℕ) → IsBytes u → decode (encode u) ≡ some u
unfolding encode decode
decode-encode [] h = refl
decode-encode (b ∷ rest) (small, more) =
    let high : hex_value (hex_digit (b / 16)) ≡ some (b / 16) =
      hex_value-hex_digit (b / 16) (omega arith) in
    let low : hex_value (hex_digit (b % 16)) ≡ some (b % 16) =
      hex_value-hex_digit (b % 16) (omega arith) in
    rw (high, low, decode-encode rest more) (ap (λ n. some (n ∷ rest)) (omega arith))

take-nil : (n : ℕ) → take {A = ℕ} n [] ≡ []
take-nil zero = refl
take-nil (suc n) = refl

take-drop : (n : ℕ) (s : Text) → take n s ++ drop n s ≡ s
take-drop zero s = refl
take-drop (suc n) [] = refl
take-drop (suc n) (c ∷ s) = ap (λ r. c ∷ r) (take-drop n s)

-- A slice, and what comes after it.
take-drop_from : (n m j : ℕ) (s : Text) → n + m ≡ j → take m (drop n s) ++ drop j s ≡ drop n s
take-drop_from zero m j s e =
    let same : m ≡ j = omega arith in subst (λ i. take m s ++ drop i s ≡ s) same (take-drop m s)
take-drop_from (suc n) m zero s e = absurd (omega arith)
take-drop_from (suc n) m (suc j) [] e = ap (λ r. r ++ []) (take-nil m)
take-drop_from (suc n) m (suc j) (c ∷ s) e = take-drop_from n m j s (omega arith)

drop-length : (n : ℕ) (s : Text) → length s ≡ n → drop n s ≡ []
drop-length zero [] h = refl
drop-length zero (c ∷ s) h = absurd (omega arith)
drop-length (suc n) [] h = refl
drop-length (suc n) (c ∷ s) h = drop-length n s (omega arith)

slice-IsDashless : (n m : ℕ) (s : Text) → IsDashless s → IsDashless (take m (drop n s))
slice-IsDashless n m s h = take-IsDashless m (drop n s) (drop-IsDashless n s h)

-- One slice of `formatUUID`: if what follows it strips to the rest, all of it strips to what is left.
strip-slice :
    (n m j : ℕ) (s t : Text)
    → IsDashless s
    → n + m ≡ j
    → strip t ≡ drop j s
    → strip (take m (drop n s) ++ dash ∷ t) ≡ drop n s
strip-slice n m j s t h e later =
    strip-dash (take m (drop n s)) t (slice-IsDashless n m s h)
    ∙ ap (λ r. take m (drop n s) ++ r) later
    ∙ take-drop_from n m j s e

strip-last : (s : Text) → IsDashless s → length s ≡ 32 → strip (take 12 (drop 20 s)) ≡ drop 20 s
strip-last s h long =
    strip-IsDashless (take 12 (drop 20 s)) (slice-IsDashless 20 12 s h)
    ∙ sym (append-nil (take 12 (drop 20 s)))
    ∙ ap (λ r. take 12 (drop 20 s) ++ r) (sym (drop-length 32 s long))
    ∙ take-drop_from 20 12 32 s refl

strip-format_uuid : (u : List ℕ) → length (encode u) ≡ 32 → strip (format_uuid u) ≡ encode u
unfolding format_uuid
strip-format_uuid u long =
    let s = encode u in
    let h = encode-IsDashless u in
    strip-slice 0 8 8 s _ h refl (
      strip-slice 8 4 12 s _ h refl
        (strip-slice 12 4 16 s _ h refl (strip-slice 16 4 20 s _ h refl (strip-last s h long))))

decode_of :
    (t s : Text) {u : List ℕ} → t ≡ s → length s ≡ 32 → decode s ≡ some u → decode_long t ≡ some u
decode_of t s {u} same long found = subst (λ r. decode_long r ≡ some u) (sym same) (ground arith)

-- What `formatUUID` writes of 16 bytes, `parseUUID` reads as these bytes.
pub parse_uuid-format_uuid :
    (u : List ℕ) → length u ≡ 16 → IsBytes u → parse_uuid (format_uuid u) ≡ some u
unfolding parse_uuid
parse_uuid-format_uuid u size h =
    let long : length (encode u) ≡ 32 = omega (arith, length-encode u) in
    decode_of (strip (format_uuid u)) (encode u) (strip-format_uuid u long) long (decode-encode u h)
