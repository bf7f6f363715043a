-- ===== src/Base/Paths.antt =====
-- Go's path/filepath on Unix: `Base`, `Dir` and `Clean`.
use Prim.Native.Nat.{ℕ}
use mathlib.Core.Path.{◌≡◌, refl, sym, subst}
use mathlib.Core.Bool.{Bool, true, false, ◌||◌}
use mathlib.Core.Option.{Option, none, some}
use mathlib.Core.List.{List, [], ◌∷◌, ◌++◌}
use native.Mathlib.Omega.{arith}
use cluster_api_provider_hyd.Base.Tests.{◌==◌, nat_eq, if◌then◌else◌, if_cases}
use cluster_api_provider_hyd.Base.Texts.{Text, text, list_eq}

abbrev pub slash : ℕ
slash = 47

abbrev dot : Text
dot = text "."

abbrev dots : Text
dots = text ".."

abbrev pub blank : Text → Bool
blank [] = true
blank (c ∷ s) = false

abbrev push : ℕ → List Text → List Text
push c [] = (c ∷ []) ∷ []
push c (w ∷ ws) = (c ∷ w) ∷ ws

-- What stands between the slashes.
unfoldable pub words : Text → List Text
words [] = [] ∷ []
words (c ∷ path) = let rest = words path in if c == slash then [] ∷ rest else push c rest

-- The last word that is not empty.
unfoldable pub last_word : List Text → Option Text
last_word [] = none
last_word (w ∷ ws) =
    let later = last_word ws in
    elim later [ some x ↦ some x | none ↦ (if blank w then none else some w) ]

abbrev base_of : Text → Option Text → Text
base_of path (some w) = w
base_of path none = if blank path then dot else slash ∷ []

-- `filepath.Base`
unfoldable pub base : Text → Text
base path = base_of path (last_word (words path))

-- What a parent's name does to the words before it, the last first.
abbrev parent : Bool → List Text → List Text
parent rooted [] = if rooted then [] else dots ∷ []
parent rooted (w ∷ ws) = if w == dots then dots ∷ w ∷ ws else ws

abbrev step : Bool → Text → List Text → List Text
step rooted w out =
    if blank w || w == dot then out else if w == dots then parent rooted out else w ∷ out

unfoldable pub cleaned : Bool → List Text → List Text → List Text
cleaned rooted [] out = out
cleaned rooted (w ∷ ws) out = cleaned rooted ws (step rooted w out)

-- With a slash between the words, which stand last first, before `rest`.
unfoldable pub joined : List Text → Text → Text
joined [] rest = rest
joined (w ∷ []) rest = w ++ rest
joined (w ∷ v ∷ ws) rest = joined (v ∷ ws) (slash ∷ w ++ rest)

abbrev starts_with_slash : Text → Bool
starts_with_slash [] = false
starts_with_slash (c ∷ path) = c == slash

abbrev or_dot : Text → Text
or_dot s = if blank s then dot else s

-- `filepath.Clean`
unfoldable pub clean : Text → Text
clean path =
    let rooted = starts_with_slash path in
    let out = joined (cleaned rooted (words path) []) [] in
    if rooted then slash ∷ out else or_dot out

unfoldable pub up_to_slash : Text → Text
up_to_slash [] = []
up_to_slash (c ∷ path) =
    let rest = up_to_slash path in
    if blank rest then (if c == slash then c ∷ [] else []) else c ∷ rest

-- `filepath.Dir`
unfoldable pub dir : Text → Text
dir path = clean (up_to_slash path)

-- A name in a directory, which is not empty.
abbrev pub NoSlash : Text → Type 0
NoSlash [] = Unit
NoSlash (c ∷ s) = ((c == slash) ≡ false) × NoSlash s

abbrev tail : List Text → List Text
tail [] = []
tail (w ∷ ws) = ws

words-NoSlash : (name : Text) → NoSlash name → words name ≡ name ∷ []
unfolding words
words-NoSlash [] h = refl
words-NoSlash (c ∷ s) h = ground (arith, words-NoSlash s h.1)

last_word-tail :
    (ws : List Text) {name : Text} → last_word (tail ws) ≡ some name → last_word ws ≡ some name
unfolding last_word
last_word-tail [] h = h
last_word-tail (w ∷ ws) h = ground arith

tail-push :
    (c : ℕ) (ws : List Text) {name : Text}
    → last_word (tail ws) ≡ some name
    → last_word (tail (push c ws)) ≡ some name
unfolding last_word
tail-push c [] h = ground arith
tail-push c (w ∷ ws) h = h

last_word-tail-words :
    (path name : Text)
    → NoSlash name
    → blank name ≡ false
    → last_word (tail (words (path ++ slash ∷ name))) ≡ some name
unfolding words last_word
last_word-tail-words [] name h full = ground (arith, words-NoSlash name h)
last_word-tail-words (c ∷ path) name h full =
    let rest = last_word-tail-words path name h full in
    if_cases (λ ws. last_word (tail ws) ≡ some name) (c == slash)
      (λ _. last_word-tail (words (path ++ slash ∷ name)) rest)
      (λ _. tail-push c (words (path ++ slash ∷ name)) rest)

-- The base of a name in a directory is the name.
pub base-append :
    (path name : Text) → NoSlash name → blank name ≡ false → base (path ++ slash ∷ name) ≡ name
unfolding base
base-append path name h full =
    subst (λ o. base_of (path ++ slash ∷ name) o ≡ name)
      (sym (last_word-tail (words (path ++ slash ∷ name)) (last_word-tail-words path name h full)))
      refl

tests :
    (base (text "/a/b//") ≡ text "b")
    × (base (text "//") ≡ text "/")
    × (base [] ≡ text ".")
    × (clean (text "/a/../../b/./c//d/") ≡ text "/b/c/d")
    × (clean (text "../a/..") ≡ text "..")
    × (clean [] ≡ text ".")
    × (dir (text "/pools/p/m.qcow2") ≡ text "/pools/p")
    × (dir (text "m") ≡ text ".")
unfolding base words last_word clean cleaned joined dir up_to_slash
tests = (refl, refl, refl, refl, refl, refl, refl, refl)
