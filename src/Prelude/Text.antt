-- ===== src/Prelude/Text.antt =====
-- Text as the list of its bytes, with the operations of `str` that the program uses. White space
-- is that of ASCII, and a case is that of an ASCII letter.
use Prim.Native.Char.{code}
use Prim.Native.String.{String}
use mathlib.Core.Path.{◌≡◌, refl}
use mathlib.Core.Logic.{◌↔◌, inl, inr}
use mathlib.Core.Bool.{Bool, true, false, ◌&&◌, ◌||◌}
use mathlib.Core.Option
use mathlib.Core.Option.{Option, none, some}
use mathlib.Core.List.{List, [], ◌∷◌, ◌++◌, map}
use native.Mathlib.Omega.{arith}
use Prim.Native.Nat.{ℕ}
use aldis.Prelude.Tests.{◌==◌, ==_iff, leb, if◌then◌else◌, Bool-cases, Option-cases}
use aldis.Prelude.Lists.{bytes_eq, bytes_eq_iff, All}

abbrev pub Text : Type 0
Text = List ℕ

-- A literal.
abbrev pub codes : String → Text
codes String.[] = []
codes (String.◌∷◌ c s) = code c ∷ codes s

abbrev pub is_empty : Text → Bool
is_empty [] = true
is_empty (x ∷ s) = false

-- `s.bytes().all(test)`
unfoldable pub all : (ℕ → Bool) → Text → Bool
all test [] = true
all test (x ∷ s) = test x && all test s

pub all-All : (test : ℕ → Bool) (s : Text) → all test s ≡ true → All (λ x. test x ≡ true) s
unfolding all
all-All test [] h = tt
all-All test (x ∷ s) h = (ground arith, all-All test s (ground arith))

pub All-all : (test : ℕ → Bool) (s : Text) → All (λ x. test x ≡ true) s → all test s ≡ true
unfolding all
All-all test [] h = refl
All-all test (x ∷ s) h = rw (h.0) (All-all test s h.1)

-- `s.strip_prefix(prefix)`
unfoldable pub strip_prefix : Text → Text → Option Text
strip_prefix [] s = some s
strip_prefix (p ∷ prefix) [] = none
strip_prefix (p ∷ prefix) (x ∷ s) =
    let rest = strip_prefix prefix s in if p == x then rest else none

pub strip_prefix-exact :
    (prefix s rest : Text) → (strip_prefix prefix s ≡ some rest) ↔ (s ≡ prefix ++ rest)
unfolding strip_prefix
strip_prefix-exact [] s rest = ground arith
strip_prefix-exact (p ∷ prefix) [] rest = ground arith
strip_prefix-exact (p ∷ prefix) (x ∷ s) rest = ground (arith, strip_prefix-exact prefix s rest)

unfoldable pub starts_with : Text → Text → Bool
starts_with [] s = true
starts_with (p ∷ prefix) [] = false
starts_with (p ∷ prefix) (x ∷ s) = p == x && starts_with prefix s

-- `s.strip_suffix(suffix)`
unfoldable pub strip_suffix : Text → Text → Option Text
strip_suffix suffix [] = if is_empty suffix then some [] else none
strip_suffix suffix (x ∷ s) =
    let rest = Option.map (λ t. x ∷ t) (strip_suffix suffix s) in
    if bytes_eq (x ∷ s) suffix then some [] else rest

pub strip_suffix-append :
    (suffix s rest : Text) → strip_suffix suffix s ≡ some rest → s ≡ rest ++ suffix
unfolding strip_suffix
strip_suffix-append [] [] rest h = ground arith
strip_suffix-append (x ∷ suffix) [] rest h = ground arith
strip_suffix-append suffix (x ∷ s) rest h = elim (Option-cases (strip_suffix suffix s)) [
  | inl none' ↦ ground (arith, bytes_eq_iff (x ∷ s) suffix)
  | inr (r, some') ↦
      ground (arith, bytes_eq_iff (x ∷ s) suffix, strip_suffix-append suffix s r some')
]

-- `s.contains(needle)`
unfoldable pub contains : Text → Text → Bool
unfolding starts_with
contains needle [] = is_empty needle
contains needle (x ∷ s) = starts_with needle (x ∷ s) || contains needle s

-- `s.split_once(separator)` at one character
unfoldable pub split_once : ℕ → Text → Option (Text × Text)
split_once separator [] = none
split_once separator (x ∷ s) =
    let rest = Option.map (λ t. (x ∷ t.0, t.1)) (split_once separator s) in
    if x == separator then some ([], s) else rest

pub split_once-append :
    (separator : ℕ) (s a b : Text) → split_once separator s ≡ some (a, b) → s ≡ a ++ separator ∷ b
unfolding split_once
split_once-append separator [] a b h = ground arith
split_once-append separator (x ∷ s) a b h = elim (Option-cases (split_once separator s)) [
  | inl none' ↦ elim (Bool-cases (x == separator)) [
    | inl same ↦ let h' = rw same at h in ground (arith, ==_iff x separator)
    | inr other ↦ let h' = rw (other, none') at h in cc (h')
  ]
  | inr ((c, d), some') ↦ elim (Bool-cases (x == separator)) [
    | inl same ↦ let h' = rw same at h in ground (arith, ==_iff x separator)
    | inr other ↦
        let h' = rw (other, some') at h in
        let ih = split_once-append separator s c d some' in cc (h', ih)
  ]
]

abbrev pub push_first : ℕ → List Text → List Text
push_first x [] = (x ∷ []) ∷ []
push_first x (s ∷ ss) = (x ∷ s) ∷ ss

-- `s.split(separator)`
unfoldable pub split : ℕ → Text → List Text
split separator [] = [] ∷ []
split separator (x ∷ s) =
    let rest = split separator s in if x == separator then [] ∷ rest else push_first x rest

abbrev pub is_space : ℕ → Bool
is_space c = (leb 9 c && leb c 13) || c == b' '

unfoldable pub trim_start : Text → Text
trim_start [] = []
trim_start (x ∷ s) = let rest = trim_start s in if is_space x then rest else x ∷ s

unfoldable pub trim_end : Text → Text
trim_end [] = []
trim_end (x ∷ s) = let rest = trim_end s in if is_empty rest && is_space x then [] else x ∷ rest

unfoldable pub trim : Text → Text
unfolding trim_start trim_end
trim s = trim_end (trim_start s)

-- a line without a carriage return at its end
abbrev pub without_return : Text → Text
without_return line = elim (strip_suffix (13 ∷ []) line) [ some rest ↦ rest | none ↦ line ]

-- `str::lines`: the parts between newlines, less a last empty one
abbrev pub drop_last_empty : List Text → List Text
drop_last_empty [] = []
drop_last_empty (s ∷ []) = if is_empty s then [] else s ∷ []
drop_last_empty (s ∷ t ∷ ts) = s ∷ drop_last_empty (t ∷ ts)

unfoldable pub lines : Text → List Text
unfolding split strip_suffix
lines s = map without_return (drop_last_empty (split 10 s))

-- Whether a byte is of a class.
abbrev pub is_digit : ℕ → Bool
is_digit c = leb b'0' c && leb c b'9'

abbrev pub is_alphabetic : ℕ → Bool
is_alphabetic c = (leb b'A' c && leb c b'Z') || (leb b'a' c && leb c b'z')

abbrev pub is_alphanumeric : ℕ → Bool
is_alphanumeric c = is_digit c || is_alphabetic c

abbrev pub is_hex_digit : ℕ → Bool
is_hex_digit c = is_digit c || (leb b'A' c && leb c b'F') || (leb b'a' c && leb c b'f')

-- `set.contains(&byte)`
unfoldable pub one_of : Text → ℕ → Bool
one_of [] c = false
one_of (x ∷ set) c = x == c || one_of set c

-- `list.iter().any(test)`
unfoldable pub any {ℓ} : {A : Type ℓ} → (A → Bool) → List A → Bool
any test [] = false
any test (x ∷ xs) = test x || any test xs
