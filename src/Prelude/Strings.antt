-- ===== src/Prelude/Strings.antt =====
-- More of Rust's text: words, case, numbers and joining.
use Prim.Native.Nat.{ℕ, ◌+◌, ◌-◌, ◌*◌}
use mathlib.Core.Bool.{Bool, ◌&&◌, not}
use mathlib.Core.Option.{Option, none, some}
use mathlib.Core.List.{List, [], ◌∷◌, ◌++◌, map}
use aldis.Prelude.Tests.{ltb, leb, if◌then◌else◌}
use aldis.Prelude.Lists.{bytes_eq}
use aldis.Prelude.Iter.{keep, or_later}
use aldis.Prelude.Text.{Text, is_space, is_digit, is_empty, all}

abbrev grow : ℕ → List Text → List Text
grow x [] = (x ∷ []) ∷ []
grow x (w ∷ ws) = (x ∷ w) ∷ ws

-- `split` at every character of a class
unfoldable pub split_at : (ℕ → Bool) → Text → List Text
split_at test [] = [] ∷ []
split_at test (x ∷ s) = let rest = split_at test s in if test x then [] ∷ rest else grow x rest

unfoldable pub split_whitespace : Text → List Text
unfolding split_at keep
split_whitespace s = keep (λ word. not (is_empty word)) (split_at is_space s)

abbrev pub to_lower : ℕ → ℕ
to_lower c = if leb b'A' c && leb c b'Z' then c + 32 else c

abbrev pub to_ascii_lowercase : Text → Text
to_ascii_lowercase = map to_lower

unfoldable pub eq_ignore_ascii_case : Text → Text → Bool
eq_ignore_ascii_case a b = bytes_eq (to_ascii_lowercase a) (to_ascii_lowercase b)

-- `join`
unfoldable pub join : Text → List Text → Text
join separator [] = []
join separator (s ∷ []) = s
join separator (s ∷ t ∷ ts) = s ++ (separator ++ join separator (t ∷ ts))

unfoldable pub digits_below : ℕ → ℕ → Text → Option ℕ
digits_below limit n [] = some n
digits_below limit n (x ∷ s) =
    let m = n * 10 + (x - b'0') in
    let rest = digits_below limit m s in if is_digit x && ltb m limit then rest else none

-- `parse` of digits without a sign, as a number below `limit`
unfoldable pub parse_below : ℕ → Text → Option ℕ
unfolding digits_below
parse_below limit s = if is_empty s then none else digits_below limit 0 s

abbrev pub is_number : Text → Bool
unfolding all
is_number s = not (is_empty s) && all is_digit s

-- `BTreeMap::get` on the entries that a map was collected from: of two with one key the later is
-- kept.
unfoldable pub lookup {ℓ} : {A : Type ℓ} → Text → List (Text × A) → Option A
lookup key [] = none
lookup key ((k, a) ∷ entries) =
    or_later (lookup key entries) (if bytes_eq k key then some a else none)
