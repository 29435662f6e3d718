-- ===== src/Vendors/Cartographer/Select/Inside.antt =====
-- The path of an image lies inside the clone (src/cartographer.rs).
use aldis.Prelude.{
  ℕ, ◌==◌, ==_iff, ◌&&◌, ◌||◌, not, true, false, Bool-cases, Option-cases, List, [], ◌∷◌, ◌++◌, All,
  bytes_eq, bytes_eq_iff, some, ◌≡◌, ◌≢◌, sym, ap, inl, inr, arith,
}
use aldis.Prelude.Iter.{keep}
use aldis.Prelude.Text.{Text, codes, split, push_first, is_empty, any}
use aldis.Prepare.{PathBuf}
use aldis.Vendors.Cartographer.Select.{is_current, normal, normal_from, image_path}

-- The name of a file or a directory: it is not empty, has no slash, and leads nowhere else.
abbrev pub IsName : Text → Type 0
IsName part = (part ≢ []) × (part ≢ codes ".") × (part ≢ codes "..") × All (λ c. c ≢ b'/') part

abbrev pub IsInside : PathBuf → PathBuf → Type 0
IsInside checkout path =
    (parts : PathBuf) × (path ≡ checkout ++ (codes "firmware" ∷ parts)) × All IsName parts

abbrev HasNoSlash : Text → Type 0
HasNoSlash part = All (λ c. c ≢ b'/') part

push_first-All :
    (c : ℕ) (parts : List Text)
    → c ≢ b'/'
    → All HasNoSlash parts
    → All HasNoSlash (push_first c parts)
push_first-All c [] h k = ((h, tt), tt)
push_first-All c (part ∷ parts) h k = ((h, k.0), k.1)

split-All : (s : Text) → All HasNoSlash (split b'/' s)
unfolding split
split-All [] = (tt, tt)
split-All (c ∷ s) = elim (Bool-cases (c == b'/')) [
  | inl slash ↦ rw slash (tt, split-All s)
  | inr other ↦
      rw other
        (push_first-All c (split b'/' s) (λ e. cc (other, (==_iff c b'/').1 e)) (split-All s))
]

names :
    (parts : List Text)
    → any (λ part. bytes_eq part (codes "..")) parts ≡ false
    → All HasNoSlash parts
    → All IsName (keep (λ part. not (is_empty part) && not (is_current part)) parts)
unfolding any keep
names [] h k = tt
names (part ∷ parts) h k =
    let rest = names parts (ground arith) k.1 in
    elim (Bool-cases (not (is_empty part) && not (is_current part))) [
      | inr dropped ↦ rw (dropped, keep) rest
      | inl kept ↦
          rw (kept, keep)
            (
              (
                (λ e. let e' : is_empty part ≡ true = ap is_empty e in ground arith),
                (λ e. let e' = (bytes_eq_iff part (codes ".")).1 e in ground arith),
                (λ e. let e' = (bytes_eq_iff part (codes "..")).1 e in ground arith),
                k.0,
              ),
              rest,
            )
    ]

normal-names :
    (parts : List Text) (path : PathBuf)
    → All HasNoSlash parts
    → normal parts ≡ some path
    → All IsName path
normal-names parts path h e = elim (Bool-cases (any (λ part. bytes_eq part (codes "..")) parts)) [
  | inl up ↦ absurd (cc (rw (normal, up) at e))
  | inr none' ↦
      let kept = keep (λ part. not (is_empty part) && not (is_current part)) parts in
      let same : kept ≡ path = cc (rw (normal, none') at e) in rw (← same) (names parts none' h)
]

normal_from-names :
    (parts : List Text) (path : PathBuf)
    → All HasNoSlash parts
    → normal_from parts ≡ some path
    → All IsName path
normal_from-names [] path h e = let same : [] ≡ path = cc e in rw (← same) tt
normal_from-names (part ∷ []) path h e = elim (Bool-cases (is_current part)) [
  | inl here ↦ absurd (cc (rw (normal_from, here) at e))
  | inr other ↦ normal-names (part ∷ []) path h (rw (normal_from, other) at e)
]
normal_from-names (part ∷ next ∷ parts) path h e =
    elim (Bool-cases (is_current part || is_empty part)) [
      | inl here ↦ absurd (cc (rw (normal_from, here) at e))
      | inr other ↦ normal-names (part ∷ next ∷ parts) path h (rw (normal_from, other) at e)
    ]

-- An image's path is below the clone's directory of firmware, by names alone.
pub image_path-IsInside :
    (checkout path : PathBuf) (relative : Text)
    → image_path checkout relative ≡ some path
    → IsInside checkout path
unfolding image_path
image_path-IsInside checkout path relative e =
    elim (Option-cases (normal_from (split b'/' relative))) [
      | inl none' ↦ absurd (cc (rw (image_path, none') at e))
      | inr (parts, some') ↦ (
        parts,
        sym (cc (rw (image_path, some') at e)),
        normal_from-names (split b'/' relative) parts (split-All relative) some',
      )
    ]
