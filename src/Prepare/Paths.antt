-- ===== src/Prepare/Paths.antt =====
-- No two MCUs of a run share a path.
use mathlib.Core.List.{append_cancel_left, append_cancel_right}
use aldis.Prelude.{
  ◌⊎◌, bind-eq-ok, ℕ, ◌/◌, ◌%◌, ◌<◌, [], ◌∷◌, ◌++◌, ◌≡◌, refl, ap, ap₂, sym, ◌∙◌, arith, AreBytes,
  get_or, drop, ok, Exec, inl, inr, Bool-cases,
}
use aldis.Prelude.Text.{Text, codes, is_empty}
use aldis.Prepare.{PathBuf, hex_digit, target_id, WorkspaceBuildPaths, build_paths, or_io}

hex_digit-injective : (m n : ℕ) → m < 16 → n < 16 → hex_digit m ≡ hex_digit n → m ≡ n
hex_digit-injective m n p q h = ground arith

hex_byte-injective :
    (a b : ℕ)
    → a < 256
    → b < 256
    → hex_digit (a / 16) ≡ hex_digit (b / 16)
    → hex_digit (a % 16) ≡ hex_digit (b % 16)
    → a ≡ b
hex_byte-injective a b p q h k =
    let high = hex_digit-injective (a / 16) (b / 16) (omega arith) (omega arith) h in
    let low = hex_digit-injective (a % 16) (b % 16) (omega arith) (omega arith) k in
    omega (arith, high, low)

-- The identifiers of two names differ where the names do.
pub target_id-injective : (a b : Text) → AreBytes a → AreBytes b → target_id a ≡ target_id b → a ≡ b
unfolding target_id
target_id-injective [] [] p q h = refl
target_id-injective [] (y ∷ b) p q h = cc
target_id-injective (x ∷ a) [] p q h = cc
target_id-injective (x ∷ a) (y ∷ b) p q h =
    let first =
      hex_byte-injective x y p.0 q.0 (ap (λ t. get_or t 0 0) h) (ap (λ t. get_or t 1 0) h) in
    ap₂ ◌∷◌ first (target_id-injective a b p.1 q.1 (ap (λ t. drop 2 t) h))

same_id :
    (root : PathBuf) (dir a b : Text) (file : PathBuf)
    → (root ++ (dir ∷ a ∷ [])) ++ file ≡ (root ++ (dir ∷ b ∷ [])) ++ file
    → a ≡ b
same_id root dir a b file h =
    let ids : dir ∷ a ∷ [] ≡ dir ∷ b ∷ [] =
      append_cancel_left root _ _ (append_cancel_right _ _ file h) in
    cc (ids)

module _ {S IE : Type 0} (create_dir_all : PathBuf → Exec S IE (Unit {0})) where
  paths_inv :
      (root : PathBuf) (name : Text) (s t : S) (paths : WorkspaceBuildPaths)
      → build_paths create_dir_all root name s ≡ (ok paths, t)
      → (paths.config_path
          ≡ (root ++ (codes "targets" ∷ target_id name ∷ [])) ++ (codes ".config" ∷ []))
        × (paths.artifact_path
            ≡ (root ++ (codes "artifacts" ∷ target_id name ∷ [])) ++ (codes "klipper" ∷ []))
  unfolding build_paths
  paths_inv root name s t paths h = elim (Bool-cases (is_empty name)) [
    | inl bad ↦ let h' = rw (bad, build_paths) at h in cc (h')
    | inr good ↦
        let h' = rw (good, build_paths) at h in
        let (u, s1, e1, k1) =
          bind-eq-ok
            (or_io create_dir_all
              (create_dir_all (root ++ (codes "targets" ∷ target_id name ∷ []))))
            _ s t paths h' in
        let (v, s2, e2, k2) =
          bind-eq-ok
            (or_io create_dir_all
              (create_dir_all (root ++ (codes "artifacts" ∷ target_id name ∷ []))))
            _ s1 t paths k1 in
        (cc (k2), cc (k2))
  ]

  -- MCUs of different names never share a path of their builds.
  pub build_paths-distinct :
      (root : PathBuf) (a b : Text) (s t s' t' : S) (p q : WorkspaceBuildPaths)
      → AreBytes a
      → AreBytes b
      → build_paths create_dir_all root a s ≡ (ok p, t)
      → build_paths create_dir_all root b s' ≡ (ok q, t')
      → (p.config_path ≡ q.config_path) ⊎ (p.artifact_path ≡ q.artifact_path)
      → a ≡ b
  build_paths-distinct root a b s t s' t' p q u v h k same =
      let (c, d) = paths_inv root a s t p h in
      let (e, f) = paths_inv root b s' t' q k in
      target_id-injective a b u v (elim same [
        | inl config ↦
            same_id root (codes "targets") (target_id a) (target_id b) (codes ".config" ∷ [])
              (sym c ∙ config ∙ e)
        | inr artifact ↦
            same_id root (codes "artifacts") (target_id a) (target_id b) (codes "klipper" ∷ [])
              (sym d ∙ artifact ∙ f)
      ])
