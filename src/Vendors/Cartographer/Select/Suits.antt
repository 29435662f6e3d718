-- ===== src/Vendors/Cartographer/Select/Suits.antt =====
-- An image that is selected, or that passes its check, suits the probe.
use aldis.Prelude.{
  ℕ, ==_iff, ◌&&◌, Bool, true, Bool-cases, &&-eq-true, Option-cases, Result-cases, List, [], ◌∷◌,
  All, map, Bytes, bytes_eq, bytes_eq_iff, Option, none, some, Result, ok, ◌≡◌, refl, ap, inl, inr,
  arith,
}
use aldis.Prelude.Text.{Text, one_of}
use aldis.Prelude.Iter.{keep, keep-All, All-keep, filter_map-All}
use aldis.Fleet.{McuTransport}
use aldis.Prepare.{PathBuf}
use aldis.Eligibility.{Semver}
use aldis.Flash.Stm32.{plausible_application_starts}
use aldis.Vendors.Cartographer.{
  Build, build_eq, build_from_version, parse_version, Firmware, ImageIdentity, DictionaryIdentity,
  image_identity, names_itself_cartographer, freq_eq, check_image, checked, cartographer_start,
}
use aldis.Vendors.Cartographer.Manifest.{ManifestEntry}
use aldis.Vendors.Cartographer.Select.Inside.{IsInside, image_path-IsInside}
use aldis.Vendors.Cartographer.Select.{
  Candidate, CartographerTarget, image_path, is_for_probe, agrees_with, agrees, same_version,
  works_with, works, candidate, candidate_read, candidates_for, choose, selected, select_target,
  protocol_of, greatest,
}

freq_eq_iff : (a b : Option ℕ) → freq_eq a b ≡ true → a ≡ b
freq_eq_iff none none h = refl
freq_eq_iff (some a) (some b) h = ap some ((==_iff a b).0 h)
freq_eq_iff none (some b) h = cc
freq_eq_iff (some a) none h = cc

module _ {V : Type 0} (semver : Semver V) (dictionary : Bytes → Option DictionaryIdentity) where
  -- What a check that passes says: the image's dictionary names the probe's MCU, link and bitrate,
  -- and its application starts above Cartographer's Katapult.
  pub data Suits (running : Firmware V) (image : Bytes) (identity : ImageIdentity) : Type 0 where
    suits :
        image_identity dictionary image ≡ some identity
        → names_itself_cartographer (identity).app (identity).version ≡ true
        → (identity).mcu ≡ (running).mcu
        → (identity).can_frequency ≡ (running).can_frequency
        → one_of (plausible_application_starts image) cartographer_start ≡ true
        → Suits running image identity

  checked-Suits :
      (image : Bytes) (running : Firmware V) (found identity : ImageIdentity)
      → image_identity dictionary image ≡ some found
      → checked {V = V} dictionary image running found ≡ ok identity
      → Suits running image identity
  checked-Suits image running found identity e h =
      elim (Bool-cases (names_itself_cartographer (found).app (found).version)) [
        | inr bad ↦ let h' = rw bad at h in cc (h')
        | inl named ↦ elim (Bool-cases (bytes_eq (found).mcu (running).mcu)) [
          | inr bad ↦ let h' = rw (named, bad) at h in cc (h')
          | inl mcu ↦ elim (Bool-cases (freq_eq (found).can_frequency (running).can_frequency)) [
            | inr bad ↦ let h' = rw (named, mcu, bad) at h in cc (h')
            | inl link ↦
                elim (Bool-cases (one_of (plausible_application_starts image) cartographer_start)) [
                  | inr bad ↦ let h' = rw (named, mcu, link, bad) at h in cc (h')
                  | inl start ↦
                      let same : found ≡ identity =
                        ground (arith, rw (named, mcu, link, start) at h) in
                      rw (← same) (
                        suits e named ((bytes_eq_iff (found).mcu (running).mcu).0 mcu)
                          (freq_eq_iff (found).can_frequency (running).can_frequency link) start)
                ]
          ]
        ]
      ]

  pub check_image-Suits :
      (image : Bytes) (running : Firmware V) (identity : ImageIdentity)
      → check_image dictionary image running ≡ ok identity
      → Suits running image identity
  unfolding check_image
  check_image-Suits image running identity h =
      elim (Option-cases (image_identity dictionary image)) [
        | inl bad ↦ let h' = rw (bad, check_image) at h in cc (h')
        | inr (found, e) ↦ checked-Suits image running found identity e (rw (e, check_image) at h)
      ]

  module _ (read : PathBuf → Option Bytes) (checkout : PathBuf) (running : Firmware V) where
    -- An entry of the manifest, the image at its path inside the clone, and what that says.
    pub data IsListed (plugin : Option V) (path : PathBuf) (reported : Text) (version : V)
        : Type 0 where
      listed :
          (entry : ManifestEntry V) (image : Bytes) (identity : ImageIdentity)
          → image_path checkout (entry).path ≡ some path
          → read path ≡ some image
          → Suits running image identity
          → IsInside checkout path
          → build_from_version (identity).version ≡ (running).build
          → (said : V) → parse_version semver (identity).version ≡ some said
          → same_version semver said (entry).version ≡ true
          → (identity).version ≡ reported
          → works_with semver entry.min_plugin plugin ≡ true
          → same_version semver (entry).version version ≡ true
          → IsListed plugin path reported version

    -- what is known of every candidate
    abbrev IsRead : Candidate V → Type 0
    IsRead c =
        (image : Bytes) × (identity : ImageIdentity) × ((image_path checkout (c.0).path
            ≡ some c.1.0)
          × ((read c.1.0 ≡ some image)
              × (Suits running image identity
                  × ((agrees semver running c.0 identity ≡ true) × ((identity).version ≡ c.1.1)))))

    read-IsRead :
        (entry : ManifestEntry V) (path : PathBuf) (image : Bytes) (c : Candidate V)
        → image_path checkout (entry).path ≡ some path
        → read path ≡ some image
        → candidate_read semver dictionary read running entry path (some image) ≡ some c
        → IsRead c
    read-IsRead entry path image c e r h =
        elim (Result-cases (check_image dictionary image running)) [
          | inr (x, bad) ↦ let h' = rw (bad, candidate_read) at h in cc (h')
          | inl (identity, good) ↦ elim (Bool-cases (agrees semver running entry identity)) [
            | inr bad ↦ let h' = rw (good, candidate_read, bad) at h in cc (h')
            | inl agree ↦
                let same : (entry, (path, (identity).version)) ≡ c =
                  ground (arith, rw (good, candidate_read, agree) at h) in
                rw (← same) (
                  image,
                  identity,
                  (e, (r, (check_image-Suits image running identity good, (agree, refl)))),
                )
          ]
        ]

    candidate-IsRead :
        (entry : ManifestEntry V) (c : Candidate V)
        → candidate semver dictionary read checkout running entry ≡ some c
        → IsRead c
    unfolding candidate
    candidate-IsRead entry c h = elim (Option-cases (image_path checkout (entry).path)) [
      | inl bad ↦ let h' = rw (bad, candidate) at h in cc (h')
      | inr (path, e) ↦ elim (Option-cases (read path)) [
        | inl bad ↦ let h' = rw (e, candidate, bad) at h in cc (h')
        | inr (image, r) ↦ read-IsRead entry path image c e r (rw (e, candidate, r) at h)
      ]
    ]

    build_eq-same : (a b : Build) → build_eq a b ≡ true → a ≡ b
    build_eq-same Build.full Build.full h = refl
    build_eq-same Build.lite Build.lite h = refl
    build_eq-same Build.full Build.lite h = cc h
    build_eq-same Build.lite Build.full h = cc h

    -- what agreement says of the build and of the version
    agrees-same :
        (entry : ManifestEntry V) (identity : ImageIdentity)
        → agrees semver running entry identity ≡ true
        → (build_from_version (identity).version ≡ (running).build)
          × ((said : V) × ((parse_version semver (identity).version ≡ some said)
                × (same_version semver said (entry).version ≡ true)))
    unfolding agrees
    agrees-same entry identity h =
        let (built, versioned) =
          &&-eq-true (build_eq (build_from_version (identity).version) (running).build)
            (agrees_with semver (parse_version semver (identity).version) (entry).version) h in
        (
          build_eq-same (build_from_version (identity).version) (running).build built,
          elim (Option-cases (parse_version semver (identity).version)) [
            | inl none' ↦ absurd (cc (rw none' at versioned))
            | inr (said, some') ↦ (said, (some', rw some' at versioned))
          ],
        )

    ok_inj : {E A : Type 0} {a b : A} → Path (Result E A) (ok a) (ok b) → a ≡ b
    ok_inj h = ground (arith, h)

    selected-IsListed :
        (plugin : Option V) (candidates at_best : List (Candidate V)) (best : V)
        (target : CartographerTarget V)
        → All
            (λ c. (works semver plugin c && same_version semver (c.0).version best) ≡ true)
            at_best
        → All IsRead at_best
        → selected semver plugin candidates best at_best ≡ ok target
        → IsListed plugin (target).path (target).reported (target).version
    selected-IsListed plugin candidates [] best target h k e = cc
    selected-IsListed plugin candidates (c ∷ d ∷ rest) best target h k e = cc
    selected-IsListed plugin candidates (c ∷ []) best target h k e =
        let (image, identity, (p, (r, (s, (agree, said))))) = k.0 in
        let both =
          &&-eq-true (works semver plugin c) (same_version semver (c.0).version best) (h.0) in
        let same = ok_inj e in
        let (built, (version, (parsed, alike))) = agrees-same c.0 identity agree in
        rw (← same) (
          listed c.0 image identity p r s (image_path-IsInside checkout c.1.0 (c.0).path p) built
            version parsed alike said both.0 both.1)

    choose-IsListed :
        (plugin : Option V) (candidates : List (Candidate V)) (target : CartographerTarget V)
        → All IsRead candidates
        → choose semver running plugin candidates ≡ ok target
        → IsListed plugin (target).path (target).reported (target).version
    unfolding choose
    choose-IsListed plugin candidates target h e =
        elim (Option-cases (
          greatest semver
            (map (λ (c : Candidate V). (c.0).version) (keep (works semver plugin) candidates)))) [
              | inl none' ↦ let e' = rw (none', choose) at e in cc (e')
              | inr (best, some') ↦
                  let test : Candidate V → Bool =
                    λ c. works semver plugin c && same_version semver (c.0).version best in
                  selected-IsListed plugin candidates (keep test candidates) best target
                    (keep-All test candidates) (All-keep IsRead test candidates h)
                    (rw (some', choose) at e)
            ]

  -- An image is selected for a probe only from below the clone's directory of firmware, at a path of
  -- names that lead nowhere else, and where the image's own dictionary
  -- names the probe's MCU, link and bitrate, its application starts above Cartographer's
  -- Katapult, it reports the probe's build and the selected version, and the installed plugin is
  -- recent enough for it.
  pub select_target-IsListed :
      (read : PathBuf → Option Bytes) (checkout : PathBuf) (entries : List (ManifestEntry V))
      (running : Firmware V) (transport : Option McuTransport) (plugin : Option V)
      (target : CartographerTarget V)
      → select_target semver dictionary read checkout entries running transport plugin ≡ ok target
      → IsListed read checkout running plugin (target).path (target).reported (target).version
  unfolding select_target
  select_target-IsListed read checkout entries running transport plugin target h =
      elim (Result-cases (protocol_of semver transport (running).can_frequency)) [
        | inr (x, bad) ↦ let h' = rw (bad, select_target) at h in cc (h')
        | inl (protocol, e) ↦
            choose-IsListed read checkout running plugin
              (candidates_for semver dictionary read checkout entries running protocol) target
              (filter_map-All (IsRead read checkout running)
                (candidate semver dictionary read checkout running)
                (keep (is_for_probe semver running protocol) entries)
                (candidate-IsRead read checkout running))
              (rw (e, select_target) at h)
      ]
