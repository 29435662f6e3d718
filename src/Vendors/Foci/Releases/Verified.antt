-- ===== src/Vendors/Foci/Releases/Verified.antt =====
-- A downloaded image has the digest that is published beside it.
use aldis.Prelude.{
  ◌++◌, ◌≡◌, Bool-cases, bytes_eq, bytes_eq_iff, Bytes, ok, Result-cases, Exec, ◌>>=◌, ◌>>◌, lift,
  pure, bind-eq-ok, arith, inl, inr, ap, ◌∙◌,
}
use aldis.Prelude.Text.{Text, codes}
use aldis.Vendors.Foci.Releases.{
  ReleaseError, from_github, expected_checksum, verify_checksum, verify_firmware, download_verified,
}

module _ (sha256 : Bytes → Bytes) {GE : Type 0} where
  from_github-ok :
      {S A : Type 0} (m : Exec S GE A) (s t : S) (a : A)
      → from_github sha256 m s ≡ (ok a, t)
      → m s ≡ (ok a, t)
  from_github-ok m s t a h = elim (Result-cases (m s).0) [
    | inl (b, good) ↦
        let is : b ≡ a = ground (arith, rw good at (ap (λ x. x.0) h)) in
        λ i. ((good ∙ ap ok is) i, (h i).1)
    | inr (e, bad) ↦ cc (rw bad at (ap (λ x. x.0) h))
  ]

  verify_firmware-exact :
      (asset checksum_file : Text) (firmware : Bytes)
      → verify_firmware sha256 {GE = GE} asset checksum_file firmware ≡ ok tt
      → expected_checksum checksum_file asset ≡ ok (sha256 firmware)
  unfolding verify_firmware verify_checksum
  verify_firmware-exact asset checksum_file firmware h =
      elim (Result-cases (expected_checksum checksum_file asset)) [
        | inr (e, bad) ↦ let h' = rw (bad, verify_firmware) at h in cc (h')
        | inl (digest, good) ↦ elim (Bool-cases (bytes_eq (sha256 firmware) digest)) [
          | inl same ↦ rw ((bytes_eq_iff (sha256 firmware) digest).0 same) good
          | inr other ↦ let h' = rw (good, other, verify_firmware, verify_checksum) at h in cc (h')
        ]
      ]

  -- Of a downloaded image: a digest file was fetched first, then the image, and the line of the
  -- file that names the asset holds the SHA-256 digest of the very bytes that are returned.
  pub download_verified-exact :
      {S : Type 0} (asset : Text) (text : Text → Exec S GE Text) (bytes : Text → Exec S GE Bytes)
      (s u : S) (firmware : Bytes)
      → download_verified sha256 asset text bytes s ≡ (ok firmware, u)
      → (checksum : Text) × (t : S) × ((text (asset ++ codes ".sha256") s ≡ (ok checksum, t))
          × ((bytes asset t ≡ (ok firmware, u))
              × (expected_checksum checksum asset ≡ ok (sha256 firmware))))
  unfolding download_verified
  download_verified-exact {S} asset text bytes s u firmware h =
      let keep_if : Text → Bytes → Exec S (ReleaseError GE) Bytes =
        λ checksum image. lift (verify_firmware sha256 asset checksum image) >> pure image in
      let (checksum, t, e1, k1) =
        bind-eq-ok (from_github sha256 (text (asset ++ codes ".sha256")))
          (λ checksum. from_github sha256 (bytes asset) >>= keep_if checksum) s u firmware h in
      let (image, v, e2, k2) =
        bind-eq-ok (from_github sha256 (bytes asset)) (keep_if checksum) t u firmware k1 in
      let (unit, w, e3, k3) =
        bind-eq-ok (lift (verify_firmware sha256 asset checksum image)) (λ x. pure image) v u
          firmware k2 in
      let is : image ≡ firmware = ground (arith, ap (λ x. x.0) k3) in
      let here : v ≡ u = ap (λ x. x.1) e3 ∙ ap (λ x. x.1) k3 in
      (
        checksum,
        t,
        (
          from_github-ok (text (asset ++ codes ".sha256")) s t checksum e1,
          (
            from_github-ok (bytes asset) t v image e2 ∙ (λ i. (ok (is i), here i)),
            verify_firmware-exact asset checksum image (ap (λ x. x.0) e3)
                ∙ ap (λ x. ok (sha256 x)) is,
          ),
        ),
      )
