-- ===== src/Vendors/Beacon/Examples.antt =====
-- What Beacons report, and a firmware file.
use Prim.Native.Nat.{compare}
use aldis.Prelude.{ℕ, ◌+◌, ◌*◌, ◌≡◌, refl, arith, [], ◌∷◌, none, some, ok, bytes_eq, AreBytes}
use aldis.Prelude.Text.{Text, codes, all, strip_prefix, starts_with, split}
use aldis.Prelude.Iter.{keep}
use aldis.Prelude.Strings.{
  split_whitespace, split_at, eq_ignore_ascii_case, parse_below, digits_below,
}
use aldis.Eligibility.{Semver}
use aldis.Vendors.Beacon.{
  parse_reported, version_from_bcd, revision_from_product, config_section, vendor_id,
}
use aldis.Vendors.Beacon.Image.{parse_image}
use aldis.Vendors.Beacon.Image.RoundTrip.{dfu_file, dfu_body, parse_image-dfu_file}

abbrev numbers : Semver ℕ
numbers = record {
  parse = λ s. none;
  display = λ v. [];
  version = λ major minor patch. major * 10000 + minor * 100 + patch;
  with_dev = λ v n. none;
  cmp = compare;
}

reported_version : parse_reported numbers (codes "Beacon 2.1.0") ≡ some 20100
unfolding parse_reported split_whitespace split_at keep eq_ignore_ascii_case split all parse_below
    digits_below bytes_eq
reported_version = refl

beta_version : parse_reported numbers (codes "Beacon 2.1.0b") ≡ none
unfolding parse_reported split_whitespace split_at keep eq_ignore_ascii_case split all parse_below
    digits_below bytes_eq
beta_version = refl

two_bcd : (version_from_bcd numbers 0x2010 ≡ 20100) × (version_from_bcd numbers 0x2100 ≡ 21000)
unfolding version_from_bcd
two_bcd = (refl, refl)

revision_h : revision_from_product (codes "Beacon RevH Bootloader") ≡ some (codes "h")
unfolding revision_from_product strip_prefix split all
revision_h = refl

no_path : revision_from_product (codes "Beacon Rev../../x") ≡ none
unfolding revision_from_product strip_prefix split all
no_path = refl

sensor : config_section (codes "mcu beacon sensor left") ≡ some (codes "beacon sensor left")
unfolding config_section strip_prefix starts_with bytes_eq
sensor = refl

abbrev contents : Text
contents = 1 ∷ 2 ∷ 3 ∷ []

contents-AreBytes : AreBytes (dfu_body contents (9 ∷ []) 0x2010 0x0ff1)
contents-AreBytes = omega arith

parse_image-dfu_file_example :
    parse_image numbers (dfu_file contents (9 ∷ []) 0x2010 0x0ff1)
    ≡ ok (record {
      payload = contents;
      vendor = vendor_id;
      product = 0x0ff1;
      version = version_from_bcd numbers 0x2010;
    })
parse_image-dfu_file_example =
    parse_image-dfu_file numbers contents (9 ∷ []) 0x2010 0x0ff1 (λ e. cc (e)) contents-AreBytes
      (omega arith) (omega arith)
