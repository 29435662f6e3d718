-- ===== src/Katapult/Session/Verified.antt =====
-- No upload succeeds unverified, whatever the transport does.
use aldis.Prelude.{
  ℕ, zero, suc, ◌+◌, ◌*◌, not, true, false, ◌==◌, ==_iff, List, [], ◌∷◌, ◌++◌, ◌≡◌, inl, inr, refl,
  ap, sym, ◌∙◌, arith, Bytes, length, drop, length-append, length-drop, ok, Exec, bind-eq-ok, pure,
  raise, lift, append_assoc, append-nil, bytes_eq, bytes_eq_iff, Bool-cases, Bool, if◌then◌else◌,
}
use aldis.Prelude.Chunks.{chunks}
use aldis.Prelude.Words.{u32_to_le}
use aldis.Katapult.Frame.{send_eof, request_block}
use aldis.Katapult.Session.{
  KatapultTarget, block_address, padded_block, run_command, response_u32, write_block, read_block,
  read_attempts, block_attempts, write_blocks, read_blocks, upload, UploadResult, div_ceil,
  or_overflow, checksum_mismatch,
}
use aldis.Katapult.Session.Padding.{padded_image}

module _ {S E A : Type 0} where
  -- A last test that did not fail.
  last_test :
      (b : Bool) (e : E) (a result : A) (t u : S)
      → (if not b then raise {S = S} {E = E} {A = A} e else pure a) t ≡ (ok result, u)
      → (b ≡ true) × (a ≡ result) × (t ≡ u)
  last_test true e a result t u h = (refl, cc, cc)
  last_test false e a result t u h = cc

module _ {S E : Type 0} (exchange : Bytes → Exec S E Bytes) (target : KatapultTarget) where
  write_blocks-written :
      (cs : List Bytes) (index : ℕ) (written : Bytes) (s u : S) (w : Bytes)
      → write_blocks exchange target index cs written s ≡ (ok w, u)
      → w ≡ written ++ padded_image target.block_size cs
  unfolding write_blocks
  write_blocks-written [] index written s u w h = cc (append-nil written)
  write_blocks-written (c ∷ cs) index written s u w h =
      let block = padded_block c target.block_size in
      let (address, t, e, k) =
        bind-eq-ok (lift (or_overflow (block_address target index))) _ s u w h in
      let (d, t', e', k') = bind-eq-ok (write_block exchange address block) _ t u w k in
      write_blocks-written cs (suc index) (written ++ block) t' u w k'
      ∙ append_assoc written block (padded_image target.block_size cs)

  read_attempts-length :
      (n address : ℕ) (block_size actual : ℕ) (s u : S) (block : Bytes)
      → read_attempts exchange n address block_size actual s ≡ (ok block, u)
      → length block ≡ block_size
  unfolding read_attempts
  read_attempts-length zero address block_size actual s u block h = cc
  read_attempts-length (suc n) address block_size actual s u block h =
      let (response, t, e, k) =
        bind-eq-ok (run_command exchange request_block (u32_to_le address)) _ s u block h in
      elim (Bool-cases (length response == 4 + block_size)) [
        | inr bad ↦ let k' = rw bad at k in cc (k')
        | inl good ↦
            let (found, t', e', k') =
              bind-eq-ok (lift (response_u32 request_block response)) _ t u block (rw good at k) in
            elim (Bool-cases (found == address)) [
              | inl here ↦
                  let same = rw here at k' in
                  let is_rest : block ≡ drop 4 response = cc (same) in
                  let size = (==_iff (length response) (4 + block_size)).0 good in
                  ap length is_rest ∙ omega (arith, length-drop 4 response, size)
              | inr there ↦
                  read_attempts-length n address block_size found t' u block (rw there at k')
            ]
      ]

  read_block-length :
      (address : ℕ) (block_size : ℕ) (s u : S) (block : Bytes)
      → read_block exchange address block_size s ≡ (ok block, u)
      → length block ≡ block_size
  unfolding read_block
  read_block-length address block_size s u block h =
      read_attempts-length block_attempts address block_size 0 s u block h

  read_blocks-length :
      (count index : ℕ) (read : Bytes) (s u : S) (r : Bytes)
      → read_blocks exchange target index count read s ≡ (ok r, u)
      → length r ≡ length read + count * target.block_size
  unfolding read_blocks
  read_blocks-length zero index read s u r h =
      let same : r ≡ read = cc in omega (arith, ap length same)
  read_blocks-length (suc count) index read s u r h =
      let (address, t, e, k) =
        bind-eq-ok (lift (or_overflow (block_address target index))) _ s u r h in
      let (block, t', e', k') =
        bind-eq-ok (read_block exchange address target.block_size) _ t u r k in
      let size = read_block-length address target.block_size t t' block e' in
      omega (
        arith,
        read_blocks-length count (suc index) (read ++ block) t' u r k',
        length-append read block,
        size,
      )

  -- An upload that succeeds, on any transport, has written the padded firmware block by block, then
  -- sent the end of the file and had it acknowledged with a number of pages, which it reports, and
  -- right after that read back as many bytes as all blocks hold, in which state it ended; their
  -- digest is that of the padded firmware, and it reports that size.
  pub upload-verified :
      (sha1 : Bytes → Bytes) (firmware : Bytes) (s u : S) (result : UploadResult)
      → upload exchange sha1 firmware target s ≡ (ok result, u)
      → (t : S) × (response : Bytes) × (v : S) × (read : Bytes) × (write_blocks exchange target 0
            (chunks target.block_size firmware)
            []
            s
          ≡ (ok (padded_image target.block_size (chunks target.block_size firmware)), t))
        × (run_command exchange send_eof [] t ≡ (ok response, v))
        × (response_u32 {E = E} send_eof response ≡ ok result.pages_written)
        × (read_blocks exchange target 0 (div_ceil (length firmware) target.block_size) [] v
            ≡ (ok read, u))
        × (sha1 read ≡ sha1 (padded_image target.block_size (chunks target.block_size firmware)))
        × (length read ≡ result.padded_bytes)
        × (result.padded_bytes ≡ div_ceil (length firmware) target.block_size * target.block_size)
  unfolding upload
  upload-verified sha1 firmware s u result h =
      let count = div_ceil (length firmware) target.block_size in
      let (written, t, e, k) =
        bind-eq-ok (write_blocks exchange target 0 (chunks target.block_size firmware) []) _ s u
          result h in
      let (response, t1, e1, k1) = bind-eq-ok (run_command exchange send_eof []) _ t u result k in
      let (pages, t2, e2, k2) =
        bind-eq-ok (lift (response_u32 send_eof response)) _ t1 u result k1 in
      let (read, t3, e3, k3) =
        bind-eq-ok (read_blocks exchange target 0 count []) _ t2 u result k2 in
      let (same, is_result, last) =
        last_test (bytes_eq (sha1 written) (sha1 read)) checksum_mismatch _ result t3 u k3 in
      let image = write_blocks-written (chunks target.block_size firmware) 0 [] s t written e in
      let size : count * target.block_size ≡ result.padded_bytes =
        ap (λ (x : UploadResult). x.padded_bytes) is_result in
      let read_size = read_blocks-length count 0 [] t2 t3 read e3 in
      (
        t,
        response,
        t1,
        read,
        e ∙ ap (λ x. (ok x, t)) image,
        e1,
        ap (λ x. x.0) e2 ∙ ap (λ (x : UploadResult). ok x.pages_written) is_result,
        ap (read_blocks exchange target 0 count []) (ap (λ x. x.1) e2)
            ∙ e3
            ∙ ap (λ x. (ok read, x)) last,
        sym ((bytes_eq_iff (sha1 written) (sha1 read)).0 same) ∙ ap sha1 image,
        omega (arith, read_size, size),
        sym size,
      )
