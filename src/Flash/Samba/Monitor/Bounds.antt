-- ===== src/Flash/Samba/Monitor/Bounds.antt =====
-- What is written lies in the flash of the chip and not below the application (src/flash/samba.rs).
use aldis.Prelude.{
  ℕ, zero, suc, ◌+◌, ◌-◌, ◌*◌, ◌/◌, ◌%◌, ◌^◌, ◌≤◌, ◌<◌, ◌==◌, ltb, ltb→le, Bool-cases, Result-cases,
  not, Bool, true, false, if◌then◌else◌, List, [], ◌∷◌, All, Bytes, length, drop, length-append,
  length-drop, length-replicate, replicate, Result, ok, err, ◌>>=◌, ◌>>◌, pure, raise, continue,
  ◌≡◌, refl, inl, inr, arith,
}
use native.Mathlib.Nat.{mul-le-mul, pow-le-pow_right}
use aldis.Prelude.Text.{is_empty}
use aldis.Prelude.Chunks.{chunks, chunks_from, chunks-length}
use aldis.Flash.{FlashResult}
use aldis.Flash.Samba.{SambaError, empty_firmware, unsupported_chip}
use aldis.Prelude.Keeps.{Keeps}
use aldis.Flash.Samba.Monitor.Orders.{program-Keeps}
use aldis.Flash.Samba.Monitor.Writes.{InFlash, IsKept, IsQuestion, IsOrder, check_target-Keeps}
use aldis.Flash.Samba.Monitor.{
  SambaPort, Monitor, chunk_size, padded_length, padded, placed, size_of, nvmctrl_param,
  dsu_device_id, samd21_device_id, handshake, read_word, protected_bootloader_size, flash_size,
  expect_start, expect_room, check_target, program, flash,
}

padded-length : (chunk : Bytes) → length chunk ≤ chunk_size → length (padded chunk) ≡ chunk_size
padded-length chunk h = omega (
  arith,
  length-append chunk (replicate (chunk_size - length chunk) 0xFF),
  length-replicate {A = ℕ} (chunk_size - length chunk) 0xFF,
)

placed-InFlash :
    (start size index : ℕ) (pieces : List Bytes)
    → start + (index + length pieces) * chunk_size ≤ size
    → size < 2 ^ 32
    → All (λ c. length c ≤ chunk_size) pieces
    → All (InFlash start size) (placed start index pieces)
unfolding placed
placed-InFlash start size index [] h k l = tt
placed-InFlash start size index (chunk ∷ rest) h k l = (
  (omega arith, (omega arith, padded-length chunk (l.0))),
  placed-InFlash start size (index + 1) rest (omega arith) k (l.1),
)

-- There are as many chunks as the padded length has.
chunks_from-count :
    (f : ℕ) (xs : Bytes) → length (chunks_from f chunk_size xs) ≤ (length xs + 0xFFF) / chunk_size
unfolding chunks_from
chunks_from-count zero xs = omega arith
chunks_from-count (suc f) [] = omega arith
chunks_from-count (suc f) (x ∷ xs) =
    omega (arith, chunks_from-count f (drop chunk_size (x ∷ xs)), length-drop chunk_size (x ∷ xs))

chunks-count :
    (firmware : Bytes)
    → length (chunks chunk_size firmware) ≤ (length firmware + 0xFFF) / chunk_size
unfolding chunks
chunks-count firmware = chunks_from-count (length firmware) firmware

pow-small : (e : ℕ) → e < 8 → 2 ^ e ≤ 128
pow-small e h = pow-le-pow_right {n = 2} (omega arith) {i = e} {j = 7} (omega arith)

size_of-lt : (param : ℕ) → size_of param < 2 ^ 32
size_of-lt param =
    let page : 8 * 2 ^ (param / 0x10000 % 8) ≤ 1024 =
      omega (arith, pow-small (param / 0x10000 % 8) (omega arith)) in
    let pages : param % 0x10000 ≤ 0xFFFF = omega arith in omega (arith, mul-le-mul pages page)

module _ {S IE : Type 0} (port : SambaPort S IE) where
  abbrev Holds : {A : Type 0} → (A → Type 0) → Result (SambaError IE) A → Type 0
  Holds Q (ok a) = Q a
  Holds Q (err e) = Unit

  abbrev Ends : {A : Type 0} → (A → Type 0) → Monitor port A → Type 0
  Ends Q m = (s : S) → Holds Q (m s).0

  continue-Ends :
      {A B : Type 0} (Q : A → Type 0) (R : B → Type 0) (r : Result (SambaError IE) A)
      (f : A → Monitor port B) (s : S)
      → Holds Q r
      → ((a : A) → Q a → Ends R (f a))
      → Holds R (continue r f s).0
  continue-Ends Q R (ok a) f s h k = k a h s
  continue-Ends Q R (err e) f s h k = tt

  bind-Ends :
      {A B : Type 0} (Q : A → Type 0) (R : B → Type 0) (m : Monitor port A) (f : A → Monitor port B)
      → Ends Q m
      → ((a : A) → Q a → Ends R (f a))
      → Ends R (m >>= f)
  bind-Ends Q R m f h k s = continue-Ends Q R (m s).0 f (m s).1 (h s) k

  weak : {A : Type 0} (r : Result (SambaError IE) A) → Holds (λ a. Unit) r
  weak (ok a) = tt
  weak (err e) = tt

  then-Ends :
      {A B : Type 0} (R : B → Type 0) (m : Monitor port A) (f : A → Monitor port B)
      → ((a : A) → Ends R (f a))
      → Ends R (m >>= f)
  then-Ends R m f k = bind-Ends (λ a. Unit) R m f (λ s. weak (m s).0) (λ a u. k a)

  if-Ends :
      {A : Type 0} (Q : A → Type 0) (b : Bool) (m n : Monitor port A)
      → Ends Q m
      → Ends Q n
      → Ends Q (if b then m else n)
  if-Ends Q true m n h k = h
  if-Ends Q false m n h k = k

  expect_room-Ends : (end size : ℕ) → Ends (λ u. end ≤ size) (expect_room port end size)
  expect_room-Ends end size s = elim (Bool-cases (ltb size end)) [
    | inl small ↦ rw small tt
    | inr fits ↦ rw fits (ltb→le size end fits)
  ]

  -- The chip told this size: so many pages, of a size by its power of two.
  abbrev pub IsTold : ℕ → Type 0
  IsTold size =
      (param : ℕ) × (before : S) × (after : S) × (read_word port 0x41004008 before
        ≡ (ok param, after))
      × (size ≡ param % 0x10000 * (8 * 2 ^ (param / 0x10000 % 8)))

  IsTold-lt : (size : ℕ) → IsTold size → size < 2 ^ 32
  IsTold-lt size (param, before, after, word, e) = rw e (size_of-lt param)

  flash_size-Ends : Ends IsTold (flash_size port)
  unfolding flash_size
  flash_size-Ends s =
      let t = (read_word port nvmctrl_param s).1 in
      elim (Result-cases (read_word port nvmctrl_param s).0) [
        | inr (e, bad) ↦ rw bad tt
        | inl (param, good) ↦ rw good (param, s, t, (λ i. (good i, t)), refl)
      ]

  -- The flash is large enough, and addresses in it fit 32 bits.
  check_target-Ends :
      (start : ℕ) (firmware : Bytes)
      → Ends
          (λ size. (start + padded_length firmware ≤ size) × IsTold size)
          (check_target port start firmware)
  unfolding check_target
  check_target-Ends start firmware =
      let Fits : ℕ → Type 0 = λ size. (start + padded_length firmware ≤ size) × IsTold size in
      let measured : Monitor port ℕ =
        flash_size port
        >>= (λ size. expect_room port (start + padded_length firmware) size >> pure size) in
      let guarded : Monitor port ℕ =
        protected_bootloader_size port >>= (λ fuse. expect_start port start fuse >> measured) in
      let known : ℕ → Monitor port ℕ = λ device_id.
        if not (device_id / 0x10000 == samd21_device_id)
        then raise (unsupported_chip device_id)
        else guarded in
      let measured-Ends : Ends Fits measured =
        bind-Ends IsTold Fits (flash_size port)
          (λ size. expect_room port (start + padded_length firmware) size >> pure size)
          flash_size-Ends
          (λ size small.
            bind-Ends (λ u. start + padded_length firmware ≤ size) Fits
              (expect_room port (start + padded_length firmware) size) (λ u. pure size)
              (expect_room-Ends (start + padded_length firmware) size)
              (λ u room s. (room, small))) in
      let guarded-Ends : Ends Fits guarded =
        then-Ends Fits (protected_bootloader_size port)
          (λ fuse. expect_start port start fuse >> measured)
          (λ fuse.
            then-Ends Fits (expect_start port start fuse) (λ u. measured) (λ u. measured-Ends)) in
      if-Ends Fits (is_empty firmware) (raise empty_firmware)
        (handshake port >> (read_word port dsu_device_id >>= known)) (λ s. tt)
        (then-Ends Fits (handshake port) (λ u. read_word port dsu_device_id >>= known)
          (λ u. then-Ends Fits (read_word port dsu_device_id) known (λ device_id.
            if-Ends Fits (not (device_id / 0x10000 == samd21_device_id))
              (raise (unsupported_chip device_id)) guarded (λ s. tt) guarded-Ends)))

  -- What a flash comes to, where `P` is kept by questions, and `Q` for a size by the orders for it.
  pub data FlashOutcome (P : S → Type 0) (Q : ℕ → S → Type 0) (start : ℕ) (firmware : Bytes) (s : S)
      (r : Result (SambaError IE) FlashResult × S) : Type 0 where
    -- A check fails, and nothing but questions was written.
    stopped :
        (e : SambaError IE) {t : S}
        → r ≡ (err e, t)
        → (P s → P t)
        → FlashOutcome P Q start firmware s r
    -- All blocks lie in the flash whose size the chip told; after the questions came only orders.
    programmed :
        (size : ℕ) {t : S}
        → IsTold size
        → (P s → P t)
        → All (InFlash start size) (placed start 0 (chunks chunk_size firmware))
        → r ≡ program port start firmware t
        → (Q size t → Q size r.1)
        → FlashOutcome P Q start firmware s r

  -- A flash fails in the checks, which write only questions to the monitor; or the checks succeed,
  -- and from then on it writes only orders for the flash whose size the chip told: to stage a block
  -- of 4096 bytes in RAM, to copy 4096 bytes to an address at or above the application's start from
  -- which so many bytes fit below the end of the flash, to compute a checksum, and to restart.
  pub flash-InFlash :
      (P : S → Type 0) (Q : ℕ → S → Type 0) (start : ℕ) (firmware : Bytes) (s : S)
      → IsKept port P
      → ((bytes : Bytes) → IsQuestion bytes → Keeps P (port.write_all bytes))
      → ((size : ℕ) → IsKept port (Q size))
      → ((size : ℕ) (bytes : Bytes)
          → IsOrder start size bytes
          → Keeps (Q size) (port.write_all bytes))
      → FlashOutcome P Q start firmware s (flash port start firmware s)
  unfolding flash
  flash-InFlash P Q start firmware s kept asks still orders =
      let t = (check_target port start firmware s).1 in
      let asked = check_target-Keeps port P kept asks start firmware s in
      elim (Result-cases (check_target port start firmware s).0) [
        | inr (e, bad) ↦ rw bad (stopped e refl asked)
        | inl (size, good) ↦
            let fits : Holds (λ size. (start + padded_length firmware ≤ size) × IsTold size)
                (ok size) =
              rw good at (check_target-Ends start firmware s) in
            let inside =
              placed-InFlash start size 0 (chunks chunk_size firmware)
                (omega (arith, fits.0, chunks-count firmware)) (IsTold-lt size fits.1)
                (chunks-length chunk_size firmware) in
            rw good (
              programmed size fits.1 asked inside refl (
                program-Keeps port (Q size) (still size) start size (IsTold-lt size fits.1)
                  (orders size) firmware inside t))
      ]
