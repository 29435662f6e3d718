-- ===== src/Katapult/Assembler/Chunking.antt =====
-- A frame is assembled whatever the chunks that it comes in, and whatever noise comes before it.
use aldis.Prelude.{
  ℕ, ◌+◌, ◌*◌, ◌<◌, ◌≤◌, none, some, List, [], ◌∷◌, ◌++◌, ◌≡◌, ◌⊎◌, inl, inr, refl, sym, ap, ◌∙◌,
  arith, Bytes, length, flatten, length-append, append_assoc, append-nil, ok,
}
use aldis.Katapult.Assembler.{check_length, push, assemble}
use aldis.Katapult.Assembler.Sync.{sync, discard-sync, sync-append, sync-cases}

-- A whole frame, as the assembler understands it: a header, and the declared length.
pub record IsWhole (frame : Bytes) : Type 0 where
  pub status : ℕ
  pub words : ℕ
  pub rest : Bytes
  pub starts : frame ≡ 0x01 ∷ 0x88 ∷ status ∷ words ∷ rest
  pub one_byte : words < 256
  pub declared : length rest ≡ words * 4 + 4

-- Bytes before a frame that are all discarded: no header stands in them, and their last byte is
-- not the first byte of one.
abbrev pub IsNoise : Bytes → Type 0
IsNoise noise = sync noise ≡ []

Nil-cases : (b : Bytes) → (b ≡ []) ⊎ (0 < length b)
Nil-cases [] = inl refl
Nil-cases (x ∷ b) = inr (omega arith)

-- Two ways to cut one list: the first piece ends in the first part, or in the second.
append_split :
    (p r n f : Bytes)
    → p ++ r ≡ n ++ f
    → ((q : Bytes) × (n ≡ p ++ q)) ⊎ ((q : Bytes) × (p ≡ n ++ q) × (f ≡ q ++ r))
append_split p r [] f e = inr (p, refl, sym e)
append_split [] r (x ∷ n) f e = inl (x ∷ n, refl)
append_split (y ∷ p) r (x ∷ n) f e = elim (append_split p r n f (ground arith)) [
  | inl (q, h) ↦ inl (q, ground arith)
  | inr (q, h, k) ↦ inr (q, ground arith, k)
]

-- Before the frame has begun, less than two bytes are kept.
kept_noise : (p q : Bytes) → IsNoise (p ++ q) → length (sync p) < 2
kept_noise p q h = elim (sync-cases p) [
  | inl short ↦ short
  | inr (r, e) ↦
      let bad : sync (0x01 ∷ 0x88 ∷ (r ++ q)) ≡ [] = rw e at (sync-append p q ∙ h) in cc (bad)
]

-- The start of a frame is kept whole, also before its header is complete.
sync_part : (part r t : Bytes) → part ++ r ≡ 0x01 ∷ 0x88 ∷ t → sync part ≡ part
sync_part [] r t e = refl
sync_part (x ∷ []) r t e = ground arith
sync_part (x ∷ y ∷ part) r t e = ground arith

after_noise :
    (noise part r t : Bytes)
    → IsNoise noise
    → part ++ r ≡ 0x01 ∷ 0x88 ∷ t
    → sync (noise ++ part) ≡ part
after_noise noise part r t h e =
    sym (sync-append noise part) ∙ ap (λ s. sync (s ++ part)) h ∙ sync_part part r t e

short-waits : (b : Bytes) → length b < 4 → check_length b ≡ (ok none, b)
unfolding check_length
short-waits b h = ground arith

module _ (words : ℕ) (rest : Bytes) (one_byte : words < 256)
    (declared : length rest ≡ words * 4 + 4) where
  -- The start of a frame waits for more.
  part-waits :
      (part r : Bytes) (status : ℕ)
      → part ++ r ≡ 0x01 ∷ 0x88 ∷ status ∷ words ∷ rest
      → 0 < length r
      → check_length part ≡ (ok none, part)
  unfolding check_length
  part-waits (a ∷ b ∷ c ∷ d ∷ t) r status e more = ground (arith, length-append t r, ap length e)
  part-waits [] r status e more = refl
  part-waits (a ∷ []) r status e more = refl
  part-waits (a ∷ b ∷ []) r status e more = refl
  part-waits (a ∷ b ∷ c ∷ []) r status e more = refl

  -- A whole frame is returned, and nothing of it is kept.
  whole-completes :
      (status : ℕ)
      → check_length (0x01 ∷ 0x88 ∷ status ∷ words ∷ rest)
        ≡ (ok (some (0x01 ∷ 0x88 ∷ status ∷ words ∷ rest)), [])
  unfolding check_length
  whole-completes status = ground arith

-- A push adds its chunk to what has come so far; the buffer is that, less what was discarded.
push-sync : (p c : Bytes) → push (sync p) c ≡ check_length (sync (p ++ c))
unfolding push
push-sync p c = ap check_length (discard-sync (sync p ++ c) ∙ sync-append p c)

assemble-waits :
    (buffer c kept : Bytes) (chunks : List Bytes)
    → push buffer c ≡ (ok none, kept)
    → assemble buffer (c ∷ chunks) ≡ assemble kept chunks
unfolding assemble
assemble-waits buffer c kept chunks e =
    rw (ap (λ t. t.0) e, assemble) (ap (λ t. assemble t.1 chunks) e)

-- What a push does while part of the bytes of `noise ++ frame` is still to come, and at the end.
module _ (noise frame : Bytes) (quiet : IsNoise noise) (whole : IsWhole frame) where
  length-frame : 8 ≤ length frame
  length-frame = omega (arith, ap length whole.starts, whole.declared)

  push-waits :
      (p c r : Bytes)
      → (p ++ c) ++ r ≡ noise ++ frame
      → 0 < length r
      → push (sync p) c ≡ (ok none, sync (p ++ c))
  push-waits p c r e more = push-sync p c ∙ (elim (append_split (p ++ c) r noise frame e) [
    | inl (q, h) ↦
        short-waits (sync (p ++ c)) (omega (arith, kept_noise (p ++ c) q (rw h at quiet)))
    | inr (q, h, k) ↦
        let kept : sync (p ++ c) ≡ q =
          ap sync h ∙ after_noise noise q r _ quiet (sym k ∙ whole.starts) in
        rw kept (
          part-waits whole.words whole.rest whole.one_byte whole.declared q r whole.status
            (sym k ∙ whole.starts) more)
  ])

  push-completes : (p c : Bytes) → p ++ c ≡ noise ++ frame → push (sync p) c ≡ (ok (some frame), [])
  push-completes p c e =
      push-sync p c
      ∙ ap check_length
          (ap sync e ∙ after_noise noise frame [] _ quiet (append-nil frame ∙ whole.starts))
      ∙ (rw whole.starts
          (whole-completes whole.words whole.rest whole.one_byte whole.declared whole.status))

  assemble-from :
      (chunks : List Bytes) (p : Bytes)
      → p ++ flatten chunks ≡ noise ++ frame
      → 0 < length (flatten chunks)
      → assemble (sync p) chunks ≡ ok (some frame)
  unfolding assemble
  assemble-from [] p e more = absurd (omega arith)
  assemble-from (c ∷ chunks) p e more =
      let e' : (p ++ c) ++ flatten chunks ≡ noise ++ frame =
        append_assoc p c (flatten chunks) ∙ e in
      elim (Nil-cases (flatten chunks)) [
        | inl last ↦
            let all : p ++ c ≡ noise ++ frame = sym (append-nil (p ++ c)) ∙ (rw last at e') in
            rw (push-completes p c all, assemble)
        | inr more' ↦
            assemble-waits (sync p) c (sync (p ++ c)) chunks
              (push-waits p c (flatten chunks) e' more')
            ∙ assemble-from chunks (p ++ c) e' more'
      ]

-- Noise and then a whole frame, cut into chunks in any way, are assembled into that frame.
pub assemble-frame :
    (noise frame : Bytes) (chunks : List Bytes)
    → IsNoise noise
    → IsWhole frame
    → flatten chunks ≡ noise ++ frame
    → assemble [] chunks ≡ ok (some frame)
assemble-frame noise frame chunks quiet whole e =
    assemble-from noise frame quiet whole chunks [] e
      (omega (arith, ap length e, length-append noise frame, length-frame noise frame quiet whole))
