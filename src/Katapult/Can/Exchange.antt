-- ===== src/Katapult/Can/Exchange.antt =====
-- One exchange over CAN: it ends, and other traffic on the bus does not disturb the reply.
use aldis.Prelude.{
  ℕ, zero, suc, ◌+◌, ◌-◌, ◌≤◌, ◌<◌, ◌==◌, leb, if◌then◌else◌, true, false, Bool-cases, List, [],
  ◌∷◌, ◌++◌, ◌≡◌, ◌≢◌, inl, inr, refl, ap, sym, ◌∙◌, arith, Bytes, length, flatten, Option, none,
  some, Result, ok, err, Result-cases, ◌⊎◌,
}
use aldis.Katapult.Assembler.{AssemblyError, push, assemble}
use aldis.Katapult.Assembler.Chunking.{IsNoise, IsWhole, assemble-frame}
use aldis.Katapult.Can.{
  CanFrame, CanIo, katapult_response_id, write_all, receive, exchange, fragment_request,
}

-- The payloads of the frames that come from Katapult.
abbrev pub replies : List CanFrame → List Bytes
replies [] = []
replies (f ∷ fs) = if f.id == katapult_response_id then f.payload ∷ replies fs else replies fs

pub pushed_cases :
    (r : Result AssemblyError (Option Bytes))
    → (r ≡ ok none) ⊎ (((f : Bytes) × (r ≡ ok (some f))) ⊎ ((e : AssemblyError) × (r ≡ err e)))
pushed_cases (ok none) = inl refl
pushed_cases (ok (some f)) = inr (inl (f, refl))
pushed_cases (err e) = inr (inr (e, refl))

pub no_frames : {A : Type 0} (buffer response : Bytes) → assemble buffer [] ≡ ok (some response) → A
unfolding assemble
no_frames buffer response e = cc

-- One step of `assemble`, by what its push comes to.
pub assemble-waits :
    (buffer c : Bytes) (cs : List Bytes)
    → (push buffer c).0 ≡ ok none
    → assemble buffer (c ∷ cs) ≡ assemble (push buffer c).1 cs
unfolding assemble
assemble-waits buffer c cs e = rw (e, assemble)

pub assemble-done :
    (buffer c : Bytes) (cs : List Bytes) (found : Bytes)
    → (push buffer c).0 ≡ ok (some found)
    → assemble buffer (c ∷ cs) ≡ ok (some found)
unfolding assemble
assemble-done buffer c cs found e = rw (e, assemble)

pub assemble-failed :
    (buffer c : Bytes) (cs : List Bytes) (x : AssemblyError)
    → (push buffer c).0 ≡ err x
    → assemble buffer (c ∷ cs) ≡ err x
unfolding assemble
assemble-failed buffer c cs x e = rw (e, assemble)

module _ {S E : Type 0} (can : CanIo S E) where
  -- These frames are read one after the other, each before the deadline.
  pub data Reads (deadline : ℕ) : S → List CanFrame → Type 0 where
    stop : {s : S} → Reads deadline s []
    next :
        {s s' : S} {f : CanFrame} {fs : List CanFrame}
        → can.now s < deadline
        → can.read s ≡ (ok f, s')
        → Reads deadline s' fs
        → Reads deadline s (f ∷ fs)

  receive-ne-none :
      (fuel deadline : ℕ) (buffer : Bytes) (s : S)
      → ((t : S) → can.now t < can.now (can.read t).1)
      → deadline - can.now s < fuel
      → receive can fuel deadline buffer s ≢ none
  unfolding receive
  receive-ne-none zero deadline buffer s ticks h = absurd (omega arith)
  receive-ne-none (suc fuel) deadline buffer s ticks h = elim (Result-cases (can.read s).0) [
    | inr (e, r) ↦ ground arith
    | inl (frame, r) ↦ ground (
      arith,
      ticks s,
      receive-ne-none fuel deadline buffer (can.read s).1 ticks,
      receive-ne-none fuel deadline (push buffer frame.payload).1 (can.read s).1 ticks,
    )
  ]

  module _ (fuel deadline : ℕ) (buffer : Bytes) (s s' : S) (f : CanFrame)
      (before : leb deadline (can.now s) ≡ false) (r : can.read s ≡ (ok f, s')) where
    receive-skips :
        (f.id == katapult_response_id) ≡ false
        → receive can (suc fuel) deadline buffer s ≡ receive can fuel deadline buffer s'
    unfolding receive
    receive-skips other =
        rw (before, receive, ap (λ x. x.0) r, other, receive)
          (ap (λ x. receive can fuel deadline buffer x.1) r)

    receive-waits :
        (rest : Bytes)
        → (f.id == katapult_response_id) ≡ true
        → push buffer f.payload ≡ (ok none, rest)
        → receive can (suc fuel) deadline buffer s ≡ receive can fuel deadline rest s'
    unfolding receive
    receive-waits rest ours pushed =
        rw (before, receive, ap (λ x. x.0) r, ours, receive, ap (λ x. x.0) pushed, receive)
          (ap (λ x. receive can fuel deadline x.1 (can.read s).1) pushed
            ∙ ap (λ x. receive can fuel deadline rest x.1) r)

    receive-done :
        (rest response : Bytes)
        → (f.id == katapult_response_id) ≡ true
        → push buffer f.payload ≡ (ok (some response), rest)
        → receive can (suc fuel) deadline buffer s ≡ some (ok response, s')
    unfolding receive
    receive-done rest response ours pushed =
        rw (before, receive, ap (λ x. x.0) r, ours, receive, ap (λ x. x.0) pushed, receive)
          (ap (λ x. some (ok response, x.1)) r)

  Reads-cons :
      {deadline : ℕ} {s : S} {f : CanFrame} {fs : List CanFrame}
      → Reads deadline s (f ∷ fs)
      → (s' : S) × (can.now s < deadline) × (can.read s ≡ (ok f, s')) × Reads deadline s' fs
  Reads-cons (next {s'} t r rs) = (s', t, r, rs)

  -- The loop follows the frames that come from Katapult, whatever is between them.
  receive-assemble :
      (fs : List CanFrame) (fuel deadline : ℕ) (buffer : Bytes) (s : S) (response : Bytes)
      → Reads deadline s fs
      → length fs ≤ fuel
      → assemble buffer (replies fs) ≡ ok (some response)
      → (u : S) × (receive can fuel deadline buffer s ≡ some (ok response, u))
  receive-assemble [] fuel deadline buffer s response rs h e = no_frames buffer response e
  receive-assemble (f ∷ fs) zero deadline buffer s response rs h e = absurd (omega arith)
  receive-assemble (f ∷ fs) (suc fuel) deadline buffer s response rs h e =
      let (s', t, r, later) = Reads-cons rs in
      let before : leb deadline (can.now s) ≡ false = ground arith in
      let rest = (push buffer f.payload).1 in
      elim (Bool-cases (f.id == katapult_response_id)) [
        | inr other ↦
            let (u, done) =
              receive-assemble fs fuel deadline buffer s' response later (omega arith)
                (rw other at e) in
            (u, receive-skips fuel deadline buffer s s' f before r other ∙ done)
        | inl ours ↦
            let e' : assemble buffer (f.payload ∷ replies fs) ≡ ok (some response) = rw ours at e in
            elim (pushed_cases (push buffer f.payload).0) [
              | inl waits ↦
                  let (u, done) =
                    receive-assemble fs fuel deadline rest s' response later (omega arith)
                      (sym (assemble-waits buffer f.payload (replies fs) waits) ∙ e') in
                  (
                    u,
                    receive-waits fuel deadline buffer s s' f before r rest ours
                          (λ i. (waits i, rest))
                        ∙ done,
                  )
              | inr (inl (found, complete)) ↦
                  let same : found ≡ response =
                    cc (assemble-done buffer f.payload (replies fs) found complete, e') in
                  (
                    s',
                    receive-done fuel deadline buffer s s' f before r rest response ours
                        (λ i. ((complete ∙ ap (λ x. ok (some x)) same) i, rest)),
                  )
              | inr (inr (x, failed)) ↦
                  cc (assemble-failed buffer f.payload (replies fs) x failed, e')
            ]
      ]

  -- An exchange returns the reply of Katapult once the frames that carry it have been read before
  -- the deadline: frames of other devices between them, and discarded bytes ahead of the reply,
  -- make no difference.
  pub exchange-reply :
      (fuel exchange_timeout : ℕ) (request : Bytes) (s s' : S) (fs : List CanFrame)
      (noise reply : Bytes)
      → write_all can (fragment_request request) s ≡ (ok tt, s')
      → Reads (can.now s' + exchange_timeout) s' fs
      → length fs ≤ fuel
      → IsNoise noise
      → IsWhole reply
      → flatten (replies fs) ≡ noise ++ reply
      → (u : S) × (exchange can fuel exchange_timeout request s ≡ some (ok reply, u))
  unfolding exchange
  exchange-reply fuel exchange_timeout request s s' fs noise reply sent rs h quiet whole e =
      let (u, done) =
        receive-assemble fs fuel (can.now s' + exchange_timeout) [] s' reply rs h
          (assemble-frame noise reply (replies fs) quiet whole e) in
      (
        u,
        rw (ap (λ x. x.0) sent, exchange)
            (ap (λ x. receive can fuel (can.now x.1 + exchange_timeout) [] x.1) sent ∙ done),
      )

  -- While every read takes some time, an exchange ends: fuel beyond the timeout is enough.
  pub exchange_total :
      (fuel exchange_timeout : ℕ) (request : Bytes) (s : S)
      → ((t : S) → can.now t < can.now (can.read t).1)
      → exchange_timeout < fuel
      → exchange can fuel exchange_timeout request s ≢ none
  unfolding exchange
  exchange_total fuel exchange_timeout request s ticks h =
      let s' = (write_all can (fragment_request request) s).1 in
      ground (arith, receive-ne-none fuel (can.now s' + exchange_timeout) [] s' ticks (omega arith))
