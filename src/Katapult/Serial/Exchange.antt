-- ===== src/Katapult/Serial/Exchange.antt =====
-- One exchange over a serial line: it ends, and the reply may come in any pieces
-- (src/flash/katapult/serial.rs).
use aldis.Prelude.{
  ℕ, zero, suc, ◌+◌, ◌-◌, ◌≤◌, ◌<◌, leb, false, List, [], ◌∷◌, ◌++◌, ◌≡◌, ◌≢◌, inl, inr, ap, sym,
  ◌∙◌, arith, Bytes, length, flatten, none, some, ok, Result-cases,
}
use aldis.Prelude.Text.{is_empty}
use aldis.Katapult.Assembler.{push, assemble}
use aldis.Katapult.Assembler.Chunking.{IsNoise, IsWhole, assemble-frame}
use aldis.Katapult.Can.Exchange.{
  pushed_cases, no_frames, assemble-waits, assemble-done, assemble-failed,
}
use aldis.Katapult.Serial.{SerialIo, receive, exchange}

module _ {S E : Type 0} (port : SerialIo S E) where
  -- These chunks are read one after the other, each before the deadline.
  pub data Reads (deadline : ℕ) : S → List Bytes → Type 0 where
    stop : {s : S} → Reads deadline s []
    next :
        {s s' : S} {c : Bytes} {cs : List Bytes}
        → port.now s < deadline
        → port.read s ≡ (ok c, s')
        → is_empty c ≡ false
        → Reads deadline s' cs
        → Reads deadline s (c ∷ cs)

  receive-ne-none :
      (fuel deadline : ℕ) (buffer : Bytes) (s : S)
      → ((t : S) → port.now t < port.now (port.read t).1)
      → deadline - port.now s < fuel
      → receive port fuel deadline buffer s ≢ none
  unfolding receive
  receive-ne-none zero deadline buffer s ticks h = absurd (omega arith)
  receive-ne-none (suc fuel) deadline buffer s ticks h = elim (Result-cases (port.read s).0) [
    | inr (e, r) ↦ ground arith
    | inl (chunk, r) ↦
        ground (
          arith,
          ticks s,
          receive-ne-none fuel deadline (push buffer chunk).1 (port.read s).1 ticks,
        )
  ]

  module _ (fuel deadline : ℕ) (buffer : Bytes) (s s' : S) (c : Bytes)
      (before : leb deadline (port.now s) ≡ false) (r : port.read s ≡ (ok c, s'))
      (some' : is_empty c ≡ false) where
    receive-waits :
        (rest : Bytes)
        → push buffer c ≡ (ok none, rest)
        → receive port (suc fuel) deadline buffer s ≡ receive port fuel deadline rest s'
    unfolding receive
    receive-waits rest pushed =
        rw (before, receive, ap (λ x. x.0) r, some', receive, ap (λ x. x.0) pushed, receive)
          (ap (λ x. receive port fuel deadline x.1 (port.read s).1) pushed
            ∙ ap (λ x. receive port fuel deadline rest x.1) r)

    receive-done :
        (rest response : Bytes)
        → push buffer c ≡ (ok (some response), rest)
        → receive port (suc fuel) deadline buffer s ≡ some (ok response, s')
    unfolding receive
    receive-done rest response pushed =
        rw (before, receive, ap (λ x. x.0) r, some', receive, ap (λ x. x.0) pushed, receive)
          (ap (λ x. some (ok response, x.1)) r)

  Reads-cons :
      {deadline : ℕ} {s : S} {c : Bytes} {cs : List Bytes}
      → Reads deadline s (c ∷ cs)
      → (s' : S) × (port.now s < deadline)
        × (port.read s ≡ (ok c, s'))
        × (is_empty c ≡ false)
        × Reads deadline s' cs
  Reads-cons (next {s'} t r some' rs) = (s', t, r, some', rs)

  -- The loop follows the chunks as they are assembled.
  receive-assemble :
      (cs : List Bytes) (fuel deadline : ℕ) (buffer : Bytes) (s : S) (response : Bytes)
      → Reads deadline s cs
      → length cs ≤ fuel
      → assemble buffer cs ≡ ok (some response)
      → (u : S) × (receive port fuel deadline buffer s ≡ some (ok response, u))
  receive-assemble [] fuel deadline buffer s response rs h e = no_frames buffer response e
  receive-assemble (c ∷ cs) zero deadline buffer s response rs h e = absurd (omega arith)
  receive-assemble (c ∷ cs) (suc fuel) deadline buffer s response rs h e =
      let (s', t, r, some', later) = Reads-cons rs in
      let before : leb deadline (port.now s) ≡ false = ground arith in
      let rest = (push buffer c).1 in
      elim (pushed_cases (push buffer c).0) [
        | inl waits ↦
            let (u, done) =
              receive-assemble cs fuel deadline rest s' response later (omega arith)
                (sym (assemble-waits buffer c cs waits) ∙ e) in
            (
              u,
              receive-waits fuel deadline buffer s s' c before r some' rest (λ i. (waits i, rest))
                  ∙ done,
            )
        | inr (inl (found, complete)) ↦
            let same : found ≡ response = cc (assemble-done buffer c cs found complete, e) in
            (
              s',
              receive-done fuel deadline buffer s s' c before r some' rest response
                  (λ i. ((complete ∙ ap (λ x. ok (some x)) same) i, rest)),
            )
        | inr (inr (x, failed)) ↦ cc (assemble-failed buffer c cs x failed, e)
      ]

  -- An exchange whose request could be written returns the reply once chunks have been read before
  -- the deadline that are discarded bytes and then the reply, cut in any way into pieces that are
  -- not empty.
  pub serial_exchange-reply :
      (fuel exchange_timeout : ℕ) (request : Bytes) (s s' : S) (cs : List Bytes)
      (noise reply : Bytes)
      → port.write_all request s ≡ (ok tt, s')
      → Reads (port.now s' + exchange_timeout) s' cs
      → length cs ≤ fuel
      → IsNoise noise
      → IsWhole reply
      → flatten cs ≡ noise ++ reply
      → (u : S) × (exchange port fuel exchange_timeout request s ≡ some (ok reply, u))
  unfolding exchange
  serial_exchange-reply fuel exchange_timeout request s s' cs noise reply sent rs h quiet whole e =
      let (u, done) =
        receive-assemble cs fuel (port.now s' + exchange_timeout) [] s' reply rs h
          (assemble-frame noise reply cs quiet whole e) in
      (
        u,
        rw (ap (λ x. x.0) sent, exchange)
            (ap (λ x. receive port fuel (port.now x.1 + exchange_timeout) [] x.1) sent ∙ done),
      )

  -- While every read takes some time, an exchange ends: fuel beyond the timeout is enough.
  pub serial_exchange_total :
      (fuel exchange_timeout : ℕ) (request : Bytes) (s : S)
      → ((t : S) → port.now t < port.now (port.read t).1)
      → exchange_timeout < fuel
      → exchange port fuel exchange_timeout request s ≢ none
  unfolding exchange
  serial_exchange_total fuel exchange_timeout request s ticks h =
      let s' = (port.write_all request s).1 in
      ground
        (arith, receive-ne-none fuel (port.now s' + exchange_timeout) [] s' ticks (omega arith))
