-- ===== src/Katapult/Session/Retry.antt =====
-- The bounded retry policy of `command`: which exchanges it makes, and what it returns.
use aldis.Prelude.{
  ℕ, zero, suc, ◌<◌, ◌≡◌, inl, inr, refl, ap, sym, ◌∙◌, arith, Bytes, AreBytes, Result, ok, err,
  Exec, Result-cases,
}
use aldis.Katapult.Frame.{Command, code, Response, FrameError, encode_command, decode_response}
use aldis.Katapult.Frame.Exact.{Fits, ack_frame, decode_response-exact}
use aldis.Katapult.Session.{
  Failure, no_response, SessionError, encode, retries_exhausted, max_attempts, judge, attempts,
  run_command,
}

module _ {S E : Type 0} (exchange : Bytes → Exec S E Bytes) where
  -- `n` exchanges of `request`, none of them answered, lead from `s` to `u`.
  pub data Unanswered (command : Command) (request : Bytes) : ℕ → S → S → Type 0 where
    start : {s : S} → Unanswered command request 0 s s
    again :
        {n : ℕ} {s s' u : S} (reply : Result E Bytes) (failure : Failure E)
        → exchange request s ≡ (reply, s')
        → judge command reply ≡ err failure
        → Unanswered command request n s' u
        → Unanswered command request (suc n) s u

  -- The loop ends with an answer after fewer than `n` exchanges without one, or makes `n` exchanges
  -- in vain.
  pub data LoopOutcome (command : Command) (request : Bytes) (n : ℕ) (s : S)
      (r : Result (SessionError E) Bytes × S) : Type 0 where
    taken :
        (tries : ℕ) {before u : S} {reply : Result E Bytes} {response : Bytes}
        → tries < n
        → Unanswered command request tries s before
        → exchange request before ≡ (reply, u)
        → judge command reply ≡ ok response
        → r ≡ (ok response, u)
        → LoopOutcome command request n s r
    in_vain :
        {u : S} (last : Failure E)
        → Unanswered command request n s u
        → r ≡ (err (retries_exhausted command last), u)
        → LoopOutcome command request n s r

  one_more :
      {n : ℕ} {command : Command} {request : Bytes} {s : S} {failure : Failure E}
      {r : Result (SessionError E) Bytes × S}
      → judge command (exchange request s).0 ≡ err failure
      → LoopOutcome command request n (exchange request s).1 r
      → LoopOutcome command request (suc n) s r
  one_more {request} {s} {failure} e (taken tries few failed sent t result) =
      taken (suc tries) (omega arith) (again (exchange request s).0 failure refl e failed) sent t
        result
  one_more {request} {s} {failure} e (in_vain last failed result) =
      in_vain last (again (exchange request s).0 failure refl e failed) result

  attempts-LoopOutcome :
      (n : ℕ) (command : Command) (request : Bytes) (last : Failure E) (s : S)
      → LoopOutcome command request n s (attempts exchange n command request last s)
  unfolding attempts
  attempts-LoopOutcome zero command request last s = in_vain last start refl
  attempts-LoopOutcome (suc n) command request last s =
      elim (Result-cases (judge command (exchange request s).0)) [
        | inl (response, e) ↦ taken 0 (omega arith) start refl e (rw (e, attempts))
        | inr (failure, e) ↦
            rw (e, attempts)
              (one_more e (attempts-LoopOutcome n command request failure (exchange request s).1))
      ]

  -- What one command comes to.
  pub data CommandOutcome (command : Command) (payload : Bytes) (s : S)
      (r : Result (SessionError E) Bytes × S) : Type 0 where
    -- the request does not fit a frame: nothing is sent
    refused :
        (e : FrameError)
        → encode_command command payload ≡ err e
        → r ≡ (err (encode e), s)
        → CommandOutcome command payload s r
    -- after at most four exchanges without an answer, the reply is the frame of the response
    answered :
        (request : Bytes) (tries : ℕ) {before u : S} (response : Response)
        → encode_command command payload ≡ ok request
        → tries < max_attempts
        → Unanswered command request tries s before
        → exchange request before ≡ (ok (ack_frame response), u)
        → response.command ≡ code command
        → Fits response
        → r ≡ (ok response.payload, u)
        → CommandOutcome command payload s r
    -- five exchanges, none answered
    exhausted :
        (request : Bytes) {u : S} (last : Failure E)
        → encode_command command payload ≡ ok request
        → Unanswered command request max_attempts s u
        → r ≡ (err (retries_exhausted command last), u)
        → CommandOutcome command payload s r

  -- what `judge` takes is the frame of its response
  judge-exact :
      (command : Command) (reply : Result E Bytes) (payload : Bytes)
      → ((frame : Bytes) → reply ≡ ok frame → AreBytes frame)
      → judge command reply ≡ ok payload
      → (response : Response) × (reply ≡ ok (ack_frame response))
        × (response.command ≡ code command)
        × Fits response
        × (response.payload ≡ payload)
  unfolding judge
  judge-exact command (err e) payload bytes h = cc
  judge-exact command (ok frame) payload bytes h = elim (Result-cases (decode_response frame)) [
    | inl (response, e) ↦
        let (fits, same) = (decode_response-exact frame response (bytes frame refl)).0 e in
        (response, ap ok same, ground arith, fits, ground arith)
    | inr (x, e) ↦ ground arith
  ]

  -- A transport hands over bytes.
  abbrev pub Delivers : Type 0
  Delivers =
      (request : Bytes) (t u : S) (frame : Bytes)
      → exchange request t ≡ (ok frame, u)
      → AreBytes frame

  loop-CommandOutcome :
      (command : Command) (payload request : Bytes) (s : S) {r : Result (SessionError E) Bytes × S}
      → Delivers
      → encode_command command payload ≡ ok request
      → LoopOutcome command request max_attempts s r
      → CommandOutcome command payload s r
  loop-CommandOutcome command payload request s d e (in_vain last failed result) =
      exhausted request last e failed result
  loop-CommandOutcome command payload request s d e
        (taken tries {before} {u} {reply} {response} few failed sent t result) =
      let (found, is_frame, same, fits, data') =
        judge-exact command reply response
          (λ frame q. d request before u frame (sent ∙ ap (λ x. (x, u)) q)) t in
      answered request tries found e few failed (sent ∙ ap (λ x. (x, u)) is_frame) same fits
        (result ∙ ap (λ x. (ok x, u)) (sym data'))

  -- A command whose request does not fit a frame sends nothing. Any other is sent at most five
  -- times: it returns the data of the first reply that is a success frame echoing the command,
  -- in the state that this reply left, or it fails after five exchanges of which none was answered.
  pub run_command-CommandOutcome :
      (command : Command) (payload : Bytes) (s : S)
      → Delivers
      → CommandOutcome command payload s (run_command exchange command payload s)
  unfolding run_command
  run_command-CommandOutcome command payload s d =
      elim (Result-cases (encode_command command payload)) [
        | inl (request, e) ↦ rw e (
            loop-CommandOutcome command payload request s d e
              (attempts-LoopOutcome max_attempts command request no_response s))
        | inr (x, e) ↦ rw e (refused x e refl)
      ]
