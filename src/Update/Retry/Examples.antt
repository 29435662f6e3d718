-- ===== src/Update/Retry/Examples.antt =====
-- A device that is there after three seconds, and a clock that only sleeping moves.
use aldis.Prelude.{
  ℕ, ◌+◌, ◌*◌, ◌^◌, ◌≤◌, leb, if◌then◌else◌, ◌≡◌, refl, some, Result, ok, err, Exec, arith,
}
use aldis.Update.Retry.{retry_from, retry_until_available}
use aldis.Update.Retry.Available.{
  IsFinal, IsOk, retry_until_available-ends, retry_until_available-succeeds,
}

abbrev second : ℕ
second = 10 ^ 9

abbrev device : Exec ℕ ℕ ℕ
device t = (if leb (3 * second) t then ok 7 else err 0, t)

abbrev sleep : ℕ → ℕ → ℕ
sleep d t = t + d

found :
    retry_until_available (λ t. t) sleep device 100 (15 * second) second 0 ≡ some (ok 7, 3 * second)
unfolding retry_until_available retry_from
found = refl

gone :
    retry_until_available (λ t. t) sleep device 100 (2 * second) second 0 ≡ some (err 0, 2 * second)
unfolding retry_until_available retry_from
gone = refl

retry_until_available-ends_example :
    (r : Result ℕ ℕ × ℕ) × ((retry_until_available (λ t. t) sleep device 201 (2 * second) second 0
        ≡ some r)
      × IsFinal (λ t. t) sleep device (0 + 2 * second) r)
retry_until_available-ends_example =
    retry_until_available-ends (λ t. t) sleep device 200 (2 * second) second 0 (λ d s. omega arith)
      (λ s. omega arith) (omega arith)

available : (t : ℕ) → 3 * second ≤ t → (a : ℕ) × ((device t).0 ≡ ok a)
available t h = (7, ground arith)

retry_until_available-succeeds_example :
    (r : Result ℕ ℕ × ℕ) × ((retry_until_available (λ t. t) sleep device 1501 (15 * second) second 0
        ≡ some r)
      × IsOk (λ t. t) sleep device r)
retry_until_available-succeeds_example =
    retry_until_available-succeeds (λ t. t) sleep device 1500 (15 * second) second (3 * second) 0
      (λ d s. omega arith) (λ s. omega arith) (omega arith) available (λ t h. omega arith)
