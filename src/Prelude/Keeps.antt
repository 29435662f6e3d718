-- ===== src/Prelude/Keeps.antt =====
-- Steps that keep what holds of the state, whether they fail or not.
use mathlib.Core.Bool.{Bool, true, false}
use aldis.Prelude.Tests.{if◌then◌else◌}
use aldis.Prelude.Results.{Result, ok, err, Exec, continue, ◌>>=◌}

module _ {S : Type 0} (P : S → Type 0) where
  -- A step that keeps `P`, however it ends.
  abbrev pub Keeps : {E A : Type 0} → Exec S E A → Type 0
  Keeps m = (s : S) → P s → P (m s).1

  pub continue-Keeps :
      {E A B : Type 0} (r : Result E A) (f : A → Exec S E B)
      → ((a : A) → Keeps (f a))
      → Keeps (continue r f)
  continue-Keeps (ok a) f k s p = k a s p
  continue-Keeps (err e) f k s p = p

  pub bind-Keeps :
      {E A B : Type 0} (m : Exec S E A) (f : A → Exec S E B)
      → Keeps m
      → ((a : A) → Keeps (f a))
      → Keeps (m >>= f)
  bind-Keeps m f h k s p = continue-Keeps (m s).0 f k (m s).1 (h s p)

  pub if-Keeps :
      {E A : Type 0} (b : Bool) (m n : Exec S E A) → Keeps m → Keeps n → Keeps (if b then m else n)
  if-Keeps true m n h k = h
  if-Keeps false m n h k = k
