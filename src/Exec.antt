-- ===== src/Exec.antt =====
-- Functions over a connection or a node that return `Result`: what was written before an error
-- stays written, so the state comes back beside the error too.
use combee.Errors.{CombeeError, Result, ok, err}

abbrev pub Exec : Type 0 → Type 0 → Type 0
Exec S A = S → Result A × S

module _ {S A : Type 0} where
  abbrev pub pure : A → Exec S A
  pure a s = (ok a, s)

  abbrev pub raise : CombeeError → Exec S A
  raise e s = (err e, s)

  -- `?` on a value that is computed without the state.
  abbrev pub lift : Result A → Exec S A
  lift r s = (r, s)

  -- `let _ = …`: the result is dropped, the effect stays.
  abbrev pub ignore : Exec S A → Exec S (Unit {0})
  ignore m s = (ok tt, (m s).1)

module _ {S A B : Type 0} where
  abbrev pub resume : Result A → (A → Exec S B) → Exec S B
  resume (ok a) f s = f a s
  resume (err e) f s = (err e, s)

  infixl 5 ◌>>=◌ ◌>>◌
  abbrev pub ◌>>=◌ : Exec S A → (A → Exec S B) → Exec S B
  ◌>>=◌ m f s = resume (m s).0 f (m s).1

  abbrev pub ◌>>◌ : Exec S A → Exec S B → Exec S B
  m >> k = m >>= λ _. k
