-- ===== src/Outcome/Checked.antt =====
-- Functions that may raise and have no side effects.
use agent_rca.Prelude.{Bool, true, false}
use agent_rca.Outcome.{Error, Result, ok, err}

-- `if not test: raise error`
abbrev pub guard : (test : Bool) (error : Error) → Result (Unit {0})
guard false error = err error
guard true error = ok tt

module _ {ℓ κ} {A : Type ℓ} {B : Type κ} where
  infixl 10 ◌>>=◌
  abbrev pub ◌>>=◌ : (returned : Result A) (next : A → Result B) → Result B
  err error >>= next = err error
  ok value >>= next = next value

-- a check, and what follows where it returns
infixl 10 ◌>>◌
abbrev pub ◌>>◌ {κ} : {B : Type κ} (check : Result (Unit {0})) (rest : Result B) → Result B
err error >> rest = err error
ok done >> rest = rest
