-- ===== src/Agent.antt =====
-- agent/: what the agent's parts share: failures, and programs over a state that may fail. A failure
-- is what is printed of it: by itself, and with the chain of its causes.
pub mod Hooks
pub mod Tools
pub mod Events
pub mod Loop
pub mod Features
pub mod Worker
pub mod Memory
mod Keeps
use openjarvis.Base.{Text, List, Option, Result, ok, err}

pub record Failure : Type 0 where
  pub text : Text
  pub chain : Text

-- `bail!`
abbrev pub failure : Text → Failure
failure s = record { text = s; chain = s }

-- What is done before a failure stays done.
abbrev pub Run : Type 0 → Type 0 → Type 0
Run W A = W → Result Failure A × W

module _ {W A B : Type 0} where
  abbrev pub continue : Result Failure A → (A → Run W B) → Run W B
  continue (ok a) f w = f a w
  continue (err e) f w = (err e, w)

  infixl 5 ◌>>=◌ ◌>>◌
  abbrev pub ◌>>=◌ : Run W A → (A → Run W B) → Run W B
  ◌>>=◌ m f w = continue (m w).0 f (m w).1

  abbrev pub ◌>>◌ : Run W A → Run W B → Run W B
  m >> n = m >>= λ _. n

module _ {W A : Type 0} where
  abbrev pub pure : A → Run W A
  pure a w = (ok a, w)

  abbrev pub fail : Failure → Run W A
  fail e w = (err e, w)

  abbrev pub lift : Result Failure A → Run W A
  lift r w = (r, w)
