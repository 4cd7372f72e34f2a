-- ===== src/Agent/Keeps.antt =====
-- agent/: steps that keep a relation between the states before and after, also when they fail.
use openjarvis.Base.{Result, ok, err}
use openjarvis.Agent.{Failure, Run, continue, ◌>>=◌}

module _ {W : Type 0} (R : W → W → Type 0) where
  pub Keeps : {A : Type 0} → Run W A → Type 0
  Keeps m = (w : W) → R w (m w).1

  pub use-Keeps : {A : Type 0} (m : Run W A) → Keeps m → (w : W) → R w (m w).1
  unfolding Keeps
  use-Keeps m h w = h w

  pub intro-Keeps : {A : Type 0} (m : Run W A) → ((w : W) → R w (m w).1) → Keeps m
  unfolding Keeps
  intro-Keeps m h = h

module _ {W : Type 0} (R : W → W → Type 0) (trans : (a b c : W) → R a b → R b c → R a c) where
  pub continue-Keeps :
      {A B : Type 0} (x : Result Failure A) (f : A → Run W B) (a b : W)
      → ((y : A) → Keeps R (f y))
      → R a b
      → R a (continue x f b).1
  unfolding Keeps
  continue-Keeps (ok y) f a b k h = trans a b (f y b).1 h (k y b)
  continue-Keeps (err e) f a b k h = h

  pub bind-Keeps :
      {A B : Type 0} (m : Run W A) (f : A → Run W B)
      → Keeps R m
      → ((y : A) → Keeps R (f y))
      → Keeps R (m >>= f)
  unfolding Keeps
  bind-Keeps m f h k w = continue-Keeps (m w).0 f w (m w).1 k (h w)
