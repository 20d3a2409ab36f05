-- ===== src/Redis/Sends.antt =====
-- Statements about all commands that a program may send, whatever the replies are.
use rediq.Errors.{Result, ok, err}
use rediq.Redis.{Command, Reply, Prog, done, call, attempt, ◌>>=◌}

module _ {B A : Type 0} (P : Command B → Type 0) where
  abbrev pub Sends : Prog B A → Type 0
  Sends (done r) = Unit
  Sends (call c k) = P c × ((r : Result (Reply c)) → Sends (k r))

module _ {B A C : Type 0} (P : Command B → Type 0) where
  pub Sends-bind :
      (m : Prog B A) (f : A → Prog B C) → Sends P m → ((a : A) → Sends P (f a)) → Sends P (m >>= f)
  Sends-bind (done (ok a)) f h g = g a
  Sends-bind (done (err e)) f h g = tt
  Sends-bind (call c k) f h g = (h.0, λ r. Sends-bind (k r) f (h.1 r) g)

module _ {B A : Type 0} (P : Command B → Type 0) where
  pub Sends-attempt : (m : Prog B A) → Sends P m → Sends P (attempt m)
  Sends-attempt (done r) h = tt
  Sends-attempt (call c k) h = (h.0, λ r. Sends-attempt (k r) (h.1 r))
