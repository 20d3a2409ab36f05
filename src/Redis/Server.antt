-- ===== src/Redis/Server.antt =====
-- A Redis server is a parameter of the development: its data is abstract, and what is assumed of it
-- is that each command has its documented effect on what clients observe.
use rediq.Prelude.{String, List, ◌≡◌, refl, ap, ◌∙◌, occurrences, none, never_there, alone, ◌∷◌, []}
use rediq.Errors.{Result, ok, err}
use rediq.Redis.{Command, Reply, Prog, done, call, attempt, ◌>>=◌}
use rediq.Redis.Keyspace.{Keyspace, effect}

pub record Server (B : Type 0) : Type 1 where
  pub Db : Type 0
  pub exec : (c : Command B) → Db → Result (Reply c) × Db
  pub view : Db → Keyspace B
  pub order : List String → List String
  pub order_keeps : (l : List String) (m : String) → occurrences m (order l) ≡ occurrences m l
  pub documented :
      (c : Command B) (db : Db) → ((exec c db).0, view (exec c db).1) ≡ effect order c (view db)

module _ {B : Type 0} where
  -- A program on a server: its commands one after the other, each with the data the last one left.
  unfoldable pub run : {A : Type 0} → (s : Server B) → Prog B A → s.Db → Result A × s.Db
  run s (done r) db = (r, db)
  run s (call c k) db = let (r, db') = s.exec c db in run s (k r) db'

  -- The same on the observed data.
  unfoldable pub replay :
      {A : Type 0} → (List String → List String) → Prog B A → Keyspace B → Result A × Keyspace B
  replay order (done r) ks = (r, ks)
  replay order (call c k) ks = let (r, ks') = effect order c ks in replay order (k r) ks'

  abbrev pub continue :
      {A C : Type 0}
      → (List String → List String)
      → (A → Prog B C)
      → Result A × Keyspace B
      → Result C × Keyspace B
  continue order f (ok a, ks) = replay order (f a) ks
  continue order f (err e, ks) = (err e, ks)

  -- A sequence replays as its parts do, one after the other, unless the first fails.
  pub replay-bind :
      {A C : Type 0} (order : List String → List String) (m : Prog B A) (f : A → Prog B C)
      (ks : Keyspace B)
      → replay order (m >>= f) ks ≡ continue order f (replay order m ks)
  unfolding replay
  replay-bind order (done (ok a)) f ks = refl
  replay-bind order (done (err e)) f ks = refl
  replay-bind order (call c k) f ks =
      let (r, ks') = effect order c ks in replay-bind order (k r) f ks'

  -- A program whose failure is looked at leaves the data that it leaves, and does not fail.
  pub replay-attempt :
      {A : Type 0} (order : List String → List String) (m : Prog B A) (ks : Keyspace B)
      → replay order (attempt m) ks ≡ (ok (replay order m ks).0, (replay order m ks).1)
  unfolding replay
  replay-attempt order (done r) ks = refl
  replay-attempt order (call c k) ks =
      let (r, ks') = effect order c ks in replay-attempt order (k r) ks'

  -- A sequence whose first part succeeds goes on with the second.
  pub replay-then :
      {A C : Type 0} (order : List String → List String) (m : Prog B A) (f : A → Prog B C)
      (ks ks' : Keyspace B) (a : A)
      → replay order m ks ≡ (ok a, ks')
      → replay order (m >>= f) ks ≡ replay order (f a) ks'
  replay-then order m f ks ks' a e = replay-bind order m f ks ∙ ap (continue order f) e

  -- A sequence in which the failure of the first part is looked at.
  pub replay-tried :
      {A C : Type 0} (order : List String → List String) (m : Prog B A) (f : Result A → Prog B C)
      (ks ks' : Keyspace B) (r : Result A)
      → replay order m ks ≡ (r, ks')
      → replay order (attempt m >>= f) ks ≡ replay order (f r) ks'
  replay-tried {A} order m f ks ks' r e =
      replay-then order (attempt m) f ks ks' r
        (replay-attempt order m ks ∙ ap (λ (o : Result A × Keyspace B). (ok o.0, o.1)) e)

  -- What a client observes of a run: the result, and the data after it.
  abbrev pub outcome : {A : Type 0} → (s : Server B) → Prog B A → s.Db → Result A × Keyspace B
  outcome s p db = let (r, db') = run s p db in (r, s.view db')

  pub outcome-eq-replay :
      {A : Type 0} (s : Server B) (p : Prog B A) (db : s.Db)
      → outcome s p db ≡ replay s.order p (s.view db)
  unfolding run replay
  outcome-eq-replay s (done r) db = refl
  outcome-eq-replay {A} s (call c k) db =
      outcome-eq-replay s (k (s.exec c db).0) (s.exec c db).1
      ∙ ap (λ (e : Result (Reply c) × Keyspace B). replay s.order (k e.0) e.1) (s.documented c db)

  -- No members come in no order.
  pub order_of_nothing : (s : Server B) → s.order [] ≡ []
  order_of_nothing s = never_there (s.order []) (s.order_keeps [])

  -- One member comes as it is.
  pub order_of_one : (s : Server B) (x : String) → s.order (x ∷ []) ≡ x ∷ []
  order_of_one s x = alone x (s.order (x ∷ [])) (s.order_keeps (x ∷ []))

  -- A server that keeps the data as it is observed.
  abbrev pub memory : Server B
  memory = record {
    Db = Keyspace B;
    exec = effect (λ l. l);
    view = λ ks. ks;
    order = λ l. l;
    order_keeps = λ l m. refl;
    documented = λ c ks. refl;
  }

  -- The same server, of which no more than what clients observe is kept.
  abbrev pub observed : Server B → Server B
  observed s = record {
    Db = Keyspace B;
    exec = effect s.order;
    view = λ ks. ks;
    order = s.order;
    order_keeps = s.order_keeps;
    documented = λ c ks. refl;
  }

  abbrev pub empty : Keyspace B
  empty k = none
