-- ===== src/Redis/Pipeline.antt =====
-- `RedisPipeline` (rediq/src/storage/redis/mod.rs): commands that are collected by kind and then sent
-- one after the other, the writes of strings first and the expiries last.
use rediq.Prelude.{ℕ, String, List, [], ◌∷◌, ◌++◌}
use rediq.Keys.{Key}
use rediq.Redis.{Value, Prog, pure, ◌>>◌}
use rediq.Redis.Client as Client
use rediq.Redis.Client.{rpush, sadd, expire}

pub record Pipeline (B : Type 0) : Type 0 where
  pub sets : List (Key × Value B)
  pub rpushes : List (Key × String)
  pub sadds : List (Key × String)
  pub expires : List (Key × ℕ)

module _ {B : Type 0} where
  abbrev pub no_commands : Pipeline B
  no_commands = record { sets = []; rpushes = []; sadds = []; expires = [] }

  abbrev pub with_set : Pipeline B → Key → Value B → Pipeline B
  with_set p k v = record p { sets = p.sets ++ (k, v) ∷ [] }

  abbrev pub with_rpush : Pipeline B → Key → String → Pipeline B
  with_rpush p k x = record p { rpushes = p.rpushes ++ (k, x) ∷ [] }

  abbrev pub with_sadd : Pipeline B → Key → String → Pipeline B
  with_sadd p k m = record p { sadds = p.sadds ++ (k, m) ∷ [] }

  abbrev pub with_expire : Pipeline B → Key → ℕ → Pipeline B
  with_expire p k seconds = record p { expires = p.expires ++ (k, seconds) ∷ [] }

  abbrev pub set_all : List (Key × Value B) → Prog B (Unit {0})
  set_all [] = pure tt
  set_all ((k, v) ∷ l) = do Client.set k v; set_all l

  abbrev pub rpush_all : List (Key × String) → Prog B (Unit {0})
  rpush_all [] = pure tt
  rpush_all ((k, x) ∷ l) = do rpush k x; rpush_all l

  abbrev pub sadd_all : List (Key × String) → Prog B (Unit {0})
  sadd_all [] = pure tt
  sadd_all ((k, m) ∷ l) = do sadd k m; sadd_all l

  abbrev pub expire_all : List (Key × ℕ) → Prog B (Unit {0})
  expire_all [] = pure tt
  expire_all ((k, seconds) ∷ l) = do expire k seconds; expire_all l

  abbrev pub execute : Pipeline B → Prog B (Unit {0})
  execute p = do set_all p.sets; rpush_all p.rpushes; sadd_all p.sadds; expire_all p.expires
