-- ===== src/Redis.antt =====
-- The interface to the Redis server: the commands that storage/redis/mod.rs sends through fred, the
-- replies as fred types them, and programs that send commands (rediq/src/storage/redis/mod.rs).
pub mod Keyspace
pub mod Server
pub mod Kinds
pub mod Sends
pub mod Reads
pub mod Hashes
pub mod Pipeline
pub mod Client
pub mod Scan
pub mod Yielding
pub mod Reading
pub mod Connecting
use rediq.Prelude.{ℕ, ℤ, String, Bool, Option, List}
use rediq.Errors.{Error, Result, ok, err}
use rediq.Keys.{Key}

-- A stored value: a text, the decimal text of a number, or bytes that a serializer made. The bytes
-- are an abstract type.
pub data Value (B : Type 0) : Type 0 where
  text : String → Value B
  number : ℕ → Value B
  bytes : B → Value B

pub data Command (B : Type 0) : Type 0 where
  set_value : Key → Value B → Command B
  get_value : Key → Command B
  del_keys : List Key → Command B
  exists_key : Key → Command B
  expire_key : Key → ℕ → Command B
  push_right push_left : Key → String → Command B
  pop_left : Key → ℕ → Command B
  list_length : Key → Command B
  list_range : Key → ℕ → ℤ → Command B
  list_remove_first : Key → String → Command B
  zset_add : Key → String → ℤ → Command B
  zset_range : Key → ℕ → ℤ → Command B
  zset_range_by_score : Key → Option ℤ → ℤ → Option ℕ → Command B
  zset_remove : Key → String → Command B
  set_add set_is_member set_remove : Key → String → Command B
  set_members set_size : Key → Command B
  hash_set : Key → List (String × Value B) → Command B
  hash_get : Key → String → Command B
  hash_increment : Key → String → ℕ → Command B
  pop_right : Key → ℕ → Command B
  zset_size : Key → Command B
  zset_range_scores : Key → ℕ → ℤ → Command B
  hash_get_all : Key → Command B
  time_left : Key → Command B
  ping_server : Command B

-- The Rust type that each call asks fred to convert the reply to.
abbrev pub Reply : {B : Type 0} → Command B → Type 0
Reply {B} (set_value _ _) = Unit
Reply {B} (get_value _) = Option (Value B)
Reply (del_keys _) = ℕ
Reply (exists_key _) = Bool
Reply (expire_key _ _) = Bool
Reply (push_right _ _) = ℕ
Reply (push_left _ _) = ℕ
Reply (pop_left _ _) = Option String
Reply (list_length _) = ℕ
Reply (list_range _ _ _) = List String
Reply (list_remove_first _ _) = ℕ
Reply (zset_add _ _ _) = Unit
Reply (zset_range _ _ _) = List String
Reply (zset_range_by_score _ _ _ _) = List String
Reply (zset_remove _ _) = ℕ
Reply (set_add _ _) = ℕ
Reply (set_is_member _ _) = Bool
Reply (set_remove _ _) = ℕ
Reply (set_members _) = List String
Reply (set_size _) = ℕ
Reply (hash_set _ _) = ℕ
Reply {B} (hash_get _ _) = Option (Value B)
Reply (hash_increment _ _ _) = ℕ
Reply (pop_right _ _) = Option String
Reply (zset_size _) = ℕ
Reply (zset_range_scores _ _ _) = List (String × ℤ)
Reply {B} (hash_get_all _) = List (String × Value B)
Reply (time_left _) = Option ℤ
Reply ping_server = String

-- An async function: it ends with a result, or sends a command and goes on with the reply.
pub data Prog (B : Type 0) (A : Type 0) : Type 0 where
  done : Result A → Prog B A
  call : (c : Command B) → (Result (Reply c) → Prog B A) → Prog B A

module _ {B A : Type 0} where
  abbrev pub pure : A → Prog B A
  pure a = done (ok a)

  abbrev pub fail : Error → Prog B A
  fail e = done (err e)

  -- `e.await` without `?`: the caller looks at the result.
  abbrev pub attempt : Prog B A → Prog B (Result A)
  attempt (done r) = done (ok r)
  attempt (call c k) = call c (λ r. attempt (k r))

module _ {B : Type 0} where
  abbrev pub send : (c : Command B) → Prog B (Reply c)
  send c = call c done

-- `e.await?`, and `e?` on a plain result.
infixl 5 ◌>>=◌ ◌>>◌
abbrev pub ◌>>=◌ : {B A C : Type 0} → Prog B A → (A → Prog B C) → Prog B C
done (ok a) >>= f = f a
done (err e) >>= f = done (err e)
call c k >>= f = call c (λ r. k r >>= f)

abbrev pub ◌>>◌ : {B A C : Type 0} → Prog B A → Prog B C → Prog B C
m >> k = m >>= λ _. k
