-- ===== src/Redis/Client.antt =====
-- `RedisClient` (rediq/src/storage/redis/mod.rs): each method sends one command and reads the typed
-- reply. A script runs on the server without another client in between; here it is a program.
use rediq.Prelude.{
  ℕ, zero, suc, ltb, ◌==◌, ℤ, pos, negsuc, String, str_eq, Bool, false, Option, none, some, List,
  [], ◌∷◌, length, if◌then◌else◌,
}
use rediq.Errors.{redis, unknown_reply}
use rediq.Keys.{Key, Family, key}
use rediq.Redis.{
  Value, text, number, Prog, pure, fail, send, ◌>>=◌, ◌>>◌, set_value, get_value, del_keys,
  exists_key, expire_key, push_right, push_left, pop_left, list_length, list_range,
  list_remove_first, zset_add, zset_range, zset_range_by_score, zset_remove, set_add, set_is_member,
  set_remove, set_members, set_size, hash_set, hash_get, hash_increment, pop_right, zset_size,
  zset_range_scores, hash_get_all, time_left, ping_server,
}

-- The reply of TTL: -2 and -1 are no time.
abbrev pub lasting : Option ℤ → Option ℤ
lasting (some (negsuc (suc zero))) = none
lasting (some (negsuc zero)) = none
lasting (some left) = some left
lasting none = none

module _ {B : Type 0} where
  abbrev pub set : Key → Value B → Prog B (Unit {0})
  set k v = send (set_value k v)

  abbrev pub get : Key → Prog B (Option (Value B))
  get k = send (get_value k)

  abbrev pub del : List Key → Prog B ℕ
  del ks = send (del_keys ks)

  abbrev pub exists : Key → Prog B Bool
  exists k = send (exists_key k)

  -- For less than 2 ^ 63 seconds, which `as i64` keeps.
  abbrev pub expire : Key → ℕ → Prog B Bool
  expire k seconds = send (expire_key k seconds)

  abbrev pub rpush : Key → String → Prog B ℕ
  rpush k x = send (push_right k x)

  abbrev pub lpush : Key → String → Prog B ℕ
  lpush k x = send (push_left k x)

  -- The popped item; the key that comes with it is the one asked for.
  abbrev pub blpop : Key → ℕ → Prog B (Option String)
  blpop k timeout = send (pop_left k timeout)

  abbrev pub llen : Key → Prog B ℕ
  llen k = send (list_length k)

  abbrev pub lrange : Key → ℕ → ℤ → Prog B (List String)
  lrange k start stop = send (list_range k start stop)

  -- LREM with the count 1, the one that is used.
  abbrev pub lrem : Key → String → Prog B ℕ
  lrem k x = send (list_remove_first k x)

  -- For scores within 2 ^ 53, which `as f64` keeps.
  abbrev pub zadd : Key → String → ℤ → Prog B (Unit {0})
  zadd k m score = send (zset_add k m score)

  abbrev pub zrange : Key → ℕ → ℤ → Prog B (List String)
  zrange k start stop = send (zset_range k start stop)

  abbrev pub zrangebyscore : Key → ℤ → ℤ → Prog B (List String)
  zrangebyscore k low high = send (zset_range_by_score k (some low) high none)

  abbrev pub zrem : Key → String → Prog B Bool
  zrem k m = do n ← send (zset_remove k m); pure (ltb 0 n)

  abbrev pub sadd : Key → String → Prog B Bool
  sadd k m = do n ← send (set_add k m); pure (ltb 0 n)

  abbrev pub sismember : Key → String → Prog B Bool
  sismember k m = send (set_is_member k m)

  abbrev pub srem : Key → String → Prog B Bool
  srem k m = do n ← send (set_remove k m); pure (ltb 0 n)

  abbrev pub smembers : Key → Prog B (List String)
  smembers k = send (set_members k)

  abbrev pub scard : Key → Prog B ℕ
  scard k = send (set_size k)

  abbrev pub hset : Key → List (String × Value B) → Prog B Bool
  hset k fields = do n ← send (hash_set k fields); pure (ltb 0 n)

  abbrev pub hget : Key → String → Prog B (Option (Value B))
  hget k f = send (hash_get k f)

  abbrev pub hincrby : Key → String → ℕ → Prog B ℕ
  hincrby k f n = send (hash_increment k f n)

  abbrev pub brpop : Key → ℕ → Prog B (Option String)
  brpop k timeout = send (pop_right k timeout)

  abbrev pub zcard : Key → Prog B ℕ
  zcard k = send (zset_size k)

  abbrev pub zrange_with_scores : Key → ℕ → ℤ → Prog B (List (String × ℤ))
  zrange_with_scores k start stop = send (zset_range_scores k start stop)

  -- The fields with their values, which come as one flat list there.
  abbrev pub hgetall : Key → Prog B (List (String × Value B))
  hgetall k = send (hash_get_all k)

  abbrev pub hmset : Key → List (String × Value B) → Prog B (Unit {0})
  hmset k fields = do send (hash_set k fields); pure tt

  abbrev pub ping : Prog B String
  ping = send ping_server

  abbrev pub ttl : Key → Prog B (Option ℤ)
  ttl k = do left ← send (time_left k); pure (lasting left)

-- What a script returns: a number, a text (`{ok = …}`), or an error table (`{err = …}`), which the
-- client receives as a Redis error: `eval` fails with it, and `?` passes it on before the reply's text
-- is looked at.
pub data ScriptReply : Type 0 where
  integer : ℕ → ScriptReply
  status error : String → ScriptReply

abbrev pub is_one : Option ScriptReply → Bool
is_one none = false
is_one (some (integer n)) = n == 1
is_one (some (status s)) = str_eq s "1"
is_one (some (error s)) = false

-- The reply as a count, and as a text.
abbrev pub count_of : Option ScriptReply → ℕ
count_of (some (integer n)) = n
count_of _ = 0

abbrev pub status_of : Option ScriptReply → String
status_of (some (status s)) = s
status_of _ = ""

module _ {B : Type 0} where
  abbrev pub received : ScriptReply → Prog B (Option ScriptReply)
  received (integer n) = pure (some (integer n))
  received (status s) = pure (some (status s))
  received (error s) = fail (redis (unknown_reply s))

  abbrev pub eval_script : Prog B ScriptReply → Prog B (Option ScriptReply)
  eval_script script = do r ← script; received r

  -- DEDUP_SCRIPT
  abbrev pub dedup_script : Key → String → Prog B ScriptReply
  dedup_script k unique = do
    found ← sismember k unique
    if found then pure (integer 0) else do send (set_add k unique); pure (integer 1)

  abbrev pub dedup_add : Key → String → Prog B Bool
  dedup_add k unique = do r ← eval_script (dedup_script k unique); pure (is_one r)

  -- The loop of MOVE_EXPIRED_SCRIPT.
  abbrev pub move_each : Key → Key → List String → Prog B (Unit {0})
  move_each source dest [] = pure tt
  move_each source dest (id ∷ ids) = do
    send (zset_remove source id)
    send (push_right dest id)
    move_each source dest ids

  -- MOVE_EXPIRED_SCRIPT
  abbrev pub move_expired_script : Key → Key → ℤ → ℕ → Prog B ScriptReply
  move_expired_script source dest now batch = do
    tasks ← send (zset_range_by_score source none now (some batch))
    move_each source dest tasks
    pure (integer (length tasks))

  abbrev pub move_expired_tasks_lua : Key → Key → ℤ → ℕ → Prog B ℕ
  move_expired_tasks_lua source dest now batch = do
    r ← eval_script (move_expired_script source dest now batch)
    pure (count_of r)

  -- The part of PDEQUEUE_SCRIPT behind the emptiness test.
  abbrev pub take_first : Key → Key → ℕ → ℕ → List String → Prog B ScriptReply
  take_first pqueue active now ttl [] = pure (error "ERR_TIMEOUT")
  take_first pqueue active now ttl (id ∷ _) = do
    send (zset_remove pqueue id)
    send (push_left active id)
    let task_key = key Family.task id
    send (hash_set task_key (("status", text "active") ∷ []))
    send (hash_set task_key (("processed_at", number now) ∷ []))
    send (expire_key task_key ttl)
    pure (status id)

  -- PDEQUEUE_SCRIPT
  abbrev pub pdequeue_script : Key → Key → Key → ℕ → ℕ → Prog B ScriptReply
  pdequeue_script pqueue active pause now ttl = do
    paused ← exists pause
    if paused
        then pure (error "ERR_QUEUE_PAUSED")
        else do results ← zrange pqueue 0 (pos 0); take_first pqueue active now ttl results

  abbrev pub pdequeue_lua : Key → Key → Key → ℕ → ℕ → Prog B String
  pdequeue_lua pqueue active pause now ttl = do
    r ← eval_script (pdequeue_script pqueue active pause now ttl)
    pure (status_of r)
