-- ===== src/Cli/Utils.antt =====
-- Helpers of the command line (rediq-cli/src/utils.rs): addresses of Redis, and arguments for
-- redis-cli.
pub mod Addresses
use Prim.Native.String.{◌++◌}
use rediq.Prelude.{
  ℕ, zero, suc, not, ◌+◌, ◌-◌, ◌%◌, ◌^◌, ltb, leb, ◌==◌, ℤ, pos, negsuc, ltb_ℤ, String, Bool, true,
  false, ◌&&◌, ◌||◌, Option, none, some, List, [], ◌∷◌, length, take, drop, get_elem?, show,
  parse_unsigned, parse_signed, strip_prefix, split, split_last, join, if◌then◌else◌,
}

pub record RedisConnectionInfo : Type 0 where
  pub host : String
  pub port : ℕ
  pub password : Option String
  pub db : ℤ

abbrev pub localhost : RedisConnectionInfo
localhost = record { host = "localhost"; port = 6379; password = none; db = pos 0 }

abbrev pub unwrap_or : {A : Type 0} → A → Option A → A
unwrap_or a none = a
unwrap_or a (some b) = b

-- The host and the port behind the search for the last colon.
abbrev pub numbered : String → String → ℕ → Option ℕ → String × ℕ
numbered addr before port none = (addr, port)
numbered addr before port (some parsed) = (before, parsed)

abbrev pub host_port : String → ℕ → Option (String × String) → String × ℕ
host_port addr port none = (addr, port)
host_port addr port (some (before, behind)) =
    numbered addr before port (parse_unsigned (2 ^ 16) behind)

abbrev pub db_in : ℤ → List String → ℤ
db_in db [] = db
db_in db (p ∷ ps) = unwrap_or db (parse_signed (2 ^ 63) p)

-- `parts[0]` is there always.
abbrev pub located : ℕ → ℤ → List String → (String × ℕ) × ℤ
located port db [] = (("", port), db)
located port db (addr ∷ more) = (host_port addr port (split_last b':' addr), db_in db more)

-- What it writes to the three references.
unfoldable pub parse_host_port_db : String → ℕ → ℤ → (String × ℕ) × ℤ
parse_host_port_db s port db = located port db (split b'/' s)

abbrev pub info : Option String → (String × ℕ) × ℤ → RedisConnectionInfo
info password ((host, port), db) = record { host = host; port = port; password = password; db = db }

abbrev pub password_in : String → Option String
password_in String.[] = none
password_in (String.◌∷◌ c s) = some (unwrap_or (String.◌∷◌ c s) (strip_prefix ":" (String.◌∷◌ c s)))

-- Pieces behind the second one are not looked at.
abbrev pub parse_parts : List String → RedisConnectionInfo
parse_parts [] = localhost
parse_parts (s ∷ []) = info none (parse_host_port_db s 6379 (pos 0))
parse_parts (auth ∷ remaining ∷ _) =
    info (password_in auth) (parse_host_port_db remaining 6379 (pos 0))

unfoldable pub parse_redis_url : String → RedisConnectionInfo
parse_redis_url url = parse_parts (split b'@' (unwrap_or url (strip_prefix "redis://" url)))

abbrev pub password_args : Option String → List String
password_args none = []
password_args (some pwd) = ("-a \"" ++ (pwd ++ "\"")) ∷ []

abbrev pub db_args : ℤ → List String
db_args (pos zero) = []
db_args (pos (suc n)) = ("-n " ++ show (suc n)) ∷ []
db_args (negsuc n) = []

abbrev pub appended : List String → List String → List String
appended [] more = more
appended (a ∷ args) more = a ∷ appended args more

unfoldable pub build_redis_cli_args : RedisConnectionInfo → String
build_redis_cli_args i = join " " (
    ("-h " ++ i.host)
    ∷ ("-p " ++ show i.port)
    ∷ appended (password_args i.password) ("--no-auth-warning" ∷ db_args i.db))

-- The line that is printed.
unfoldable pub print_redis_command : RedisConnectionInfo → String → String
unfolding build_redis_cli_args
print_redis_command i cmd = "  redis-cli " ++ (build_redis_cli_args i ++ (" " ++ cmd))
