-- ===== src/Codec.antt =====
-- The serializers and conversions of other crates, as a parameter: `rmp_serde` over tasks and worker
-- metadata, and fred's and Rust's conversions between stored values, bytes and texts.
use rediq.Prelude.{
  ℕ, ◌^◌, ltb, ℤ, pos, String, ◌≡◌, Option, none, some, List, show, parse_signed, parse_unsigned,
  if◌then◌else◌,
}
use rediq.Errors.{Result, ok, err}
use rediq.Redis.{Value, text, number, bytes}
use rediq.Task.{Task}

-- What a worker stores about itself (rediq/src/server/worker.rs).
pub record WorkerMetadata : Type 0 where
  pub id : String
  pub server_name : String
  pub queues : List String
  pub started_at : ℕ
  pub last_heartbeat : ℕ
  pub processed_total : ℕ
  pub status : String

-- A failed conversion is the error that the callers make of it.
pub record Codec (B : Type 0) : Type 0 where
  pub to_vec : Task → Result B
  pub from_slice : B → Result Task
  pub worker_to_vec : WorkerMetadata → Result B
  pub worker_from_slice : B → Result WorkerMetadata
  pub as_bytes : Value B → Option B
  pub utf8 : String → B
  pub from_utf8 : B → Result String

-- The documented behaviour that the code relies on.
pub record IsFaithful {B : Type 0} (c : Codec B) : Type 0 where
  pub packs : (t : Task) → (b : B) × (c.to_vec t ≡ ok b)
  pub unpacks : (t : Task) (b : B) → c.to_vec t ≡ ok b → c.from_slice b ≡ ok t
  pub worker_packs : (m : WorkerMetadata) → (b : B) × (c.worker_to_vec m ≡ ok b)
  pub worker_unpacks :
      (m : WorkerMetadata) (b : B) → c.worker_to_vec m ≡ ok b → c.worker_from_slice b ≡ ok m
  pub as_bytes-bytes : (b : B) → c.as_bytes (bytes b) ≡ some b
  pub as_bytes-text : (s : String) → c.as_bytes (text s) ≡ some (c.utf8 s)
  pub from_utf8-utf8 : (s : String) → c.from_utf8 (c.utf8 s) ≡ ok s

-- `as_string` of a value, and the number that its text is.
abbrev pub text_of_bytes : Result String → Option String
text_of_bytes (ok s) = some s
text_of_bytes (err _) = none

abbrev pub signed_text : Option String → Option ℤ
signed_text none = none
signed_text (some s) = parse_signed (2 ^ 63) s

abbrev pub unsigned_text : ℕ → Option String → Option ℕ
unsigned_text bound none = none
unsigned_text bound (some s) = parse_unsigned bound s

module _ {B : Type 0} (c : Codec B) where
  abbrev pub as_string : Value B → Option String
  as_string (text s) = some s
  as_string (number n) = some (show n)
  as_string (bytes b) = text_of_bytes (c.from_utf8 b)

  -- `parse().ok()` of an i64, and of an unsigned number below a bound. A number parses as itself.
  abbrev pub signed_in : Value B → Option ℤ
  signed_in (number n) = if ltb n (2 ^ 63) then some (pos n) else none
  signed_in (text s) = parse_signed (2 ^ 63) s
  signed_in (bytes b) = signed_text (text_of_bytes (c.from_utf8 b))

  abbrev pub unsigned_in : ℕ → Value B → Option ℕ
  unsigned_in bound (number n) = if ltb n bound then some n else none
  unsigned_in bound (text s) = parse_unsigned bound s
  unsigned_in bound (bytes b) = unsigned_text bound (text_of_bytes (c.from_utf8 b))
