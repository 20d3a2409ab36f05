-- ===== src/Cli/Utils/Addresses.antt =====
-- An address of Redis is read as it is written (rediq-cli/src/utils.rs).
use Prim.Native.Char.{Char}
use Prim.Native.String.{◌++◌}
use text.Mathlib.TextLemmas.{nil-append, cons-append, append_assoc}
use rediq.Prelude.{
  ℕ, ◌^◌, ℤ, pos, String, true, ◌≡◌, refl, ap, sym, ◌∙◌, some, [], ◌∷◌, arith, parse_unsigned,
  parse_signed, lacks, split, split-lacks, split-append, split_last-append, lacks-append,
  strip_prefix-append,
}
use rediq.Cli.Utils.{parse_redis_url, parse_host_port_db, located, parse_parts, unwrap_or, info}

ahead : (c : Char) (s : String) → String.◌∷◌ c "" ++ s ≡ String.◌∷◌ c s
ahead c s = cons-append c "" s ∙ ap (String.◌∷◌ c) (nil-append s)

-- The texts of a host, a port and a database in an address.
pub record IsAddress (host port_text db_text : String) : Type 0 where
  pub host_whole : (lacks b'@' host ≡ true) × (lacks b'/' host ≡ true)
  pub port_whole :
      (lacks b'@' port_text ≡ true) × (lacks b'/' port_text ≡ true) × (lacks b':' port_text ≡ true)
  pub db_whole : (lacks b'@' db_text ≡ true) × (lacks b'/' db_text ≡ true)

module _ (host port_text db_text : String) (a : IsAddress host port_text db_text) (port : ℕ)
    (db : ℤ) (p : parse_unsigned (2 ^ 16) port_text ≡ some port)
    (d : parse_signed (2 ^ 63) db_text ≡ some db) where
  place_of :
      (n : ℕ) (z : ℤ)
      → parse_host_port_db (host ++ (":" ++ (port_text ++ ("/" ++ db_text)))) n z
        ≡ ((host, port), db)
  unfolding parse_host_port_db
  place_of n z =
      let whole = host ++ String.◌∷◌ ":" port_text in
      let text : host ++ (":" ++ (port_text ++ ("/" ++ db_text)))
          ≡ whole ++ String.◌∷◌ "/" db_text =
        rw (ahead "/" db_text) (
          rw (ahead ":" (port_text ++ String.◌∷◌ "/" db_text)) (
            sym (
              append_assoc host (String.◌∷◌ ":" port_text) (String.◌∷◌ "/" db_text)
              ∙ ap (λ t. host ++ t) (cons-append ":" port_text (String.◌∷◌ "/" db_text))))) in
      let pieces : split b'/' (whole ++ String.◌∷◌ "/" db_text) ≡ whole ∷ db_text ∷ [] =
        split-append b'/' whole "/" db_text
          (lacks-append b'/' host (String.◌∷◌ ":" port_text) a.host_whole.1
            (ground (arith, a.port_whole.1)))
          refl
        ∙ ap (λ l. whole ∷ l) (split-lacks b'/' db_text a.db_whole.1) in
      ap (λ t. located n z (split b'/' t)) text
      ∙ ap (located n z) pieces
      ∙ rw (split_last-append b':' host ":" port_text a.port_whole.2 refl) (rw (p, d) refl)

  -- `parse_redis_url` gives back the password, host, port and database of an address that is
  -- written out in full, when the password has no @, the host neither @ nor /, and the texts of
  -- the port, without a colon, and of the database are numbers within 16 and 64 bits without
  -- these characters.
  pub parse_redis_url-eq :
      (password : String)
      → lacks b'@' password ≡ true
      → parse_redis_url (
          "redis://"
          ++ (":" ++ (password ++ ("@" ++ (host ++ (":" ++ (port_text ++ ("/" ++ db_text))))))))
        ≡ record { host = host; port = port; password = some password; db = db }
  unfolding parse_redis_url
  parse_redis_url-eq password w =
      let place = host ++ (":" ++ (port_text ++ ("/" ++ db_text))) in
      let one : lacks b'@' place ≡ true =
        lacks-append b'@' host (":" ++ (port_text ++ ("/" ++ db_text))) a.host_whole.0 (
          lacks-append b'@' ":" (port_text ++ ("/" ++ db_text)) refl (
            lacks-append b'@' port_text ("/" ++ db_text) a.port_whole.0
              (lacks-append b'@' "/" db_text refl a.db_whole.0))) in
      let text : ":" ++ (password ++ ("@" ++ place))
          ≡ String.◌∷◌ ":" password ++ String.◌∷◌ "@" place =
        rw (ahead "@" place) (
          ahead ":" (password ++ String.◌∷◌ "@" place)
          ∙ sym (cons-append ":" password (String.◌∷◌ "@" place))) in
      let pieces : split b'@' (String.◌∷◌ ":" password ++ String.◌∷◌ "@" place)
          ≡ String.◌∷◌ ":" password ∷ place ∷ [] =
        split-append b'@' (String.◌∷◌ ":" password) "@" place (ground (arith, w)) refl
        ∙ ap (λ l. String.◌∷◌ ":" password ∷ l) (split-lacks b'@' place one) in
      let url = "redis://" ++ (":" ++ (password ++ ("@" ++ place))) in
      ap (λ o. parse_parts (split b'@' (unwrap_or url o)))
        (strip_prefix-append "redis://" (":" ++ (password ++ ("@" ++ place))))
      ∙ ap (λ t. parse_parts (split b'@' t)) text
      ∙ ap parse_parts pieces
      ∙ ap (info (some password)) (place_of 6379 (pos 0))
