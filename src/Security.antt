-- ===== src/Security.antt =====
-- app/security.py: idempotency keys and public ids.
use smmfalcron.Prelude.{
  string_eq, String, Option, none, some, List, ◌==◌, if◌then◌else◌, join_with, append,
}
use smmfalcron.Env.{Env}

module _ ⦃env : Env⦄ where
  -- The hash of the parts; the code never calls it with none, where it would draw a random one.
  unfoldable pub new_idempotency_key : List String → String
  new_idempotency_key parts = env.sha256_hex (join_with "|" parts)

-- The part after the dash is drawn at random: it is an argument of the operations that draw it.
unfoldable pub new_public_id : String → String → String
new_public_id prefix token = append prefix (append "-" token)

-- `key or default`: a missing key and an empty one are both replaced.
unfoldable pub key_or : Option String → String → String
key_or none d = d
key_or (some k) d = if k == "" then d else k
