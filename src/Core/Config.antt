-- ===== src/Core/Config.antt =====
-- crates/storageprims-core/src/config.rs: `sanitize_endpoint`.
pub mod Hides
use storageprims.Prelude.{
  ℕ, Bool, Option, none, some, [], ◌∷◌, ◌++◌, Bytes, codes, strip_prefix, ◌==◌, ◌||◌, if◌then◌else◌,
}

abbrev pub scheme_end : Bytes
scheme_end = codes "://"

-- `find("://")`: the text up to the end of the first match, and the text behind it
unfoldable pub split_scheme : Bytes → Option (Bytes × Bytes)
split_scheme [] = none
split_scheme (c ∷ s) = elim (strip_prefix scheme_end (c ∷ s)) [
  | some rest ↦ some (scheme_end, rest)
  | none ↦ elim (split_scheme s) [ none ↦ none | some (front, rest) ↦ some (c ∷ front, rest) ]
]

abbrev pub ends_authority : ℕ → Bool
ends_authority c = c == b'/' || c == b'?' || c == b'#'

-- `find(['/', '?', '#'])`: the authority and the text behind it
unfoldable pub split_authority : Bytes → Bytes × Bytes
split_authority [] = ([], [])
split_authority (c ∷ s) =
    let (authority, rest) = split_authority s in
    if ends_authority c then ([], c ∷ s) else (c ∷ authority, rest)

-- the text behind the last `@`
unfoldable pub behind_last_at : Bytes → Option Bytes
behind_last_at [] = none
behind_last_at (c ∷ s) = elim (behind_last_at s) [
  | some host ↦ some host
  | none ↦ if c == b'@' then some s else none
]

abbrev pub without_user : Bytes → Bytes → Bytes → Option Bytes → Bytes
without_user endpoint front rest none = endpoint
without_user endpoint front rest (some host) = front ++ codes "***@" ++ host ++ rest

abbrev pub behind_scheme : Bytes → Option (Bytes × Bytes) → Bytes
behind_scheme endpoint none = endpoint
behind_scheme endpoint (some (front, behind)) =
    let (authority, rest) = split_authority behind in
    without_user endpoint front rest (behind_last_at authority)

unfoldable pub sanitize_endpoint : Bytes → Bytes
sanitize_endpoint endpoint = behind_scheme endpoint (split_scheme endpoint)
