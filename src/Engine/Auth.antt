-- ===== src/Engine/Auth.antt =====
-- `matchAuth` and the schemes it tells apart.
pub mod Laws
use mockly.Base.{
  ℕ, ◌-◌, Bool, true, false, not, Option, none, some, List, [], ◌∷◌, ◌++◌, ◌||◌, ◌&&◌, Bytes, codes,
  length, drop, take, get_elem?, ltb, ◌==◌, if◌then◌else◌, text_eq, has_prefix, to_lower,
  trim_space, Dict, lookup,
}
use mockly.Config.Http.{HttpAuth}
use mockly.Engine.Platform.{Platform}
use mockly.Engine.Values.{match_query_value}

-- `m[k]`: "" for a missing key
abbrev pub at : Bytes → Dict Bytes → Bytes
at k m = elim (lookup k m) [ none ↦ [] | some v ↦ v ]

unfoldable pub authorization_header : Dict Bytes → Bytes
authorization_header headers = elim (lookup (codes "Authorization") headers) [
  | none ↦ at (codes "authorization") headers
  | some v ↦ v
]

-- What stands behind the name of the scheme.
unfoldable pub credentials : Bytes → Bytes → Bytes
credentials scheme header = trim_space (drop (length scheme) header)

-- A token or key against its configured pattern; an empty pattern or `*` is any but the empty one.
unfoldable pub secret_ok : Platform → Bytes → Bytes → Bool
secret_ok lib want got =
    if text_eq want [] || text_eq want (codes "*")
    then not (text_eq got [])
    else match_query_value lib want got

unfoldable pub match_bearer_auth : Platform → Bytes → Dict Bytes → Bool
match_bearer_auth lib want_token headers =
    let header = authorization_header headers in
    has_prefix header (codes "Bearer ")
    && secret_ok lib want_token (credentials (codes "Bearer ") header)

-- `strings.SplitN(s, ":", 2)`: `none` is fewer than two parts.
unfoldable pub split_colon : Bytes → Option (Bytes × Bytes)
split_colon [] = none
split_colon (c ∷ s) =
    let rest = split_colon s in
    if c == b':'
    then some ([], s)
    else elim rest [ none ↦ none | some (user, pass) ↦ some (c ∷ user, pass) ]

-- A user or password field: an empty one or `*` accepts anything.
unfoldable pub field_ok : Bytes → Bytes → Bool
field_ok want got = text_eq want [] || text_eq want (codes "*") || text_eq got want

abbrev pub decoded_ok : Bytes → Bytes → Option (Bytes × Bytes) → Bool
decoded_ok want_user want_pass none = false
decoded_ok want_user want_pass (some (user, pass)) =
    field_ok want_user user && field_ok want_pass pass

unfoldable pub match_basic_auth : Platform → Bytes → Bytes → Dict Bytes → Bool
match_basic_auth lib want_user want_pass headers =
    let header = authorization_header headers in
    has_prefix header (codes "Basic ") && elim (lib.base64 (credentials (codes "Basic ") header)) [
      | none ↦ false
      | some decoded ↦ decoded_ok want_user want_pass (split_colon decoded)
    ]

abbrev or_else : Bytes → Bytes → Bytes
or_else v w = if text_eq v [] then w else v

unfoldable pub match_api_key : Platform → Bytes → Bytes → Bytes → Dict Bytes → Dict Bytes → Bool
match_api_key lib header_name query_name want headers query =
    if not (text_eq header_name [])
    then secret_ok lib want
        (or_else (at header_name headers) (at (lib.canonical header_name) headers))
    else if not (text_eq query_name [])
    then secret_ok lib want (at query_name query)
    else false

abbrev is_byte : ℕ → Option ℕ → Bool
is_byte c none = false
is_byte c (some b) = b == c

-- The signature "NTLMSSP\0" and the type 3.
abbrev is_type3 : Bytes → Bool
is_type3 b =
    not (ltb (length b) 12)
    && text_eq (take 8 b) (codes "NTLMSSP" ++ 0 ∷ [])
    && is_byte 3 (get_elem? b 8)

unfoldable pub is_ntlm_type3 : Platform → Bytes → Bool
is_ntlm_type3 lib header =
    has_prefix header (codes "NTLM ")
    && elim (lib.base64 (credentials (codes "NTLM ") header)) [ none ↦ false | some b ↦ is_type3 b ]

unfoldable pub match_auth_scheme : Platform → Bytes → HttpAuth → Dict Bytes → Dict Bytes → Bool
match_auth_scheme lib scheme auth headers query =
    if text_eq scheme (codes "bearer")
    then match_bearer_auth lib auth.token headers
    else if text_eq scheme (codes "basic")
    then match_basic_auth lib auth.username auth.password headers
    else if text_eq scheme (codes "api_key") || text_eq scheme (codes "apikey")
    then match_api_key lib auth.header auth.query auth.value headers query
    else if text_eq scheme (codes "digest")
    then has_prefix (trim_space (authorization_header headers)) (codes "Digest ")
    else if text_eq scheme (codes "ntlm")
    then is_ntlm_type3 lib (authorization_header headers)
    else false

unfoldable pub match_auth : Platform → Option HttpAuth → Dict Bytes → Dict Bytes → Bool
match_auth lib none headers query = true
match_auth lib (some auth) headers query =
    match_auth_scheme lib (to_lower auth.scheme) auth headers query
