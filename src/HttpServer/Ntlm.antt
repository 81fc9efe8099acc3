-- ===== src/HttpServer/Ntlm.antt =====
-- internal/protocols/httpserver/server.go and ntlm.go: the handshake that goes before the matching.
use mockly.Base.{
  ℕ, Bool, true, false, not, Option, none, some, List, [], ◌∷◌, ◌++◌, ◌&&◌, Bytes, codes, Dict,
  lookup, any, ltb, ◌==◌, length, drop, is_nil, has_prefix, equal_fold, trim_space, if◌then◌else◌,
}
use mockly.Config.Http.{HttpMock, HttpRequest}
use mockly.Engine.Match.{Request, match_method}
use mockly.Engine.Path.{match_path}
use mockly.Engine.Platform.{Platform}

-- "NTLMSSP\x00" and the octet of the message type
abbrev message_prefix : ℕ → Bytes
message_prefix kind = codes "NTLMSSP" ++ 0 ∷ kind ∷ []

-- `NTLMTokenType` after the decoding.
unfoldable pub token_of : Option Bytes → ℕ
token_of none = 0
token_of (some b) =
    if ltb (length b) 12
    then 0
    else if has_prefix b (message_prefix 1)
    then 1
    else if has_prefix b (message_prefix 3)
    then 3
    else 0

unfoldable pub ntlm_token_type : Platform → Bytes → ℕ
unfolding token_of
ntlm_token_type lib header =
    if not (has_prefix header (codes "NTLM "))
    then 0
    else token_of (lib.base64 (trim_space (drop 5 header)))

-- The path's test of `handleNTLM`: an expression that does not compile leaves the test of the path.
unfoldable pub ntlm_path : Platform → HttpRequest → Bytes → Bool
ntlm_path lib r path =
    let by_path : Bool = elim (match_path lib r.path path) [ none ↦ false | some params ↦ true ] in
    if is_nil r.path_regex
    then by_path
    else elim (lib.compile r.path_regex) [ none ↦ by_path | some re ↦ re path ]

-- A mock that asks for the handshake on a path and a method.
unfoldable pub requires_ntlm : Platform → Request → HttpMock → Bool
unfolding ntlm_path
requires_ntlm lib req m = elim m.request.auth [
  | none ↦ false
  | some auth ↦
      equal_fold auth.scheme (codes "ntlm")
      && (ntlm_path lib m.request req.path && match_method m.request.method req.method)
]

-- `hdrs["Authorization"]`, else `hdrs["authorization"]`.
unfoldable pub text_at : Bytes → Dict Bytes → Bytes
text_at name headers = elim (lookup name headers) [ none ↦ [] | some v ↦ v ]

unfoldable pub authorization : Dict Bytes → Bytes
unfolding text_at
authorization headers =
    let h = text_at (codes "Authorization") headers in
    if is_nil h then text_at (codes "authorization") headers else h

-- The answers of the handshake; `none` leaves the request to the matcher.
pub data Step : Type 0 where
  challenge handshake : Step

-- The message of `ntlmChallengeToken`: the signature, the type 2 and the fixed fields.
abbrev pub challenge_message : Bytes
challenge_message =
    codes "NTLMSSP"
    ++ 0 ∷ 2 ∷ 0 ∷ 0 ∷ 0 ∷ 0 ∷ 0 ∷ 0 ∷ 0 ∷ 0 ∷ 0 ∷ 0 ∷ 0 ∷ 0 ∷ 0 ∷ 0 ∷ 0 ∷ 1 ∷ 2 ∷ 3 ∷ 4 ∷ 5 ∷ 6 ∷ 7
      ∷ 8 ∷ 0 ∷ 0 ∷ 0 ∷ 0 ∷ 0 ∷ 0 ∷ 0 ∷ 0 ∷ []

-- What an answer of the handshake consists of, with the encoder of base64.
unfoldable pub ntlm_headers : (Bytes → Bytes) → Step → Dict Bytes
ntlm_headers encode challenge =
    (codes "WWW-Authenticate", codes "NTLM " ++ encode challenge_message)
    ∷ (codes "Content-Type", codes "application/json")
    ∷ []
ntlm_headers encode handshake =
    (codes "WWW-Authenticate", codes "NTLM") ∷ (codes "Content-Type", codes "application/json") ∷ []

unfoldable pub ntlm_body : Step → Bytes
ntlm_body challenge = codes "{\"error\":\"NTLM negotiation in progress\"}"
ntlm_body handshake = codes "{\"error\":\"NTLM authentication required\"}"

unfoldable pub handle_ntlm : Platform → Request → List HttpMock → Option Step
unfolding requires_ntlm authorization ntlm_token_type
handle_ntlm lib req mocks =
    let header = authorization req.headers in
    if not (any (requires_ntlm lib req) mocks)
    then none
    else if not (is_nil header) && not (has_prefix header (codes "NTLM "))
    then none
    else if ntlm_token_type lib header == 1
    then some challenge
    else if ntlm_token_type lib header == 3
    then none
    else some handshake
