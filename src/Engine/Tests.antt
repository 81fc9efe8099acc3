-- ===== src/Engine/Tests.antt =====
-- Runs of the matcher, and its theorems at concrete inputs.
use mockly.Base.{
  Any, ℕ, ◌≡◌, ◌≢◌, refl, Bool, true, false, none, some, Option, List, [], ◌∷◌, ◌++◌, arith, Bytes,
  codes, Dict, lookup, has_prefix, split, ◌↔◌, trim_space, has_distinct_keys, text_eq, ◌⊎◌, inl,
  inr,
}
use mockly.Base.Int.{pos}
use mockly.State.{Store, set, set_ttl, new}
use mockly.Config.Http.{HttpAuth}
use mockly.Engine.Examples.{go, plain, users_when_open, users, get_user, mocks, door}
use mockly.Engine.Path.{match_path_segments, match_path}
use mockly.Engine.Path.Segments.{match_path_segments_iff, Fits}
use mockly.Engine.Values.{
  header_value, match_pattern, match_headers, match_query, first_query_values, given,
}
use mockly.Engine.Values.Laws.{QueryFits, Finds, match_headers_iff, match_query_iff}
use mockly.Engine.Auth.{match_auth, authorization_header}
use mockly.Engine.Auth.Laws.{match_auth-bearer_iff, match_auth-basic_iff, EncodesOk}
use mockly.Engine.Match.{Request, select_mock, http_match}
use mockly.Engine.Match.Laws.{SameView}
use mockly.Engine.Match.Answer.{Answer, http_match-Answer, select_mock-SameView}
use mockly.Engine.WebSocket.{WebSocketRule, ws_match, ws_match_frame}
use mockly.Engine.WebSocket.Frames.{FirstRule, ws_match_frame-FirstRule}
use mockly.Engine.Diagnose.{
  first_failing_header, first_failing_query, http_diagnose, evaluate, NearMiss, matches_all,
  state_not_satisfied,
}
use mockly.Engine.Diagnose.Closest.{Report, http_diagnose-Report}

http_match-Answer_example :
    Answer go plain get_user 9
      (some door)
      mocks
      (http_match go plain get_user 9 mocks (some door)).0
http_match-Answer_example = http_match-Answer go plain get_user 9 mocks (some door)

-- The door has closed at the instant 9, so the second mock answers.
after_expiry :
    (select_mock go get_user 9 mocks (some door)).0 ≡ some (users, (codes "id", codes "42") ∷ [])
unfolding text_eq mockly.Base.lower mockly.Base.to_lower mockly.Base.equal_fold has_prefix
    mockly.Base.has_suffix mockly.Base.contains mockly.Base.trim_prefix split lookup
    mockly.Base.insert match_path match_path_segments header_value match_headers match_pattern
    match_query first_query_values mockly.State.get mockly.State.delete mockly.State.expired
    mockly.Base.remove set_ttl new mockly.Engine.Match.match_method mockly.Engine.Match.path_params
    mockly.Engine.Path.match_segments mockly.Engine.Path.match_segment mockly.Engine.Path.is_named
    mockly.Engine.Path.name_of mockly.Engine.Path.capture mockly.Engine.Values.header_ok
    mockly.Engine.Values.match_query_value mockly.Engine.Values.query_ok
    mockly.Engine.Values.some_matches mockly.Engine.Match.match_state mockly.Engine.Auth.match_auth
    select_mock mockly.Engine.Match.before_state mockly.Engine.Match.parts_ok
after_expiry = refl

before_expiry :
    (select_mock go get_user 4 mocks (some door)).0
    ≡ some (users_when_open, (codes "id", codes "42") ∷ [])
unfolding text_eq mockly.Base.lower mockly.Base.to_lower mockly.Base.equal_fold has_prefix
    mockly.Base.has_suffix mockly.Base.contains mockly.Base.trim_prefix split lookup
    mockly.Base.insert match_path match_path_segments header_value match_headers match_pattern
    match_query first_query_values mockly.State.get mockly.State.delete mockly.State.expired
    mockly.Base.remove set_ttl new mockly.Engine.Match.match_method mockly.Engine.Match.path_params
    mockly.Engine.Path.match_segments mockly.Engine.Path.match_segment mockly.Engine.Path.is_named
    mockly.Engine.Path.name_of mockly.Engine.Path.capture mockly.Engine.Values.header_ok
    mockly.Engine.Values.match_query_value mockly.Engine.Values.query_ok
    mockly.Engine.Values.some_matches mockly.Engine.Match.match_state mockly.Engine.Auth.match_auth
    select_mock mockly.Engine.Match.before_state mockly.Engine.Match.parts_ok
before_expiry = refl

closed :
    (http_diagnose go get_user 9 mocks (some door)).0
    ≡ (record { mock_id = codes "any"; reason = matches_all })
      ∷ (record { mock_id = codes "open"; reason = state_not_satisfied })
      ∷ []
unfolding text_eq mockly.Base.lower mockly.Base.to_lower mockly.Base.equal_fold has_prefix
    mockly.Base.has_suffix mockly.Base.contains mockly.Base.trim_prefix split lookup
    mockly.Base.insert match_path match_path_segments header_value match_headers match_pattern
    match_query first_query_values mockly.State.get mockly.State.delete mockly.State.expired
    mockly.Base.remove set_ttl new mockly.Engine.Match.match_method mockly.Engine.Match.path_params
    mockly.Engine.Path.match_segments mockly.Engine.Path.match_segment mockly.Engine.Path.is_named
    mockly.Engine.Path.name_of mockly.Engine.Path.capture mockly.Engine.Values.header_ok
    mockly.Engine.Values.match_query_value mockly.Engine.Values.query_ok
    mockly.Engine.Values.some_matches mockly.Engine.Match.match_state mockly.Engine.Auth.match_auth
    http_diagnose evaluate mockly.Engine.Diagnose.collect mockly.Engine.Diagnose.path_reason
    mockly.Engine.Diagnose.sort_candidates mockly.Engine.Diagnose.place
    mockly.Engine.Diagnose.near_misses mockly.Engine.Diagnose.evaluate_body
    mockly.Engine.Diagnose.evaluate_end
closed = refl

select_mock-SameView_example :
    SameView 9 (some door) (select_mock go get_user 9 mocks (some door)).1
select_mock-SameView_example = select_mock-SameView go get_user 9 mocks (some door)

http_diagnose-Report_example :
    Report go get_user 9 mocks (some door) (http_diagnose go get_user 9 mocks (some door)).0
http_diagnose-Report_example = http_diagnose-Report go get_user 9 mocks (some door)

abbrev pattern : Bytes
pattern = codes "/users/{id}/*"

abbrev path : Bytes
path = codes "/users/42/posts"

match_path_segments_iff_example :
    ((params : Dict Bytes) × (match_path_segments pattern path ≡ some params))
    ↔ Fits (split b'/' pattern) (split b'/' path)
match_path_segments_iff_example = match_path_segments_iff pattern path

captured : match_path_segments pattern path ≡ some ((codes "id", codes "42") ∷ [])
unfolding match_path_segments split mockly.Engine.Path.match_segments
    mockly.Engine.Path.match_segment text_eq mockly.Engine.Path.is_named has_prefix
    mockly.Base.has_suffix mockly.Engine.Path.name_of mockly.Base.insert
captured = refl

abbrev want_headers : Dict Bytes
want_headers = users.request.headers

match_headers_iff_example : (match_headers go want_headers get_user.headers ≡ true) ↔ (
    (k v : Bytes)
    → lookup k want_headers ≡ some v
    → (actual : Bytes) × Finds go get_user.headers k actual × (match_pattern go v actual ≡ true))
unfolding has_distinct_keys mockly.Base.has_key
match_headers_iff_example = match_headers_iff go want_headers get_user.headers refl

abbrev want_query : Dict Bytes
want_query = users.request.query

match_query_iff_example : (match_query go want_query get_user.query ≡ true) ↔ (
    (k v : Bytes) → lookup k want_query ≡ some v → QueryFits go v (given (lookup k get_user.query)))
unfolding has_distinct_keys mockly.Base.has_key text_eq
match_query_iff_example = match_query_iff go want_query get_user.query refl

abbrev bearer : HttpAuth
bearer = record {
  scheme = codes "Bearer";
  token = codes "s3cret";
  username = [];
  password = [];
  header = [];
  query = [];
  value = [];
}

abbrev basic : HttpAuth
basic = record bearer { scheme = codes "basic"; username = codes "ann" }

abbrev with_token : Dict Bytes
with_token = (codes "Authorization", codes "Bearer  s3cret ") ∷ []

abbrev with_password : Dict Bytes
with_password = (codes "Authorization", codes "Basic ann:x:y") ∷ []

match_auth-bearer_iff_example : (match_auth go (some bearer) with_token [] ≡ true) ↔ (
    (rest : Bytes) × (authorization_header with_token ≡ codes "Bearer " ++ rest)
    × (trim_space rest ≡ codes "s3cret"))
unfolding mockly.Base.to_lower has_prefix
match_auth-bearer_iff_example =
    match_auth-bearer_iff go bearer with_token [] refl (λ e. cc) (λ e. cc) refl

match_auth-basic_iff_example : (match_auth go (some basic) with_password [] ≡ true) ↔ (
    (rest : Bytes) × (authorization_header with_password ≡ codes "Basic " ++ rest)
    × EncodesOk go basic rest)
unfolding mockly.Base.to_lower
match_auth-basic_iff_example = match_auth-basic_iff go basic with_password [] refl

auths :
    (match_auth go (some bearer) with_token [] ≡ true)
    × (match_auth go (some basic) with_password [] ≡ true)
unfolding match_auth mockly.Engine.Auth.match_auth_scheme text_eq mockly.Base.to_lower
    mockly.Engine.Auth.match_bearer_auth has_prefix authorization_header lookup
    mockly.Engine.Auth.secret_ok mockly.Engine.Values.match_query_value
    mockly.Engine.Auth.credentials trim_space mockly.Engine.Auth.match_basic_auth
    mockly.Engine.Auth.split_colon mockly.Engine.Auth.field_ok
auths = (refl, refl)

abbrev tagged : Dict (List Bytes)
tagged = (codes "page", codes "3" ∷ []) ∷ []

mismatch : match_query go want_query tagged ≡ false
unfolding match_query mockly.Engine.Values.query_ok text_eq lookup mockly.Engine.Values.some_matches
    mockly.Engine.Values.match_query_value has_prefix
mismatch = refl

abbrev ping : WebSocketRule
ping = record {
  pattern = codes "ping";
  respond = codes "pong";
  match_binary = [];
  respond_binary = [];
  close = false;
  delay = pos 0;
}

-- The library of the tests decodes each text to itself.
abbrev raw : WebSocketRule
raw = record ping { match_binary = codes "ping" }

ws_match_frame-FirstRule_example :
    FirstRule go
      (raw ∷ ping ∷ [])
      false
      (codes "ping!")
      (ws_match_frame go (raw ∷ ping ∷ []) false (codes "ping!"))
ws_match_frame-FirstRule_example =
    ws_match_frame-FirstRule go (raw ∷ ping ∷ []) false (codes "ping!")

frames :
    (ws_match_frame go (raw ∷ ping ∷ []) true (codes "ping") ≡ some raw)
    × (ws_match_frame go (raw ∷ ping ∷ []) false (codes "ping") ≡ some ping)
unfolding ws_match_frame mockly.Engine.WebSocket.takes_frame text_eq match_pattern has_prefix
    mockly.Base.contains
frames = (refl, refl)
