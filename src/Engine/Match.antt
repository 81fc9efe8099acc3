-- ===== src/Engine/Match.antt =====
-- `HTTPMatch` of internal/engine/matcher.go.
pub mod Laws
pub mod Answer
use mockly.Base.{
  ℕ, Bool, true, false, not, Option, none, some, List, [], ◌∷◌, ◌||◌, ◌&&◌, Bytes, codes,
  if◌then◌else◌, text_eq, ◌==◌, equal_fold, Dict,
}
use mockly.State.{Store, get, or_empty}
use mockly.Config.Faults.{Duration}
use mockly.Config.Http.{HttpMock, HttpRequest, HttpStream, MockFault, StateCondition}
use mockly.Engine.Platform.{Platform}
use mockly.Engine.Path.{match_path, when, run_regex}
use mockly.Engine.Values.{
  match_pattern, match_headers, match_query, first_query_values, get_header, has_header,
}
use mockly.Engine.Auth.{match_auth}
use mockly.Engine.Body.{match_body_json, match_body_form, match_body_multipart}
use mockly.Engine.Body.Xml.{match_body_xml}
use mockly.Engine.Render.{RequestContext, Renderer, render_template, render_http_body, or_raw}

-- A request as the servers hand it over.
pub record Request : Type 0 where
  pub method : Bytes
  pub path : Bytes
  pub query : Dict (List Bytes)
  pub headers : Dict Bytes
  pub body : Bytes

unfoldable pub match_method : Bytes → Bytes → Bool
match_method want got = text_eq want [] || text_eq want (codes "*") || equal_fold want got

-- The path's test; a regular expression takes precedence and captures nothing.
unfoldable pub path_params : Platform → HttpRequest → Bytes → Option (Dict Bytes)
path_params lib r path =
    if not (text_eq r.path_regex [])
    then when (run_regex (lib.compile r.path_regex) path)
    else match_path lib r.path path

-- `len(m) > 0 && !matches` fails.
abbrev pub unless_empty : Dict Bytes → Bool → Bool
unless_empty [] b = true
unless_empty (p ∷ ps) b = b

-- `matchState`. The store may be nil; reading it may drop an entry that has expired.
unfoldable pub match_state : Option StateCondition → ℕ → Option Store → Bool × Option Store
match_state none now s = (true, s)
match_state (some cond) now none = (true, none)
match_state (some cond) now (some s) =
    let (v, t) = get cond.key now s in (text_eq (or_empty v) cond.value, some t)

module _ (lib : Platform) (req : Request) where
  -- The tests from the headers to the XML body.
  unfoldable pub parts_ok : HttpRequest → Bool
  parts_ok r =
      if not (match_headers lib r.headers req.headers)
      then false
      else if not (match_query lib r.query req.query)
      then false
      else if not (text_eq r.body []) && not (match_pattern lib r.body req.body)
      then false
      else if not (unless_empty r.body_json (match_body_json lib r.body_json req.body))
      then false
      else if not (unless_empty r.body_form (match_body_form lib r.body_form req.body req.headers))
      then false
      else if not (
          unless_empty r.body_multipart
            (match_body_multipart lib r.body_multipart req.body req.headers))
      then false
      else unless_empty r.body_xml (match_body_xml lib r.body_xml req.body)

  -- The tests that do not read the store, up to the one of the state: the captured parameters.
  unfoldable pub before_state : HttpRequest → Option (Dict Bytes)
  before_state r =
      if not (match_method r.method req.method) then none else elim (path_params lib r req.path) [
        | none ↦ none
        | some params ↦ if parts_ok r then some params else none
      ]

  -- The loop of `HTTPMatch` as far as it chooses a mock.
  unfoldable pub select_mock :
      ℕ → List HttpMock → Option Store → Option (HttpMock × Dict Bytes) × Option Store
  select_mock now [] s = (none, s)
  select_mock now (m ∷ mocks) s = elim (before_state m.request) [
    | none ↦ select_mock now mocks s
    | some params ↦
        (let (state_ok, t) = match_state m.state now s in
          elim (state_ok
            && match_auth lib m.request.auth req.headers (first_query_values req.query)) [
              | true ↦ (some (m, params), t)
              | false ↦ select_mock now mocks t
            ])
  ]

pub record MatchResult : Type 0 where
  pub mock_id : Bytes
  pub body : Bytes
  pub headers : Dict Bytes
  pub status : ℕ
  pub delay : Duration
  pub fault : Option MockFault
  pub stream : Option HttpStream
  pub path_params : Dict Bytes

-- The loop that renders the values of the headers.
unfoldable pub render_headers :
    Renderer → RequestContext → Dict Bytes → Option Store → Dict Bytes × Option Store
render_headers r ctx [] s = ([], s)
render_headers r ctx ((k, v) ∷ headers) s =
    let (out, t) = render_template r v ctx s in
    let (rest, u) = render_headers r ctx headers t in ((k, or_raw v out) ∷ rest, u)

-- The inferred type is added where no header gives one.
unfoldable pub with_content_type : Bytes → Dict Bytes → Dict Bytes
with_content_type ct headers =
    if not (text_eq ct []) && not (has_header headers (codes "Content-Type"))
    then (codes "Content-Type", ct) ∷ headers
    else headers

abbrev pub or_200 : ℕ → ℕ
or_200 status = if status == 0 then 200 else status

module _ (lib : Platform) (r : Renderer) (req : Request) where
  abbrev pub context : Dict Bytes → RequestContext
  context params = record {
    method = req.method;
    path = req.path;
    query = first_query_values req.query;
    headers = req.headers;
    body = req.body;
    path_params = params;
  }

  -- What `HTTPMatch` returns for the mock that it has chosen.
  unfoldable pub build_result : HttpMock → Dict Bytes → Option Store → MatchResult × Option Store
  build_result m params s =
      let (rendered, ct, t) =
        render_http_body lib r m.response.body (context params)
          (get_header m.response.headers (codes "Content-Type")) s in
      let (headers, u) = render_headers r (context params) m.response.headers t in
      (
        record {
          mock_id = m.id;
          body = rendered;
          headers = with_content_type ct headers;
          status = or_200 m.response.status;
          delay = m.response.delay;
          fault = m.fault;
          stream = m.response.stream;
          path_params = params;
        },
        u,
      )

  finish : Option (HttpMock × Dict Bytes) → Option Store → Option MatchResult × Option Store
  finish none s = (none, s)
  finish (some (m, params)) s = let (result, t) = build_result m params s in (some result, t)

  -- `HTTPMatch`; `(MatchResult{}, false)` is `none`.
  unfoldable pub http_match : ℕ → List HttpMock → Option Store → Option MatchResult × Option Store
  unfolding finish
  http_match now mocks s = let (chosen, t) = select_mock lib req now mocks s in finish chosen t
