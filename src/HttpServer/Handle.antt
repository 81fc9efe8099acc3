-- ===== src/HttpServer/Handle.antt =====
-- internal/protocols/httpserver/server.go: `handleRequest`, for a request whose body was read and a
-- server that does not record.
pub mod Laws
use mockly.Base.{
  ℕ, ◌^◌, Bool, true, false, not, Option, none, some, List, [], ◌∷◌, ◌++◌, ◌&&◌, ◌||◌, ◌>>=◌, Bytes,
  codes, Dict, lookup, insert, text_eq, is_nil, if◌then◌else◌,
}
use mockly.Base.Int.{ℤ, pos, ltb_ℤ, leb_ℤ, is_zero_ℤ, wrap64, ◌+ℤ◌}
use mockly.Config.Faults.{Duration, HttpFault, RateLimitFault, http}
use mockly.Config.Http.{HttpMock, MockFault}
use mockly.Engine.Diagnose.{NearMiss, http_diagnose}
use mockly.Engine.Match.{MatchResult, Request, context, http_match}
use mockly.Engine.Platform.{Platform}
use mockly.Engine.Render.{Renderer}
use mockly.HttpServer.Counts.{Server, count_call, find_mock, mocks_for_listener}
use mockly.HttpServer.Ntlm.{Step, handle_ntlm, ntlm_headers, ntlm_body}
use mockly.HttpServer.Reply.{Reply, unmatched, of_result, set_headers, apply_patch}
use mockly.HttpServer.Sequence.{apply_sequence}
use mockly.Scenarios as Scenarios
use mockly.Scenarios.{patch_for, rate_limited, resolve_delay, roll_fault}
use mockly.Scenarios.Faults.{effective_fault}
use mockly.State.{Store}

-- What the handler reads from outside: the instants of the test of the global rate limit, of the
-- matching, of the rate limit of the mock and of the diagnosis, between which it may sleep, each of
-- which takes one reading of the clock; the encoder of base64; the numbers that its two calls of `ResolveDelay`,
-- its call of `ShouldFault` and its call of `RollFault` draw, whether diagnosis was asked for, the
-- encoding of its findings, and the name of the listener.
pub record Inputs : Type 0 where
  pub limited_at : ℕ
  pub matched_at : ℕ
  pub mock_limited_at : ℕ
  pub diagnosed_at : ℕ
  pub encode : Bytes → Bytes
  pub global_delay : ℕ → ℕ
  pub mock_delay : ℕ → ℕ
  pub mock_draw : ℕ
  pub global_draw : ℕ
  pub debug : Bool
  pub marshal : List NearMiss → Option Bytes
  pub listener : Bytes

pub record LogEntry : Type 0 where
  pub method : Bytes
  pub path : Bytes
  pub status : ℤ
  pub matched_id : Bytes
  pub near_misses : List NearMiss

-- What the client gets.
pub data Answer : Type 0 where
  -- the status, the headers and the body of a request that is over the limit
  limited : ℤ → Dict Bytes → Bytes → Answer
  -- the headers and the body of an answer of the handshake, with the status 401
  ntlm : Step → Dict Bytes → Bytes → Answer
  aborts : Answer
  truncates : Reply → ℤ → Answer
  responds : Reply → Answer

pub record World : Type 0 where
  pub server : Server
  pub scenarios : Scenarios.Store
  pub store : Option Store

-- The answer, the delays in their order, the entry of the log and the new state.
pub record Handled : Type 0 where
  pub answer : Answer
  pub sleeps : List Duration
  pub logged : Option LogEntry
  pub world : World

abbrev limit_body : Bytes → Bytes
limit_body body = if is_nil body then codes "{\"error\":\"rate limit exceeded\"}" else body

abbrev or_429 : ℤ → ℤ
or_429 status = if is_zero_ℤ status then pos 429 else status

-- `fault.RateLimit != nil && s.scenarios.RateLimited(…)`
unfoldable pub over_limit :
    Bytes → Option RateLimitFault → ℕ → Scenarios.Store → Option RateLimitFault × Scenarios.Store
over_limit key none now sc = (none, sc)
over_limit key (some limit) now sc =
    let (over, next) = rate_limited key limit.requests_per_second now sc in
    ((if over then some limit else none), next)

-- The `switch` over the fault of a mock; `status_override` decides only where no limit is exceeded.
unfoldable pub switch_fault : MockFault → Option RateLimitFault → ℕ → Reply → Reply
unfolding set_headers
switch_fault f (some limit) draw reply = record reply {
  status = or_429 limit.over_limit_status;
  body = limit_body limit.body;
  stream = none;
}
switch_fault f none draw reply =
    if not (is_zero_ℤ (pos f.status_override)) && roll_fault f.error_rate draw
    then record reply {
      status = pos f.status_override;
      body = (if is_nil f.body then reply.body else f.body);
      headers = set_headers f.headers reply.headers;
      stream = none;
    }
    else reply

-- `if matchedMock != nil && matchedMock.Fault != nil { … }`; `none` is a panic of `ResolveDelay`.
unfoldable pub apply_mock_fault :
    Inputs → Bytes → Option MockFault → Reply → Scenarios.Store → Option (Reply × Scenarios.Store)
unfolding over_limit switch_fault
apply_mock_fault inputs mock_id none reply sc = some (reply, sc)
apply_mock_fault inputs mock_id (some f) reply sc = do
  extra ← resolve_delay f.delay f.delay_range inputs.mock_delay
  let delayed = record reply { delay = wrap64 (reply.delay +ℤ extra) }
  let (over, next) =
      over_limit (codes "http:mock:" ++ mock_id) f.rate_limit inputs.mock_limited_at sc
  some (switch_fault f over inputs.mock_draw delayed, next)

-- `matchedMock.Fault` and `matchedMock.ID`
unfoldable pub fault_of_mock : Option HttpMock → Option MockFault
fault_of_mock none = none
fault_of_mock (some m) = m.fault

-- `if matched { … }`; `none` is a panic.
unfoldable pub answer_matched :
    Platform
    → Renderer
    → Inputs
    → Request
    → List HttpMock
    → MatchResult
    → World
    → Option (Reply × World)
unfolding find_mock apply_sequence apply_patch apply_mock_fault fault_of_mock of_result count_call
answer_matched lib r inputs req mocks result w = do
  let ctx = context lib r req result.path_params
  let (call_n, server) = count_call result.mock_id w.server
  let found = find_mock result.mock_id mocks
  (chosen, t) ← apply_sequence lib r ctx found call_n (of_result result) w.store
  let (patched, u) = apply_patch lib r ctx (patch_for result.mock_id w.scenarios) chosen t
  (faulted, sc) ← apply_mock_fault inputs result.mock_id (fault_of_mock found) patched w.scenarios
  some (faulted, record { server = server; scenarios = sc; store = u })

-- `json.Marshal` of the findings, where there are any.
unfoldable pub diagnosed : Inputs → List NearMiss → Reply → Reply
diagnosed inputs [] reply = reply
diagnosed inputs (miss ∷ misses) reply = elim (inputs.marshal (miss ∷ misses)) [
  | none ↦ reply
  | some body ↦ record reply { body = body }
]

-- The answer where no mock matches, the findings and the store, in which the diagnosis may drop
-- entries.
unfoldable pub answer_unmatched :
    Platform
    → Inputs
    → Request
    → List HttpMock
    → Option Store
    → Reply × List NearMiss × Option Store
unfolding diagnosed unmatched
answer_unmatched lib inputs req mocks store =
    if inputs.debug
    then (let (misses, t) = http_diagnose lib req inputs.diagnosed_at mocks store in
        (diagnosed inputs misses unmatched, misses, t))
    else (unmatched, [], store)

-- `faultFires`
unfoldable pub fires : Option HttpFault → ℕ → Option HttpFault
fires none draw = none
fires (some f) draw =
    if roll_fault f.error_rate draw
      && (f.abort
          || ltb_ℤ (pos 0) f.truncate_body
          || not (is_zero_ℤ f.status)
          || not (is_nil f.body))
    then some f
    else none

-- `if fault.Status != 0 || fault.Body != "" { … }`
unfoldable pub override_body : HttpFault → Reply → Reply
override_body f reply =
    if is_zero_ℤ f.status && is_nil f.body
    then reply
    else (let status = if is_zero_ℤ f.status then pos 503 else f.status in
        record reply {
          status = status;
          body =
              (if not (is_nil f.body)
                then f.body
                else if leb_ℤ (pos 400) status
                then codes "{\"error\":\"fault injected\"}"
                else reply.body);
        })

-- `if faultFires && !fault.Abort { … }`
unfoldable pub apply_fault : Option HttpFault → Reply → Reply
unfolding override_body set_headers
apply_fault none reply = reply
apply_fault (some f) reply =
    if f.abort
    then reply
    else (let changed = override_body f (record reply { stream = none }) in
        record changed { headers = set_headers f.headers changed.headers })

-- `w.Header().Set(k, v)` for each header, under canonical names.
unfoldable pub written : Platform → Dict Bytes → Dict Bytes → Dict Bytes
written lib [] out = out
written lib ((k, v) ∷ headers) out = written lib headers (insert (lib.canonical k) v out)

-- The headers that are sent: a type is added where there is none.
unfoldable pub sent_headers : Platform → Dict Bytes → Dict Bytes
unfolding written
sent_headers lib headers =
    let out = written lib headers [] in
    let named : Bytes = elim (lookup (codes "Content-Type") out) [ none ↦ [] | some v ↦ v ] in
    if is_nil named
    then insert (codes "Content-Type") (codes "application/octet-stream") out
    else out

-- `if delay > 0 { time.Sleep(delay) }`
abbrev slept : Duration → List Duration
slept d = if ltb_ℤ (pos 0) d then d ∷ [] else []

-- The faults of the connection, which leave the handler before it writes to the log.
unfoldable pub cut_short : Bool → Bool → ℤ → Reply → Handled → Handled
cut_short true truncated n end done = record done { answer = aborts; logged = none }
cut_short false true n end done = record done { answer = truncates end n; logged = none }
cut_short false false n end done = done

-- The end of the handler, from the fault of the protocol on.
unfoldable pub finish :
    Platform → Request → Option HttpFault → List Duration → List NearMiss → Reply → World → Handled
unfolding apply_fault sent_headers cut_short
finish lib req fired before misses reply w =
    let end = apply_fault fired reply in
    let entry : LogEntry = record {
      method = req.method;
      path = req.path;
      status = end.status;
      matched_id = end.matched_id;
      near_misses = misses;
    } in
    let done : Handled = record {
      answer = responds (record end { headers = sent_headers lib end.headers });
      sleeps = before ++ slept end.delay;
      logged = some entry;
      world = w;
    } in
    elim fired [
      | none ↦ done
      | some f ↦ cut_short f.abort (ltb_ℤ (pos 0) f.truncate_body) f.truncate_body end done
    ]

-- The result of the matcher, answered and finished.
unfoldable pub conclude :
    Platform
    → Renderer
    → Inputs
    → Request
    → Option HttpFault
    → List Duration
    → List HttpMock
    → Option MatchResult
    → World
    → Option Handled
unfolding answer_unmatched answer_matched fires finish
conclude lib r inputs req fault before mocks none w =
    let (reply, misses, t) = answer_unmatched lib inputs req mocks w.store in
    some
      (finish lib req (fires fault inputs.global_draw) before misses reply (record w { store = t }))
conclude lib r inputs req fault before mocks (some result) w = do
  (reply, next) ← answer_matched lib r inputs req mocks result w
  some (finish lib req (fires fault inputs.global_draw) before [] reply next)

-- The matching, behind the handshake.
unfoldable pub after_delay :
    Platform
    → Renderer
    → Inputs
    → Request
    → Option HttpFault
    → List Duration
    → World
    → Option Handled
unfolding handle_ntlm mocks_for_listener conclude ntlm_headers ntlm_body
after_delay lib r inputs req fault before w =
    let mocks = mocks_for_listener w.server.mocks inputs.listener in
    elim (handle_ntlm lib req mocks) [
      | some step ↦ some (record {
        answer = ntlm step (ntlm_headers inputs.encode step) (ntlm_body step);
        sleeps = before;
        logged = none;
        world = w;
      })
      | none ↦
          let (result, t) = http_match lib r req inputs.matched_at mocks w.store in
          conclude lib r inputs req fault before mocks result (record w { store = t })
    ]

-- `fault.RateLimit` and the delay of the fault of the protocol.
unfoldable pub limit_of : Option HttpFault → Option RateLimitFault
limit_of none = none
limit_of (some f) = f.rate_limit

unfoldable pub delay_of : Option HttpFault → (ℕ → ℕ) → Option (List Duration)
delay_of none draws = some []
delay_of (some f) draws = do d ← resolve_delay f.delay f.delay_range draws; some (slept d)

-- `respondRateLimited`
unfoldable pub respond_rate_limited : Request → RateLimitFault → World → Handled
respond_rate_limited req limit w =
    let status = or_429 limit.over_limit_status in
    record {
      answer =
          limited status ((codes "Content-Type", codes "application/json") ∷ [])
            (limit_body limit.body);
      sleeps = [];
      logged = some (record {
        method = req.method;
        path = req.path;
        status = status;
        matched_id = [];
        near_misses = [];
      });
      world = w;
    }

-- `handleRequest`; `none` is a panic.
unfoldable pub handle_request : Platform → Renderer → Inputs → Request → World → Option Handled
unfolding effective_fault over_limit limit_of delay_of respond_rate_limited after_delay
handle_request lib r inputs req w =
    let fault = effective_fault http (some w.scenarios) in
    let (over, sc) =
      over_limit (codes "http:global") (limit_of fault) inputs.limited_at w.scenarios in
    elim over [
      | some limit ↦ some (respond_rate_limited req limit (record w { scenarios = sc }))
      | none ↦ do
        before ← delay_of fault inputs.global_delay
        after_delay lib r inputs req fault before (record w { scenarios = sc })
    ]
