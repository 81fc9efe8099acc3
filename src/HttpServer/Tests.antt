-- ===== src/HttpServer/Tests.antt =====
-- The HTTP server at concrete requests.
use mockly.Base.{
  ℕ, ◌≤◌, ◌≡◌, refl, Bool, true, false, Option, none, some, List, [], ◌∷◌, ◌++◌, ◌>>=◌, Bytes,
  codes, arith,
}
use mockly.Base.Int.{ℤ}
use mockly.Config.Faults.{ProtocolFaults}
use mockly.Config.Http.{HttpMock, HttpResponse}
use mockly.Engine.Examples.{go, plain, users, get_user, reply}
use mockly.HttpServer.Counts.{new, count_call}
use mockly.HttpServer.Handle.{Inputs, World, Handled, Answer, ntlm, handle_request}
use mockly.HttpServer.Ntlm.{handshake, ntlm_headers, ntlm_body}
use mockly.HttpServer.Sequence.{entry, choose}
use mockly.HttpServer.Sequence.Laws.{after, occurrences, promised, choose-after}
use mockly.Scenarios as Scenarios

abbrev later : HttpResponse
later = record reply { status = 503 }

abbrev calls : List Bytes
calls = codes "any" ∷ codes "other" ∷ codes "any" ∷ codes "any" ∷ []

-- The fourth call of a sequence of three that loops starts again.
loops :
    choose
      (reply ∷ later ∷ later ∷ [])
      (codes "loop")
      (count_call (codes "any") (after calls (new []))).0
    ≡ entry reply
unfolding choose mockly.Base.Int.wrap64 count_call mockly.Base.lookup mockly.Base.insert new
    mockly.Base.text_eq
loops = refl

choose-after_example :
    choose (reply ∷ later ∷ []) [] (count_call (codes "any") (after calls (new []))).0
    ≡ promised (reply ∷ later ∷ []) [] (occurrences (codes "any") calls)
choose-after_example =
    choose-after [] calls (codes "any") (reply ∷ later ∷ []) [] (omega arith) (omega arith)

abbrev status_text : ℕ → Bytes
status_text n = codes "OK"

abbrev evil : List (Bytes × Bytes)
evil = (codes "X-A", codes "1\r\nX-B: 2") ∷ []

abbrev inputs : Inputs
inputs = record {
  limited_at = 8;
  matched_at = 9;
  mock_limited_at = 10;
  diagnosed_at = 10;
  encode = λ b. b;
  global_delay = λ n. 0;
  mock_delay = λ n. 0;
  mock_draw = 0;
  global_draw = 0;
  debug = false;
  marshal = λ misses. none;
  listener = [];
}

abbrev world : World
world = record {
  server = record { mocks = users ∷ []; call_counts = [] };
  scenarios = Scenarios.new [];
  store = none;
}

abbrev guarded : HttpMock
guarded = record users {
  id = codes "guarded";
  request = record users.request {
    auth = some (record {
      scheme = codes "NTLM";
      token = [];
      username = [];
      password = [];
      header = [];
      query = [];
      value = [];
    });
  };
}

abbrev answer_of : Option Handled → Option Answer
answer_of none = none
answer_of (some h) = some h.answer

-- A mock that asks for the handshake also keeps the mocks before it from answering.
guards_all :
    answer_of (
      handle_request go plain inputs get_user
        (record world { server = record { mocks = users ∷ guarded ∷ []; call_counts = [] } }))
    ≡ some (ntlm handshake (ntlm_headers (λ b. b) handshake) (ntlm_body handshake))
unfolding handle_request Scenarios.new mockly.Config.Faults.select mockly.Base.equal_fold
    mockly.Engine.Path.match_path mockly.Base.has_prefix mockly.Base.has_suffix mockly.Base.contains
    mockly.Engine.Path.match_path_segments mockly.Base.split mockly.Engine.Path.match_segments
    mockly.Engine.Path.match_segment mockly.Engine.Path.is_named mockly.Engine.Match.match_method
    mockly.Base.lookup
guards_all = refl
