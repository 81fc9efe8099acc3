-- ===== src/Engine/Examples.antt =====
-- Two mocks that share a path pattern, one of them bound to a state, a request for them, and a library
-- that stands in for Go's with simple functions: the data of the tests of the matcher.
use mockly.Base.{none, some, List, [], ◌∷◌, Bytes, codes, has_prefix}
use mockly.Base.Int.{pos}
use mockly.State.{Store, set_ttl, new}
use mockly.Config.Http.{HttpMock, HttpRequest, HttpResponse}
use mockly.Engine.Platform.{Platform}
use mockly.Engine.Render.{Renderer}
use mockly.Engine.Match.{Request}

-- Expressions are prefixes, header names are canonical as they stand, and nothing decodes.
abbrev pub go : Platform
go = record {
  compile = λ p. some (λ t. has_prefix t p);
  canonical = λ k. k;
  media_type = λ t. none;
  parse_query = λ t. none;
  unmarshal = λ t. none;
  marshal = λ v. [];
  parts = λ b boundary. none;
  xml_tokens = λ b. none;
  base64 = λ t. some t;
}

abbrev pub plain : Renderer
plain = record {
  text_template = λ t ctx s. (some t, s);
  html_template = λ t ctx s. (some t, s);
  read_file = λ p. none;
  type_by_extension = λ p. [];
  read_error = λ p. codes "no such file";
}

abbrev pub request_for : Bytes → HttpRequest
request_for path = record {
  method = codes "GET";
  path = path;
  headers = (codes "Accept", codes "json") ∷ [];
  body = [];
  path_regex = [];
  query = (codes "page", codes "2") ∷ (codes "debug", codes "!present") ∷ [];
  body_json = [];
  body_form = [];
  body_multipart = [];
  body_xml = [];
  auth = none;
}

abbrev pub reply : HttpResponse
reply = record {
  status = 0;
  headers = [];
  body = record { literal = codes "ok"; file = []; dir = []; resolved_file = [] };
  delay = pos 0;
  stream = none;
}

abbrev pub users_when_open : HttpMock
users_when_open = record {
  id = codes "open";
  listener = [];
  request = request_for (codes "/users/{id}");
  response = reply;
  state = some (record { key = codes "door"; value = codes "open" });
  sequence = [];
  sequence_exhausted = [];
  fault = none;
}

abbrev pub users : HttpMock
users = record users_when_open { id = codes "any"; state = none }

abbrev pub get_user : Request
get_user = record {
  method = codes "get";
  path = codes "/users/42";
  query = (codes "page", codes "1" ∷ codes "2" ∷ []) ∷ [];
  headers = (codes "Accept", codes "text/json") ∷ [];
  body = [];
}

abbrev pub mocks : List HttpMock
mocks = users_when_open ∷ users ∷ []

-- The door was open until the instant 5.
abbrev pub door : Store
door = set_ttl (codes "door") (codes "open") (pos 5) 0 new
