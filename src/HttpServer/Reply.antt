-- ===== src/HttpServer/Reply.antt =====
-- internal/protocols/httpserver/server.go: the variables of `handleRequest` that describe the
-- answer, and the steps that overwrite them.
use mockly.Base.{
  Bool, not, Option, none, some, [], ◌∷◌, ◌&&◌, Bytes, codes, Dict, lookup, insert, is_nil,
  if◌then◌else◌,
}
use mockly.Base.Int.{ℤ, pos, ltb_ℤ, is_zero_ℤ}
use mockly.Config.{MockPatch}
use mockly.Config.Faults.{Duration}
use mockly.Config.Http.{HttpResponse, HttpStream, HttpBody}
use mockly.Engine.Platform.{Platform}
use mockly.Engine.Render.{
  RequestContext, Renderer, render_template, render_template_html, render_http_body, or_raw,
  is_html_content_type,
}
use mockly.Engine.Match.{MatchResult}
use mockly.State.{Store}

pub record Reply : Type 0 where
  pub status : ℤ
  pub body : Bytes
  pub headers : Dict Bytes
  pub matched_id : Bytes
  pub delay : Duration
  pub stream : Option HttpStream

-- `respHdrs["Content-Type"]`
unfoldable pub content_type : Dict Bytes → Bytes
content_type headers = elim (lookup (codes "Content-Type") headers) [ none ↦ [] | some v ↦ v ]

-- The answer to a request that no mock matches.
unfoldable pub unmatched : Reply
unmatched = record {
  status = pos 404;
  body = codes "{\"error\":\"no mock matched\"}";
  headers = (codes "Content-Type", codes "application/json") ∷ [];
  matched_id = [];
  delay = pos 0;
  stream = none;
}

unfoldable pub of_result : MatchResult → Reply
of_result r = record {
  status = pos r.status;
  body = r.body;
  headers = r.headers;
  matched_id = r.mock_id;
  delay = r.delay;
  stream = r.stream;
}

-- `HTTPBody.IsEmpty` of internal/config/httpbody.go
unfoldable pub is_empty_body : HttpBody → Bool
is_empty_body b = is_nil b.literal && is_nil b.file && is_nil b.dir

-- `for k, v := range headers { respHdrs[k] = v }`
unfoldable pub set_headers : Dict Bytes → Dict Bytes → Dict Bytes
set_headers [] out = out
set_headers ((k, v) ∷ headers) out = set_headers headers (insert k v out)

module _ (lib : Platform) (r : Renderer) (ctx : RequestContext) where
  -- `Render`
  unfoldable pub render : Bytes → Option Store → Bytes × Option Store
  render tmpl s = let (out, t) = render_template r tmpl ctx s in (or_raw tmpl out, t)

  -- `RenderHTML`
  unfoldable pub render_html : Bytes → Option Store → Bytes × Option Store
  render_html tmpl s = let (out, t) = render_template_html r tmpl ctx s in (or_raw tmpl out, t)

  -- `for k, v := range headers { respHdrs[k] = engine.Render(v, reqCtx) }`
  unfoldable pub set_rendered : Dict Bytes → Dict Bytes → Option Store → Dict Bytes × Option Store
  unfolding render
  set_rendered [] out s = (out, s)
  set_rendered ((k, v) ∷ headers) out s =
      let (rendered, t) = render v s in set_rendered headers (insert k rendered out) t

  -- `if !entry.Body.IsEmpty() { … }`
  unfoldable pub apply_body : HttpResponse → Reply → Option Store → Reply × Option Store
  unfolding content_type is_empty_body
  apply_body entry reply s =
      if is_empty_body entry.body
      then (reply, s)
      else (let (body, ct, t) =
            render_http_body lib r entry.body ctx (content_type entry.headers) s in
          let headers =
            if not (is_nil ct) && is_nil (content_type reply.headers)
            then insert (codes "Content-Type") ct reply.headers
            else reply.headers in
          (record reply { body = body; headers = headers }, t))

  -- What an entry of a sequence overwrites.
  unfoldable pub apply_entry : HttpResponse → Reply → Option Store → Reply × Option Store
  unfolding apply_body set_rendered
  apply_entry entry reply s =
      let (bodied, t) = apply_body entry reply s in
      let (headers, u) = set_rendered entry.headers bodied.headers t in
      (
        record bodied {
          status = (if is_zero_ℤ (pos entry.status) then reply.status else pos entry.status);
          headers = headers;
          delay = (if ltb_ℤ (pos 0) entry.delay then entry.delay else reply.delay);
        },
        u,
      )

  -- `if patch.Body != "" { … }`, for headers that are already patched.
  unfoldable pub patched_body : Bytes → Dict Bytes → Bytes → Option Store → Bytes × Option Store
  unfolding render render_html content_type
  patched_body patch headers body s =
      if is_nil patch
      then (body, s)
      else if is_html_content_type lib (content_type headers)
      then render_html patch s
      else render patch s

  -- The first active patch of a mock.
  unfoldable pub apply_patch : Option MockPatch → Reply → Option Store → Reply × Option Store
  unfolding set_rendered patched_body
  apply_patch none reply s = (reply, s)
  apply_patch (some patch) reply s =
      if patch.disabled
      then (
        record reply {
          status = pos 404;
          body = codes "{\"error\":\"mock disabled by active scenario\"}";
          matched_id = [];
          delay = pos 0;
          stream = none;
        },
        s,
      )
      else (let (headers, t) = set_rendered patch.headers reply.headers s in
          let (body, u) = patched_body patch.body headers reply.body t in
          (
            record reply {
              status = (if is_zero_ℤ patch.status then reply.status else patch.status);
              body = body;
              headers = headers;
              delay = (elim patch.delay [ none ↦ reply.delay | some d ↦ d ]);
              stream = none;
            },
            u,
          ))
