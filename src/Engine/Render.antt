-- ===== src/Engine/Render.antt =====
-- `RenderHTTPBody` and the two template renderers; `IsBinaryContentType` and `Resolve` of
-- internal/config/httpbody.go.
use mockly.Base.{
  Bool, false, Option, none, some, List, [], ◌∷◌, ◌++◌, ◌||◌, Bytes, codes, any, if◌then◌else◌,
  text_eq, ◌==◌, has_prefix, contains, to_lower, trim_space, equal_fold, Dict,
}
use mockly.State.{Store}
use mockly.Config.Http.{HttpBody}
use mockly.Engine.Platform.{Platform}

pub record RequestContext : Type 0 where
  pub method : Bytes
  pub path : Bytes
  pub query : Dict Bytes
  pub headers : Dict Bytes
  pub body : Bytes
  pub path_params : Dict Bytes

-- The templates of the standard library, and the files on disk. A template may read and write the
-- state store, so it returns the store too; `none` is an error of parsing or executing it.
pub record Renderer : Type 0 where
  pub text_template : Bytes → RequestContext → Option Store → Option Bytes × Option Store
  pub html_template : Bytes → RequestContext → Option Store → Option Bytes × Option Store
  -- `os.ReadFile`, and `mime.TypeByExtension` of the extension of a path
  pub read_file : Bytes → Option Bytes
  pub type_by_extension : Bytes → Bytes
  -- the text of the error of `Resolve`, behind "mockly: "
  pub read_error : Bytes → Bytes

-- The text before the first semicolon.
unfoldable pub before_semicolon : Bytes → Bytes
before_semicolon [] = []
before_semicolon (c ∷ s) = let rest = before_semicolon s in if c == b';' then [] else c ∷ rest

abbrev pub binary_types : List Bytes
binary_types =
    codes "application/octet-stream"
    ∷ codes "application/pdf"
    ∷ codes "application/wasm"
    ∷ codes "application/vnd.ms-fontobject"
    ∷ codes "audio/mpeg"
    ∷ codes "audio/wav"
    ∷ codes "audio/ogg"
    ∷ codes "video/mp4"
    ∷ codes "video/webm"
    ∷ codes "video/ogg"
    ∷ []

unfoldable pub is_binary_content_type : Bytes → Bool
is_binary_content_type content_type =
    let ct = trim_space (before_semicolon (to_lower content_type)) in
    if text_eq ct []
    then false
    else has_prefix ct (codes "image/")
      || has_prefix ct (codes "font/")
      || any (text_eq ct) binary_types

unfoldable pub is_html_content_type : Platform → Bytes → Bool
is_html_content_type lib ct = elim (lib.media_type ct) [
  | none ↦
      contains (to_lower ct) (codes "text/html")
      || contains (to_lower ct) (codes "application/xhtml+xml")
  | some (mt, params) ↦
      equal_fold mt (codes "text/html") || equal_fold mt (codes "application/xhtml+xml")
]

-- `Resolve`: the content and its type, or an error.
unfoldable pub resolve : Renderer → HttpBody → Option (Bytes × Bytes)
resolve r body =
    if text_eq body.file []
    then some (body.literal, [])
    else (let path = if text_eq body.resolved_file [] then body.file else body.resolved_file in
        elim (r.read_file path) [
          | none ↦ none
          | some contents ↦ some (contents, r.type_by_extension path)
        ])

unfoldable pub render_template :
    Renderer → Bytes → RequestContext → Option Store → Option Bytes × Option Store
render_template r tmpl req s =
    if contains tmpl (codes "{{") then r.text_template tmpl req s else (some tmpl, s)

unfoldable pub render_template_html :
    Renderer → Bytes → RequestContext → Option Store → Option Bytes × Option Store
render_template_html r tmpl req s =
    if contains tmpl (codes "{{") then r.html_template tmpl req s else (some tmpl, s)

-- The rendered text, or the text as it was where rendering fails.
abbrev pub or_raw : Bytes → Option Bytes → Bytes
or_raw raw none = raw
or_raw raw (some out) = out

-- A body that was resolved to its content and type.
unfoldable pub render_content :
    Platform
    → Renderer
    → Bytes
    → Bytes
    → Bytes
    → RequestContext
    → Option Store
    → Bytes × Option Store
render_content lib r content ct declared req s =
    if is_binary_content_type ct || is_binary_content_type declared
    then (content, s)
    else if is_html_content_type lib ct || is_html_content_type lib declared
    then (let (out, t) = render_template_html r content req s in (or_raw content out, t))
    else (let (out, t) = render_template r content req s in (or_raw content out, t))

-- The rendered body, its inferred type, and the store.
unfoldable pub render_http_body :
    Platform
    → Renderer
    → HttpBody
    → RequestContext
    → Bytes
    → Option Store
    → Bytes × Bytes × Option Store
render_http_body lib r body req declared s = elim (resolve r body) [
  | none ↦ (codes "mockly: " ++ r.read_error body.file, [], s)
  | some (content, ct) ↦
      (let (out, t) = render_content lib r content ct declared req s in (out, ct, t))
]
