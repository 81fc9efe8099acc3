-- ===== src/HttpServer/Truncate.antt =====
-- internal/protocols/httpserver/server.go: `truncateResponse` on a connection that it takes over.
pub mod Reader
pub mod Laws
use mockly.Base.{
  ℕ, ◌+◌, Bool, true, false, not, List, [], ◌∷◌, ◌++◌, ◌||◌, Bytes, codes, Dict, map, length, take,
  ltb, ◌==◌, is_nil, equal_fold, if◌then◌else◌, decimal,
}
use mockly.Base.Int.{ℤ, pos, negsuc}
use mockly.HttpServer.Reply.{content_type}

-- `strings.NewReplacer("\r", " ", "\n", " ")`
unfoldable pub sanitize_octet : ℕ → ℕ
sanitize_octet c = if c == 13 || c == 10 then 32 else c

unfoldable pub sanitize_header_line : Bytes → Bytes
unfolding sanitize_octet
sanitize_header_line = map sanitize_octet

-- The headers that the end of the head sets, or that it drops.
unfoldable pub is_reserved : Bytes → Bool
is_reserved name =
    equal_fold name (codes "Content-Type")
    || equal_fold name (codes "X-Content-Type-Options")
    || equal_fold name (codes "Content-Length")
    || equal_fold name (codes "Transfer-Encoding")

unfoldable pub header_lines : Dict Bytes → List Bytes
unfolding is_reserved sanitize_header_line
header_lines [] = []
header_lines ((k, v) ∷ headers) =
    let rest = header_lines headers in
    if is_reserved k
    then rest
    else (sanitize_header_line k ++ codes ": " ++ sanitize_header_line v) ∷ rest

-- `truncated[:n]` where `n` is less than the length; the caller has `n` above 0.
unfoldable pub truncated : Bytes → ℤ → Bytes
truncated body (pos n) = if ltb n (length body) then take n body else body
truncated body (negsuc n) = []

unfoldable pub or_octets : Bytes → Bytes
or_octets ct = if is_nil ct then codes "application/octet-stream" else ct

unfoldable pub claimed_length : Bytes → ℕ
claimed_length body = length body + 128

-- The lines of the head, in their order, each of which is sent with a line end behind it. The first
-- argument is `http.StatusText`, and the status is written in decimal.
unfoldable pub head_lines : (ℕ → Bytes) → ℕ → Dict Bytes → Bytes → List Bytes
unfolding header_lines or_octets claimed_length content_type sanitize_header_line
head_lines status_text status headers body =
    (codes "HTTP/1.1 " ++ decimal status ++ codes " " ++ status_text status) ∷ header_lines headers
    ++ (codes "Content-Length: " ++ decimal (claimed_length body))
      ∷ (codes "Content-Type: " ++ sanitize_header_line (or_octets (content_type headers)))
      ∷ codes "X-Content-Type-Options: nosniff"
      ∷ []

unfoldable pub with_ends : List Bytes → Bytes
with_ends [] = []
with_ends (line ∷ lines) = line ++ codes "\r\n" ++ with_ends lines

-- What the client receives before the connection is reset.
unfoldable pub truncate_response : (ℕ → Bytes) → ℕ → Dict Bytes → Bytes → ℤ → Bytes
unfolding head_lines with_ends truncated
truncate_response status_text status headers body n =
    with_ends (head_lines status_text status headers body) ++ codes "\r\n" ++ truncated body n
