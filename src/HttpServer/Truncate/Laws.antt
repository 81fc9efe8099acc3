-- ===== src/HttpServer/Truncate/Laws.antt =====
-- `truncateResponse` of internal/protocols/httpserver/server.go, by what a client reads.
use mockly.Base.{
  ℕ, ◌+◌, not, Option, none, some, List, [], ◌∷◌, ◌++◌, ◌||◌, Bytes, codes, Dict, length, ◌==◌,
  decimal, map, filter, any, is_nil, equal_fold, lookup, if◌then◌else◌,
}

-- A text with blanks in place of carriage returns and line feeds.
abbrev pub blanked : Bytes → Bytes
blanked = map (λ c. if c == 13 || c == 10 then 32 else c)

abbrev pub reserved : List Bytes
reserved =
    codes "Content-Type"
    ∷ codes "X-Content-Type-Options"
    ∷ codes "Content-Length"
    ∷ codes "Transfer-Encoding"
    ∷ []

-- The lines of the headers whose names are not reserved.
abbrev pub other_lines : Dict Bytes → List Bytes
other_lines headers =
    map (λ h. blanked h.0 ++ codes ": " ++ blanked h.1)
      (filter (λ h. not (any (equal_fold h.0) reserved)) headers)

abbrev pub declared : Option Bytes → Bytes
declared none = codes "application/octet-stream"
declared (some ct) = if is_nil ct then codes "application/octet-stream" else ct

-- The head that a client should read.
abbrev pub head : (ℕ → Bytes) → ℕ → Dict Bytes → Bytes → List Bytes
head status_text status headers body =
    (codes "HTTP/1.1 " ++ decimal status ++ codes " " ++ status_text status)
    ∷ (other_lines headers
        ++ (codes "Content-Length: " ++ decimal (length body + 128))
          ∷ (codes "Content-Type: " ++ blanked (declared (lookup (codes "Content-Type") headers)))
          ∷ codes "X-Content-Type-Options: nosniff"
          ∷ [])
