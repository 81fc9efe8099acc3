-- ===== src/HttpServer/Truncate/Reader.antt =====
-- A client that reads the responses of `truncateResponse` in internal/protocols/httpserver/server.go
-- line by line.
use mockly.Base.{
  ℕ, ◌≡◌, refl, sym, ap, ◌∙◌, Bool, true, false, not, Option, none, some, List, [], ◌∷◌, ◌++◌, ◌&&◌,
  ◌||◌, Bytes, codes, ◌==◌, All, arith, is_nil, if◌then◌else◌, append_nil, append_assoc,
}
use mockly.HttpServer.Truncate.{with_ends}

-- No octet of the line is a carriage return or a line feed.
abbrev pub is_plain : Bytes → Bool
is_plain [] = true
is_plain (c ∷ s) = not (c == 13 || c == 10) && is_plain s

abbrev pub Plain : Bytes → Type 0
Plain s = is_plain s ≡ true

pub Plain-append : (s t : Bytes) → Plain s → Plain t → Plain (s ++ t)
Plain-append [] t h k = k
Plain-append (c ∷ s) t h k = ground (arith, Plain-append s t)

full-append : (s t : Bytes) → is_nil s ≡ false → is_nil (s ++ t) ≡ false
full-append [] t h = ground arith
full-append (c ∷ s) t h = refl

pub append-full : (s t : Bytes) → is_nil t ≡ false → is_nil (s ++ t) ≡ false
append-full [] t h = h
append-full (c ∷ s) t h = refl

-- A line that is not empty.
abbrev pub Line : Bytes → Type 0
Line s = Plain s × (is_nil s ≡ false)

pub Line-append : (s t : Bytes) → Line s → Plain t → Line (s ++ t)
Line-append s t (plain, full) k = (Plain-append s t plain k, full-append s t full)

abbrev with_line : Bytes → Option (List Bytes × Bytes) → Option (List Bytes × Bytes)
with_line line none = none
with_line line (some (lines, rest)) = some (line ∷ lines, rest)

-- A reader of a response: the lines up to an empty one, and what follows. The first argument is the
-- start of the line that is being read.
unfoldable pub read_head : Bytes → Bytes → Option (List Bytes × Bytes)
read_head line [] = none
read_head line (c ∷ []) = none
read_head line (c ∷ d ∷ s) =
    let after = read_head [] s in
    let more = read_head (line ++ c ∷ []) (d ∷ s) in
    if c == 13 && d == 10
    then (if is_nil line then some ([], s) else with_line line after)
    else more

read_head-more :
    (line s : Bytes) (c d : ℕ)
    → (c == 13) ≡ false
    → read_head line (c ∷ d ∷ s) ≡ read_head (line ++ c ∷ []) (d ∷ s)
unfolding read_head
read_head-more line s c d h = rw h refl

read_head-end :
    (line s : Bytes)
    → is_nil line ≡ false
    → read_head line (13 ∷ 10 ∷ s) ≡ with_line line (read_head [] s)
unfolding read_head
read_head-end line s h = rw h refl

read_head-line :
    (line rest s : Bytes)
    → Plain rest
    → is_nil (line ++ rest) ≡ false
    → read_head line (rest ++ 13 ∷ 10 ∷ s) ≡ with_line (line ++ rest) (read_head [] s)
read_head-line line [] s h k =
    let same = append_nil line in
    read_head-end line s (sym (ap is_nil same) ∙ k)
    ∙ ap (λ l. with_line l (read_head [] s)) (sym same)
read_head-line line (c ∷ []) s h k =
    let same = append_assoc line (c ∷ []) [] in
    read_head-more line (10 ∷ s) c 13 (ground arith) ∙ read_head-end (line ++ c ∷ []) s k
read_head-line line (c ∷ d ∷ rest) s h k =
    let same = append_assoc line (c ∷ []) (d ∷ rest) in
    read_head-more line (rest ++ 13 ∷ 10 ∷ s) c d (ground arith)
    ∙ read_head-line (line ++ c ∷ []) (d ∷ rest) s (ground arith) (ap is_nil same ∙ k)
    ∙ ap (λ l. with_line l (read_head [] s)) same

pub read_head-with_ends :
    (lines : List Bytes) (rest : Bytes)
    → All Line lines
    → read_head [] (with_ends lines ++ codes "\r\n" ++ rest) ≡ some (lines, rest)
unfolding with_ends read_head
read_head-with_ends [] rest h = refl
read_head-with_ends (line ∷ lines) rest ((plain, full), h) =
    let tail : Bytes = with_ends lines ++ codes "\r\n" ++ rest in
    let same : with_ends (line ∷ lines) ++ codes "\r\n" ++ rest ≡ line ++ 13 ∷ 10 ∷ tail =
      let crlf : Bytes = codes "\r\n" in
      ap (λ l. l ++ rest) (append_assoc (line ++ crlf) (with_ends lines) crlf)
      ∙ append_assoc (line ++ crlf) (with_ends lines ++ crlf) rest
      ∙ append_assoc line crlf tail in
    ap (read_head []) same
    ∙ read_head-line [] line tail plain full
    ∙ ap (with_line line) (read_head-with_ends lines rest h)
