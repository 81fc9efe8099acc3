-- ===== src/Engine/Auth/Laws.antt =====
-- The bearer and the basic scheme of `matchAuth` in internal/engine/matcher.go.
use mathlib.Core.Path.{subst}
use mockly.Base.{
  ℕ, ◌≡◌, ◌≢◌, ◌↔◌, ◌⊎◌, inl, inr, refl, sym, ap, ◌∙◌, Bool, true, false, not, some, [], ◌∷◌, ◌++◌,
  arith, Bytes, codes, ◌==◌, text_eq, text_eq_iff, has_prefix, has_prefix-append, Bool-cases,
  Option-cases, Dict, to_lower, any, length, drop, drop-append, has_prefix_sound, trim_space,
}
use mockly.Config.Http.{HttpAuth}
use mockly.Engine.Platform.{Platform}
use mockly.Engine.Values.{match_query_value}
use mockly.Engine.Auth.{
  authorization_header, credentials, secret_ok, match_bearer_auth, split_colon, field_ok,
  match_basic_auth, decoded_ok, match_auth_scheme, match_auth,
}

-- The byte is nowhere in the text.
abbrev pub lacks : ℕ → Bytes → Bool
lacks c s = not (any (λ d. d == c) s)

split_colon-append :
    (user pass : Bytes)
    → lacks b':' user ≡ true
    → split_colon (user ++ b':' ∷ pass) ≡ some (user, pass)
unfolding split_colon
split_colon-append [] pass h = refl
split_colon-append (c ∷ user) pass h = ground (arith, split_colon-append user pass)

split_colon_sound :
    (s user pass : Bytes)
    → split_colon s ≡ some (user, pass)
    → (s ≡ user ++ b':' ∷ pass) × (lacks b':' user ≡ true)
unfolding split_colon
split_colon_sound [] user pass e = cc
split_colon_sound (c ∷ s) user pass e = elim (Bool-cases (c == b':')) [
  | inl colon ↦ ground arith
  | inr plain ↦ elim (Option-cases (split_colon s)) [
    | inl missing ↦ absurd (ground arith)
    | inr ((u, p), found) ↦ ground (arith, split_colon_sound s u p)
  ]
]

-- A user or password that a configured value allows.
abbrev pub Allows : Bytes → Bytes → Type 0
Allows want got = (want ≡ []) ⊎ (want ≡ codes "*") ⊎ (got ≡ want)

field_ok_iff : (want got : Bytes) → (field_ok want got ≡ true) ↔ Allows want got
unfolding field_ok
field_ok_iff want got =
    ground (arith, text_eq_iff want [], text_eq_iff want (codes "*"), text_eq_iff got want)

-- A header with a prefix, and what is asked of the rest of it.
has_prefix-drop_iff :
    (h p : Bytes) (P : Bytes → Type 0)
    → ((has_prefix h p ≡ true) × P (drop (length p) h))
      ↔ ((rest : Bytes) × (h ≡ p ++ rest) × P rest)
has_prefix-drop_iff h p P = (
  λ t. let (front, holds) = t in (drop (length p) h, has_prefix_sound h p front, holds),
  λ t.
      let (rest, split, holds) = t in
      (
        rw split (has_prefix-append p rest),
        subst P (sym (ap (drop (length p)) split ∙ drop-append p rest)) holds,
      ),
)

secret_ok_iff :
    (lib : Platform) (want got : Bytes)
    → want ≢ []
    → want ≢ codes "*"
    → has_prefix want (codes "re:") ≡ false
    → (secret_ok lib want got ≡ true) ↔ (got ≡ want)
unfolding secret_ok match_query_value
secret_ok_iff lib want got named one plain =
    ground (arith, text_eq_iff want [], text_eq_iff want (codes "*"), text_eq_iff want got)

match_auth-bearer :
    (lib : Platform) (auth : HttpAuth) (headers query : Dict Bytes)
    → to_lower auth.scheme ≡ codes "bearer"
    → match_auth lib (some auth) headers query ≡ match_bearer_auth lib auth.token headers
unfolding match_auth match_auth_scheme text_eq
match_auth-bearer lib auth headers query e = rw e

-- A bearer policy, with any spelling of its scheme, for a token that is neither empty nor `*` and no regular expression accepts exactly
-- the requests whose authorization is `Bearer ` and the token, with white space around the token.
pub match_auth-bearer_iff :
    (lib : Platform) (auth : HttpAuth) (headers query : Dict Bytes)
    → to_lower auth.scheme ≡ codes "bearer"
    → auth.token ≢ []
    → auth.token ≢ codes "*"
    → has_prefix auth.token (codes "re:") ≡ false
    → (match_auth lib (some auth) headers query ≡ true) ↔ (
        (rest : Bytes) × (authorization_header headers ≡ codes "Bearer " ++ rest)
        × (trim_space rest ≡ auth.token))
unfolding match_bearer_auth credentials
match_auth-bearer_iff lib auth headers query bearer named one plain =
    let h = authorization_header headers in
    let token = credentials (codes "Bearer ") h in
    let (accepted, equal) = secret_ok_iff lib auth.token token named one plain in
    let (to, from) =
      has_prefix-drop_iff h (codes "Bearer ") (λ rest. trim_space rest ≡ auth.token) in
    let same = match_auth-bearer lib auth headers query bearer in
    (λ e. to (ground arith), λ t. let (front, eq) = from t in same ∙ rw front (equal eq))

-- The decoded credentials that a basic policy accepts.
abbrev pub BasicOk : HttpAuth → Bytes → Type 0
BasicOk auth decoded =
    (user : Bytes) × (pass : Bytes) × (decoded ≡ user ++ b':' ∷ pass)
    × (lacks b':' user ≡ true)
    × Allows auth.username user
    × Allows auth.password pass

abbrev pub EncodesOk : Platform → HttpAuth → Bytes → Type 0
EncodesOk lib auth rest =
    (decoded : Bytes) × (lib.base64 (trim_space rest) ≡ some decoded) × BasicOk auth decoded

decoded_ok_iff :
    (auth : HttpAuth) (decoded : Bytes)
    → (decoded_ok auth.username auth.password (split_colon decoded) ≡ true) ↔ BasicOk auth decoded
decoded_ok_iff auth decoded = (
  λ e. elim (Option-cases (split_colon decoded)) [
    | inl missing ↦ absurd (ground arith)
    | inr ((user, pass), found) ↦
        let (split, bare) = split_colon_sound decoded user pass found in
        (
          user,
          pass,
          split,
          bare,
          (field_ok_iff auth.username user).0 (ground arith),
          (field_ok_iff auth.password pass).0 (ground arith),
        )
  ],
  λ t.
      let (user, pass, split, bare, user_ok, pass_ok) = t in
      rw
        (
          split,
          split_colon-append user pass bare,
          (field_ok_iff auth.username user).1 user_ok,
          (field_ok_iff auth.password pass).1 pass_ok,
        )
        refl,
)

match_auth-basic :
    (lib : Platform) (auth : HttpAuth) (headers query : Dict Bytes)
    → to_lower auth.scheme ≡ codes "basic"
    → match_auth lib (some auth) headers query
      ≡ match_basic_auth lib auth.username auth.password headers
unfolding match_auth match_auth_scheme text_eq
match_auth-basic lib auth headers query e = rw e

-- A basic policy, with any spelling of its scheme, accepts exactly the requests whose authorization is `Basic ` and the encoding of a
-- user name without a colon, a colon and a password, each of the two equal to its configured value
-- unless that value is empty or `*`.
pub match_auth-basic_iff :
    (lib : Platform) (auth : HttpAuth) (headers query : Dict Bytes)
    → to_lower auth.scheme ≡ codes "basic"
    → (match_auth lib (some auth) headers query ≡ true) ↔ (
        (rest : Bytes) × (authorization_header headers ≡ codes "Basic " ++ rest)
        × EncodesOk lib auth rest)
unfolding match_basic_auth credentials
match_auth-basic_iff lib auth headers query basic =
    let h = authorization_header headers in
    let (to, from) = has_prefix-drop_iff h (codes "Basic ") (EncodesOk lib auth) in
    let same = match_auth-basic lib auth headers query basic in
    (
      λ e. elim (Option-cases (lib.base64 (credentials (codes "Basic ") h))) [
        | inl invalid ↦ absurd (ground arith)
        | inr (decoded, found) ↦
            to (ground arith, (decoded, found, (decoded_ok_iff auth decoded).0 (ground arith)))
      ],
      λ t.
          let (front, (decoded, found, ok)) = from t in
          same ∙ rw (front, found, (decoded_ok_iff auth decoded).1 ok) refl,
    )
