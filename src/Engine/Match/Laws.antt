-- ===== src/Engine/Match/Laws.antt =====
-- The loop of `HTTPMatch` in internal/engine/matcher.go.
use mockly.Base.{
  ℕ, ◌≡◌, refl, sym, ap, ◌∙◌, Bool, true, false, Option, none, some, List, [], ◌∷◌, ◌++◌, arith,
  ◌&&◌, ◌||◌, Bytes, all, All, text_eq, Bool-cases, Option-cases, Dict, inl, inr,
}
use mathlib.Core.Path.{subst}
use native.Mathlib.Nat.{le_refl}
use mockly.State.{Store, or_empty}
use mockly.State.Laws.{view, view-get, get-eq-view}
use mockly.Config.Http.{HttpMock, HttpRequest, StateCondition}
use mockly.Engine.Platform.{Platform}
use mockly.Engine.Values.{match_pattern, match_headers, match_query, first_query_values}
use mockly.Engine.Auth.{match_auth}
use mockly.Engine.Body.{match_body_json, match_body_form, match_body_multipart}
use mockly.Engine.Body.Xml.{match_body_xml}
use mockly.Engine.Match.{
  Request, match_method, path_params, unless_empty, match_state, parts_ok, before_state,
  select_mock,
}

abbrev pub is_found {ℓ} : {A : Type ℓ} → Option A → Bool
is_found none = false
is_found (some a) = true

-- The condition on the state, read without changing it. With no store every condition holds.
abbrev pub state_holds : Option StateCondition → ℕ → Option Store → Bool
state_holds none now s = true
state_holds (some cond) now none = true
state_holds (some cond) now (some s) = text_eq (or_empty (view cond.key now s)) cond.value

-- The eleven tests of a mock, in order: method, path, headers, query, body, JSON, form, multipart,
-- XML, state, authentication.
abbrev pub checks : Platform → Request → ℕ → HttpMock → Option Store → List Bool
checks lib req now m s =
    match_method m.request.method req.method
    ∷ is_found (path_params lib m.request req.path)
    ∷ match_headers lib m.request.headers req.headers
    ∷ match_query lib m.request.query req.query
    ∷ (text_eq m.request.body [] || match_pattern lib m.request.body req.body)
    ∷ unless_empty m.request.body_json (match_body_json lib m.request.body_json req.body)
    ∷ unless_empty m.request.body_form
        (match_body_form lib m.request.body_form req.body req.headers)
    ∷ unless_empty m.request.body_multipart
        (match_body_multipart lib m.request.body_multipart req.body req.headers)
    ∷ unless_empty m.request.body_xml (match_body_xml lib m.request.body_xml req.body)
    ∷ state_holds m.state now s
    ∷ match_auth lib m.request.auth req.headers (first_query_values req.query)
    ∷ []

abbrev pub passes : Bool → Bool
passes b = b

-- A mock passes all the tests.
abbrev pub answers : Platform → Request → ℕ → Option Store → HttpMock → Bool
answers lib req now s m = all passes (checks lib req now m s)

-- Two stores that show the same under every key at the instant of the request.
abbrev pub SameView : ℕ → Option Store → Option Store → Type 0
SameView now none none = Unit
SameView now (some s) (some t) = (key : Bytes) → view key now t ≡ view key now s
SameView now _ _ = ⊥

pub SameView-refl : (now : ℕ) (s : Option Store) → SameView now s s
SameView-refl now none = tt
SameView-refl now (some s) = λ key. refl

pub SameView-trans :
    (now : ℕ) (s t u : Option Store) → SameView now s t → SameView now t u → SameView now s u
SameView-trans now none none none h k = tt
SameView-trans now (some s) (some t) (some u) h k = λ key. k key ∙ h key
SameView-trans now none none (some u) h k = absurd k
SameView-trans now none (some t) u h k = absurd h
SameView-trans now (some s) none u h k = absurd h
SameView-trans now (some s) (some t) none h k = absurd k

pub match_state-state_holds :
    (o : Option StateCondition) (now : ℕ) (s : Option Store)
    → ((match_state o now s).0 ≡ state_holds o now s) × SameView now s (match_state o now s).1
unfolding match_state
match_state-state_holds none now s = (refl, SameView-refl now s)
match_state-state_holds (some cond) now none = (refl, tt)
match_state-state_holds (some cond) now (some s) = (
  ap (λ v. text_eq (or_empty v) cond.value) (get-eq-view cond.key now s),
  λ key. view-get cond.key key now now s (le_refl now),
)

pub state_holds-SameView :
    (o : Option StateCondition) (now : ℕ) (s t : Option Store)
    → SameView now s t
    → state_holds o now t ≡ state_holds o now s
state_holds-SameView none now s t h = refl
state_holds-SameView (some cond) now none none h = refl
state_holds-SameView (some cond) now (some s) (some t) h =
    ap (λ v. text_eq (or_empty v) cond.value) (h cond.key)
state_holds-SameView (some cond) now none (some t) h = absurd h
state_holds-SameView (some cond) now (some s) none h = absurd h

module _ (lib : Platform) (req : Request) (now : ℕ) where
  answers-SameView :
      (s t : Option Store) (m : HttpMock)
      → SameView now s t
      → answers lib req now t m ≡ answers lib req now s m
  answers-SameView s t m h = rw (state_holds-SameView m.state now s t h)

  -- The tests before the one of the state.
  pub before_state-checks :
      (m : HttpMock) (s : Option Store)
      → answers lib req now s m ≡ (
          is_found (before_state lib req m.request)
          && (state_holds m.state now s
              && match_auth lib m.request.auth req.headers (first_query_values req.query)))
  unfolding before_state parts_ok
  before_state-checks m s = ground arith

  -- What the loop's choice says of the mocks: no mock answers, or the chosen one does, none before
  -- it does, and the parameters are those that its path captures.
  abbrev pub Choice : Option Store → List HttpMock → Option (HttpMock × Dict Bytes) → Type 0
  Choice s mocks none = All (λ m. answers lib req now s m ≡ false) mocks
  Choice s mocks (some (m, params)) =
      (before : List HttpMock) × (after : List HttpMock) × (mocks ≡ before ++ m ∷ after)
      × All (λ x. answers lib req now s x ≡ false) before
      × (answers lib req now s m ≡ true)
      × (path_params lib m.request req.path ≡ some params)

  All-SameView :
      (s t : Option Store) (mocks : List HttpMock)
      → SameView now s t
      → All (λ m. answers lib req now t m ≡ false) mocks
      → All (λ m. answers lib req now s m ≡ false) mocks
  All-SameView s t [] h a = tt
  All-SameView s t (m ∷ mocks) h (one, a) =
      (sym (answers-SameView s t m h) ∙ one, All-SameView s t mocks h a)

  Choice-skip :
      (s t : Option Store) (m : HttpMock) (mocks : List HttpMock)
      (chosen : Option (HttpMock × Dict Bytes))
      → SameView now s t
      → answers lib req now s m ≡ false
      → Choice t mocks chosen
      → Choice s (m ∷ mocks) chosen
  Choice-skip s t m mocks none h missed c = (missed, All-SameView s t mocks h c)
  Choice-skip s t m mocks (some (x, params)) h missed
        (before, after, split, none_before, hit, found) =
      (
        m ∷ before,
        after,
        ap (λ l. m ∷ l) split,
        (missed, All-SameView s t before h none_before),
        sym (answers-SameView s t x h) ∙ hit,
        found,
      )

  before_state-path_params :
      (r : HttpRequest) (params : Dict Bytes)
      → before_state lib req r ≡ some params
      → path_params lib r req.path ≡ some params
  unfolding before_state
  before_state-path_params r params e = ground arith

  abbrev pub auth_ok : HttpMock → Bool
  auth_ok m = match_auth lib m.request.auth req.headers (first_query_values req.query)

  pub select_mock-missed :
      (m : HttpMock) (mocks : List HttpMock) (s : Option Store)
      → before_state lib req m.request ≡ none
      → select_mock lib req now (m ∷ mocks) s ≡ select_mock lib req now mocks s
  unfolding select_mock
  select_mock-missed m mocks s e = ground arith

  pub select_mock-hit :
      (m : HttpMock) (mocks : List HttpMock) (s : Option Store) (params : Dict Bytes)
      → before_state lib req m.request ≡ some params
      → ((match_state m.state now s).0 && auth_ok m) ≡ true
      → select_mock lib req now (m ∷ mocks) s ≡ (some (m, params), (match_state m.state now s).1)
  unfolding select_mock
  select_mock-hit m mocks s params e h = ground arith

  pub select_mock-refused :
      (m : HttpMock) (mocks : List HttpMock) (s : Option Store) (params : Dict Bytes)
      → before_state lib req m.request ≡ some params
      → ((match_state m.state now s).0 && auth_ok m) ≡ false
      → select_mock lib req now (m ∷ mocks) s
        ≡ select_mock lib req now mocks (match_state m.state now s).1
  unfolding select_mock
  select_mock-refused m mocks s params e h = ground arith

  answers-found :
      (m : HttpMock) (s : Option Store) (params : Dict Bytes)
      → before_state lib req m.request ≡ some params
      → answers lib req now s m ≡ ((match_state m.state now s).0 && auth_ok m)
  answers-found m s params e =
      before_state-checks m s ∙ cc (e, (match_state-state_holds m.state now s).0)

  pub select_mock-Choice :
      (mocks : List HttpMock) (s : Option Store)
      → Choice s mocks (select_mock lib req now mocks s).0
  select_mock-Choice [] s = unfold select_mock in tt
  select_mock-Choice (m ∷ mocks) s = elim (Option-cases (before_state lib req m.request)) [
    | inl missed ↦
        subst (λ r. Choice s (m ∷ mocks) r.0) (sym (select_mock-missed m mocks s missed))
          (Choice-skip s s m mocks _ (SameView-refl now s) (before_state-checks m s ∙ cc (missed))
            (select_mock-Choice mocks s))
    | inr (params, found) ↦ elim (Bool-cases ((match_state m.state now s).0 && auth_ok m)) [
      | inl hit ↦
          subst (λ r. Choice s (m ∷ mocks) r.0) (sym (select_mock-hit m mocks s params found hit))
            (
              [],
              mocks,
              refl,
              tt,
              answers-found m s params found ∙ hit,
              before_state-path_params m.request params found,
            )
      | inr refused ↦
          subst (λ r. Choice s (m ∷ mocks) r.0)
            (sym (select_mock-refused m mocks s params found refused))
            (Choice-skip s (match_state m.state now s).1 m mocks _
              (match_state-state_holds m.state now s).1 (answers-found m s params found ∙ refused)
              (select_mock-Choice mocks (match_state m.state now s).1))
    ]
  ]
