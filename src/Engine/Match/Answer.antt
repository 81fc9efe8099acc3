-- ===== src/Engine/Match/Answer.antt =====
-- The answer of `HTTPMatch` in internal/engine/matcher.go.
use mathlib.Core.Path.{subst}
use mockly.Base.{
  ℕ, ◌≡◌, refl, sym, true, false, Option, none, some, List, [], ◌∷◌, ◌++◌, ◌&&◌, Bytes, All, Dict,
  inl, inr, Bool-cases, Option-cases,
}
use mockly.State.{Store}
use mockly.Config.Http.{HttpMock}
use mockly.Engine.Platform.{Platform}
use mockly.Engine.Render.{Renderer}
use mockly.Engine.Match.{
  Request, MatchResult, match_state, before_state, path_params, select_mock, build_result,
  http_match, or_200, finish,
}
use mockly.Engine.Match.Laws.{
  answers, Choice, select_mock-Choice, SameView, SameView-refl, SameView-trans,
  match_state-state_holds, select_mock-missed, select_mock-hit, select_mock-refused, auth_ok,
}

module _ (lib : Platform) (r : Renderer) (req : Request) (now : ℕ) where
  -- The result of the mock `m`.
  abbrev pub IsResultOf : HttpMock → MatchResult → Type 0
  IsResultOf m result =
      (result.mock_id ≡ m.id)
      × (result.status ≡ or_200 m.response.status)
      × (result.delay ≡ m.response.delay)
      × (result.fault ≡ m.fault)
      × (result.stream ≡ m.response.stream)
      × (path_params lib m.request req.path ≡ some result.path_params)

  abbrev pub Answer : Option Store → List HttpMock → Option MatchResult → Type 0
  Answer s mocks none = All (λ m. answers lib req now s m ≡ false) mocks
  Answer s mocks (some result) =
      (m : HttpMock) × (before : List HttpMock) × (after : List HttpMock) × (mocks
        ≡ before ++ m ∷ after)
      × All (λ x. answers lib req now s x ≡ false) before
      × (answers lib req now s m ≡ true)
      × IsResultOf m result

  finish-Answer :
      (mocks : List HttpMock) (s t : Option Store) (chosen : Option (HttpMock × Dict Bytes))
      → Choice lib req now s mocks chosen
      → Answer s mocks (finish lib r req chosen t).0
  unfolding finish build_result
  finish-Answer mocks s t none c = c
  finish-Answer mocks s t (some (m, params)) (before, after, split, missed, hit, found) =
      (m, before, after, split, missed, hit, (refl, refl, refl, refl, refl, found))

  -- If `HTTPMatch` returns a result, it is that of the first mock in the list that passes all eleven
  -- tests (method, path, headers, query, body, JSON, form, multipart, XML, state as it is read at
  -- the request's instant, authentication): its identifier, delay, fault, stream and status, with 0
  -- read as 200, and the parameters that its path captures. If it returns none, no mock passes them.
  pub http_match-Answer :
      (mocks : List HttpMock) (s : Option Store)
      → Answer s mocks (http_match lib r req now mocks s).0
  unfolding http_match
  http_match-Answer mocks s =
      finish-Answer mocks s (select_mock lib req now mocks s).1 (select_mock lib req now mocks s).0
        (select_mock-Choice lib req now mocks s)

module _ (lib : Platform) (req : Request) (now : ℕ) where
  -- Choosing a mock may drop expired entries of the state store, and changes no value that can be
  -- read from it at that instant.
  pub select_mock-SameView :
      (mocks : List HttpMock) (s : Option Store)
      → SameView now s (select_mock lib req now mocks s).1
  select_mock-SameView [] s = unfold select_mock in SameView-refl now s
  select_mock-SameView (m ∷ mocks) s = elim (Option-cases (before_state lib req m.request)) [
    | inl missed ↦
        subst (λ r. SameView now s r.1) (sym (select_mock-missed lib req now m mocks s missed))
          (select_mock-SameView mocks s)
    | inr (params, found) ↦
        elim (Bool-cases ((match_state m.state now s).0 && auth_ok lib req now m)) [
          | inl hit ↦
              subst (λ r. SameView now s r.1)
                (sym (select_mock-hit lib req now m mocks s params found hit))
                (match_state-state_holds m.state now s).1
          | inr refused ↦
              subst (λ r. SameView now s r.1)
                (sym (select_mock-refused lib req now m mocks s params found refused))
                (SameView-trans now s (match_state m.state now s).1 _
                  (match_state-state_holds m.state now s).1
                  (select_mock-SameView mocks (match_state m.state now s).1))
        ]
  ]
