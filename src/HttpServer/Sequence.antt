-- ===== src/HttpServer/Sequence.antt =====
-- internal/protocols/httpserver/server.go: which response of a sequence answers a call.
pub mod Laws
use mockly.Base.{
  ℕ, suc, ◌-◌, ◌%◌, Bool, Option, none, some, List, [], ◌∷◌, Bytes, codes, length, get_elem?, ltb,
  text_eq, is_nil, if◌then◌else◌,
}
use mockly.Base.Int.{ℤ, pos, negsuc, wrap64, ◌-ℤ◌}
use mockly.Config.Http.{HttpMock, HttpResponse}
use mockly.Engine.Platform.{Platform}
use mockly.Engine.Render.{RequestContext, Renderer}
use mockly.HttpServer.Reply.{Reply, apply_entry}
use mockly.State.{Store}

pub data Choice : Type 0 where
  entry : HttpResponse → Choice
  not_found panics : Choice

-- `seq[i]`
unfoldable pub entry_at : List HttpResponse → ℕ → Choice
entry_at seq i = elim (get_elem? seq i) [ none ↦ panics | some e ↦ entry e ]

-- The entry for an index past the end.
unfoldable pub past_end : List HttpResponse → Bytes → ℕ → Choice
unfolding entry_at
past_end seq exhausted i =
    if text_eq exhausted (codes "loop")
    then entry_at seq (i % length seq)
    else if text_eq exhausted (codes "not_found")
    then not_found
    else entry_at seq (length seq - 1)

unfoldable pub choose_at : List HttpResponse → Bytes → ℤ → Choice
unfolding entry_at past_end
choose_at seq exhausted (pos i) =
    if ltb i (length seq) then entry_at seq i else past_end seq exhausted i
choose_at seq exhausted (negsuc i) = panics

-- The choice for the call with the number `call_n`, from 1.
unfoldable pub choose : List HttpResponse → Bytes → ℤ → Choice
unfolding choose_at
choose seq exhausted call_n = choose_at seq exhausted (wrap64 (call_n -ℤ pos 1))

unfoldable pub apply_choice :
    Platform
    → Renderer
    → RequestContext
    → Choice
    → Reply
    → Option Store
    → Option (Reply × Option Store)
unfolding apply_entry
apply_choice lib r ctx (entry e) reply s = some (apply_entry lib r ctx e reply s)
apply_choice lib r ctx not_found reply s =
    some (record reply { status = pos 404; body = codes "{\"error\":\"sequence exhausted\"}" }, s)
apply_choice lib r ctx panics reply s = none

-- `if matchedMock != nil && len(matchedMock.Sequence) > 0 { … }`; `none` is a panic.
unfoldable pub apply_sequence :
    Platform
    → Renderer
    → RequestContext
    → Option HttpMock
    → ℤ
    → Reply
    → Option Store
    → Option (Reply × Option Store)
unfolding choose apply_choice
apply_sequence lib r ctx none call_n reply s = some (reply, s)
apply_sequence lib r ctx (some m) call_n reply s =
    if is_nil m.sequence
    then some (reply, s)
    else apply_choice lib r ctx (choose m.sequence m.sequence_exhausted call_n)
        (record reply { stream = none }) s
