-- ===== src/HttpServer/Handle/Laws.antt =====
-- `handleRequest` of internal/protocols/httpserver/server.go, over all its ways out.
use mockly.Base.{◌≡◌, false, Option, none, some, [], Bytes, codes, Dict, lookup, is_nil}
use mockly.Base.Int.{ℤ}
use mockly.Engine.Match.{Request}
use mockly.Engine.Platform.{Platform}
use mockly.HttpServer.Handle.{
  Answer, limited, ntlm, aborts, truncates, responds, World, Handled, LogEntry,
}
use mockly.HttpServer.Reply.{Reply}
use mockly.Scenarios as Scenarios

-- The headers name a type that is not empty.
abbrev pub Typed : Dict Bytes → Type 0
Typed headers = (v : Bytes) × (lookup (codes "Content-Type") headers ≡ some v) × (is_nil v ≡ false)

-- The entry of the log is that of the request, with a status and a mock.
abbrev pub Logged : Request → ℤ → Bytes → Option LogEntry → Type 0
Logged req status id logged =
    (e : LogEntry) × (logged ≡ some e)
    × (e.method ≡ req.method)
    × (e.path ≡ req.path)
    × (e.status ≡ status)
    × (e.matched_id ≡ id)

-- The handler has touched neither the counts of the calls nor the state store.
abbrev pub Untouched : World → World → Type 0
Untouched w next = (next.server ≡ w.server) × (next.store ≡ w.store)

-- How an answer, the log and the state after it fit to each other.
abbrev pub Fits : Request → World → Answer → Option LogEntry → World → Type 0
Fits req w (limited status headers body) logged next =
    Typed headers × Logged req status [] logged × Untouched w next
Fits req w (ntlm step headers body) logged next = Typed headers × (logged ≡ none) × Untouched w next
Fits req w aborts logged next = logged ≡ none
Fits req w (truncates reply n) logged next = logged ≡ none
Fits req w (responds reply) logged next =
    Typed reply.headers × Logged req reply.status reply.matched_id logged

abbrev pub FitsHandled : Request → World → Option Handled → Type 0
FitsHandled req w none = Unit
FitsHandled req w (some h) = Fits req w h.answer h.logged h.world
