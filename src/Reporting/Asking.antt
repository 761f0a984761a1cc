-- ===== src/Reporting/Asking.antt =====
-- internal/service/reporting/reporting.go: `Request`, `deliver` and `Submit`.
use lac.Base.{
  suc, String, ◌==◌, not, ◌&&◌, List, [], ◌∷◌, map, select, length, pos, le_ℤ, if◌then◌else◌,
}
use lac.Base.Result.{Result, ok, err, invalid_argument}
use lac.Core.Time.{Time, Duration, add_duration}
use lac.Core.Agent.{Agent}
use lac.Core.Report.{ReportRequest}
use lac.Store.Agents
use lac.Store.Messages.{is_empty}
use lac.Store.Reports
use lac.Messaging.Post
use lac.Registry.Roster.{active_agents}
use lac.Reporting.State.{
  Outside, Service, Action, run, and_then, with_db, audit, signal, message_kind, default_deadline,
}

-- `registry.Active` on the same database.
unfoldable pub present : Time → Action (List Agent)
unfolding active_agents
present now s =
    let (r, roster) = active_agents now (record { db = s.post.db; options = s.roster }) in
    (r, with_db roster.db s)

-- The agents that are asked: not the requester, and nobody of the daemon's own.
unfoldable pub asked_of : String → List Agent → List String
asked_of requester_id agents =
    map (λ a. a.id) (select (λ (a : Agent). not (a.id == requester_id) && not a.internal) agents)

-- The message to an agent that is still there; that it cannot be delivered is only logged.
abbrev tell : Outside → ReportRequest → Time → Result Agent → Service → Service
tell o request now (err e) s = s
tell o request now (ok agent) s = record s {
  post =
      (Post.send o.json_valid o.detail
        (record {
          from_agent_id = request.requester_id;
          to_agent_name = agent.name;
          topic = "";
          kind = message_kind;
          body = o.encode request;
        })
        (o.fresh_id s.drawn) now s.post).1;
  drawn = suc s.drawn;
}

-- The loop of `deliver`.
unfoldable pub deliver : Outside → ReportRequest → Time → List String → Service → Service
unfolding run
deliver o request now [] s = s
deliver o request now (agent_id ∷ rest) s =
    deliver o request now rest (tell o request now (run (Agents.by_id agent_id) s).0 s)

-- The request that `Request` makes.
unfoldable pub request_for :
    String → String → String → List String → Time → Duration → ReportRequest
request_for id requester_id question asked now deadline = record {
  id = id;
  requester_id = requester_id;
  question = question;
  asked_agent_ids = asked;
  created_at = now;
  deadline = add_duration now deadline;
}

-- `Request`, once it is stored.
unfoldable pub announce : Outside → ReportRequest → Time → Action ReportRequest
unfolding audit deliver
announce o request now s =
    let audited =
      audit request.requester_id request.id
        (o.asked_text (length request.asked_agent_ids) request.question) now s in
    if is_empty request.asked_agent_ids
    then (ok request, audited)
    else (ok request, deliver o request now request.asked_agent_ids audited)

-- `Request`.
unfoldable pub request : Outside → String → String → Duration → Time → Action ReportRequest
unfolding present asked_of request_for run announce
request o requester_id question deadline now s =
    if question == ""
    then (err invalid_argument, s)
    else and_then (present now s) λ agents s1.
      let asked =
        request_for (o.fresh_id s1.drawn) requester_id question (asked_of requester_id agents) now
          (if le_ℤ deadline (pos 0) then pos default_deadline else deadline) in
      and_then (run (Reports.create_request asked) (record s1 { drawn = suc s1.drawn }))
        λ _ s2. announce o asked now s2

-- `Submit`.
unfoldable pub submit : String → String → String → Time → Action (Unit {0})
unfolding run signal
submit request_id agent_id body now s =
    if body == ""
    then (err invalid_argument, s)
    else and_then (run (Reports.request_by_id request_id) s) λ asked s1.
      and_then
        (run
          (Reports.add_report
            (record { request_id = asked.id; agent_id = agent_id; body = body; created_at = now }))
          s1)
        λ _ s2. (ok tt, signal request_id s2)
