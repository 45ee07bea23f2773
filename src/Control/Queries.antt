-- ===== src/Control/Queries.antt =====
-- `queryLimit`, `listAgents`, `listAlerts` and `listAuditLogs` of internal/control/server.go. `raw`
-- values are what the query of the URL holds, empty where it holds none.
pub mod Exposure
use my_safe.Prelude.{not, ◌&&◌, ◌||◌, Option, none, some, List, map, if◌then◌else◌}
use my_safe.Prelude.Int.{ℤ, pos, ltb_ℤ}
use my_safe.Prelude.Text.{Text, codes, is_empty, to_lower}
use my_safe.Prelude.Text.Number.{atoi}
use my_safe.Domain.{Agent, Event, AuditLog, severity_valid}
use my_safe.Security.Redact.{redact_map}
use my_safe.Store.Contract.{Store, Stored, ok, err}
use my_safe.Control.{
  Config, Request, Response, problem, agents_listed, alerts_listed, audit_logs_listed, message,
}
use my_safe.Control.Auth.{authorize_token}
use my_safe.Control.Agents.{unauthorized, internal_error}

in_range : Option ℤ → Option ℤ
in_range none = none
in_range (some n) = if ltb_ℤ n (pos 1) || ltb_ℤ (pos 500) n then none else some n

-- `queryLimit`: `none` is the error.
unfoldable pub query_limit : Text → Option ℤ
unfolding in_range
query_limit raw = if is_empty raw then some (pos 100) else in_range (atoi raw)

abbrev bad_limit : Response
bad_limit = problem 400 (message (codes "limit must be between 1 and 500"))

abbrev redact_log : AuditLog → AuditLog
redact_log l = record l { details = redact_map l.details }

module _ (sha256 : Text → Text) (st : Store) (c : Config) where
  agents_answer : Stored (List Agent) → Response
  agents_answer (ok agents) = agents_listed agents
  agents_answer (err _) = internal_error

  unfoldable pub list_agents : Request → Text → st.State → Response
  unfolding agents_answer
  list_agents r raw_limit s =
      if not (authorize_token sha256 r c.admin_token)
      then unauthorized
      else elim (query_limit raw_limit) [
        | none ↦ bad_limit
        | some n ↦ agents_answer (st.list_agents n s)
      ]

  alerts_answer : Stored (List Event) → Response
  alerts_answer (ok alerts) = alerts_listed alerts
  alerts_answer (err _) = internal_error

  alerts_at : Text → ℤ → st.State → Response
  unfolding alerts_answer
  alerts_at severity limit s =
      if not (is_empty severity) && not (severity_valid severity)
      then problem 400 (message (codes "severity is invalid"))
      else alerts_answer (st.list_alerts (record { severity = severity; limit = limit }) s)

  unfoldable pub list_alerts : Request → Text → Text → st.State → Response
  unfolding alerts_at
  list_alerts r raw_limit raw_severity s =
      if not (authorize_token sha256 r c.admin_token)
      then unauthorized
      else elim (query_limit raw_limit) [
        | none ↦ bad_limit
        | some n ↦ alerts_at (to_lower raw_severity) n s
      ]

  audit_answer : Stored (List AuditLog) → Response
  audit_answer (ok logs) = audit_logs_listed (map redact_log logs)
  audit_answer (err _) = internal_error

  unfoldable pub list_audit_logs : Request → Text → st.State → Response
  unfolding audit_answer
  list_audit_logs r raw_limit s =
      if not (authorize_token sha256 r c.admin_token)
      then unauthorized
      else elim (query_limit raw_limit) [
        | none ↦ bad_limit
        | some n ↦ audit_answer (st.list_audit_logs n s)
      ]
