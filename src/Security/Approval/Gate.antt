-- ===== src/Security/Approval/Gate.antt =====
-- What security/approval.py lets run, and the tickets it opens.
use amber_claw.Base.{
  ◌≡◌, refl, ◌↔◌, ◌⊎◌, Bool, true, false, not, ◌||◌, Option, none, some, String, Result, ok, raise,
  arith, is_ok, if◌then◌else◌,
}
use amber_claw.Base.Dict
use amber_claw.Base.Dict.{get-set_self}
use amber_claw.Base.Key.{text_key, truthy}
use amber_claw.Security.Approval.{
  ToolRiskLevel, ApprovalStatus, approved, rejected, pending_approval, ToolApprovalManager,
  PendingTicket, ApprovalDecision, is_denied, is_outside, needs_human, evaluate_tool_execution,
  decide, resolve_ticket, record_and_check,
}

abbrev pub is_approved : ApprovalStatus → Bool
is_approved approved = true
is_approved rejected = false
is_approved pending_approval = false

abbrev pub runs : {E : Type 0} → Result E ApprovalDecision → Bool
runs (raise e) = false
runs (ok d) = is_approved d.status

-- Does the loop guard let the call of a turn through? A call outside a turn is not counted.
unfoldable pub in_limits : String → String → Option String → ToolApprovalManager → Bool
in_limits tool hash none m = true
in_limits tool hash (some turn) m =
    not (truthy turn) || is_ok (record_and_check turn tool hash m.loop_guard).1

-- A tool call runs at once exactly when the loop guard lets it through, the agent is not denied the
-- tool, no allowlist of the agent leaves the tool out, and either the caller waives the human approval
-- or the policy does not ask for one at the risk level.
pub evaluate_tool_execution_iff :
    (ticket hash tool agent : String) (risk : ToolRiskLevel) (turn : Option String) (bypass : Bool)
    (m : ToolApprovalManager)
    → (runs (evaluate_tool_execution ticket hash tool agent risk turn bypass m).1 ≡ true) ↔ (
        (in_limits tool hash turn m ≡ true)
        × (is_denied m.policy agent tool ≡ false)
        × (is_outside m.policy agent tool ≡ false)
        × ((bypass ≡ true) ⊎ (needs_human m.policy risk ≡ false)))
unfolding evaluate_tool_execution in_limits decide
evaluate_tool_execution_iff ticket hash tool agent risk none bypass m = ground arith
evaluate_tool_execution_iff ticket hash tool agent risk (some turn) bypass m = ground arith

abbrev pub status_in : Option PendingTicket → Option String
status_in none = none
status_in (some t) = some t.status

-- Where the policy asks for a human at the risk level and the agent may use the tool, a call without a
-- waiver opens a pending ticket, and resolving that ticket succeeds and writes the outcome into it.
pub decide-resolve_ticket :
    (ticket tool agent : String) (risk : ToolRiskLevel) (approves : Bool) (m : ToolApprovalManager)
    → needs_human m.policy risk ≡ true
    → is_denied m.policy agent tool ≡ false
    → is_outside m.policy agent tool ≡ false
    → let (m', d) = decide ticket tool agent risk false m in
      let (m'', found) = resolve_ticket ticket approves m' in
      (d.ticket_id ≡ some ticket)
      × (found ≡ true)
      × (status_in (Dict.get ticket m'.pending_tickets) ≡ some "pending")
      × (status_in (Dict.get ticket m''.pending_tickets)
          ≡ some (if approves then "approved" else "rejected"))
unfolding decide resolve_ticket
decide-resolve_ticket ticket tool agent risk approves m human allowed inside =
    rw (allowed, inside, human) (simp get-set_self (refl, refl, refl, refl))
