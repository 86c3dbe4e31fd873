-- ===== src/Security/Approval.antt =====
-- src/amberclaw/security/approval.py: the runaway-loop guard and the approval of tool calls. The hash
-- of the arguments is a parameter, a text; audit records are output and left out.
use amber_claw.Base.{
  ℕ, ◌+◌, Bool, true, false, not, ◌&&◌, ◌||◌, Option, none, some, String, Result, ok, raise, leb,
  ltb, if◌then◌else◌, List, [], ◌∷◌, any,
}
use amber_claw.Base.Dict
use amber_claw.Base.Dict.{Dict, get_or}
use amber_claw.Base.Key.{text_key, ◌==◌, contains, truthy}
pub mod Loops
pub mod Gate

pub data ToolRiskLevel : Type 0 where
  read_only low medium high critical : ToolRiskLevel

abbrev pub risk_index : ToolRiskLevel → ℕ
risk_index read_only = 0
risk_index low = 1
risk_index medium = 2
risk_index high = 3
risk_index critical = 4

pub data ApprovalStatus : Type 0 where
  approved rejected pending_approval : ApprovalStatus

-- The last tool and argument hash of a turn, and how often they came in a row.
pub record Streak : Type 0 where
  pub last_tool : String
  pub last_hash : String
  pub count : ℕ

pub record RunawayLoopGuard : Type 0 where
  pub max_calls_per_turn : ℕ
  pub max_duplicate_consecutive_calls : ℕ
  pub turn_call_counts : Dict String ℕ
  pub turn_consecutive : Dict String Streak

pub data Error : Type 0 where
  too_many_calls too_many_duplicates : Error

abbrev pub no_streak : Streak
no_streak = record { last_tool = ""; last_hash = ""; count = 0 }

-- The streak after a call.
unfoldable pub extend : String → String → Streak → Streak
extend tool hash s = record {
  last_tool = tool;
  last_hash = hash;
  count = if s.last_tool == tool && s.last_hash == hash then s.count + 1 else 1;
}

-- The second check, on the streak that the call makes.
abbrev check_streak :
    String → Streak → RunawayLoopGuard → RunawayLoopGuard × Result Error (Unit {0})
check_streak turn s g = (
  record g { turn_consecutive = Dict.set turn s g.turn_consecutive },
  if leb g.max_duplicate_consecutive_calls s.count then raise too_many_duplicates else ok tt,
)

unfoldable pub record_and_check :
    String → String → String → RunawayLoopGuard → RunawayLoopGuard × Result Error (Unit {0})
record_and_check turn tool hash g =
    let n = get_or 0 (Dict.get turn g.turn_call_counts) + 1 in
    let g' = record g { turn_call_counts = Dict.set turn n g.turn_call_counts } in
    if ltb g.max_calls_per_turn n
    then (g', raise too_many_calls)
    else check_streak turn (extend tool hash (get_or no_streak (Dict.get turn g.turn_consecutive)))
        g'

unfoldable pub reset_turn : String → RunawayLoopGuard → RunawayLoopGuard
reset_turn turn g = record g {
  turn_call_counts = Dict.remove turn g.turn_call_counts;
  turn_consecutive = Dict.remove turn g.turn_consecutive;
}

pub record ToolSafetyPolicy : Type 0 where
  pub require_human_approval_levels : List ToolRiskLevel
  pub agent_allowlists : Dict String (List String)
  pub agent_denylists : Dict String (List String)

pub record PendingTicket : Type 0 where
  pub tool_name : String
  pub agent_id : String
  pub risk_level : ToolRiskLevel
  pub status : String

pub record ToolApprovalManager : Type 0 where
  pub policy : ToolSafetyPolicy
  pub loop_guard : RunawayLoopGuard
  pub pending_tickets : Dict String PendingTicket

pub record ApprovalDecision : Type 0 where
  pub status : ApprovalStatus
  pub tool_name : String
  pub agent_id : String
  pub risk_level : ToolRiskLevel
  pub ticket_id : Option String

-- `"*" in xs or tool in xs`
unfoldable pub listed : String → List String → Bool
listed tool xs = contains "*" xs || contains tool xs

unfoldable pub is_denied : ToolSafetyPolicy → String → String → Bool
is_denied p agent tool = listed tool (get_or [] (Dict.get agent p.agent_denylists))

-- An agent without an allowlist may use every tool.
abbrev outside : String → Option (List String) → Bool
outside tool none = false
outside tool (some xs) = not (listed tool xs)

unfoldable pub is_outside : ToolSafetyPolicy → String → String → Bool
is_outside p agent tool = outside tool (Dict.get agent p.agent_allowlists)

unfoldable pub needs_human : ToolSafetyPolicy → ToolRiskLevel → Bool
needs_human p risk =
    any (λ r. leb (risk_index r) (risk_index risk) && leb (risk_index risk) (risk_index r))
      p.require_human_approval_levels

-- The checks after the loop guard; `ticket` is the new ticket's ID.
unfoldable pub decide :
    String
    → String
    → String
    → ToolRiskLevel
    → Bool
    → ToolApprovalManager
    → ToolApprovalManager × ApprovalDecision
decide ticket tool agent risk bypass m =
    let decision = λ (s : ApprovalStatus) (t : Option String).
      let d : ApprovalDecision = record {
        status = s;
        tool_name = tool;
        agent_id = agent;
        risk_level = risk;
        ticket_id = t;
      } in
      d in
    let pending : PendingTicket = record {
      tool_name = tool;
      agent_id = agent;
      risk_level = risk;
      status = "pending";
    } in
    if is_denied m.policy agent tool
    then (m, decision rejected none)
    else if is_outside m.policy agent tool
    then (m, decision rejected none)
    else if not bypass && needs_human m.policy risk
    then (
      record m { pending_tickets = Dict.set ticket pending m.pending_tickets },
      decision pending_approval (some ticket),
    )
    else (m, decision approved none)

abbrev after_guard :
    String
    → String
    → String
    → ToolRiskLevel
    → Bool
    → ToolApprovalManager
    → Result Error (Unit {0})
    → ToolApprovalManager × Result Error ApprovalDecision
after_guard ticket tool agent risk bypass m (raise e) = (m, raise e)
after_guard ticket tool agent risk bypass m (ok _) =
    let (m', d) = decide ticket tool agent risk bypass m in (m', ok d)

abbrev guarded :
    String
    → String
    → Option String
    → ToolApprovalManager
    → ToolApprovalManager × Result Error (Unit {0})
guarded tool hash none m = (m, ok tt)
guarded tool hash (some turn) m =
    let (g, r) = record_and_check turn tool hash m.loop_guard in
    if truthy turn then (record m { loop_guard = g }, r) else (m, ok tt)

unfoldable pub evaluate_tool_execution :
    String
    → String
    → String
    → String
    → ToolRiskLevel
    → Option String
    → Bool
    → ToolApprovalManager
    → ToolApprovalManager × Result Error ApprovalDecision
evaluate_tool_execution ticket hash tool agent risk turn bypass m =
    let (m', r) = guarded tool hash turn m in after_guard ticket tool agent risk bypass m' r

abbrev resolve_found :
    String → Bool → ToolApprovalManager → Option PendingTicket → ToolApprovalManager × Bool
resolve_found ticket approves m none = (m, false)
resolve_found ticket approves m (some t) =
    let t' = record t { status = if approves then "approved" else "rejected" } in
    (record m { pending_tickets = Dict.set ticket t' m.pending_tickets }, true)

unfoldable pub resolve_ticket : String → Bool → ToolApprovalManager → ToolApprovalManager × Bool
resolve_ticket ticket approves m =
    resolve_found ticket approves m (Dict.get ticket m.pending_tickets)

unfoldable pub clear_turns : RunawayLoopGuard → RunawayLoopGuard
clear_turns g = record g { turn_call_counts = []; turn_consecutive = [] }

unfoldable pub clear : ToolApprovalManager → ToolApprovalManager
unfolding clear_turns
clear m = record m { loop_guard = clear_turns m.loop_guard; pending_tickets = [] }
