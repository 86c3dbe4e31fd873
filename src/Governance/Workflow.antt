-- ===== src/Governance/Workflow.antt =====
-- src/amberclaw/governance/workflow.py. `WorkflowEngine` is a record over the dictionary
-- `_requests`; each method takes the new UUID and the clock readings it makes, in order. `title`,
-- `description`, `comments` and `metadata`, which no method reads, are left out.
use amber_claw.Base.{
  ℕ, ◌+◌, Bool, true, false, not, ◌&&◌, ◌||◌, Option, none, some, String, Result, ok, raise, leb,
  ltb, if◌then◌else◌, List, [], ◌∷◌, ◌++◌, filter, count_if,
}
use amber_claw.Base.Dict
use amber_claw.Base.Dict.{Dict}
use amber_claw.Base.Key.{text_key}
pub mod Decision
pub mod Approvals

pub data WorkflowStage : Type 0 where
  submitted automated_checks human_review approved rejected expired : WorkflowStage

pub record ApprovalVote : Type 0 where
  pub reviewer_id : String
  pub approves : Bool
  pub timestamp : ℕ

pub record ApprovalRequest : Type 0 where
  pub request_id : String
  pub requester_id : String
  pub stage : WorkflowStage
  pub required_approvals : ℕ
  pub votes : List ApprovalVote
  pub created_at : ℕ
  pub expires_at : Option ℕ

pub record WorkflowEngine : Type 0 where
  pub requests : Dict String ApprovalRequest

pub data Error : Type 0 where
  request_not_found already_finalized : Error

abbrev pub approval_count : ApprovalRequest → ℕ
approval_count r = count_if (λ v. v.approves) r.votes

abbrev pub rejection_count : ApprovalRequest → ℕ
rejection_count r = count_if (λ v. not v.approves) r.votes

abbrev pub is_final : WorkflowStage → Bool
is_final approved = true
is_final rejected = true
is_final expired = true
is_final _ = false

abbrev pub is_finalized : ApprovalRequest → Bool
is_finalized r = is_final r.stage

unfoldable pub store : String → ApprovalRequest → WorkflowEngine → WorkflowEngine
store id r e = record { requests = Dict.set id r e.requests }

-- 86400 seconds, in ticks of a second.
abbrev pub ttl_seconds : ℕ
ttl_seconds = 86400

unfoldable pub submit_request :
    String → ℕ → String → ℕ → Bool → WorkflowEngine → WorkflowEngine × ApprovalRequest
submit_request id now requester required auto_pass_checks e =
    let req : ApprovalRequest = record {
      request_id = id;
      requester_id = requester;
      stage = if auto_pass_checks then automated_checks else submitted;
      required_approvals = required;
      votes = [];
      created_at = now;
      expires_at = some (now + ttl_seconds);
    } in
    let req' = if auto_pass_checks then record req { stage = human_review } else req in
    (store id req' e, req')

unfoldable pub get_request : String → WorkflowEngine → Option ApprovalRequest
get_request id e = Dict.get id e.requests

-- `req.expires_at and time.time() > req.expires_at`: a deadline of 0 is no deadline.
abbrev pub is_past : ℕ → Option ℕ → Bool
is_past now none = false
is_past now (some deadline) = ltb 0 deadline && ltb deadline now

-- The part of `cast_vote` after the guards of a missing and of a finalized request.
unfoldable pub count_vote : ℕ → ℕ → String → Bool → ApprovalRequest → ApprovalRequest
count_vote now stamped reviewer approves r =
    let vote : ApprovalVote = record {
      reviewer_id = reviewer;
      approves = approves;
      timestamp = stamped;
    } in
    let r' = record r { votes = r.votes ++ vote ∷ [] } in
    if is_past now r.expires_at
    then record r { stage = expired }
    else if not approves
    then record r' { stage = rejected }
    else if leb r.required_approvals (approval_count r')
    then record r' { stage = approved }
    else r'

vote_found :
    String
    → ℕ
    → ℕ
    → String
    → Bool
    → WorkflowEngine
    → Option ApprovalRequest
    → WorkflowEngine × Result Error ApprovalRequest
vote_found id now stamped reviewer approves e none = (e, raise request_not_found)
vote_found id now stamped reviewer approves e (some r) =
    let r' = count_vote now stamped reviewer approves r in
    if is_finalized r then (e, raise already_finalized) else (store id r' e, ok r')

-- `now` is the reading of the check, `stamped` the one in the vote.
unfoldable pub cast_vote :
    String → ℕ → ℕ → String → Bool → WorkflowEngine → WorkflowEngine × Result Error ApprovalRequest
unfolding vote_found
cast_vote id now stamped reviewer approves e =
    vote_found id now stamped reviewer approves e (get_request id e)

unfoldable pub list_pending : WorkflowEngine → List ApprovalRequest
list_pending e = filter (λ r. not (is_finalized r)) (Dict.values e.requests)
