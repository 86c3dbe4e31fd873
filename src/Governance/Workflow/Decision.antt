-- ===== src/Governance/Workflow/Decision.antt =====
-- What a stage of governance/workflow.py says of the votes that were cast.
use amber_claw.Base.{
  ℕ, ◌≤◌, ◌<◌, ◌≡◌, Bool, true, false, not, some, String, raise, List, [], ◌∷◌, arith,
  count_if-append, Option-cases, inl, inr, Bool-cases,
}
use amber_claw.Base.Dict
use amber_claw.Base.Dict.{get-set}
use amber_claw.Base.Key.{text_key, ◌==◌}
use amber_claw.Governance.Workflow.{
  ApprovalRequest, ApprovalVote, WorkflowEngine, approved, rejected, expired, already_finalized,
  approval_count, rejection_count, is_finalized, store, submit_request, get_request, count_vote,
  cast_vote,
}

-- The stage of a request agrees with its votes.
pub record Agrees (r : ApprovalRequest) : Type 0 where
  pub approved_enough : r.stage ≡ approved → r.required_approvals ≤ approval_count r
  pub approved_unanimous : r.stage ≡ approved → rejection_count r ≡ 0
  pub rejected_once : r.stage ≡ rejected → rejection_count r ≡ 1
  pub open_unanimous : is_finalized r ≡ false → rejection_count r ≡ 0
  pub open_short :
      is_finalized r ≡ false → 0 < approval_count r → approval_count r < r.required_approvals
  pub expired_unanimous : r.stage ≡ expired → rejection_count r ≡ 0

count_vote-Agrees :
    (now stamped : ℕ) (reviewer : String) (approves : Bool) (r : ApprovalRequest)
    → Agrees r
    → is_finalized r ≡ false
    → Agrees (count_vote now stamped reviewer approves r)
unfolding count_vote
count_vote-Agrees now stamped reviewer approves r a o =
    let vote : ApprovalVote = record {
      reviewer_id = reviewer;
      approves = approves;
      timestamp = stamped;
    } in
    ground (
      arith,
      count_if-append (λ (v : ApprovalVote). v.approves) r.votes (vote ∷ []),
      count_if-append (λ (v : ApprovalVote). not v.approves) r.votes (vote ∷ []),
    )

abbrev pub AllAgree : WorkflowEngine → Type 0
AllAgree e = (id : String) (r : ApprovalRequest) → Dict.get id e.requests ≡ some r → Agrees r

store-AllAgree :
    (id : String) (r : ApprovalRequest) (e : WorkflowEngine)
    → Agrees r
    → AllAgree e
    → AllAgree (store id r e)
unfolding store
store-AllAgree id r e a all j s stored = elim (Bool-cases (id == j)) [
  | inl same ↦ let eq : r ≡ s = ground (arith, get-set id j r e.requests) in rw (← eq) a
  | inr other ↦ all j s (ground (arith, get-set id j r e.requests))
]

pub data Call : Type 0 where
  submit : String → ℕ → String → ℕ → Bool → Call
  vote : String → ℕ → ℕ → String → Bool → Call

unfoldable pub step : Call → WorkflowEngine → WorkflowEngine
step (submit id now requester required auto) e = (submit_request id now requester required auto e).0
step (vote id now stamped reviewer approves) e = (cast_vote id now stamped reviewer approves e).0

unfoldable pub run : List Call → WorkflowEngine → WorkflowEngine
run [] e = e
run (c ∷ cs) e = run cs (step c e)

submit-AllAgree :
    (id : String) (now : ℕ) (requester : String) (required : ℕ) (auto : Bool) (e : WorkflowEngine)
    → AllAgree e
    → AllAgree (submit_request id now requester required auto e).0
unfolding submit_request
submit-AllAgree id now requester required true e h = store-AllAgree id _ e (ground arith) h
submit-AllAgree id now requester required false e h = store-AllAgree id _ e (ground arith) h

vote-AllAgree :
    (id : String) (now stamped : ℕ) (reviewer : String) (approves : Bool) (e : WorkflowEngine)
    → AllAgree e
    → AllAgree (cast_vote id now stamped reviewer approves e).0
unfolding cast_vote get_request
vote-AllAgree id now stamped reviewer approves e h = elim (Option-cases (Dict.get id e.requests)) [
  | inl missing ↦ rw (missing, cast_vote) h
  | inr (r, found) ↦ elim (Bool-cases (is_finalized r)) [
    | inl done ↦ rw (found, cast_vote) (rw done h)
    | inr pending ↦
        rw (found, cast_vote)
          (rw pending (
            store-AllAgree id _ e
              (count_vote-Agrees now stamped reviewer approves r (h id r found) pending) h))
  ]
]

-- Whatever requests are submitted and votes cast, every stored request agrees with its votes, if
-- that held before: an approved one has the approvals it requires and no rejection, a rejected one
-- has a single rejection, and a pending one has no rejection and, once it has an approval, fewer
-- than it requires.
pub run-AllAgree : (cs : List Call) (e : WorkflowEngine) → AllAgree e → AllAgree (run cs e)
unfolding run step
run-AllAgree [] e h = h
run-AllAgree (submit id now requester required auto ∷ cs) e h =
    run-AllAgree cs _ (submit-AllAgree id now requester required auto e h)
run-AllAgree (vote id now stamped reviewer approves ∷ cs) e h =
    run-AllAgree cs _ (vote-AllAgree id now stamped reviewer approves e h)

-- A vote on a finalized request raises, and changes nothing.
pub cast_vote-finalized :
    (id reviewer : String) (now stamped : ℕ) (approves : Bool) (e : WorkflowEngine)
    (r : ApprovalRequest)
    → get_request id e ≡ some r
    → is_finalized r ≡ true
    → cast_vote id now stamped reviewer approves e ≡ (e, raise already_finalized)
unfolding cast_vote get_request
cast_vote-finalized id reviewer now stamped approves e r found done =
    rw (found, cast_vote) (rw done)
