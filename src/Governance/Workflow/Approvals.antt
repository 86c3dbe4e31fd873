-- ===== src/Governance/Workflow/Approvals.antt =====
-- A run of approvals on one request of governance/workflow.py.
use amber_claw.Base.{
  ℕ, ◌+◌, ◌≡◌, refl, true, false, ◌&&◌, Option, some, String, List, [], ◌∷◌, arith, leb, ltb,
  if◌then◌else◌, count_if-append, inl, inr, length, All, Bool-cases, map,
}
use amber_claw.Base.Dict.{get-set_self}
use amber_claw.Base.Key.{text_key}
use amber_claw.Governance.Workflow.{
  ApprovalRequest, ApprovalVote, WorkflowEngine, approved, approval_count, is_finalized, is_past,
  store, get_request, count_vote, cast_vote,
}
use amber_claw.Governance.Workflow.Decision.{Call, vote, run, step}

-- Who approves, with the two clock readings of the call.
pub record Ballot : Type 0 where
  pub reviewer : String
  pub now : ℕ
  pub stamped : ℕ

abbrev pub approvals : String → List Ballot → List Call
approvals id = map (λ b. vote id b.now b.stamped b.reviewer true)

get-vote :
    (id : String) (b : Ballot) (e : WorkflowEngine) (r : ApprovalRequest)
    → get_request id e ≡ some r
    → get_request id (step (vote id b.now b.stamped b.reviewer true) e)
      ≡ some (if is_finalized r then r else count_vote b.now b.stamped b.reviewer true r)
unfolding step cast_vote get_request store
get-vote id b e r found =
    ground (arith, found, get-set_self id (count_vote b.now b.stamped b.reviewer true r) e.requests)

get-run_finalized :
    (id : String) (bs : List Ballot) (e : WorkflowEngine) (r : ApprovalRequest)
    → get_request id e ≡ some r
    → is_finalized r ≡ true
    → get_request id (run (approvals id bs) e) ≡ some r
unfolding run
get-run_finalized id [] e r found done = found
get-run_finalized id (b ∷ bs) e r found done =
    get-run_finalized id bs (step (vote id b.now b.stamped b.reviewer true) e) r
      (ground (arith, get-vote id b e r found)) done

count_vote_approval :
    (b : Ballot) (r : ApprovalRequest)
    → is_past b.now r.expires_at ≡ false
    → let r' = count_vote b.now b.stamped b.reviewer true r in
      (r'.stage ≡ (if leb r.required_approvals (approval_count r + 1) then approved else r.stage))
      × (approval_count r' ≡ approval_count r + 1)
      × (r'.required_approvals ≡ r.required_approvals)
      × (r'.expires_at ≡ r.expires_at)
unfolding count_vote
count_vote_approval b r early =
    let v : ApprovalVote = record {
      reviewer_id = b.reviewer;
      approves = true;
      timestamp = b.stamped;
    } in
    ground (arith, count_if-append (λ (w : ApprovalVote). w.approves) r.votes (v ∷ []))

approvals_from :
    (id : String) (bs : List Ballot) (deadline : Option ℕ) (e : WorkflowEngine)
    (r : ApprovalRequest)
    → get_request id e ≡ some r
    → is_finalized r ≡ false
    → r.expires_at ≡ deadline
    → All (λ b. is_past b.now deadline ≡ false) bs
    → (r' : ApprovalRequest) × (get_request id (run (approvals id bs) e) ≡ some r')
      × (r'.stage ≡ (
          if ltb 0 (length bs) && leb r.required_approvals (approval_count r + length bs)
          then approved
          else r.stage))
unfolding run
approvals_from id [] deadline e r found pending same early = (r, found, refl)
approvals_from id (b ∷ bs) deadline e r found pending same early =
    let r' = count_vote b.now b.stamped b.reviewer true r in
    let e' = step (vote id b.now b.stamped b.reviewer true) e in
    let facts = count_vote_approval b r (rw same early.0) in
    let found' : get_request id e' ≡ some r' = ground (arith, get-vote id b e r found) in
    elim (Bool-cases (leb r.required_approvals (approval_count r + 1))) [
      | inl enough ↦
          (r', get-run_finalized id bs e' r' found' (ground (arith, facts)), ground (arith, facts))
      | inr short ↦
          let (s, got, stage) =
            approvals_from id bs deadline e' r' found' (ground (arith, facts))
              (ground (arith, facts)) early.1 in
          (s, got, ground (arith, facts, stage))
    ]

-- A run of approvals before the deadline, on a pending request, approves it exactly when it is not
-- empty and the approvals reach the number required. Who approves plays no part: one reviewer may
-- cast all of them.
pub run-approvals :
    (id : String) (bs : List Ballot) (e : WorkflowEngine) (r : ApprovalRequest)
    → get_request id e ≡ some r
    → is_finalized r ≡ false
    → All (λ b. is_past b.now r.expires_at ≡ false) bs
    → (r' : ApprovalRequest) × (get_request id (run (approvals id bs) e) ≡ some r')
      × (r'.stage ≡ (
          if ltb 0 (length bs) && leb r.required_approvals (approval_count r + length bs)
          then approved
          else r.stage))
run-approvals id bs e r found pending early =
    approvals_from id bs r.expires_at e r found pending refl early
