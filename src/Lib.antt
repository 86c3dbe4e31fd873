-- ===== src/Lib.antt =====
-- AmberClaw is an agent platform in Python. This library models the parts of it that decide: who may
-- act, what runs, how often, and what happens when something fails. Paths below are from the
-- repository's root.
--
-- Parts, and how they meet:
-- * Tickets (src/amberclaw/tickets): CheckoutManager gives one agent at a time an expiring lease on a
--   ticket (checkout.py: Tickets.Checkout, its leases in Lease and Claim); IssueManager keeps
--   the issues that the tickets track (issue.py: Tickets.Issue, with Lifecycle and Listing);
--   TicketInbox sorts the issues for triage and reads both (inbox.py: Tickets.Inbox, with Order and
--   Queue); AttachmentStore keeps files with their digests (attachments.py: Tickets.Attachments,
--   with Reading), CommentManager the threads of comments (comments.py: Tickets.Comments, with Threads).
-- * Providers (src/amberclaw/providers/resilience.py): a CircuitBreaker stands before each model
--   provider (Providers.Breaker, with Invariant, Runs and Calls), counts its calls in a
--   ProviderHealthTracker (Providers.Health) and shares a Bulkhead (Providers.Bulkhead).
-- * Governance (src/amberclaw/governance): policies.py says whether an action is allowed, denied or
--   needs approval (Governance.Policies, with Priority); workflow.py collects the votes on an approval
--   (Governance.Workflow, with Decision and Approvals); rollback.py undoes actions (Governance.Rollback,
--   with Execution); audit.py keeps a chain of hashed records (Governance.Audit, with Chain, Tamper and
--   Query); board.py asks humans about proposals through the tickets of tickets.py (Governance.Board,
--   with Outcome and Stale, over Governance.Tickets).
-- * Cron (src/amberclaw/cron): the schedules of types.py and service.py (Cron.Types), the store that
--   the service writes and reads (Cron.Store, with RoundTrip) and the service itself, which keeps the
--   store in memory and in a file that others may change (Cron.Service, with Timer, Earliest, Progress,
--   Spent, OneShot and Cancelled).
-- * Org (src/amberclaw/org): permissions.py gives roles their permissions and levels (Org.Permissions);
--   chart.py and agent_node.py keep the tree of agents and ask the policy about a delegation
--   (Org.Chart, with Walk, Acyclic, Removal and Escalation).
-- * Security (src/amberclaw/security): abac.py decides on access and grants elevations for a time
--   (Security.Abac, with Decision and Elevation); approval.py decides on tool calls, after a guard
--   against runaway loops (Security.Approval, with Gate and Loops); tokens.py issues and rotates
--   refresh tokens (Security.Tokens, with Rotation and Reuse), keeps API keys (Security.ApiKeys, with
--   Records, Access and Retired) and grants emergency elevations (Security.BreakGlass, with Ends).
-- * Session (src/amberclaw/session/manager.py, src/amberclaw/agent/memory.py and the command /new of
--   src/amberclaw/agent/loop.py): conversations, what the model is shown of them, and their
--   consolidation into the long-term memory (Session, with Window, Archive, Missed, Failure and Conserve).
-- * Heartbeat (src/amberclaw/heartbeat): recovery.py restarts failed processes with exponential backoff
--   (Heartbeat.Recovery, with Limits); engine.py marks silent processes as dead and isolation.py sets
--   them apart (Heartbeat.Engine, with Silence and Zombies).
-- * Rag (src/amberclaw/rag/chunker.py): texts cut into overlapping chunks (Rag.Chunker, with Windows
--   and Cover).
-- * Bus (src/amberclaw/bus/queue.py): the message bus between channels and agents (Bus.Queue, with
--   Order).
-- * Cache (src/amberclaw/cache/resilience.py): the in-memory tier and the state of the Redis tier of the
--   cache (Cache.Resilience, with Index, Tags, Invalidation, Bounds and Capacity).
-- Base holds what they share: tests on numbers, lists measured by native numbers, results with
-- exceptions, dictionaries as association lists (Base.Dict over Base.Key), JSON values (Base.Json),
-- permutations (Base.Perms) and texts as lists of code points (Base.Text). The Tests modules run the definitions and the theorems at concrete inputs.
--
-- How the code is read. A class is a record of its fields, a method a function that takes and returns
-- the record by the method's name; a method that raises returns a Result. A method that reads the
-- clock takes each reading as an argument, in the order of the code, so that other tasks may come in
-- between; times and durations are natural numbers of ticks. New UUIDs and hashes are arguments. A
-- dict is an association list in insertion order, a set of names a list or a dictionary to the unit
-- type. Where objects are shared by reference the store that holds them is passed on. A sequence of
-- calls is a list of a data type Call of the module, and `run` makes them one after the other, each as
-- one step. For methods that do not wait inside, these are all interleavings of tasks. Where a method
-- waits, what others do meanwhile is an argument: the rounds of calls between the board's polls, the
-- messages that come in during a consolidation. A tick of the cron service is a step in which no other
-- task arms the timer; a tick that one cancels so is `cancelled_timer`.
--
-- Loops that are no recursion on a list run on fuel: the walks up the chart in `_creates_cycle` and
-- `get_escalation_path` have the number of nodes and one, since a walk marks a new node each time; the
-- loop of `chunk_text` has the length of the text and one, since each window starts further on. The
-- digits of a number have the number and one. The board's wait for an answer is the 50 polls of the
-- code.
--
-- Not modelled: floating-point arithmetic (the health score, percentiles), logging, metrics and the
-- audit records that the other parts write, which are output; threads' locks, whose sections are
-- single steps here; Redis, the network, model clients, channels' platforms and user interfaces. Of
-- the file system the model has the content and the modification time of the files that the code
-- reads back. Signatures, digests, cron expressions and time zones are parameters.
pub mod Base
pub mod Tickets
pub mod Providers
pub mod Governance
pub mod Org
pub mod Heartbeat
pub mod Bus
pub mod Cron
pub mod Cache
pub mod Rag
pub mod Security
pub mod Session
