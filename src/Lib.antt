-- ===== src/Lib.antt =====
-- Callytics is a call centre on top of Asterisk. The editor stores call flows (graphs of nodes and
-- edges) through the backend; the stasis service loads the published flow of an incoming call and
-- walks the call through it, node by node, with an executor for each type of node. Callers that reach
-- a queue node wait in Redis until an operator is free. This library models the path of a call:
--
--   Flow, Flow/Load     stasis/src/flowLoader.ts: FlowNode, FlowEdge, Flow; loadFlow, loadFlowById
--   Session             stasis/src/callSession.ts: CallSession, createSession, markCallEnded
--   Edges               stasis/src/engine/edgeResolver.ts: resolveNextEdge
--   NodeExec            stasis/src/nodes/index.ts: executeNode, with the executors that only compute
--   Routing             stasis/src/runtime.ts: the helpers that look up entry nodes and sub-flows
--   Runtime             stasis/src/runtime.ts: runFlow; Runtime/State has the variables of its loop
--   Timeouts            stasis/src/timeoutResolver.ts
--   Menu                stasis/src/executors/menu.executor.ts: executeMenu, collectMenuAttempt
--   GetDigits           stasis/src/nodes/index.ts: executeGetDigits
--   Hunt                stasis/src/nodes/hunt.executor.ts: executeHunt without the group strategy, and
--                       stasis/src/lib/formatDialNumber.ts
--   BusinessHours       stasis/src/executors/business_hours.executor.ts: evaluateBusinessHours
--   Queue               stasis/src/engine/queueManager.ts, and the list that executeQueue
--                       (stasis/src/executors/queue.executor.ts) keeps in Redis
--   QueueLogin          stasis/src/executors/queue_login.executor.ts: executeQueueLogin
--   Campaign            stasis/src/campaign-executor.ts: fillWindow, handleChannelEnd and their events
--   CampaignService     backend/src/campaigns/campaigns.service.ts and campaigns.controller.ts: the
--                       payloads, the operations on campaigns, uploads, and the executor's messages
--   Csv                 backend/src/campaigns/campaigns.service.ts: parseCsvLine
--   Validate            backend/src/flows/flows.service.ts: validateNodesConfig, validateEdgesConfig
--   FlowTree            backend/src/flows/flows.service.ts: remove, collectFlowSubtreeForDelete,
--                       getRootFlowId
--
-- Js holds JSON values and the conversions of ECMAScript that several parts apply to them; Prelude
-- holds what all parts share. The children of a part prove its theorems, and its Tests run it.
--
-- Asynchronous code is a function of its state: an await that reads from the outside (the executors
-- that speak to Asterisk, the end of a channel, the database of a sub-flow look-up) is a field of Env,
-- which the runtime takes as a parameter. The attempt of a menu, the entry of a PIN and the node that
-- collects digits are machines over the events that reach them, in any order; an attempt of a hunt is
-- an input with its time and its end. What others do to the queues while an operator is on the line,
-- and the comparison of bcrypt, are parameters of the queue login. SPOP, which
-- takes any element of a set, has the choice as an argument.
--
-- The loops of fillWindow run at the same time; their interleavings are sequences of the steps of
-- Campaign/Loops, between which a loop waits.
--
-- The database of the campaign service is a record of its tables. Its commands (requests, timers,
-- rows of the scheduler and messages of the executor) run one at a time, in any order; the numbers
-- of libphonenumber, toUpperCase, the casts and the foreign keys of the database are parameters.
--
-- Six loops run on fuel. fill_window takes the length of the queue. run_flow takes as fuel the
-- number of rounds of the loop of runFlow, which may walk a cyclic flow for as long as the caller
-- likes; run_flow-ends says how much is enough where its nodes lead downwards. hunt_loop takes the number
-- of its rounds, for which execute_hunt-Finishes gives the milliseconds of the total timeout.
-- The walk over the sub-flows takes the number of flows and two, and so does getRootFlowId;
-- remove-RemovedBy and get_root_flow_id-IsRootOf show it to be enough. execute_menu takes the number
-- of attempts; execute_menu-Finishes says that the two limits of the menu together are enough.
--
-- Numbers are natural, or integers where Number yields one; a text that Number reads as a
-- fraction, or in exponent or hexadecimal notation, counts as NaN. A JSON object has each key
-- once. Log output, music on hold, the playing of prompts, and errors of the database and of Redis
-- are left out, and the commands of one queue operation run without those of another between them.
-- The other executors and the backend's other services around the tables are not modelled.
pub mod Prelude
pub mod Js
pub mod Flow
pub mod GetDigits
pub mod Session
pub mod Edges
pub mod NodeExec
pub mod Routing
pub mod Runtime
pub mod Timeouts
pub mod Menu
pub mod Hunt
pub mod Queue
pub mod Validate
pub mod FlowTree
pub mod QueueLogin
pub mod Campaign
pub mod CampaignService
pub mod BusinessHours
pub mod Csv
