-- ===== src/Lib.antt =====
-- A model of the decision core of the Trust Transfer Protocol repository: what an action can cause,
-- how a trust change is answered, how an execution is authorized and verified at the effect boundary,
-- and the services that decide on requests, keep receipts and issue tokens.
--
-- Parts and files (paths from the repository's root):
--   Consequence   packages/pctr/src/consequences.mjs: classifyAction and its regular expressions.
--   Decisions     packages/pctr/src/decisions.mjs: respondToChange, reconcile, the postures, and
--                 requiresHumanApproval of packages/pctr/src/trust.mjs.
--   Json          packages/pctr/src/ttp.mjs (mirrored by src/util.mjs): canonicalize, hashObj.
--   Signing       packages/pctr/src/keys.mjs: keyIdFor, signHash, verifyHash.
--   Authority     packages/pctr/src/authority.mjs: issueAuthority, verifyAuthority, replay stores.
--   Boundary      packages/pctr/src/boundary.mjs: createBoundary and sequences of verifications.
--   Receipt       packages/pctr/src/receipt.mjs: verifyReceipt, verifyReceiptChain.
--   Graph         packages/pctr/src/graph.mjs: outgoing, incoming and pathsToAction.
--   Trust         packages/pctr/src/trust.mjs: agentTrustNow, meetsThreshold; apply_decay of ttp.mjs.
--   Router        packages/pctr/src/router.mjs: resolveRoute, reroute; verify_trust_route of ttp.mjs
--                 and the ranking of packages/pctr/src/history.mjs.
--   Routing       packages/trust-routing-engine/src: resolve.js, decay.js, policy.js.
--   Isnad         src/isnad.mjs: whether verify_isnad_chain finds a chain valid.
--   Gate          reference-implementations/runtime-authority-gate: server.mjs and signing.mjs.
--   Service       services/authority: the decision of index.ts, the ledger of receiptLedger.ts with what
--                 becomes of its writes, approvals, the policy, and sequences of calls.
--   TrustAuthority reference-implementations/trust-authority/src: the store, the aggregation of
--                 scores, the routes that take receipts and issue tokens, and the operator's.
--   Common        tests, array methods, failure lists and the interface of numbers.
-- The router takes the paths of Graph, judges their agents by Trust and ranks what is admissible. A
-- consequence's severity feeds the decisions and the approval that an authority requires; an
-- authority is a JSON envelope, hashed by Json and signed by Signing; a boundary passes one replay
-- store from verification to verification.
--
-- Conventions. Doubles are a type parameter with the operations that the code calls (`Numbers`),
-- so that comparisons with NaN stay possible; runs use whole millionths. What belongs to the
-- platform is a parameter: SHA-256, Ed25519, the text of numbers and strings, key order,
-- `JSON.stringify`, `Number(...)` and dates (`Platform`, `Crypto`, `Host`, `Maths`). Field names
-- are in snake case. `null` and undefined are `none`, where the code does not tell them apart. An
-- array of failures is a list whose elements are the codes; messages are left out, or are symbolic
-- (`Reason`). Loops are over lists, but for pathsToAction, which goes back over delegations with
-- one unit of fuel more than there are edges: each step adds an agent at which an edge starts, and
-- all paths are found.
--
-- Restrictions. An object has each key once. The parameters of an execution and the material
-- parameters of an authority are objects, and its constraint `materialParams` is an array where it is
-- given; a decay constant is a number or left out; dates are not before 1970; keys are no empty strings;
-- limits are not negative. A string that is looked up in a table by a severity may be a name that
-- every object inherits, which is a case of its own. The clock stands still during a call of a service,
-- and times to live and durations are whole numbers.
--
-- Not modelled: file and network I/O, rendering, discovery, adapters and the command line; the
-- construction of the graph, the summary of a history, the protected loop, issuing receipts,
-- timelines, the other protocol primitives, the client libraries and the TTP language.
pub mod Authority
pub mod Boundary
pub mod Common
pub mod Consequence
pub mod Decisions
pub mod Gate
pub mod Graph
pub mod Isnad
pub mod Json
pub mod Receipt
pub mod Router
pub mod Routing
pub mod Service
pub mod Signing
pub mod Trust
pub mod TrustAuthority
