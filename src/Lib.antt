-- ===== src/Lib.antt =====
-- Verification of brain-mcp-server, the server that keeps Brains (trees of Markdown files) for
-- assistants, with a hosted store of revisions and an agent that synchronises local copies.
--
-- The parts and how they interact. Every write to a Brain is a proposal to the revision store. Before it
-- is applied, the admission looks up the policy of the Brain, checks the proposal and its evidence against
-- it, and reads hosted evidence again. The store compares the base of the proposal with the head of the
-- file, and then appends a revision, or records a conflict; under an enforced policy it also writes a
-- bounded entry to LOG.md by the same operation. The sync agent proposes local changes and deletions to
-- that store and pulls its heads. Grants decide who may administer and use a Brain; codes and tokens of
-- the OAuth server are kept in tables whose entries expire, and the token endpoint exchanges them over
-- these tables. The registry of a deployment names its Brains and principals, and every request resolves
-- the Brain that it is about in it, with the role of its principal. The files of a Brain refer to each
-- other: the graph of these references tells which files a reader can reach, and a rename rewrites the
-- links to the renamed file.
--
-- Files of this library and the sources that they model (paths from the repository's root):
--   Prelude          shared names: JavaScript's texts (lists of UTF-16 units), lists, maps, numbers
--   Policy           src/services/write-policy.ts: data, errors, and the functions of the runtime
--   Policy/Patterns  the regular expressions of that file, as functions on texts
--   Policy/Lines     addedLines
--   Policy/Queue     activeQueueBlocks, assertQueuePolicy, assertCapturePolicy
--   Policy/Knowledge assertKnowledgeWrite, assertReceipt
--   Policy/Receipt   formatAutomaticChange
--   Policy/Values    policies as parsed JSON, and validateWritePolicy
--   Policy/Deployment  src/services/write-policy-runtime.ts
--   Log              src/services/log.ts: formatLogEntry, appendLogEntryToContent
--   Log/Entries      parseLogEntries, readLogContent
--   Revisions        src/sync/types.ts: revisions, proposals, conflicts, changes
--   Revisions/Admission  src/services/write-admission.ts
--   Revisions/Memory src/sync/memory-revision-store.ts: the store, reading, recordConflict
--   Revisions/Memory/Writes    new revisions, and the entry of LOG.md
--   Revisions/Memory/Proposals proposeRevision and applyRevision
--   Revisions/Memory/Removals  proposeDeletion and proposeRename
--   Revisions/Memory/Conflicts listConflicts, resolveConflict, listChanges
--   Revisions/Memory/Steps     the store as a machine of four kinds of step
--   Revisions/File   src/sync/file-revision-store.ts: the memory store behind a file
--   Sync             src/sync/types.ts and src/sync/local-sync-agent.ts: state, report, interfaces
--   Sync/Deletions   inferGuardedDeletions
--   Sync/Pull        pullHostedChanges: its loop in Sync/Pull/Heads, the whole in
--                    Sync/Pull/Hosted
--   Access           src/services/access-grants.ts: rows and mutations
--   Access/Mutations applyMutation, rolesForPrincipal, recordReconciliation, the roster of owners
--   Oauth            src/oauth/state.ts: the tables of the OAuth server
--   Oauth/Pkce       src/oauth/pkce.ts
--   Oauth/Grants     records, resources and the check of the current grant, from src/oauth/token.ts,
--                    src/oauth/config.ts and src/oauth/jwt.ts
--   Oauth/Clients    requests, answers and authenticateClient of src/oauth/token.ts
--   Oauth/Token      the two grants and handleToken
--   Graph            src/services/brain-graph.ts: data, adjacency and the worklist
--   Graph/Paths, Graph/Globs, Graph/Fences  paths, exempt globs, fenced code blocks
--   Graph/Scanning, Graph/Extract  the regular expressions, and extractRawEdges
--   Graph/Targets    resolveRawEdge
--   Graph/Analysis   analyzeBrainGraph
--   Registry         src/services/registry.ts: the registry, the values that it checks, the process
--   Registry/Shape, Registry/Loading  assertRegistryShape, loadRegistry, and runtimeBrainId of
--                    src/services/runtime-env.ts
--   Registry/Access  accessibleRoles, listAccessibleBrains, resolveBrain
--   Registry/Paths   pathsForBrain, getBrainPaths, sourceCategoriesForBrain
--   Wikilinks        src/services/wikilinks.ts: links, rewriteInboundLinks, findInboundLinkFiles
-- Below a component, the modules named for a fact prove it (Queue/Quota, Memory/Answers, Memory/Cas,
-- Memory/Invariant, Memory/Published, Memory/Resolved, Deletions/Guards, Deletions/Sent, Pull/Edits,
-- Access/Owners, Oauth/Once, Token/Rotation, Token/Stored, Token/Kept, Graph/Search, Registry/Sound,
-- Registry/Granted), and the modules Tests run the code on concrete inputs.
--
-- Conventions. A function has the name of the source's function in snake case. An exception is an `err`;
-- a method that changes an object takes the state and returns the new one, also where it throws. Null and
-- undefined are `none`. Times and generated ids are arguments. Hashes, dates, URLs, Unicode tables and
-- JSON are the fields of `Runtime`, with no assumption about them. The registry has errors of its own,
-- and takes the environment, its file and the functions of node:path from a `Host`. A table of the OAuth
-- server is an object, whose reads also give what objects inherit ("constructor"): these names are a list
-- in Oauth, the value inherited has none of the fields that the code reads, and an undefined text is the
-- empty text there. The registry reads roles in the same way.
--
-- Bounds and recursion. Loops are structural recursion on their lists. applyRevision calls itself once,
-- for LOG.md with the program's own context, which never needs a second entry: the model unrolls the
-- recursion once. Only the worklist of the graph runs on fuel: the number of its first entries and of the
-- edges, which is enough since a round takes one entry and an edge is queued once at most. Numbers are
-- natural numbers; the program's counters do not reach the limit of exact integers.
--
-- Not modelled: the interleaving of asynchronous operations (each operation of the store is atomic), the
-- Postgres store, the parsing of JSON, searching, the push of the sync agent, ingestion, lint, the OAuth endpoints but
-- the token endpoint, the servers and their tools. The check of changed local bytes against a policy
-- during a pull, and the access to the local disk, are parameters of the pull.
pub mod Prelude
pub mod Graph
pub mod Registry
pub mod Wikilinks
pub mod Policy
pub mod Log
pub mod Revisions
pub mod Sync
pub mod Access
pub mod Oauth
