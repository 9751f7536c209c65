-- ===== src/Lib.antt =====
-- Verification of plant-ops, the identity and access core of a multi-tenant plant platform.
--
-- The program answers who may do what, where. Tenants have a tree of scope nodes with a materialised
-- path each; role bindings give a user or a service account a role at a node; the resolution engine
-- turns the bindings into grants (permission keys with minimal sets of covering paths); a guard in
-- every service decides each request against the grants; the navigation tree is pruned by the held
-- keys; sessions are refreshed with rotating tokens. Time is a number of seconds, or of a
-- smaller unit that a file names, given to each operation as the source's `now()`; a timestamp is
-- compared in the way the SQL does.
--
--   Prelude      strings as lists of code units, sorting, sets in insertion order, list lemmas
--   Contracts    constants of libs/contracts/src/constants.ts that components share
--   Scope        apps/iam-api/src/scopes/path.util.ts and scopePathLabel of
--                libs/db/src/entities/scope-node.entity.ts: paths, depth, moving a subtree
--   Grants       apps/iam-api/src/authz/grants.util.ts and the pure functions of
--                libs/auth-kit/src/scope-resolver.ts: minimizePaths, assembleGrants, sliceGrants,
--                holdsPermission, coversPath, allowedPathsFor
--   Decision     ScopeResolver.decide (libs/auth-kit/src/scope-resolver.ts), readScopeTarget
--                (require-permission.decorator.ts) and PermissionGuard (permission.guard.ts); the
--                grants source is a parameter
--   Resolver     apps/iam-api/src/authz/resolver.service.ts: the query's joins and conditions over
--                lists of rows, and the node lookup
--   Navigation   apps/iam-api/src/navigation/prune.ts: pruneNavTree with visibleAmong and visibleNode
--   Refresh      apps/iam-api/src/auth/refresh.service.ts, refresh-replay.cache.ts and
--                refresh-token.util.ts, rotateRefreshToken of session.service.ts, and the SQL function
--                of libs/db/src/migrations/0013-refresh-rotation.ts; the hash, the minted candidate,
--                the signer and the Redis commands are parameters
--   KeyRotation  libs/config/src/key-rotation.ts: planPublish, planActivate, planRetire
--   GrantsCache  apps/iam-api/src/authz/grants-cache.service.ts, and grantsFor and check of
--                resolver.service.ts; the cell of a subject is its entry and its version counter
--   Manifest     apps/iam-api/src/registry/manifest-diff.ts: the plan of an upsert and its diff
--   Accounts     login of apps/iam-api/src/auth/auth.service.ts, account-state.service.ts, and the SQL
--                functions of libs/db/src/migrations/0012-auth-functions.ts and
--                0014-password-reset-account-state.ts that they call; a state is the table rows, the
--                audit trail and what was published; Accounts/Resets has the password resets of
--                password-reset.service.ts and the SQL functions of the same migration
--   Csv          apps/iam-api/src/users/csv.util.ts: parseCsv, readLines, readQuotedField
--   Authentication libs/auth-kit/src/auth.guard.ts (canActivate, isRevoked, bearerTokenOf) and
--                revocation-cache.ts; the verifier, the store and the fallback are parameters
--   Coverage     libs/web-kit/src/scope-coverage.ts: the coverage test of the browser
--   ResolveCache libs/iam-client/src/resolve-cache.ts: get, reload, invalidate and clear, as events
--                in any order; the load itself is an event with its answer
--   ScopeTree    apps/iam-api/src/scopes/scopes.service.ts: create, update (rename, move) and remove
--                over the rows, what they refuse, record and publish
--   CsvWriter    apps/iam-api/src/audit/audit-csv.ts: the cells and rows of an export
--   Audit        audit-query.service.ts and audit-export.service.ts of apps/iam-api/src/audit: the
--                filter, the pages and the export, by chunks from a cursor
--   Tokens       claims.ts and jws.ts of libs/auth-kit/src, and token.service.ts of
--                apps/iam-api/src/auth: an access token from its issue to its claims
--   Jwks         libs/auth-kit/src/jwks-verifier.ts: the key cache of a consumer of tokens, with
--                the endpoint's answers as a parameter
--   Redact       apps/iam-api/src/audit/redact.ts: what an audit payload loses before it is written
--
-- Fuel. The walk of pruneNavTree recurses through the catalog; the model takes one round for each
-- node of the catalog and one more. That these are enough on a catalog without repeated ids is
-- the theorem of Navigation/Depth. The loop of readLines takes as many rounds as the content has
-- characters, which Csv/Ends shows to be enough. All other loops are structural.
--
-- Not modelled: the HTTP layer, TypeORM and the row-level security of Postgres (the tenant predicate
-- of each query is modelled), the user interface, the cryptography, and the services that only read
-- and write rows. Object keys keep insertion order, as they do in JavaScript unless they are array
-- indices, which permission keys are not. The two Redis commands of an election are one step of the
-- race, since an entry outlives the grace window by replay_slack_seconds. Calls of a consumer's verifier come
-- one after the other: those that wait for one request in flight are left out. Base64url, JSON and
-- the signatures are parameters of the tokens, with the laws of Tokens/Issued, which the concrete
-- instance of Tokens/Letters keeps.
pub mod Prelude
pub mod Contracts
pub mod Scope
pub mod ScopeTree
pub mod Grants
pub mod Decision
pub mod Authentication
pub mod Tokens
pub mod Jwks
pub mod Coverage
pub mod ResolveCache
pub mod Resolver
pub mod Navigation
pub mod Refresh
pub mod KeyRotation
pub mod GrantsCache
pub mod Manifest
pub mod Accounts
pub mod Csv
pub mod Redact
pub mod CsvWriter
pub mod Audit
