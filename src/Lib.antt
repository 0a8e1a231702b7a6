-- ===== src/Lib.antt =====
-- The authentication service of Karlo: it signs users in, issues and refreshes their tokens, says
-- what they may do in each product, and tells the other services when a token must stop working.
--
-- Prelude: lists, dictionaries, integers and texts that the other parts share.
-- Authctx (internal/platform/authctx): what every service links. Product, Catalog and Features hold
-- the permission catalogues and the features that companies buy (product.go, catalog_tms.go,
-- catalog_fms.go, features.go, fms-features.json). Principal has the checks on a caller (claims.go,
-- principal.go), Verifier the reading of a token (claims.go, verifier.go), Middleware the guards of
-- HTTP (middleware.go) and Interceptor the one of gRPC (grpc.go). Proofs are in Grants, Shipped,
-- Features.Gated, Middleware.Auth and Middleware.Announced.
-- Revocation (internal/platform/revocation): the list that each service keeps of what has been
-- announced. Held has its methods (revocation.go), Store the keys and messages of Redis and Watch the
-- loop that keeps the list in step, as a step relation (redis.go). Proofs are in Meaning, Pruning,
-- Listed, Justified and Durable.
-- Query (internal/platform/query/query.go, internal/repository/query.go): listings. Types, Parse and
-- Proto read a request, Sql turns it into conditions. Proofs are in Allowlist, Understood, Paging,
-- Quoting and Dropped.
-- Safeconv (internal/platform/safeconv/safeconv.go): conversions that saturate.
-- Entitlement (internal/repository/access_repository.go, internal/repository/module_repository.go,
-- internal/services/entitlement_service.go): the features that a company holds by its rows of modules
-- and settings. Rows and Features have the query and the resolution of entitlementFor, Modules the
-- withdrawal of a module, Service the calls of the service; proofs are in Statements, Purchases,
-- Withdrawal, Sales and Ended.
-- Access (internal/repository/access_repository.go, ActiveForCompany of
-- internal/repository/module_repository.go): the access that a token carries. Assemble has assemble and
-- dedupe, Build the queries of BuildAccess and BuildAccessForRole; proofs are in Keys, Visible,
-- Assembled and Reach.
-- Users (internal/services/user_service.go, with the statements of internal/repository that it calls):
-- Directory has the tables and the monad of the methods, Permissions the methods that change what a
-- user may do, Accounts those on the account itself, Registration and Enrolment the registration.
-- Steps and Updated say what a step leaves; proofs are in Granted, Usable, Isolation, Atomic, Refused,
-- Suspension, Allowlist and Seats.
-- Abbrev (internal/platform/abbrev/abbrev.go, BeforeCreate of internal/models/models.go): Derive has the
-- short code of a company, Bounds its length.
-- Shippers (internal/services/shipper_service.go): Tables has the rows, Record CreateShipper and the
-- listings, Claiming IssueClaimLink, PreviewClaim and Claim, over the people and roles of Users and the
-- entitlement. Proofs are in Claimed, Unique, Index, Offered and Shared.
-- Drivers (internal/services/driver_account_service.go): Names has the username that is derived,
-- Accounts the methods, which call the registration of Users. Proofs are in Free, Registered and
-- Adopted.
-- Models (internal/models/models.go): Arrays has the codec of a column of texts, Periods the dates of a
-- module; Scanned has the proof of the codec.
-- Import (cmd/import/plan.go, cmd/import/mapping.go): Mapping has what becomes of the texts of an export,
-- with Carried on the permissions; Roots has the walk from an account of the old users to the top of its
-- company, with one turn more than there are accounts, which Climbing shows to be enough.
-- Merge (internal/services/merge_service.go): Companies has Merge and Resolve; proofs are in Tenants and
-- Chains.
--
-- Auth (internal/services/auth_service.go, with its tables of internal/models/models.go and
-- internal/repository): Store has the rows, Exec the methods as functions on the tables, Sessions
-- the queries, Tokens the issue of a session, Login, Refresh, Account and Validate the operations.
-- Proofs are in Rotation, Admission, Credentials, Eviction, Passwords, Standing,
-- Ended and FailClosed.
--
-- A Go map is an association list in which a key is looked up from the front; an insertion replaces.
-- A Go `int` of a page is a natural number once Parse has clamped it, and the product that makes an
-- offset wraps at 64 bits. Times are natural numbers of nanoseconds. All loops are over lists, so no fuel is
-- needed, but for the walk of the import and the hundred usernames that are tried for a driver.
--
-- Emails and usernames are columns of CITEXT, which compare what the database's lower-casing makes of the
-- values: the parameter `fold`, of `Env`, `Fresh` and `Claims`; phones compare as they are. A false in a
-- column that is declared `default:true` is left out of an insertion by GORM and stored as true.
--
-- Outside the model, as parameters: JWT parsing and signing, bcrypt, random values, the clock, UUID
-- texts, encoding/json, strings.ToLower, and the answer of the cache's attempt counter. A call of the
-- database that can fail is one of the operations of `Op`, and `fails` of the request's `Env` says
-- which ones do; the methods of Users have such a set of calls of their own. Concurrent requests are
-- sequences of whole operations. In Auth the access of a user is a parameter, which Access builds. In
-- Shippers and Drivers a query does not fail for a reason of its own. Not modelled are the rest of the
-- import, and all handlers and set-up, which bind these parts to HTTP, gRPC and the database.
pub mod Prelude
pub mod Authctx
pub mod Revocation
pub mod Safeconv
pub mod Query
pub mod Entitlement
pub mod Access
pub mod Auth
pub mod Merge
pub mod Users
pub mod Import
pub mod Abbrev
pub mod Shippers
pub mod Models
pub mod Drivers
