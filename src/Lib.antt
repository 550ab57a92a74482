-- ===== src/Lib.antt =====
-- Publishing of works and collections: a model of parts of the packages `core`, `integrations`,
-- `moderation`, `persistence`, `auth` and `billing`, and proofs about them.
--
-- A creator's collections have releases on their own site and mappings to galleries on other platforms;
-- their Works have assets, which are delivered as public derivatives; operations on a platform are
-- preceded by a preflight and followed by a recovery, imports by a preview; and review holds block them.
-- An organization owns workspaces, whose members act with the capabilities that it grants; old posts are
-- imported as private announcements; and a ledger keeps the credits of an account.
--
--   Destinations            packages/core/src/collection-destinations.ts: the types. Validation has
--                           `validateCollectionMapping`, Planning `planCollectionDestination` with the
--                           loop over the members in Planning.Members, Authorization
--                           `assertCurrentCollectionPlan` and `authorizeCollectionPlan`, and Execution
--                           `executeCollectionDestinationPlan`: its check, one round of its loop
--                           (Execution.Attempt), and the run (Execution.Run)
--   CollectionPublications  packages/core/src/collection-publications.ts
--   ImportCapabilities      packages/integrations/src/import-capabilities.ts
--   Derivatives             packages/integrations/src/public-derivative-publication.ts; the calls of
--                           repository and store are in Derivatives.Protocol
--   Preflight               packages/integrations/src/publication-preflight.ts
--   Moderation              packages/moderation/src/index.ts
--   Content                 packages/core/src/index.ts: availability, homes of data, content blocks
--   Recovery                packages/integrations/src/recovery.ts
--   Reconciliation          packages/integrations/src/index.ts: the functions on snapshots
--   Messaging               packages/integrations/src/direct-messaging-transport.ts: the outbox
--   Organizations           packages/core/src/organizations.ts: the types. Organizations.Decisions has the
--                           functions: authority itself, and below it changes of memberships, invitations
--                           and transfers
--   Announcements           packages/core/src/historical-announcements.ts: the types. Validation has
--                           `importedSourceKey`, with the validation of snapshots and posts below it,
--                           and Planning `planHistoricalAnnouncementImport`
--   Collections             packages/core/src/creator-collections.ts: the changes
--   Works                   packages/core/src/creator-works.ts with the methods for Works of
--                           packages/persistence/src/memory-creator-content.ts; Works.Runs has their runs
--   Viewing                 packages/core/src/shared-viewing.ts: the service; Viewing.Sharing has its store
--                           and the interleavings of controls
--   RateLimit               packages/auth/src/local-rate-limit.ts; RateLimit.Window.Runs has its runs
--   Billing                 packages/billing/src/index.ts: the ledger, usage and grants; Reservations has
--                           `reserveCredits`, with `finalizeReservation` and `expireCredits` below it
--   Timing                  packages/core/src/release-timing.ts
--   Common                  the language: Boolean tests, texts, lists, sets, sorting, dates, numbers
--
-- How code is modelled. A function is a function by clauses, with the names of the source in snake
-- case; an interface is a record and a union of literals a data type. A union that the code tests at
-- run time has one constructor more, `other`, for a value outside it. A number is an integer, an
-- infinity or NaN: fractions are not modelled, except that positions of shared viewing are doubles, as
-- multiples of the smallest one, whose sums and quotients are operations of `Viewing.Doubles`; theorems
-- on them assume of the language that it rounds to a nearest double (`Viewing.Rounding.Rounds`). Code
-- that throws returns `Result`; the texts of most messages are left out. `Set` and `Map` are lists in
-- the order of insertion. Asynchronous code is a function of a world `W` which every call of a port
-- changes, whether it returns or throws; the events that an observer of the port sees are collected in
-- a list. Collections and Viewing take what the ports answer in a call as an argument instead, and
-- Works a store in memory; their results are what is written. A run is sequential, as the source is:
-- what happens between two calls is in the world, which a port may change at will, so that other runs
-- are covered too; only the controls of a viewed room are interleaved as steps.
--
-- What is a parameter: `Date.parse` and `toISOString` (with the law that the second is read back by the
-- first; an instant is counted from the first that a `Date` can hold), `JSON.stringify`,
-- `localeCompare`, the constructor `URL`, SHA-256, and the ports of storage and adapters, of which
-- nothing is assumed; and the ids that `createId` gives, which theorems on the ledger assume to be
-- different, and one of them not to be empty. The cleaning of imported addresses and provider data
-- (`historicalPublicUrl`, `sanitizeHistoricalSourceData`) is a parameter too. The key of an operation
-- is the record that the code writes as JSON. Loops are structural recursion on the list that the code
-- iterates over, and the traversal of content blocks on the tree; only the digits of a number take
-- fuel, one more than the number.
--
-- What is not modelled: the services of the other packages, the clients of providers, the adapters for
-- databases and clouds, the HTTP API, the user interface and the deployments.
mod Common
pub mod Destinations
pub mod CollectionPublications
pub mod Collections
pub mod ImportCapabilities
pub mod Derivatives
pub mod Preflight
pub mod Moderation
pub mod Content
pub mod Recovery
pub mod Messaging
pub mod Timing
pub mod RateLimit
pub mod Viewing
pub mod Works
pub mod Reconciliation
pub mod Announcements
pub mod Billing
pub mod Organizations
