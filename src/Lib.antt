-- ===== src/Lib.antt =====
-- The permission path of the knowledge graph service: which documents a signed-in user may be
-- answered from, and how the grants and the evidence behind that come about.
--
-- Parts, with the files of the repository and the modules that model them:
--   apps/backend/integrations/models.py: the tables (Models). A table is a list of rows in the order
--     of the keys, a query set a filter, an update a map over the rows that a test selects. Columns
--     that the modelled code neither reads nor writes are left out.
--   apps/backend/authorization/identifiers.py: object ids in SpiceDB (Identifiers).
--   apps/backend/authorization/client.py: relationships and the protocol of the server (SpiceDb). The
--     server is a parameter, a record of calls over a state; SpiceDb/Laws names what is relied on,
--     and has a server that keeps it. The gRPC calls are not modelled.
--   apps/backend/retrieval/identity.py: the normalized e-mail (Identity).
--   apps/backend/authorization/oauth_viewer.py: one user's direct grants are made to match a set of
--     documents (OauthViewer).
--   apps/backend/authorization/lookup.py: the documents that a user may ask about, before and after
--     the retrieval (Lookup, Lookup/Fresh).
--   apps/backend/retrieval/context.py and types.py: the bounded context (Retrieval/Context,
--     Retrieval/Types).
--   apps/backend/retrieval/services.py: the query (Retrieval/Services). The retriever and the answer
--     generator are parameters.
--   apps/backend/integrations/permission_authority.py: the switch of a connection to the other
--     authority (PermissionAuthority).
--   apps/backend/integrations/drive/user_visibility_client.py: whether a user sees the indexed files
--     (VisibilityClient). Google Drive is a parameter.
--   apps/backend/integrations/drive/user_visibility_sync.py: the run that renews one user's evidence
--     (VisibilitySync).
--   apps/backend/integrations/drive/permissions.py: access lists and their version (DriveAcl).
--   apps/backend/authorization/sync.py: the delegated permission sync (PermissionSync): the judgement of
--     the access lists, the folder hierarchy (PermissionSync/Hierarchy), the desired relationships
--     (PermissionSync/State), the scan of Drive (PermissionSync/Scan) and the run (PermissionSync/Run).
--     A folder id has one row in a connection, as its unique constraint says.
--     Drive and the resolution of groups are parameters.
--   apps/backend/integrations/drive/groups.py: the members of nested groups (GoogleGroups). The
--     Directory API is a parameter.
--   apps/backend/integrations/tasks.py: the extraction task with its state and its content gate, and the
--     sweeps (Tasks, Tasks/Sweeps). The extraction pipeline is a parameter.
--   System: delegated runs, extraction tasks and the sweep of the extractions as a step relation on the
--     database, other processes' steps in between included.
--   apps/backend/graph/extraction.py: the paragraph chunker (Extraction).
--   Examples: a small installation and concrete runs.
--
-- The query calls the lookup, the retriever, the recheck of the lookup, the context assembly and the
-- generator, in this order; each of the two lookups reads the clock and the database of its own time.
-- The visibility sync asks Drive and calls the reconciliation of the direct grants that the lookup
-- reads back.
--
-- Conventions: times are seconds and UUIDs numbers; a text is the list of its code points; a set is a
-- list read through membership; an exception is an `err`, a `none` or a value of its own, and a call
-- of a service passes the state of the services on, which stays changed after a raise. The text
-- functions know ASCII letters and blanks. The binary search of the context runs on fuel, one more
-- than the length of the content, and each round makes the interval shorter; a check in Drive runs on
-- the number of attempts that the source makes, three; the chunker runs on one more than the length
-- of the paragraph, since every chunk begins further on. The search for a folder cycle has a round for
-- each folder and each of its parents, and one more; the worklist of the folders below has a round for
-- each folder and each of those it starts with. Both are enough, as their exactness shows. The resolver of groups has a round for each group that it
-- comes to and for each that it finishes, and the listing of a group one for each of its pages; the end
-- of these rounds is an error of its own, `rounds_spent`.
-- SHA-256 and Django's `validate_email` are parameters, fields of `Env`.
--
-- What other processes do to the database between two transactions is an argument, a function on the
-- database; the values of uuid.uuid4() and of the clock are arguments.
--
-- Not modelled: the views, the OAuth flows, the Google and Neo4j clients, the graph pipeline, the
-- Celery tasks that run and schedule the syncs with their cache locks, the metadata sync, the settings'
-- validators and the migrations.
pub mod Prelude
pub mod DriveAcl
pub mod GoogleGroups
pub mod Identifiers
pub mod Models
pub mod SpiceDb
pub mod Identity
pub mod OauthViewer
pub mod Lookup
pub mod PermissionAuthority
pub mod VisibilityClient
pub mod VisibilitySync
pub mod PermissionSync
pub mod Tasks
pub mod System
pub mod Extraction
pub mod Retrieval
pub mod Examples
