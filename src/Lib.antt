-- ===== src/Lib.antt =====
-- The domain services of Agora, a Django portal that publishes dashboards: who may own, publish,
-- request, view and render one. Its tables are a record of association lists, and each service is a
-- function of the tables before it to the tables after it or the exception that it raises.
--
-- Parts, with the code that each is about:
--   Base               Boolean tests, tables, results and the lemmas that the parts share
--   Model, Unicode     the rows of src/agora/core/models.py, and the character data of Python
--   Names              src/agora/core/names.py: canonicalize_soeid, normalize_dashboard_tag, and
--                      (Logical) normalize_logical_name
--   ShortText          _normalize_short_text of src/agora/core/enhancements.py
--   Lifecycle          Dashboard.save with its transition checks and full_clean (core/models.py)
--   Users              User.save, and the identity services of src/agora/core/authentication.py
--   Login              authenticate_login and its throttle buckets, of the same file
--   Store              ViewerGrant.save, the locks of an owner's dashboard, the audit log
--   Access             src/agora/core/access.py: granting, revoking, user_can_view_published
--   Publication        publish, unpublish and freshness services of core/enhancements.py, and
--                      create_project, rename_project of src/agora/core/projects.py
--   RequestRow         AccessRequest.save and its transition checks
--   Requests           request_dashboard_access and resolve_dashboard_access_request
--   Ownership          transfer_dashboard_ownership and DashboardOwnershipTransfer.save
--   RenderRow          RenderAuthorization.clean of a new row
--   Capture            capture_authorized_open of src/agora/core/analytics.py
--   Render             src/agora/rendering/authorization.py: issue, resolve and revoke credentials
--   MediaType          ARTIFACT_MEDIA_TYPES and _authoritative_media_type
--   Disk               write and delete of src/agora/core/storage.py
--   Vault              Artifact.save and StorageReservation.save (core/models.py), and the invariant
--                      of the tables and the disk together
--   Reservations       the reservations of src/agora/core/services.py and their cleanup
--   Revisions          create_complete_revision of the same file: the checks of the payloads, the
--                      storage loop, the commit, and the whole
--   Pagination         paginate_keyset of src/agora/core/pagination.py: cursors, the order of the
--                      rows, pages in both directions, and a walk along the next cursors
--   Shelf              replace_dashboard_tags and set_dashboard_favorite of core/enhancements.py, with
--                      DashboardTag.save
--   Tests              a small world of rows, and the theorems at inputs from it
-- The services meet in the tables: Publication writes the release that Render resolves against,
-- Access and Requests open the grants that Render reads, Ownership closes the grant and the request
-- of an incoming owner and starts the epoch that Render and a later transfer compare with. Revisions
-- makes the revisions that Publication releases, from bytes that Reservations and Disk keep.
--
-- A service runs in one durable transaction with its rows locked, so a call is one step: it takes
-- the tables and returns the whole result, or an exception, after which the tables are as before.
-- A sequence of calls is a data type (Reach, Calls, Later, Run), and what holds after it is
-- proved by induction. An identifier that the database or `uuid4` draws, and each reading of the
-- clock, is an argument. Instants are whole microseconds on the natural numbers, as the database and
-- Python keep them. Identifiers are natural numbers, texts are lists of code points.
--
-- A creation of a revision is several transactions with writes to the disk between them, which no
-- rollback undoes: it returns its result beside the vault of tables and disk. Each write and delete
-- is given the faults that the operating system raises in it, and the reservation of a key, the
-- record of a write, the commit and each transaction of its cleanup whether the database fails in
-- it. A cleanup transaction that fails restores the tables and not the deleted file, so the
-- invariant of the vault names the reservations whose file may be gone (lost).
--
-- Parameters: Django's password validators and hasher (Passwords), its check of credentials, the
-- Unicode database of Python (Unicode), SHA-256 of a token and of stored bytes, the random tokens, the
-- identifiers and keys that a creation draws, and for pages the signer, the text forms and the
-- comparison of the database (Outside). The lemmas that need them name what they rely on: that a
-- drawn token has the form of one, that the space is white space and no control character, that a
-- signature is read back (Faithful), and that the comparison is a strict order (Ordered).
--
-- Bounds: the retry of token creation runs on the source's own 3 attempts, that of a storage key on
-- its 8; every other loop is structural. Only the walk over pages, which stands for a client, is
-- given a number of pages: one more than there are rows is proved to be enough.
--
-- Not modelled: uploads (src/agora/uploads.py), the reading of artifacts and the checks of their
-- directories (src/agora/core/storage.py), what another process does between two transactions of a
-- creation, a database that fails in cleanup_expired_reservations, listing queries, the
-- aggregation and purge of analytics, the views, forms and middleware, settings, migrations and
-- their triggers, and the races that a lost unique-index insert resolves.
-- The existence checks of foreign keys in `full_clean` are modelled where `clean` follows them.
pub mod Base
pub mod Model
pub mod Unicode
pub mod Names
pub mod Lifecycle
pub mod Users
pub mod Login
pub mod ShortText
pub mod Store
pub mod Access
pub mod Publication
pub mod RequestRow
pub mod Requests
pub mod Ownership
pub mod RenderRow
pub mod Capture
pub mod Disk
pub mod MediaType
pub mod Vault
pub mod Reservations
pub mod Revisions
pub mod Pagination
pub mod Shelf
pub mod Render
pub mod Tests
