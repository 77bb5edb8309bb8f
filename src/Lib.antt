-- ===== src/Lib.antt =====
-- Meshive keeps a catalogue of 3D-print models that lie in library folders. Its server
-- (backend/meshive) signs people in, decides what each of them may see and do, and keeps accounts,
-- roles and library sources in a database. This library models the server's decisions.
--
-- Parts, and where they are modelled:
--
--   Auth/RateLimit     auth/rate_limit.py: `AttemptRateLimiter` with its window and its capacity,
--                      and `RequestRateLimiter.check_and_record`.
--   Auth/Permissions   auth/permissions.py: the permission keys and the roles that ship.
--   Auth/Access        auth/access.py: `AccessContext`, the scopes and the `require_*` guards.
--   Auth/Credentials   auth/dependencies.py: the user behind a session cookie or a bearer token.
--   Roles              api/roles.py and repositories/roles.py: shipped roles, and role handlers.
--   Users              api/users.py and repositories/users.py: account handlers.
--   SignIn             api/auth.py, auth/sessions.py and auth/action_tokens.py: signing in and out,
--                      the sessions of a user and the change of a password; api/recovery.py: the
--                      links that reset a password or verify an address (SignIn/Recovery);
--                      api/setup.py: the first account (SignIn/Setup).
--   ApiTokens          api/api_tokens.py: the tokens that a user's programs send.
--   Creators           creators.py and api/creator_profiles.py: the names and aliases of creators and
--                      their resolution by a scan; the merge of profiles and its reversal
--                      (Creators/Merge, Creators/Merge/Reversal).
--   ShareLinks         api/catalogue_share_links.py: links that show the catalogue of their owner.
--   SavedViews         api/saved_views.py: the views that users save.
--   Named              rows that have an owner and a name, over which SavedViews is built.
--   Variants           services/variants.py: the variants of a model and their rows.
--   ArchiveBrowse      services/archive_browse.py: the folders and files of an archive as nodes, written
--                      in batches.
--   Scans              services/scanner.py and services/scan_scheduler.py: claims of sources, dispatch
--                      (Scans), execution (Scans/Execution) and the scheduler loop
--                      (Scans/Scheduler); api/scans.py: the requests (Scans/Control).
--   Tagging            services/tag_assignment_rules.py: evaluation of the rules and refresh of the tags
--                      (Tagging), and the test of a rule on a model (Tagging/Matching).
--   Models             models/*.py: the rows that the handlers read and write.
--   Http               `HTTPException` as a value.
--   Prelude            lists, dictionaries, tables with keys, and the Boolean tests.
--
-- How they meet: a route takes a user from Auth/Credentials, builds an access context from the
-- user's role and grants (Auth/Access), and a handler of Users or Roles changes the tables. Names in
-- the model are the source's names; a leading underscore is dropped.
--
-- State: a handler takes the `Database` of Models and returns the new one beside its answer, or an
-- error, with which nothing is committed. The scan queue has a state of its own, Scans.Queue, with the
-- claimed sources and the threads of the process; Scans/Steps has a step for each request (which
-- dispatches at once), for each claim that a dispatch loop tries, and for each commit and the end of a
-- thread, and takes them in any order. A table is a list of rows in the order of their keys. The unique
-- keys of the schema are the predicate HasKeys. Every handler runs in one transaction, and
-- handlers are taken one after the other, as SQLite orders writers. So are the calls of a limiter, each
-- of which the code makes under a lock; the two calls of `check_and_record` are taken in a row, although
-- a request of another thread may come between them.
--
-- Parameters: the Unicode tables of Python (`strip`, `casefold`, NFKC) are the record UnicodeText;
-- the password hasher is the record Hasher and the hash of a token a function; the random token that
-- a request would draw, and the instants that it reads from the clock, are arguments. What the work of
-- a scan on the files comes to is a value of Work, with the models before which the row's flags are
-- read; whether a source is due is a function, and so is the test of a tag rule on a model where the rules are evaluated; in Tagging/Matching it is given, with
-- the parts of a path and the compiled expression as functions. In Creators/Merge a function says
-- whether the database takes the rows, or raises for a unique column; in ArchiveBrowse two functions
-- take a path apart and put it together. Numbers are natural numbers: microseconds for instants of the
-- database, and the monotonic clock's unit for the limiter.
--
-- Bounds and fuel: every loop of the modelled code but one runs over a list that is at hand, so no
-- definition takes fuel. The one is the wait of a paused scan, which ends when a request changes the row:
-- to be in it is an outcome of its own, `held` in Scans/Execution.
--
-- Not modelled: responses as they are displayed (the `*Read` schemas), listings, the random bytes of
-- tokens, mail, images, archives, files, configuration, migrations and the frontend.
pub mod Prelude
pub mod Http
pub mod Models
pub mod Auth
pub mod Roles
pub mod Users
pub mod SignIn
pub mod ApiTokens
pub mod Creators
pub mod ShareLinks
pub mod Named
pub mod SavedViews
pub mod ArchiveBrowse
pub mod Variants
pub mod Scans
pub mod Tagging
