-- ===== src/Lib.antt =====
-- The survey server of quicksurvey: its surveys, answers, tallies, accounts, documents and requests.
--
-- The program is a Go server over one SQLite database. internal/store holds all the state and all the
-- rules; internal/web turns requests into calls of the store, behind a rate limiter; internal/export
-- writes results as tab-separated values. An editor makes a survey and publishes it; respondents, each
-- known by a token's digest, choose options and may suggest some; editors moderate, and may merge one
-- option into another, so that its votes count there; the tally counts each respondent once for an
-- option, and is cached.
--
-- What is modelled, and where:
--
--   Base         shared names, lists, texts as lists of bytes, the store's errors as values
--   Survey       internal/store/survey.go: Survey, Option, Accepting, Resolve, Ballot, PendingOptions
--     Merge      the chains of merges that Resolve follows
--     Edit       SetOptionText, SetOptionStatus, AddOption; Edit/Chains on merges under these
--   Tables       the tables of internal/store/store.go for surveys; loadSurvey and saveSurvey
--     Scope      what a save leaves alone; Fresh is a survey saved where it was not; Authored is what
--                editors decide
--   Surveys      CreateSurvey, UpdateSurvey, DeleteSurvey, Surveys; Surveys/Deletion, and
--                Surveys/Discarded on the answers that go with Publish and DeleteSurvey
--   Response     internal/store/response.go: what saveResponseTx makes of a submission
--     Save       its statements, AddWriteIn, ClearResponses, Publish; Response/Reads the page reads
--     Sets, Shown, Stored, Covered, Publication, Authored
--                lists as sets, what is chosen and seen, what is stored, what a later publication
--                keeps, and what is left of the editors' decisions
--   Tally        Responses, countOnce, computeTally; Tally/Counts and Tally/Rows on their results,
--                Tally/Order on the order of texts
--     Cache      Tally and the counter of Store.tx, with readers and writers interleaved; Cache/Served
--                and Cache/Current on what is returned, by Cache/History
--   Accounts     internal/store/users.go: users, roles, the guards on the last administrator
--     Invites    internal/store/invite.go; Invites/Claims on what a link can do
--     Resets     internal/store/reset.go; Resets/Uses on what a link can do
--     Actions    every call that changes accounts as one step; Roster, Admins and Standing on their
--                effect
--   Limiter      internal/web/ratelimit.go; Limiter/Bounds
--   Export       internal/export/tsv.go; Export/Cells and Export/Columns
--   Documents    internal/store/portable.go: the document of a survey, and what it says
--     Restore    RestoreSurvey; Restore/Covered, Restore/Refused and Restore/Written on it
--     Definition, Backup
--                a survey saved without its answers and with them, and restored; Backup/Restored reads
--                it back
--   Backfill     backfillSeen of internal/store/store.go; Backfill/Exposed; Backfill/Workers on several
--                processes that run it, one step to a transaction, with Finished and Marked
--   Store        internal/store/store.go: MAC's message, newID, quoteSQLString; Store/Framing, Ids and
--                Literals on them
--     Schema     the schema and migrate; Schema/Migrated and Extended
--     Opening    Open, with loadOrCreateSecret; Opening/Opened on opening twice, Opening/Rivals on
--                processes that open at a time
--     Passwords  hashPassword and verifyPassword of internal/store/users.go; Passwords/Verified
--     Files      BackupTo, BackupToWriter, InitialPassword; Files/Snapshots
--   Web          internal/web: requests, replies, the site's state, the server's parameters
--     Sessions   internal/web/auth.go: cookies, sessions, CSRF tokens; Sessions/Tokens
--     Clients    clientKey, the limiters as they are called, voterToken; Clients/Lasting
--     Gates      requireRole, limitLogin, the checks of ServeHTTP; Gates/Passed
--     Flashes    setFlash and takeFlash; Flashes/Taken
--     Setup      New: the limiters that a configuration gives; Setup/Limiting
--     Respondents, Entry, Overview, Forms, Editing, Administration
--                the handlers of public.go, auth.go, invite.go and admin.go, and what forms do
--                to a survey
--     Routes     routes: which handler answers, behind which gate; Served on a request's way there,
--                Kept, Entered and Edited on what each handler does to the accounts, Tabled and
--                Authored on what it does to the surveys, Standing and Authoring on what a request
--                can do
--   Commands     cmd/quicksurvey/main.go: user, export, and the first account; Commands/Start
--     Upkeep     run, env, healthcheck, backup and initial-password; Upkeep/Probed and Collected
--     Serving    how serve comes up; Serving/Ready
--   Tests        concrete inputs
--
-- Conventions. A table is the list of its rows in the order of insertion; a SELECT, INSERT, UPDATE or
-- DELETE is a function on it, and a violated constraint is an error. A SELECT with no ORDER BY gives the
-- rows in that order, where SQLite promises none. An ORDER BY of a column of times is by the times
-- themselves. An operation is the body of its
-- transaction and returns the new tables or an error, so that an error leaves everything as it was;
-- errors of the database itself are left out. Survey tables and account tables are two records, since
-- no statement of the store touches both. A time is a number of nanoseconds and 0 is the zero time or
-- NULL; the clock, and the ids, tokens and salts that are drawn, are arguments, and one call reads the
-- clock once. The keyed digest (Store.MAC), the password hash and its check, the seeded shuffle, the
-- token buckets of golang.org/x/time/rate and the formats of times and numbers are parameters. A text is
-- the list of its bytes, as len counts them; where the source maps over runes, it is valid UTF-8. A percentage is the exact ratio that the source rounds.
--
-- Loops. Resolve walks at most one round more than the survey has options, as the source does.
-- insertSeen runs on fuel, the number of ids: each round writes at least one id.
-- Everything else is structural.
--
-- Requests. A handler is a function of the site (tables, accounts and both limiters), the request, and
-- what it draws at random with the time it runs at; it returns the reply and the site after it. The route is
-- the pattern that http.ServeMux finds, and the form, cookies and uploaded file come parsed; a form that
-- cannot be parsed is left out. A template's page is the data it is rendered with, and a flash is kept as
-- the message that the next page shows. The tally is computed anew each time, without the cache. What encoding/json,
-- net/url, net/netip, time and strconv make of a text is a parameter of `Server`.
--
-- Files. A database has a shape, which is the names of its tables and columns, its rows, and the keys of
-- the table meta. SQLite's VACUUM INTO is a parameter that reads its destination from the statement; the
-- directory is a list of files, and a failure of the system is left out, but for what the source tests.
--
-- Not modelled: templates, static files, response headers and logging of internal/web; the parser of flags, the
-- listener and the orderly stop of the command line; the connection to the database, its pragmas and its
-- checkpoints, which are calls of SQLite; the JSON text of a document; PBKDF2 and HMAC, which are
-- cryptography.
pub mod Base
pub mod Survey
pub mod Tables
pub mod Response
pub mod Surveys
pub mod Tally
pub mod Backfill
pub mod Documents
pub mod Accounts
pub mod Limiter
pub mod Export
pub mod Store
pub mod Web
mod Tests
pub mod Commands
