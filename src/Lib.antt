-- ===== src/Lib.antt =====
-- A model of the web client of Project Hawkeye, Frontend/hawkeye-web: the part of the program that
-- keeps state in the browser, asks the backend and shows runs, suites and settings of a project.
--
-- The parts, and the files that model them:
--   * Base: Boolean tests, lists over native numbers, dictionaries (`Record<string, T>` and `Map`, as
--     association lists in the order of insertion) and texts; Chars has the methods of strings that
--     read characters: `trim`, `split`, `join`, `indexOf`, `slice`.
--   * Runs: the run records and statuses of Frontend/hawkeye-web/src/lib/api/client.ts.
--   * Notifications: src/lib/notifications/store.ts (Store: `act` is one action of the store, `run` a
--     session), src/lib/notifications/feeder.ts (Feeder: `effect` is the body of the effect) and the
--     bell of src/components/app/app-topbar.tsx (Bell).
--   * Projects: src/lib/project/store.ts and src/lib/theme/store.ts.
--   * Client: src/lib/api/client.ts. Session has the module state and `apiFetch`, cut where it waits
--     (`request` before, `receive` after); Endpoints has the calls of `apiClient`, one constructor
--     each, and `send`, the request that a call becomes.
--   * Auth: src/lib/auth/options.ts (Token), middleware.ts and src/middleware.ts (Middleware), and the
--     pages under src/app/auth: Forms has their validation, Login the login page, SignUp the sign-up
--     page, with the calls of `onSubmit` that have not ended.
--   * Hooks: src/lib/api/hooks.ts. ProjectRuns is the cache that all instances of `useProjectRuns`
--     share, as a transition system: an event is a new project, a timer or the end of a request, in
--     any order. RunList is `useRuns`, Polling `useRun` and the hooks that fetch once, TraceStream
--     `useRunTraceStream`, RunActions the hooks that create and delete a run.
--   * Workspace: the effects of src/components/app/unified-sidebar.tsx and of layout.tsx under
--     src/app/app/(workspace)/[projectId]/, which write the session of the API client, the
--     notifications and the project store. A `Frame` is those three states, a `commit` a render of the
--     sidebar, a `remount` its return. Navigation has the rail, src/components/app/nav-items.ts.
--   * Suites: suites/page.tsx in that folder. Assign is the ownership of test cases (a handler's
--     result is the updates that it sends), Schedules the run dialog (its result is the calls that it
--     makes), Catalog the lists, also of suites/[id] and test-cases, Detail the page suites/[id],
--     Cases the page test-cases.
--   * Tables: dashboard/page.tsx and artifacts/page.tsx there: Pages has the cutting into pages and
--     the page buttons, Runs the filters, counts, metrics and the order, Report artifacts/[id],
--     Avatar the hash of `UserAvatar` on 32-bit integers, whose `hex` writes eight digits at most.
--   * Live: runs/live/page.tsx, with the names of runs in Labels. NewRun: runs/new/page.tsx; `round`
--     is one render with its effects.
--   * Editor: test-cases/[id]/page.tsx: the checkpoints; Headers the text of the headers, with Vault
--     for the references to secrets in them; Spec the specification and the form that `loadTc` fills
--     from it; Save the handler of the save button; Checks the check of the address and the history.
--     Words: src/components/app/rich-text-editor.tsx.
--   * Settings: settings/environments, settings/org, settings/project, vault and visual-baselines;
--     Integrations: settings/integrations, against the routes of Backend/api/routes/integrations.py;
--     Loading: what these pages fetch and fill their forms with.
--     Hub: src/app/app/(global-hub)/page.tsx, where a project is selected, and
--     src/components/app/new-run-modal.tsx.
--   * Account: account/page.tsx and billing/page.tsx under src/app/app/(global-hub)/.
--   * Tests: concrete runs.
-- The feeder reads the runs of Hooks and writes the store of Notifications; the hooks call Client; the
-- pages show what the hooks give. Each is modelled with what it reads as an argument.
--
-- Conventions: times are milliseconds, costs $0.0001, pass rates thousandths, all natural numbers
-- without an upper bound, where the program has floats far from their limits; a difference of times
-- that could be negative stops at 0. Loops over arrays are structural recursion, so nothing runs on
-- fuel but `hex`, with room for the eight digits of a 32-bit number. A handler that waits is cut at
-- its `await`, and the answer of the server is an argument. The clock, random source, identifiers,
-- number texts, `toLowerCase`, `new URL`, `decodeURIComponent`, `URLSearchParams`, JSON and
-- `getToken` are arguments as well, and so is `trim` where a page uses it for a test only: the
-- results hold for any such functions. The device scale factor is in tenths. Texts are lists of
-- code points where the program counts UTF-16 units. Keys that JavaScript objects treat in their
-- own way (integers, names of `Object.prototype`) are outside the model.
--
-- Not modelled: markup, styles and library widgets; React's scheduling beyond the events above; the
-- persistence of zustand; NextAuth and the HMAC of the internal secret; the backend (Backend, in
-- Python) but for the routes of integrations and what those of schedules keep; downloads, the
-- embedded viewer of a live run, the landing page and the blog, which only show and animate texts.
pub mod Base
pub mod Runs
pub mod Notifications
pub mod Projects
pub mod Client
pub mod Auth
pub mod Hooks
pub mod Suites
pub mod Tables
pub mod Editor
pub mod Live
pub mod Hub
pub mod Settings
pub mod Tests
pub mod Workspace
pub mod NewRun
pub mod Account
