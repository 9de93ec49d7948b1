-- ===== src/Lib.antt =====
-- Bubllio CRM: the logic of the web client (frontend/src), by part.
--
-- The client shows what a server keeps. Its URL parameters select a view; queries fill a cache
-- from the server; handlers of the pages turn drags, keys and clicks into mutations; a request
-- that fails for an old token refreshes the session.
--
-- The parts and their files, with paths from the root of the repository:
-- Prelude - library names, Boolean tests on numbers, lists. Js: the parts of JavaScript that the
-- code uses: values of unknown type (Js/Value), texts, array methods, stable sorting, `Map` in
-- insertion order, patches of objects, tallies over a `Map`, joined texts, `Math.round`, and the
-- numbers (Js/Numbers), which are a parameter, as doubles are the host's.
-- Types - the records of deals, tasks, contacts, subscriptions and costing (frontend/src/types).
-- Deals - URL parameters (Deals/Search: dealBoardConfig.ts and useDealBoardController.ts), the
-- filters for the server (Deals/Filters), drag data (Deals/Drag: dealBoardDnd.ts), the lanes
-- (Deals/Lane), the drag handlers (Deals/Board: `dragStart`, `dragEnd`), the optimistic move and
-- its rollback (Deals/Move: `useMoveDeal` of useDeals.ts), the forecast (Deals/Forecast) and the
-- drawer (Deals/Drawer: DealDrawer.tsx). A drop gives the variables of a move, which the
-- optimistic update reads.
-- Tasks - searching and grouping (Tasks/List: taskListConfig.ts), URL parameters (Tasks/Search:
-- taskSearchConfig.ts), the page (Tasks/Page: TasksPage.tsx), the requests (Tasks/Service:
-- taskService.ts), drag data and the board (Tasks/Drag, Tasks/Board: taskBoardDnd.ts,
-- TaskBoard.tsx), the drawer (Tasks/Drawer: TaskDrawer.tsx) and the stored layout (Tasks/Layout).
-- Dates are a parameter (Tasks/Clock).
-- Session - the store (Session/Store: authStore.ts), requests and errors (Session/Api) and the
-- shared refresh of the token (Session/Refresh), both of frontend/src/services/api.ts, signing in
-- and out (Session/Auth: useAuth.tsx), invitations (Session/Invite: InvitePage.tsx), the reset of
-- a password (Session/Reset: ResetPasswordPage.tsx) and the guards of routes (Session/Routes:
-- router.tsx). Session/Refresh is a step relation: a step is one reaction, which JavaScript does
-- not interrupt.
-- Updates - the confirmation dialog (Updates/Confirmation: updateConfirmationState.ts) and the
-- update centre (Updates/Center: UpdateCenter.tsx, useUpdateCenter.ts).
-- GlobalSearch - frontend/src/features/global-search. Timeline: CompanyTimelineFormatters.ts.
-- Companies: URL parameters, the list's controller, query keys, paging and the drawer
-- (frontend/src/features/companies). Contacts: frontend/src/features/contacts. ListPage:
-- frontend/src/hooks/useListPage.ts.
-- Workspace - the navigation (Workspace/Navigation: workspaceNavigation.tsx) and which page
-- selects which entry (Workspace/Pages).
-- Services - balances and the order of charges (Services/Billing), the page and its drawers
-- (Services/Page) and the drawer of a subscription (Services/Subscription), all of
-- frontend/src/pages/Services. Costing - the drawers of frontend/src/features/costing/components
-- and CollaboratorsPage.tsx; Costing/DealCosts has the changes of a cost as a step relation.
-- Drawers: what a drawer saves.
-- Queries - the keys of queries and what the mutations of the hooks under frontend/src/features
-- invalidate (Queries/Keys), and what the queries show (Queries/Subjects). Requests - the paths
-- and parameters of the services under frontend/src/features.
-- Forms - which values the schemas accept (companySchema.ts, contactSchema.ts, taskSchema.ts,
-- setupSchema.ts, emailAccountSchema.ts, workspaceSettingsSchema.ts), and the setup page as a
-- step relation (Forms/Wizard: SetupPage.tsx). Inbox - InboxPage.tsx and
-- ActivityInboxIndicator.tsx.
-- Settings - the sections of SettingsPage.tsx as a step relation in which the role may change
-- (Settings/Sections), the form of an email connection (Settings/Accounts: EmailAccountForm.tsx),
-- what a section saves (Settings/Fields: WorkspaceSettingsForm.tsx), invitations and members
-- (Settings/Members: MembersPage.tsx) and the invalidations of their hooks (Settings/Queries).
-- Tests - the theorems at concrete inputs.
--
-- Bounds: numbers that count are natural numbers without a limit, where the code has doubles; the
-- lists are far shorter than 2^53. Loading pages (Companies/Paging) runs as often as there are
-- events, which is enough as each page has one at least. All other functions recurse on their
-- data.
--
-- Parameters, not modelled: the query library (a cache to read and write, and which keys an
-- invalidation reaches), axios, zod (its checks of addresses), dnd-kit (its events are inputs),
-- i18next, `Date` and `Intl`, which are given texts that are dates. Left out: rendering, the
-- account settings, the dashboard, the server and the updater, which are not written in
-- TypeScript. Texts are sequences of code points, and the tables of texts are looked up by their
-- own keys only.
pub mod Prelude
pub mod Js
pub mod Types
pub mod Deals
pub mod Tasks
pub mod Updates
pub mod GlobalSearch
pub mod Timeline
pub mod Session
pub mod Settings
pub mod Workspace
pub mod Services
pub mod Costing
pub mod Drawers
pub mod Inbox
pub mod Queries
pub mod Forms
pub mod Requests
pub mod Companies
pub mod Contacts
pub mod Tests
pub mod ListPage
