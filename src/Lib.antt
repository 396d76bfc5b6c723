-- ===== src/Lib.antt =====
-- energlens: a verification library for the logic of the dashboard, frontend/src.
--
-- The dashboard turns a place's bills into months, months into figures and figures into charts, behind
-- a session with the API. Each part is a module:
--
-- * Calendar (`inclusiveDays`, `daysInMonth`, `periodKey`, `overlapDays`), Bills (`parseBill`,
--   `parseBills`, `effectivePrice`, `energyCharge`, `costPerDay`, `pctChange`, `round`), Months
--   (`monthlyBuckets`, `fillMonths`) and Metrics (windows, composition, trends, tariff, comparisons,
--   headline) are frontend/src/lib/metrics.ts. Bills feed Months, whose buckets feed all of Metrics.
-- * Axis is frontend/src/lib/axis.ts, Format frontend/src/lib/format.ts, and Compare, which uses both,
--   frontend/src/lib/compare.ts: the metrics, the four modes, the energy mix and the CSV.
--   Compare.Reading is a reader of CSV, which is not in the program: `toCsv` is measured against it.
-- * Client is frontend/src/api/client.ts and Api the records of frontend/src/api/types.ts. Errors is
--   frontend/src/lib/errors.ts.
-- * Session.Auth is frontend/src/auth/AuthContext.tsx with ProtectedRoute.tsx, Session.Preferences is
--   frontend/src/prefs/PreferencesProvider.tsx and Session.Theme frontend/src/theme/ThemeProvider.tsx.
--   Session.Flight is the session with several requests on their way, as a step relation.
-- * Queries is frontend/src/api/hooks.ts, the hooks as values: Queries.Cache is what the success of a
--   mutation does to the cache, Queries.Sharing which queries share an entry of it, Queries.Retry the
--   retry rules of frontend/src/App.tsx.
-- * Charts is frontend/src/components/charts: fill.ts, chartStatus.ts and a part of chartTheme.ts, with
--   Tooltips (CrosshairTooltip, HeroPriceUse, MixArea, CompareChart), Evidence (RateEvidence) and Panels
--   (ChartFrame, PlaceCharts, SeriesChart, ChartTooltip, Sparkline).
-- * Forms is frontend/src/components/BillForm.tsx and components/places/ArithmeticCheck.tsx, with the form's
--   first values in Initial and components/PlaceForm.tsx in PlaceForm.
-- * Pages is frontend/src/pages, a child for each: Dashboard, ComparePage, BillDetail, Places, Manage
--   (PlaceDetailPage), Settings, SignIn (with OAuthCallbackPage and OAuthButtons) and Home (HomeRoute and
--   the shell), and Routes for the table of routes in frontend/src/App.tsx. Periods holds what they share.
--   A page is its state, the handlers of its events, and what it derives for display; its queries' results
--   are arguments.
-- * Ui is frontend/src/components/ui, compare/MetricPicker.tsx, QueryError.tsx, ErrorBoundary.tsx and
--   styles/layers.ts.
-- * Demo is frontend/src/lib/fixtures.ts, the bills of an imaginary place; Demo.Follow shows how their periods
--   lie. A day past the end of a month is carried over with as many rounds as days, which is enough.
-- * Common holds what all share: lists, sorting, texts as lists of code points, signed integers.
--   Number is the interface of JavaScript numbers. Examples holds the runs of the theorems.
--
-- Names follow the source in this notation: `monthlyBuckets` is `monthly_buckets`, a field `billIds` is
-- `bill_ids`, and `null` is `none`. An object that a callback mutates is passed in and returned. A Map is
-- a list of entries in the order of their insertion. An effect or an async function is cut at its
-- waits: each piece is a function of the state, and the answer waited for is an argument.
--
-- Parameters. Doubles and their operations are an instance of `Number`: the theorems hold for every
-- reading of them, and where an order of prices matters it is the hypothesis `IsOrdered`. What holds only
-- of exact sums has the hypotheses `IsSum` and `IsSplit`, which doubles meet up to rounding. A `Date` is a
-- calendar day together with a `Zone`, the shift of each day's local midnight; `IsSteady` says that two
-- shifts differ by less than twelve hours, which holds of daylight saving time. Where the day in UTC
-- matters, shifts count from the midnight of the zone furthest east. `Intl`, JSON and the
-- server's answers are arguments too.
--
-- Fuel. The month counters take fuel. `loop_fuel` gives `monthlyBuckets` one round more than the span of
-- the bill's months has, and the loop is shown to end with it. `fillMonths` and the loops of fill.ts, which
-- the code runs without a bound, take the fuel as an argument and return `none` when it runs out. So does
-- the loop of a tariff curve, whose step is at least a fortieth of its range.
--
-- Not modelled: markup and styles, the drawing of charts (Recharts), the running and caching of queries
-- (TanStack Query) beyond keys and invalidation, form state (react-hook-form) beyond its default
-- values and rules, the Python service in backend, the tools in ingest, and the scripts.
pub mod Common
pub mod Number
pub mod Calendar
pub mod Api
pub mod Bills
pub mod Months
pub mod Format
pub mod Metrics
pub mod Axis
pub mod Compare
pub mod Client
pub mod Demo
pub mod Errors
pub mod Session
pub mod Charts
pub mod Forms
pub mod Queries
pub mod Pages
pub mod Ui
pub mod Examples
