-- ===== src/Logs/Filter.antt =====
-- packages/core/src/useCases/logs.ts: `LogUseCases.filterLogs`.
pub mod Matches
use nginx_admin.Common.{
  ℕ, ◌≤◌, Bool, true, false, not, ◌&&◌, ◌||◌, Option, none, some, List, [], ◌∷◌, Text, text, ltb,
  ◌===◌, if◌then◌else◌, truthy, includes,
}
use nginx_admin.Effects.{Failure, error, Result, ok, fail}
use nginx_admin.Entities.{LogLevel, info, warning, error, debug, LogSource, nginx, system, user}
use nginx_admin.Logs.Entries.{
  Timestamp, instant, iso, LogEntry, LevelFilter, every, only, DateRange, LogFilters,
}

-- `===` on the two enumerations.
abbrev pub same_level : LogLevel → LogLevel → Bool
same_level info info = true
same_level warning warning = true
same_level LogLevel.error LogLevel.error = true
same_level debug debug = true
same_level _ _ = false

abbrev pub same_source : LogSource → LogSource → Bool
same_source nginx nginx = true
same_source system system = true
same_source user user = true
same_source _ _ = false

unfoldable pub level_differs : Option LevelFilter → LogLevel → Bool
level_differs none level = false
level_differs (some every) level = false
level_differs (some (only wanted)) level = not (same_level level wanted)

unfoldable pub source_differs : Option LogSource → LogSource → Bool
source_differs none source = false
source_differs (some wanted) source = not (same_source source wanted)

-- `filters.routeId && log.routeId !== filters.routeId`
abbrev pub is_text : Option Text → Text → Bool
is_text none t = false
is_text (some s) t = s === t

unfoldable pub route_differs : Option Text → Option Text → Bool
unfolding ◌===◌
route_differs none route_id = false
route_differs (some wanted) route_id = truthy wanted && not (is_text route_id wanted)

-- `toLowerCase`, on all of Unicode, is a parameter.
unfoldable pub search_misses : (Text → Text) → Text → Text → Bool
unfolding includes
search_misses to_lower_case search message =
    truthy search && not (includes (to_lower_case message) (to_lower_case search))

-- A text has no `getTime`.
unfoldable pub in_range : Option DateRange → Timestamp → Result Bool
in_range none timestamp = ok true
in_range (some range) (instant t) = ok (not (ltb t range.start || ltb range.finish t))
in_range (some range) (iso s) =
    fail (Failure.error (text "log.timestamp.getTime is not a function"))

-- The callback of `filter`.
unfoldable pub passes : (Text → Text) → LogFilters → LogEntry → Result Bool
unfolding level_differs source_differs route_differs search_misses in_range
passes to_lower_case filters log =
    if level_differs filters.level log.level
    then ok false
    else if source_differs filters.source log.source
    then ok false
    else if route_differs filters.route_id log.route_id
    then ok false
    else if search_misses to_lower_case filters.search log.message
    then ok false
    else in_range filters.date_range log.timestamp

abbrev pub keep_if : LogEntry → Result Bool → Result (List LogEntry) → Result (List LogEntry)
keep_if log (fail e) rest = fail e
keep_if log (ok b) (fail e) = fail e
keep_if log (ok true) (ok logs) = ok (log ∷ logs)
keep_if log (ok false) (ok logs) = ok logs

unfoldable pub filter_logs : (Text → Text) → List LogEntry → LogFilters → Result (List LogEntry)
unfolding passes
filter_logs to_lower_case [] filters = ok []
filter_logs to_lower_case (log ∷ logs) filters =
    keep_if log (passes to_lower_case filters log) (filter_logs to_lower_case logs filters)
