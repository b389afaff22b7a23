-- ===== src/Logs/Filter/Matches.antt =====
-- Which logs `filterLogs` keeps.
use nginx_admin.Common.{
  ℕ, ◌≤◌, ◌≡◌, ◌↔◌, refl, sym, subst, ◌∙◌, Bool, true, false, not, Option, none, some, List, [],
  ◌∷◌, Text, ===_iff, if◌then◌else◌, includes, arith, All,
}
use nginx_admin.Effects.{Result, ok}
use nginx_admin.Entities.{LogLevel, info, warning, debug, LogSource, nginx, system, user}
use nginx_admin.Logs.Entries.{
  Timestamp, instant, iso, LogEntry, LevelFilter, every, only, DateRange, LogFilters,
}
use nginx_admin.Logs.Filter.{
  level_differs, source_differs, route_differs, search_misses, in_range, passes, filter_logs,
}

abbrev pub LevelMatches : Option LevelFilter → LogLevel → Type 0
LevelMatches none level = Unit
LevelMatches (some every) level = Unit
LevelMatches (some (only wanted)) level = level ≡ wanted

abbrev pub SourceMatches : Option LogSource → LogSource → Type 0
SourceMatches none source = Unit
SourceMatches (some wanted) source = source ≡ wanted

-- An empty id is no filter.
abbrev pub RouteMatches : Option Text → Option Text → Type 0
RouteMatches none route_id = Unit
RouteMatches (some []) route_id = Unit
RouteMatches (some (c ∷ id)) route_id = route_id ≡ some (c ∷ id)

abbrev pub RangeMatches : Option DateRange → Timestamp → Type 0
RangeMatches none timestamp = Unit
RangeMatches (some range) (instant t) = (range.start ≤ t) × (t ≤ range.finish)
RangeMatches (some range) (iso s) = ⊥

-- The lower case form of the message holds that of the text searched for; an empty text is no
-- filter.
abbrev pub SearchMatches : (Text → Text) → Text → Text → Type 0
SearchMatches to_lower_case [] message = Unit
SearchMatches to_lower_case (c ∷ search) message =
    includes (to_lower_case message) (to_lower_case (c ∷ search)) ≡ true

pub record Matches (to_lower_case : Text → Text) (filters : LogFilters) (log : LogEntry)
    : Type 0 where
  pub level : LevelMatches filters.level log.level
  pub source : SourceMatches filters.source log.source
  pub route : RouteMatches filters.route_id log.route_id
  pub search : SearchMatches to_lower_case filters.search log.message
  pub range : RangeMatches filters.date_range log.timestamp

level_differs_iff :
    (o : Option LevelFilter) (l : LogLevel) → (level_differs o l ≡ false) ↔ LevelMatches o l
unfolding level_differs
level_differs_iff none l = ground arith
level_differs_iff (some every) l = ground arith
level_differs_iff (some (only info)) l = ground arith
level_differs_iff (some (only warning)) l = ground arith
level_differs_iff (some (only LogLevel.error)) l = ground arith
level_differs_iff (some (only debug)) l = ground arith

source_differs_iff :
    (o : Option LogSource) (s : LogSource) → (source_differs o s ≡ false) ↔ SourceMatches o s
unfolding source_differs
source_differs_iff none s = ground arith
source_differs_iff (some nginx) s = ground arith
source_differs_iff (some system) s = ground arith
source_differs_iff (some user) s = ground arith

route_differs_iff :
    (o route_id : Option Text) → (route_differs o route_id ≡ false) ↔ RouteMatches o route_id
unfolding route_differs
route_differs_iff none r = ground arith
route_differs_iff (some []) r = ground arith
route_differs_iff (some (c ∷ id)) none = ground arith
route_differs_iff (some (c ∷ id)) (some s) = ground (arith, ===_iff s (c ∷ id))

not-eq-false_iff : (b : Bool) → (not b ≡ false) ↔ (b ≡ true)
not-eq-false_iff true = ground arith
not-eq-false_iff false = ground arith

search_misses_iff :
    (to_lower_case : Text → Text) (search message : Text)
    → (search_misses to_lower_case search message ≡ false)
      ↔ SearchMatches to_lower_case search message
unfolding search_misses
search_misses_iff to_lower_case [] m = (λ h. tt, λ h. refl)
search_misses_iff to_lower_case (c ∷ s) m = not-eq-false_iff _

in_range_iff : (o : Option DateRange) (t : Timestamp) → (in_range o t ≡ ok true) ↔ RangeMatches o t
unfolding in_range
in_range_iff none t = ground arith
in_range_iff (some r) (instant t) = ground arith
in_range_iff (some r) (iso s) = ground arith

module _ (to_lower_case : Text → Text) (f : LogFilters) (l : LogEntry) where
  passes-Matches : passes to_lower_case f l ≡ ok true → Matches to_lower_case f l
  unfolding passes
  passes-Matches h =
      let tests : (level_differs f.level l.level ≡ false)
          × (source_differs f.source l.source ≡ false)
          × (route_differs f.route_id l.route_id ≡ false)
          × (search_misses to_lower_case f.search l.message ≡ false)
          × (in_range f.date_range l.timestamp ≡ ok true) =
        ground arith in
      record {
        level = (level_differs_iff f.level l.level).0 tests.0;
        source = (source_differs_iff f.source l.source).0 tests.1;
        route = (route_differs_iff f.route_id l.route_id).0 tests.2;
        search = (search_misses_iff to_lower_case f.search l.message).0 tests.3;
        range = (in_range_iff f.date_range l.timestamp).0 tests.4;
      }

  Matches-passes : Matches to_lower_case f l → passes to_lower_case f l ≡ ok true
  unfolding passes
  Matches-passes m =
      rw
        (
          (level_differs_iff f.level l.level).1 m.level,
          (source_differs_iff f.source l.source).1 m.source,
          (route_differs_iff f.route_id l.route_id).1 m.route,
          (search_misses_iff to_lower_case f.search l.message).1 m.search,
        )
        ((in_range_iff f.date_range l.timestamp).1 m.range)

-- A list with some of the logs left out, in the same order: those that do not match.
pub data Filtered (to_lower_case : Text → Text) (f : LogFilters)
    : List LogEntry → List LogEntry → Type 0 where
  done : Filtered to_lower_case f [] []
  kept :
      {l : LogEntry} {ls ks : List LogEntry}
      → Matches to_lower_case f l
      → Filtered to_lower_case f ls ks
      → Filtered to_lower_case f (l ∷ ls) (l ∷ ks)
  dropped :
      {l : LogEntry} {ls ks : List LogEntry}
      → ¬ Matches to_lower_case f l
      → Filtered to_lower_case f ls ks
      → Filtered to_lower_case f (l ∷ ls) ks

abbrev pub IsDated : LogEntry → Type 0
IsDated l = (t : ℕ) × (l.timestamp ≡ instant t)

abbrev Returns : Result Bool → Type 0
Returns r = (b : Bool) × (r ≡ ok b)

skip-Returns : (c : Bool) (r : Result Bool) → Returns r → Returns (if c then ok false else r)
skip-Returns true r h = (false, refl)
skip-Returns false r h = h

in_range-Returns : (o : Option DateRange) (t : ℕ) → Returns (in_range o (instant t))
unfolding in_range
in_range-Returns none t = (true, refl)
in_range-Returns (some r) t = (_, refl)

passes-Returns :
    (to_lower_case : Text → Text) (f : LogFilters) (l : LogEntry)
    → IsDated l
    → Returns (passes to_lower_case f l)
unfolding passes
passes-Returns to_lower_case f l (t, e) = skip-Returns (level_differs f.level l.level) _ (
    skip-Returns (source_differs f.source l.source) _ (
      skip-Returns (route_differs f.route_id l.route_id) _ (
        skip-Returns (search_misses to_lower_case f.search l.message) _ (
          subst (λ d. Returns (in_range f.date_range d)) (sym e)
            (in_range-Returns f.date_range t)))))

module _ (to_lower_case : Text → Text) (f : LogFilters) (l : LogEntry) (ls ks : List LogEntry)
    (rest : filter_logs to_lower_case ls f ≡ ok ks)
    (filtered : Filtered to_lower_case f ls ks) where
  filter_logs-step :
      (b : Bool)
      → passes to_lower_case f l ≡ ok b
      → (ks' : List LogEntry) × (filter_logs to_lower_case (l ∷ ls) f ≡ ok ks')
        × Filtered to_lower_case f (l ∷ ls) ks'
  unfolding filter_logs
  filter_logs-step true p =
      (l ∷ ks, rw (p, rest), kept (passes-Matches to_lower_case f l p) filtered)
  filter_logs-step false p = (
    ks,
    rw (p, rest),
    dropped (λ m. let q = sym p ∙ Matches-passes to_lower_case f l m in cc) filtered,
  )

-- On logs whose timestamps are dates `filterLogs` throws nothing, and it returns, in their order,
-- exactly those that match every filter that is set: the level, the source, the route, the text
-- searched for, in the lower case forms that `toLowerCase` gives, and the range of dates with both
-- ends.
pub filter_logs-Filtered :
    (to_lower_case : Text → Text) (f : LogFilters) (ls : List LogEntry)
    → All IsDated ls
    → (ks : List LogEntry) × (filter_logs to_lower_case ls f ≡ ok ks)
      × Filtered to_lower_case f ls ks
unfolding filter_logs
filter_logs-Filtered to_lower_case f [] h = ([], refl, done)
filter_logs-Filtered to_lower_case f (l ∷ ls) (d, h) =
    let (ks, e, filtered) = filter_logs-Filtered to_lower_case f ls h in
    let (b, p) = passes-Returns to_lower_case f l d in
    filter_logs-step to_lower_case f l ls ks e filtered b p
