-- ===== src/Examples/Logs.antt =====
-- Examples on the logs and on the sidebar.
use nginx_admin.Common.{
  ◌≡◌, refl, none, some, List, [], ◌∷◌, Text, text, All, map, leb, ◌&&◌, ◌||◌, ◌+◌, if◌then◌else◌,
}
use nginx_admin.Secrets.{str}
use nginx_admin.Effects.{ok}
use nginx_admin.Entities.{info, warning, nginx}
use nginx_admin.Logs.Entries.{instant, LogEntry, only, LogFilters}
use nginx_admin.Logs.Filter.{filter_logs}
use nginx_admin.Logs.Filter.Matches.{Filtered, filter_logs-Filtered}
use nginx_admin.Logs.Store.{add_log, load_logs, entries, LogsAction, update_all, initial}
use nginx_admin.Logs.Redacted.{IsRedacted, update_all-IsRedacted}
use nginx_admin.Sidebar
use nginx_admin.Sidebar.{sidebar_width_bounds}

abbrev started : LogEntry
started = record {
  id = text "1";
  timestamp = instant 1000;
  level = info;
  message = text "Started";
  source = nginx;
  ip = none;
  route_id = some (text "r1");
  context = some ((text "api_key", str (text "abc")) ∷ (text "user", str (text "ann")) ∷ []);
}

abbrev slow : LogEntry
slow = record started {
  id = text "2";
  timestamp = instant 5000;
  level = warning;
  message = text "Медленно";
}

abbrev warnings : LogFilters
warnings = record {
  level = some (only warning);
  search = text "МЕДЛЕННО";
  source = none;
  route_id = some (text "r1");
  date_range = some (record { start = 2000; finish = 5000 });
}

-- ASCII and the Russian alphabet, in the place of `toLowerCase`.
abbrev to_lower_case : Text → Text
to_lower_case s =
    map (λ c. if leb 65 c && leb c 90 || leb 1040 c && leb c 1071 then c + 32 else c) s

filter_logs-Filtered_example :
    (ks : List LogEntry) × (filter_logs to_lower_case (started ∷ slow ∷ []) warnings ≡ ok ks)
    × Filtered to_lower_case warnings (started ∷ slow ∷ []) ks
filter_logs-Filtered_example =
    filter_logs-Filtered to_lower_case warnings (started ∷ slow ∷ [])
      ((1000, refl), ((5000, refl), tt))

filter_slow : filter_logs to_lower_case (started ∷ slow ∷ []) warnings ≡ ok (slow ∷ [])
unfolding filter_logs
filter_slow = refl

abbrev actions : List LogsAction
actions = add_log (text "3") started ∷ load_logs (entries (slow ∷ [])) ∷ []

update_all-IsRedacted_example : All IsRedacted (update_all actions initial).logs
update_all-IsRedacted_example = update_all-IsRedacted actions

abbrev drags : List Sidebar.SidebarAction
drags = Sidebar.set_sidebar_width 900 ∷ Sidebar.toggle_sidebar ∷ []
