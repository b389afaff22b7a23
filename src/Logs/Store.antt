-- ===== src/Logs/Store.antt =====
-- packages/shared/src/store/slices/logsSlice.ts and `LogUseCases.createLogEntry`.
use nginx_admin.Common.{
  Bool, true, false, Option, none, some, List, [], ◌∷◌, ◌++◌, Text, text, if◌then◌else◌,
}
use nginx_admin.Regex.{Regex, word, test}
use nginx_admin.Secrets.{Value, str, redact_potential_secrets}
use nginx_admin.Entities.{LogSource}
use nginx_admin.Logs.Entries.{LogEntry, LevelFilter, every, DateRange, LogFilters}

sensitive_key_pattern : Regex
unfolding word
sensitive_key_pattern = word (
    text "token"
    ∷ text "secret"
    ∷ text "password"
    ∷ text "passphrase"
    ∷ text "private"
    ∷ text "auth"
    ∷ text "credential"
    ∷ text "key"
    ∷ text "jwt"
    ∷ text "session"
    ∷ [])

unfoldable pub is_sensitive_key : Text → Bool
unfolding sensitive_key_pattern test
is_sensitive_key key = test sensitive_key_pattern key

abbrev pub redacted : Value
redacted = str (text "[redacted]")

unfoldable pub redact_text : Value → Value
redact_text (str s) = str (redact_potential_secrets s)
redact_text v = v

unfoldable pub sanitize_entry : Text × Value → Text × Value
unfolding is_sensitive_key redact_text
sanitize_entry (key, value) = (key, if is_sensitive_key key then redacted else redact_text value)

unfoldable pub sanitize_entries : List (Text × Value) → List (Text × Value)
unfolding sanitize_entry
sanitize_entries [] = []
sanitize_entries (e ∷ es) = sanitize_entry e ∷ sanitize_entries es

unfoldable pub sanitize_log_context : Option (List (Text × Value)) → Option (List (Text × Value))
unfolding sanitize_entries
sanitize_log_context none = none
sanitize_log_context (some context) = some (sanitize_entries context)

-- `sanitizeLog`, and the same on the entries that are loaded.
unfoldable pub sanitize_log : LogEntry → LogEntry
unfolding sanitize_log_context
sanitize_log log = record log {
  message = redact_potential_secrets log.message;
  context = sanitize_log_context log.context;
}

unfoldable pub sanitize_logs : List LogEntry → List LogEntry
unfolding sanitize_log
sanitize_logs [] = []
sanitize_logs (log ∷ logs) = sanitize_log log ∷ sanitize_logs logs

-- The id is made of the time and a random number.
unfoldable pub create_log_entry : Text → LogEntry → LogEntry
create_log_entry id log_data = record log_data { id = id }

pub record LogsState : Type 0 where
  pub logs : List LogEntry
  pub filters : LogFilters
  pub is_loading : Bool
  pub is_live : Bool

abbrev pub initial : LogsState
initial = record {
  logs = [];
  filters = record {
    level = some every;
    search = [];
    source = none;
    route_id = none;
    date_range = none;
  };
  is_loading = false;
  is_live = false;
}

-- An own property of `Partial<LogFilters>`.
pub data FilterUpdate : Type 0 where
  set_level : Option LevelFilter → FilterUpdate
  set_search : Text → FilterUpdate
  set_source : Option LogSource → FilterUpdate
  set_route_id : Option Text → FilterUpdate
  set_date_range : Option DateRange → FilterUpdate

abbrev pub assign : FilterUpdate → LogFilters → LogFilters
assign (set_level v) f = record f { level = v }
assign (set_search v) f = record f { search = v }
assign (set_source v) f = record f { source = v }
assign (set_route_id v) f = record f { route_id = v }
assign (set_date_range v) f = record f { date_range = v }

abbrev pub assign_all : List FilterUpdate → LogFilters → LogFilters
assign_all [] f = f
assign_all (u ∷ us) f = assign_all us (assign u f)

-- The item "nginx_logs": missing or empty, no JSON array of entries, or the entries it denotes.
pub data Saved : Type 0 where
  absent corrupt : Saved
  entries : List LogEntry → Saved

abbrev pub loaded : Saved → LogsState → LogsState
loaded absent s = s
loaded corrupt s = record s { is_loading = false }
loaded (entries logs) s = record s { logs = sanitize_logs logs; is_loading = false }

pub data LogsAction : Type 0 where
  add_log : Text → LogEntry → LogsAction
  clear_logs start_live stop_live : LogsAction
  set_filter : List FilterUpdate → LogsAction
  load_logs : Saved → LogsAction

unfoldable pub update : LogsAction → LogsState → LogsState
unfolding create_log_entry sanitize_log sanitize_logs
update (add_log id log) s = record s {
  logs = s.logs ++ create_log_entry id (sanitize_log log) ∷ [];
}
update clear_logs s = record s { logs = [] }
update (set_filter us) s = record s { filters = assign_all us s.filters }
update (load_logs saved) s = loaded saved (record s { is_loading = true })
update start_live s = record s { is_live = true }
update stop_live s = record s { is_live = false }

unfoldable pub update_all : List LogsAction → LogsState → LogsState
unfolding update
update_all [] s = s
update_all (a ∷ actions) s = update_all actions (update a s)
