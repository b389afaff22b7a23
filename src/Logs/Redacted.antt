-- ===== src/Logs/Redacted.antt =====
-- What the store of the logs keeps of the context of an entry.
use nginx_admin.Common.{
  ◌≡◌, refl, true, false, Option, none, some, List, [], ◌∷◌, Text, All, All-append,
}
use nginx_admin.Secrets.{
  Value, str, undefined, null, bool, num, date, arr, obj, redact_potential_secrets,
}
use nginx_admin.Logs.Entries.{LogEntry}
use nginx_admin.Logs.Store.{
  is_sensitive_key, redacted, redact_text, sanitize_entry, sanitize_entries, sanitize_log_context,
  sanitize_log, sanitize_logs, create_log_entry, LogsState, initial, absent, corrupt, entries,
  LogsAction, add_log, clear_logs, start_live, stop_live, set_filter, load_logs, update, update_all,
}

-- Under a sensitive key stands no value, and each other text has been through redaction.
pub record IsRedactedEntry (e : Text × Value) : Type 0 where
  pub hidden : is_sensitive_key e.0 ≡ true → e.1 ≡ redacted
  pub cleaned :
      (s : Text)
      → is_sensitive_key e.0 ≡ false
      → e.1 ≡ str s
      → (raw : Text) × (s ≡ redact_potential_secrets raw)

abbrev pub IsRedactedContext : Option (List (Text × Value)) → Type 0
IsRedactedContext none = Unit
IsRedactedContext (some es) = All IsRedactedEntry es

pub record IsRedacted (log : LogEntry) : Type 0 where
  pub message : (raw : Text) × (log.message ≡ redact_potential_secrets raw)
  pub context : IsRedactedContext log.context

redact_text-str :
    (v : Value) (s : Text)
    → redact_text v ≡ str s
    → (raw : Text) × (s ≡ redact_potential_secrets raw)
unfolding redact_text
redact_text-str (str raw) s e = (raw, cc)
redact_text-str undefined s e = cc
redact_text-str null s e = cc
redact_text-str (bool b) s e = cc
redact_text-str (num n) s e = cc
redact_text-str (date t) s e = cc
redact_text-str (arr xs) s e = cc
redact_text-str (obj fs) s e = cc

sanitize_entry-IsRedacted : (e : Text × Value) → IsRedactedEntry (sanitize_entry e)
unfolding sanitize_entry
sanitize_entry-IsRedacted (k, v) = record {
  hidden = λ h. rw h;
  cleaned = λ s h q. redact_text-str v s (rw h at q);
}

sanitize_entries-All : (es : List (Text × Value)) → All IsRedactedEntry (sanitize_entries es)
unfolding sanitize_entries
sanitize_entries-All [] = tt
sanitize_entries-All (e ∷ es) = (sanitize_entry-IsRedacted e, sanitize_entries-All es)

sanitize_context-IsRedacted :
    (c : Option (List (Text × Value))) → IsRedactedContext (sanitize_log_context c)
unfolding sanitize_log_context
sanitize_context-IsRedacted none = tt
sanitize_context-IsRedacted (some es) = sanitize_entries-All es

sanitize_log-IsRedacted : (log : LogEntry) → IsRedacted (sanitize_log log)
unfolding sanitize_log
sanitize_log-IsRedacted log = record {
  message = (log.message, refl);
  context = sanitize_context-IsRedacted log.context;
}

sanitize_logs-All : (logs : List LogEntry) → All IsRedacted (sanitize_logs logs)
unfolding sanitize_logs
sanitize_logs-All [] = tt
sanitize_logs-All (log ∷ logs) = (sanitize_log-IsRedacted log, sanitize_logs-All logs)

create-IsRedacted :
    (id : Text) (log : LogEntry) → IsRedacted log → IsRedacted (create_log_entry id log)
unfolding create_log_entry
create-IsRedacted id log h = record { message = h.message; context = h.context }

update-All :
    (a : LogsAction) (s : LogsState) → All IsRedacted s.logs → All IsRedacted (update a s).logs
unfolding update
update-All (add_log id log) s h =
    All-append IsRedacted s.logs (create_log_entry id (sanitize_log log) ∷ []) h
      (create-IsRedacted id (sanitize_log log) (sanitize_log-IsRedacted log), tt)
update-All clear_logs s h = tt
update-All (set_filter us) s h = h
update-All (load_logs absent) s h = h
update-All (load_logs corrupt) s h = h
update-All (load_logs (entries logs)) s h = sanitize_logs-All logs
update-All start_live s h = h
update-All stop_live s h = h

update_all-All :
    (actions : List LogsAction) (s : LogsState)
    → All IsRedacted s.logs
    → All IsRedacted (update_all actions s).logs
unfolding update_all
update_all-All [] s h = h
update_all-All (a ∷ actions) s h = update_all-All actions (update a s) (update-All a s h)

-- Whatever is added and loaded: each log of the store has a message that has been through
-- redaction, and in its context a value under a sensitive key reads "[redacted]" and each other
-- text has been through redaction.
pub update_all-IsRedacted :
    (actions : List LogsAction) → All IsRedacted (update_all actions initial).logs
update_all-IsRedacted actions = update_all-All actions initial tt

-- A load that finds nothing saved leaves the store loading until some later load ends.
pub load_logs-absent : (s : LogsState) → (update (load_logs absent) s).is_loading ≡ true
unfolding update
load_logs-absent s = refl
