-- ===== src/Bootstrap.antt =====
-- apps/desktop/src/main/ipc/registerBootstrapHandlers.ts: the handlers that check a host and
-- install the daemon on it, over the commands of SSHExecutor.
pub mod Shell
pub mod Order
pub mod Client
pub mod Page
use nginx_admin.Common.{
  ℕ, Bool, true, false, not, ◌==◌, Option, none, some, List, [], ◌∷◌, ◌++◌, Text, text, ◌===◌, ◌-◌,
  if◌then◌else◌, or_else, truthy, starts_with, trim, min, max, to_iso_string,
}
use nginx_admin.Secrets.{redact_potential_secrets}
use nginx_admin.Effects.{
  Failure, error, remote_error, thrown, Result, ok, fail, Action, ◌>>=◌, ◌>>◌, pure,
}
use nginx_admin.Desktop.Startup.{HostMetadata}

pub data IpcResult (A : Type 0) : Type 0 where
  success : A → IpcResult A
  failure : Text → Text → IpcResult A

-- `toIpcError`, as an answer.
unfoldable pub to_ipc_error : {A : Type 0} → Failure → IpcResult A
to_ipc_error (remote_error message code) = failure (redact_potential_secrets message) code
to_ipc_error (error message) = failure (redact_potential_secrets message) (text "BOOTSTRAP_FAILED")
to_ipc_error thrown = failure (text "Unhandled bootstrap error") (text "BOOTSTRAP_FAILED")

abbrev pub apostrophe : ℕ
apostrophe = 39

abbrev pub replaced_quote : ℕ → Text
replaced_quote c =
    if c == apostrophe then apostrophe ∷ 34 ∷ apostrophe ∷ 34 ∷ apostrophe ∷ [] else c ∷ []

-- `value.replace(/'/g, ...)`: every apostrophe becomes '"'"'.
unfoldable pub replace_quotes : Text → Text
replace_quotes [] = []
replace_quotes (c ∷ s) = replaced_quote c ++ replace_quotes s

unfoldable pub quote_for_shell : Text → Text
unfolding replace_quotes
quote_for_shell value = apostrophe ∷ (replace_quotes value ++ apostrophe ∷ [])

-- What a message can hold for the timeout: anything but a number, a number that is not finite, one
-- below zero, or another with its whole part.
pub data Timeout : Type 0 where
  no_number not_finite below_zero : Timeout
  whole_part : ℕ → Timeout

unfoldable pub normalize_timeout : Timeout → ℕ
normalize_timeout no_number = 120000
normalize_timeout not_finite = 120000
normalize_timeout below_zero = min 300000 (max 5000 0)
normalize_timeout (whole_part n) = min 300000 (max 5000 n)

abbrev same_origin : Option Text → Option Text → Bool
same_origin (some a) (some b) = a === b
same_origin _ _ = false

-- `is_packaged` is `app.isPackaged`, `dev_url` the variable ELECTRON_RENDERER_URL, and `origin`
-- gives the origin of a URL, where the constructor `URL` does not throw.
pub record Sender : Type 0 where
  pub is_packaged : Bool
  pub dev_url : Option Text
  pub origin : Text → Option Text

abbrev pub dev_origin : (Text → Option Text) → Option Text → Text → Bool
dev_origin origin none url = starts_with url (text "file://")
dev_origin origin (some []) url = starts_with url (text "file://")
dev_origin origin (some (c ∷ dev)) url = same_origin (origin (c ∷ dev)) (origin url)

unfoldable pub is_trusted_sender : Sender → Text → Bool
unfolding starts_with ◌===◌
is_trusted_sender s url =
    if not (truthy url)
    then false
    else if s.is_packaged
    then starts_with url (text "file://")
    else dev_origin s.origin s.dev_url url

-- The constants of the module, with their overrides from the environment.
pub record Defaults : Type 0 where
  pub install_script_url : Text
  pub service_name : Text
  pub health_command : Text

unfoldable pub defaults_from : (Text → Option Text) → Defaults
defaults_from env = record {
  install_script_url =
      or_else (env (text "NGINX_ADMIN_INSTALL_SCRIPT_URL")) (text "https://repo/install.sh");
  service_name = or_else (env (text "NGINX_ADMIN_SERVICE_NAME")) (text "nginx-admin.service");
  health_command =
      or_else (env (text "NGINX_ADMIN_HEALTHCHECK_COMMAND")) (text "nginx-admin status");
}

abbrev pub untrusted : {A : Type 0} → IpcResult A
untrusted = failure (text "Untrusted sender") (text "UNTRUSTED_SENDER")

pub record Context : Type 0 where
  pub connection : HostMetadata
  pub defaults : Defaults
  pub timeout_ms : ℕ

unfoldable pub get_context : Sender → Defaults → HostMetadata → Option Text → IpcResult Context
unfolding is_trusted_sender
get_context sender defaults metadata url =
    if not (is_trusted_sender sender (or_else url []))
    then untrusted
    else success (record { connection = metadata; defaults = defaults; timeout_ms = 120000 })

pub record CheckHost : Type 0 where
  pub reachable : Bool
  pub checked_at : Text
  pub latency_ms : ℕ

pub record InstallDaemon : Type 0 where
  pub installed_at : Text
  pub name : Text
  pub active : Bool
  pub enabled : Bool
  pub active_state_raw : Text
  pub enabled_state_raw : Text
  pub health_ok : Bool
  pub health_output : Text

-- `try { … } catch (error) { return { ok: false, error: toIpcError(error) }; }`
abbrev pub answered : {S A : Type 0} → Result A × S → IpcResult A × S
answered (ok a, s) = (success a, s)
answered (fail f, s) = (to_ipc_error f, s)

abbrev pub install_command : Defaults → Text
install_command d =
    text "curl -fsSL " ++ (quote_for_shell d.install_script_url ++ text " | sudo bash")

abbrev pub is_active_command : Defaults → Text
is_active_command d = text "systemctl is-active " ++ quote_for_shell d.service_name

abbrev pub is_enabled_command : Defaults → Text
is_enabled_command d = text "systemctl is-enabled " ++ quote_for_shell d.service_name

-- The operations of the executor on a state, with the limit in milliseconds, and the clock, which
-- does not run backwards here.
module _ {S : Type 0} (check_connection : ℕ → Action S (Unit {0})) (now : Action S ℕ) where
  abbrev pub checked : Action S CheckHost
  checked = do
    start ← now
    check_connection 7000
    checked_at ← now
    end_time ← now
    pure (record {
      reachable = true;
      checked_at = to_iso_string checked_at;
      latency_ms = end_time - start;
    })

  unfoldable pub check_host : Sender → Option Text → S → IpcResult CheckHost × S
  unfolding is_trusted_sender to_ipc_error to_iso_string
  check_host sender url s =
      if not (is_trusted_sender sender (or_else url []))
      then (untrusted, s)
      else answered (checked s)

module _ {S : Type 0} (run_shell : Text → ℕ → Action S Text) (now : Action S ℕ) where
  abbrev pub installed : Defaults → ℕ → Action S InstallDaemon
  installed d timeout = do
    run_shell (install_command d) timeout
    active_state ← run_shell (is_active_command d) 15000
    enabled_state ← run_shell (is_enabled_command d) 15000
    output ← run_shell d.health_command 15000
    installed_at ← now
    pure (record {
      installed_at = to_iso_string installed_at;
      name = d.service_name;
      active = trim active_state === text "active";
      enabled = trim enabled_state === text "enabled";
      active_state_raw = trim active_state;
      enabled_state_raw = trim enabled_state;
      health_ok = true;
      health_output = redact_potential_secrets (trim output);
    })

  -- Of the options of the request only the timeout is read.
  unfoldable pub install_daemon :
      Sender → Defaults → Option Text → Timeout → S → IpcResult InstallDaemon × S
  unfolding is_trusted_sender to_ipc_error normalize_timeout to_iso_string trim ◌===◌
      quote_for_shell
  install_daemon sender defaults url timeout s =
      if not (is_trusted_sender sender (or_else url []))
      then (untrusted, s)
      else answered (installed defaults (normalize_timeout timeout) s)
