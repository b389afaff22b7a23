-- ===== src/Desktop/Lifecycle.antt =====
-- apps/desktop/src/main/main.ts: the windows and the life of the application, as steps over what
-- Electron reports. `createSshRuntime` is in Startup; what it settles with is an event here. The
-- log of the console is not modelled.
pub mod Invariant
pub mod Sound
pub mod Dock
use nginx_admin.Common.{
  ℕ, zero, suc, Bool, true, false, not, ◌&&◌, Option, none, some, List, [], ◌∷◌, ◌++◌, Text, text,
  ◌===◌, if◌then◌else◌, is_some, remove_at, truthy,
}
use nginx_admin.Desktop.Faults.{Code, Fault, secrets_error, other_error, Result, ok, fail}
use nginx_admin.Desktop.Files.{Files}
use nginx_admin.Desktop.Startup.{SshRuntime, resolve_existing_path, safe_error_message}

-- What does not change while the application runs: `app.getAppPath()`, `__dirname`,
-- `app.isPackaged`, two variables of the environment, the platform, the files of the application
-- and `path.resolve`.
pub record Setup : Type 0 where
  pub app_path : Text
  pub dir_name : Text
  pub is_packaged : Bool
  pub renderer_url : Option Text
  pub open_devtools : Option Text
  pub is_darwin : Bool
  pub files : Files
  pub resolve : Text → Text → Text

pub record WebPreferences : Type 0 where
  pub preload : Text
  pub context_isolation : Bool
  pub node_integration : Bool
  pub sandbox : Bool
  pub web_security : Bool
  pub dev_tools : Bool

pub record Window : Type 0 where
  pub web_preferences : WebPreferences
  pub is_shown : Bool

-- `safeErrorMeta`; the name of a value that is no `Error` is `undefined`.
pub record ErrorMeta : Type 0 where
  pub message : Text
  pub code : Option Code

unfoldable pub safe_error_meta : Fault → ErrorMeta
unfolding safe_error_message
safe_error_meta (secrets_error message code) = record {
  message = safe_error_message (secrets_error message code);
  code = some code;
}
safe_error_meta (other_error message) = record {
  message = safe_error_message (other_error message);
  code = none;
}

abbrev pub new_window : Setup → Text → Window
new_window e preload_path = record {
  web_preferences = record {
    preload = preload_path;
    context_isolation = true;
    node_integration = false;
    sandbox = true;
    web_security = true;
    dev_tools = not e.is_packaged;
  };
  is_shown = false;
}

unfoldable pub preload_path : Setup → Result Text
unfolding resolve_existing_path
preload_path e =
    let candidates =
      e.resolve e.dir_name (text "../preload/remoteBridge.js")
      ∷ e.resolve e.app_path (text "dist/preload/remoteBridge.js")
      ∷ [] in
    resolve_existing_path candidates candidates e.files

unfoldable pub index_path : Setup → Result Text
unfolding resolve_existing_path
index_path e =
    let candidates =
      e.resolve e.app_path (text "../web/dist/index.html")
      ∷ e.resolve e.app_path (text "apps/web/dist/index.html")
      ∷ [] in
    resolve_existing_path candidates candidates e.files

-- What the window loads: the URL of the development server if it is set, or the built page.
unfoldable pub page_of : Setup → Option Text → Result Text
unfolding index_path
page_of e none = index_path e
page_of e (some url) = if truthy url then ok url else index_path e

-- Where the work behind `app.whenReady()` stands.
pub data Phase : Type 0 where
  starting loading checking finished : Phase
  rejected : Fault → Phase

abbrev pub is_starting : Phase → Bool
is_starting starting = true
is_starting _ = false

abbrev pub is_loading : Phase → Bool
is_loading loading = true
is_loading _ = false

abbrev pub is_checking : Phase → Bool
is_checking checking = true
is_checking _ = false

pub record App : Type 0 where
  pub phase : Phase
  pub runtime : Option SshRuntime
  pub has_handlers : Bool
  pub windows : List Window
  pub devtools_opened : Bool
  pub listens_activate : Bool
  pub is_quitting : Bool
  pub shutdowns : ℕ

abbrev pub initial : App
initial = record {
  phase = starting;
  runtime = none;
  has_handlers = false;
  windows = [];
  devtools_opened = false;
  listens_activate = false;
  is_quitting = false;
  shutdowns = 0;
}

abbrev pub opened : Window → App → App
opened w a = record a { windows = a.windows ++ w ∷ [] }

-- `createWindow`, up to the load of the page: the window is there before its page is looked for.
abbrev pub loads_page : Result Text → App → Result (Unit {0}) × App
loads_page (ok page) a = (ok tt, a)
loads_page (fail f) a = (fail f, a)

abbrev pub opens_window : Setup → Result Text → App → Result (Unit {0}) × App
opens_window e (ok path) a = loads_page (page_of e e.renderer_url) (opened (new_window e path) a)
opens_window e (fail f) a = (fail f, a)

unfoldable pub create_window : Setup → App → Result (Unit {0}) × App
unfolding preload_path page_of
create_window e a = opens_window e (preload_path e) a

abbrev pub waits : Result (Unit {0}) × App → App
waits (ok u, a) = record a { phase = loading }
waits (fail f, a) = record a { phase = rejected f }

abbrev pub has_auth : Option SshRuntime → Bool
has_auth none = false
has_auth (some r) = r.has_auth

abbrev pub is_one : Option Text → Bool
is_one none = false
is_one (some s) = s === text "1"

pub data Event : Type 0 where
  runtime_settled : Result SshRuntime → Event
  page_settled health_settled : Result (Unit {0}) → Event
  activated quit_begins : Event
  window_ready window_closed : ℕ → Event

unfoldable pub on_runtime : Setup → Result SshRuntime → App → App
unfolding create_window
on_runtime e (fail f) a = record a { phase = rejected f }
on_runtime e (ok runtime) a =
    waits (create_window e (record a { runtime = some runtime; has_handlers = true }))

unfoldable pub on_page : Setup → Result (Unit {0}) → App → App
on_page e (fail f) a = record a { phase = rejected f }
on_page e (ok u) a = record a {
  devtools_opened = not e.is_packaged && is_one e.open_devtools;
  phase = if has_auth a.runtime then checking else finished;
}

-- The health check may fail: it is only logged. Then the handler of "activate" is registered.
abbrev pub on_health : App → App
on_health a = record a { phase = finished; listens_activate = true }

abbrev pub no_windows : List Window → Bool
no_windows [] = true
no_windows (w ∷ ws) = false

unfoldable pub on_activate : Setup → App → App
unfolding create_window
on_activate e a =
    let reopened = (create_window e a).1 in
    if a.listens_activate && no_windows a.windows then reopened else a

-- "window-all-closed", behind the close of the last window.
abbrev pub on_closed : Setup → List Window → App → App
on_closed e [] a = record a { windows = []; is_quitting = not e.is_darwin }
on_closed e (w ∷ ws) a = record a { windows = w ∷ ws }

abbrev pub close_at : Setup → ℕ → List Window → App → App
close_at e i [] a = a
close_at e i (w ∷ ws) a = on_closed e (remove_at (w ∷ ws) i) a

abbrev pub show_at : List Window → ℕ → List Window
show_at [] i = []
show_at (w ∷ ws) zero = record w { is_shown = true } ∷ ws
show_at (w ∷ ws) (suc i) = w ∷ show_at ws i

-- "before-quit": `sshRuntime?.executor.shutdown()`
abbrev pub on_quit : App → App
on_quit a = record a { shutdowns = if is_some a.runtime then suc a.shutdowns else a.shutdowns }

-- An event that the phase does not wait for cannot come.
unfoldable pub step : Setup → App → Event → App
unfolding on_runtime on_page on_activate
step e a (runtime_settled r) =
    let next = on_runtime e r a in if is_starting a.phase then next else a
step e a (page_settled r) = let next = on_page e r a in if is_loading a.phase then next else a
step e a (health_settled r) = let next = on_health a in if is_checking a.phase then next else a
step e a activated = on_activate e a
step e a quit_begins = on_quit a
step e a (window_ready i) = record a { windows = show_at a.windows i }
step e a (window_closed i) = close_at e i a.windows a

unfoldable pub run : Setup → App → List Event → App
unfolding step
run e a [] = a
run e a (v ∷ vs) = run e (step e a v) vs
