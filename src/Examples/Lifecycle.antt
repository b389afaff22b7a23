-- ===== src/Examples/Lifecycle.antt =====
-- Examples on the life of the desktop application.
use nginx_admin.Common.{false, true, none, List, [], ◌∷◌, ◌++◌, Text, text, ◌≡◌, refl, ◌===◌}
use nginx_admin.Common.Keyed.{has_key}
use nginx_admin.Desktop.Faults.{ok}
use nginx_admin.Desktop.Files.{File}
use nginx_admin.Desktop.Startup.{SshRuntime, runtime_of, resolve_existing_path}
use nginx_admin.Desktop.Lifecycle.{
  Setup, Event, runtime_settled, page_settled, activated, window_ready, window_closed, quit_begins,
  initial, run, create_window, preload_path, index_path, page_of, on_runtime, on_page, step,
}
use nginx_admin.Desktop.Lifecycle.Invariant.{IsSound}
use nginx_admin.Desktop.Lifecycle.Sound.{events-IsSound}
use nginx_admin.Desktop.Lifecycle.Dock.{run-without_auth}

abbrev readable : Text → File
readable path = record { path = path; content = text "x"; readable = true; writable = false }

-- A packaged application whose files are where its build puts them.
abbrev setup : Setup
setup = record {
  app_path = text "/opt/app";
  dir_name = text "/opt/app/dist/main";
  is_packaged = true;
  renderer_url = none;
  open_devtools = none;
  is_darwin = true;
  files =
      readable (text "/opt/app:dist/preload/remoteBridge.js")
      ∷ readable (text "/opt/app:../web/dist/index.html")
      ∷ [];
  resolve = λ base path. base ++ (text ":" ++ path);
}

-- Without any secret there is no way to log in.
abbrev anonymous : SshRuntime
anonymous = runtime_of (text "127.0.0.1") 22 none []

abbrev started : List Event
started =
    runtime_settled (ok anonymous) ∷ page_settled (ok tt) ∷ window_ready 0 ∷ window_closed 0 ∷ []

events-IsSound_example : IsSound setup (run setup initial started)
events-IsSound_example = events-IsSound setup started

run-without_auth_example :
    (run setup (run setup initial started) (activated ∷ quit_begins ∷ activated ∷ [])).windows ≡ []
unfolding run step on_runtime on_page create_window preload_path index_path page_of
    resolve_existing_path runtime_of ◌===◌ has_key
run-without_auth_example =
    run-without_auth setup started (activated ∷ quit_begins ∷ activated ∷ []) refl refl refl
