-- ===== src/Examples/Web.antt =====
-- Examples on the bootstrap of a host, the HTTP executor, the preview and the page of the routes.
use nginx_admin.Common.{
  ℕ, ◌+◌, true, false, Option, none, some, List, [], ◌∷◌, Text, text, ◌≡◌, refl, ◌⊎◌, length,
  or_else,
}
use nginx_admin.Effects.{Action, ok, fail}
use nginx_admin.Bootstrap
use nginx_admin.Bootstrap.{
  Defaults, Sender, whole_part, install_daemon, is_trusted_sender, untrusted,
}
use nginx_admin.Bootstrap.Shell.{tokens, word, pipe, tokens-commands}
use nginx_admin.Bootstrap.Order.{Entry, logged, unlogged, commands_of, Told, install_daemon-Ordered}
use nginx_admin.Http
use nginx_admin.Http.Settled.{IsSound, call-IsSound}

abbrev defaults : Defaults
defaults = record {
  install_script_url = text "https://repo/it's.sh";
  service_name = text "nginx-admin.service";
  health_command = text "nginx-admin status";
}

tokens-commands_example :
    (tokens (Bootstrap.install_command defaults)
      ≡ some (
          word (text "curl")
          ∷ word (text "-fsSL")
          ∷ word (text "https://repo/it's.sh")
          ∷ pipe
          ∷ word (text "sudo")
          ∷ word (text "bash")
          ∷ []))
    × (tokens (Bootstrap.is_active_command defaults)
        ≡ some (
            word (text "systemctl")
            ∷ word (text "is-active")
            ∷ word (text "nginx-admin.service")
            ∷ []))
    × (tokens (Bootstrap.is_enabled_command defaults)
        ≡ some (
            word (text "systemctl")
            ∷ word (text "is-enabled")
            ∷ word (text "nginx-admin.service")
            ∷ []))
tokens-commands_example = tokens-commands defaults

abbrev sender : Sender
sender = record { is_packaged = true; dev_url = none; origin = λ url. none }

-- A host on which each command answers in the same way, and a clock that counts.
abbrev active : Text → ℕ → Action ℕ Text
active command timeout n = (ok (text "active\n"), n + 1)

abbrev clock : Action ℕ ℕ
clock n = (ok n, n + 1)

abbrev page_url : Option Text
page_url = some (text "file:///index.html")

abbrev installation : Bootstrap.IpcResult Bootstrap.InstallDaemon × (ℕ × List Entry)
installation =
    install_daemon (logged active) (unlogged clock) sender defaults page_url (whole_part 1000)
      (0, [])

install_daemon-Ordered_example :
    ((is_trusted_sender sender (or_else page_url []) ≡ true)
      × Told (commands_of defaults) [] installation)
    ⊎ ((is_trusted_sender sender (or_else page_url []) ≡ false)
        × (installation ≡ (untrusted, (0, []))))
install_daemon-Ordered_example =
    install_daemon-Ordered active clock sender defaults page_url (whole_part 1000) 0 []

installation_commands : length installation.1.1 ≡ 4
unfolding install_daemon
installation_commands = refl

abbrev reports : List Http.Event
reports = Http.abort ∷ Http.abort_error ∷ Http.responded true 200 ∷ Http.timeout ∷ []

call-IsSound_example : IsSound (Http.run (Http.start (some false) (some 5000)) reports)
call-IsSound_example = call-IsSound (some false) (some 5000) reports

call_aborted :
    (Http.run (Http.start (some false) (some 5000)) reports).outcomes ≡ fail Http.aborted_error ∷ []
unfolding Http.run Http.start
call_aborted = refl
