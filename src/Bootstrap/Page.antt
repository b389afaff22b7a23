-- ===== src/Bootstrap/Page.antt =====
-- apps/web/src/pages/bootstrap/BootstrapPage.tsx: the state of the page, by what is clicked and
-- what is answered. The markup is not modelled.
pub mod Tidy
use nginx_admin.Common.{
  Bool, true, false, Option, none, some, List, [], ◌∷◌, Text, text, if◌then◌else◌,
}
use nginx_admin.Effects.{Result, ok, fail}
use nginx_admin.Bootstrap.{
  IpcResult, success, failure, Timeout, whole_part, Defaults, Context, CheckHost, InstallDaemon,
}
use nginx_admin.Bootstrap.Client.{InstallOptions}

-- A button that waits for an answer: whether it waits, the message of the failure and the answer.
pub record Request (A : Type 0) : Type 0 where
  pub running : Bool
  pub problem : Option Text
  pub result : Option A

abbrev pub idle : {A : Type 0} → Request A
idle = record { running = false; problem = none; result = none }

module _ {A : Type 0} where
  -- The button is disabled while a request runs.
  unfoldable pub begin : Request A → Request A
  begin r = if r.running then r else record { running = true; problem = none; result = none }

  -- What stands behind the `await`; a call that rejects leaves no message.
  abbrev pub settled : Result (IpcResult A) → Request A → Request A
  settled (ok (success a)) r = record { running = false; problem = r.problem; result = some a }
  settled (ok (failure message code)) r = record {
    running = false;
    problem = some message;
    result = r.result;
  }
  settled (fail f) r = record { running = false; problem = r.problem; result = r.result }

  unfoldable pub finish : Result (IpcResult A) → Request A → Request A
  finish answer r = if r.running then settled answer r else r

abbrev pub preset_values : InstallOptions
preset_values = record {
  install_script_url = text "https://repo/install.sh";
  service_name = text "nginx-admin.service";
  health_command = text "nginx-admin status";
  timeout_ms = whole_part 120000;
}

pub record Page : Type 0 where
  pub active : Bool
  pub context : Option Context
  pub context_error : Option Text
  pub check : Request CheckHost
  pub install : Request InstallDaemon
  pub form : InstallOptions

abbrev pub opened : Page
opened = record {
  active = true;
  context = none;
  context_error = none;
  check = idle;
  install = idle;
  form = preset_values;
}

pub data Event : Type 0 where
  check_clicked install_submitted unmounted : Event
  form_edited : InstallOptions → Event
  context_answered : IpcResult Context → Event
  check_answered : Result (IpcResult CheckHost) → Event
  install_answered : Result (IpcResult InstallDaemon) → Event

abbrev pub with_context : IpcResult Context → Page → Page
with_context (failure message code) p = record p { context_error = some message }
with_context (success c) p = record p {
  context = some c;
  form = record {
    install_script_url = c.defaults.install_script_url;
    service_name = c.defaults.service_name;
    health_command = c.defaults.health_command;
    timeout_ms = whole_part c.timeout_ms;
  };
}

unfoldable pub step : Page → Event → Page
unfolding begin finish
step p check_clicked = record p { check = begin p.check }
step p install_submitted = record p { install = begin p.install }
step p unmounted = record p { active = false }
step p (form_edited values) = record p { form = values }
step p (context_answered answer) = if p.active then with_context answer p else p
step p (check_answered answer) = record p { check = finish answer p.check }
step p (install_answered answer) = record p { install = finish answer p.install }

unfoldable pub run : Page → List Event → Page
unfolding step
run p [] = p
run p (e ∷ es) = run (step p e) es
