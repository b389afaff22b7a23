-- ===== src/Ssh/Commands.antt =====
-- apps/desktop/src/main/ssh/SSHExecutor.ts: `execute`, `checkConnection` and `runShell`.
pub mod Answers
use nginx_admin.Common.{
  ℕ, Bool, true, false, not, Option, none, some, List, [], ◌∷◌, ◌++◌, Text, text, ◌===◌,
  if◌then◌else◌,
}
use nginx_admin.Secrets.{Value}
use nginx_admin.Effects.{Failure, remote_error, Action, Result, ok, fail, pure, throw, ◌>>=◌}
use nginx_admin.Ssh.Retry.{RetryOptions, exec_with_retry}

abbrev pub marker : Text
marker = text "__nginx_admin_ssh_ok__"

-- The raw output, which goes with the error as its cause, is left out.
abbrev pub bad_payload : Failure
bad_payload = remote_error (text "Invalid JSON from SSH target") (text "BAD_REMOTE_PAYLOAD")

abbrev pub unhealthy : Text → Failure
unhealthy output =
    remote_error (text "Unexpected SSH health-check output: " ++ output)
      (text "SSH_HEALTHCHECK_FAILED")

-- `${cliPath} ${command} ${serialized}`
abbrev pub remote_command : Text → Text → Text → Text
remote_command cli_path command serialized =
    cli_path ++ (text " " ++ (command ++ (text " " ++ serialized)))

-- `exec` gets a client and runs a command on it. `encode` is the base64 text of the JSON text of a
-- value, and `json_parse` is `JSON.parse`.
module _ {S : Type 0} (options : RetryOptions) (exec : Text → Action S Text)
    (delay : ℕ → Action S (Unit {0})) where
  unfoldable pub run_shell : Text → Action S Text
  unfolding exec_with_retry
  run_shell command = exec_with_retry options (exec command) delay

module _ {S : Type 0} where
  abbrev pub parsed_or_throw : Option Value → Action S Value
  parsed_or_throw (some v) = pure v
  parsed_or_throw none = throw bad_payload

module _ {S : Type 0} (json_parse : Text → Option Value) (encode : Value → Text)
    (options : RetryOptions) (exec : Text → Action S Text) (delay : ℕ → Action S (Unit {0})) where
  unfoldable pub execute : Text → Text → Value → Action S Value
  unfolding exec_with_retry
  execute cli_path command payload = do
    output ← exec_with_retry options (exec (remote_command cli_path command (encode payload))) delay
    parsed_or_throw (json_parse output)

module _ {S : Type 0} (exec : Text → Action S Text) where
  unfoldable pub check_connection : Action S (Unit {0})
  unfolding ◌===◌
  check_connection = do
    output ← exec (text "echo " ++ marker)
    if not (output === marker) then throw (unhealthy output) else pure tt
