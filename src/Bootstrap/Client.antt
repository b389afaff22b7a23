-- ===== src/Bootstrap/Client.antt =====
-- apps/web/src/features/bootstrap/bootstrapBridgeClient.ts: the calls of the page over the bridge
-- of the desktop application, where there is one.
use nginx_admin.Common.{Option, none, some, Text, text}
use nginx_admin.Effects.{ok, Action}
use nginx_admin.Bootstrap.{IpcResult, failure, Timeout, Context, CheckHost, InstallDaemon}

-- `BootstrapInstallOptions`
pub record InstallOptions : Type 0 where
  pub install_script_url : Text
  pub service_name : Text
  pub health_command : Text
  pub timeout_ms : Timeout

-- `DesktopBootstrapBridge`, with the state of what is behind it; a call may reject.
pub record Bridge (S : Type 0) : Type 0 where
  pub get_context : Action S (IpcResult Context)
  pub check_host : Action S (IpcResult CheckHost)
  pub install_daemon : InstallOptions → Action S (IpcResult InstallDaemon)

abbrev pub unavailable : {A : Type 0} → Text → IpcResult A
unavailable message = failure message (text "BOOTSTRAP_UNAVAILABLE")

abbrev pub no_bridge : {S A : Type 0} → Action S (IpcResult A)
no_bridge s = (ok (unavailable (text "Bootstrap bridge is available only in desktop runtime")), s)

-- `resolveBridge`: `none` for no window, and a window with or without a bridge.
unfoldable pub resolve_bridge : {S : Type 0} → Option (Option (Bridge S)) → Option (Bridge S)
resolve_bridge none = none
resolve_bridge (some none) = none
resolve_bridge (some (some bridge)) = some bridge

module _ {S : Type 0} where
  unfoldable pub get_bootstrap_context : Option (Bridge S) → Action S (IpcResult Context)
  get_bootstrap_context none = no_bridge
  get_bootstrap_context (some bridge) = bridge.get_context

  unfoldable pub check_bootstrap_host : Option (Bridge S) → Action S (IpcResult CheckHost)
  check_bootstrap_host none = no_bridge
  check_bootstrap_host (some bridge) = bridge.check_host

  unfoldable pub install_bootstrap_daemon :
      Option (Bridge S) → InstallOptions → Action S (IpcResult InstallDaemon)
  install_bootstrap_daemon none options = no_bridge
  install_bootstrap_daemon (some bridge) options = bridge.install_daemon options
