-- ===== src/Desktop/Lifecycle/Invariant.antt =====
-- apps/desktop/src/main/main.ts: the invariants of the application, and the parts of its start.
use nginx_admin.Common.{
  Bool, true, false, not, none, some, [], ◌∷◌, Text, ◌≡◌, refl, All, All-append, is_some,
  if◌then◌else◌,
}
use nginx_admin.Desktop.Faults.{Result, ok, fail}
use nginx_admin.Desktop.Startup.{SshRuntime}
use nginx_admin.Desktop.Lifecycle.{
  Setup, Window, new_window, preload_path, page_of, Phase, starting, loading, checking, finished,
  rejected, is_starting, is_checking, App, opened, loads_page, opens_window, create_window, waits,
  has_auth, on_runtime, on_page, on_health,
}

phases_apart : (ph : Phase) → is_starting ph ≡ true → is_checking ph ≡ true → ⊥
phases_apart starting s c = cc
phases_apart loading s c = cc
phases_apart checking s c = cc
phases_apart finished s c = cc
phases_apart (rejected f) s c = cc

module _ (e : Setup) where
  -- The window runs the preload script that was found, isolated from the page, without Node and in
  -- the sandbox, and with the tools for developers only in an application that is not packaged.
  pub record IsSandboxed (w : Window) : Type 0 where
    pub preload : preload_path e ≡ ok w.web_preferences.preload
    pub isolated : w.web_preferences.context_isolation ≡ true
    pub no_node : w.web_preferences.node_integration ≡ false
    pub sandboxed : w.web_preferences.sandbox ≡ true
    pub secure : w.web_preferences.web_security ≡ true
    pub tools : w.web_preferences.dev_tools ≡ not e.is_packaged

  pub record IsSound (a : App) : Type 0 where
    pub windows : All IsSandboxed a.windows
    pub handlers : a.has_handlers ≡ is_some a.runtime
    pub listening : a.listens_activate ≡ true → has_auth a.runtime ≡ true
    pub checked : is_checking a.phase ≡ true → has_auth a.runtime ≡ true
    pub unstarted : is_starting a.phase ≡ true → a.listens_activate ≡ false
    pub quitting : a.is_quitting ≡ true → e.is_darwin ≡ false
    pub unshut : a.runtime ≡ none → a.shutdowns ≡ 0

  opened-IsSound :
      (path : Text) (a : App)
      → preload_path e ≡ ok path
      → IsSound a
      → IsSound (opened (new_window e path) a)
  opened-IsSound path a found h = record {
    windows = All-append IsSandboxed a.windows (new_window e path ∷ []) h.windows (
      record {
        preload = found;
        isolated = refl;
        no_node = refl;
        sandboxed = refl;
        secure = refl;
        tools = refl;
      },
      tt,
    );
    handlers = h.handlers;
    listening = h.listening;
    checked = h.checked;
    unstarted = h.unstarted;
    quitting = h.quitting;
    unshut = h.unshut;
  }

  loads_page-IsSound : (r : Result Text) (a : App) → IsSound a → IsSound (loads_page r a).1
  loads_page-IsSound (ok page) a h = h
  loads_page-IsSound (fail f) a h = h

  opens_window-IsSound :
      (r : Result Text) (a : App) → preload_path e ≡ r → IsSound a → IsSound (opens_window e r a).1
  opens_window-IsSound (ok path) a found h =
      loads_page-IsSound (page_of e e.renderer_url) _ (opened-IsSound path a found h)
  opens_window-IsSound (fail f) a found h = h

  pub create_window-IsSound : (a : App) → IsSound a → IsSound (create_window e a).1
  unfolding create_window
  create_window-IsSound a h = opens_window-IsSound (preload_path e) a refl h

  -- A change that leaves windows, handlers and shutdowns alone.
  in_phase :
      (ph : Phase) (a : App)
      → is_checking ph ≡ false
      → is_starting ph ≡ false
      → IsSound a
      → IsSound (record a { phase = ph })
  in_phase ph a c s h = record {
    windows = h.windows;
    handlers = h.handlers;
    listening = h.listening;
    checked = λ q. cc;
    unstarted = λ q. cc;
    quitting = h.quitting;
    unshut = h.unshut;
  }

  waits-IsSound : (x : Result (Unit {0}) × App) → IsSound x.1 → IsSound (waits x)
  waits-IsSound (ok u, a) h = in_phase loading a refl refl h
  waits-IsSound (fail f, a) h = in_phase (rejected f) a refl refl h

  pub on_runtime-IsSound :
      (r : Result SshRuntime) (a : App)
      → is_starting a.phase ≡ true
      → IsSound a
      → IsSound (on_runtime e r a)
  unfolding on_runtime
  on_runtime-IsSound (fail f) a s h = in_phase (rejected f) a refl refl h
  on_runtime-IsSound (ok runtime) a s h = waits-IsSound _ (
      create_window-IsSound (record a { runtime = some runtime; has_handlers = true })
        (record {
          windows = h.windows;
          handlers = refl;
          listening = λ q. let n = h.unstarted s in cc;
          checked = λ q. absurd (phases_apart a.phase s q);
          unstarted = h.unstarted;
          quitting = h.quitting;
          unshut = λ q. cc;
        }))

  pub on_page-IsSound : (r : Result (Unit {0})) (a : App) → IsSound a → IsSound (on_page e r a)
  unfolding on_page
  on_page-IsSound (fail f) a h = in_phase (rejected f) a refl refl h
  on_page-IsSound (ok u) a h = record {
    windows = h.windows;
    handlers = h.handlers;
    listening = h.listening;
    checked = λ q. checked_if (has_auth a.runtime) q;
    unstarted = λ q. unstarted_if (has_auth a.runtime) q;
    quitting = h.quitting;
    unshut = h.unshut;
  }
    where
      checked_if : (b : Bool) → is_checking (if b then checking else finished) ≡ true → b ≡ true
      checked_if true q = refl
      checked_if false q = cc

      unstarted_if :
          (b : Bool)
          → is_starting (if b then checking else finished) ≡ true
          → a.listens_activate ≡ false
      unstarted_if true q = cc
      unstarted_if false q = cc

  pub on_health-IsSound : (a : App) → is_checking a.phase ≡ true → IsSound a → IsSound (on_health a)
  on_health-IsSound a c h = record {
    windows = h.windows;
    handlers = h.handlers;
    listening = λ q. h.checked c;
    checked = λ q. cc;
    unstarted = λ q. cc;
    quitting = h.quitting;
    unshut = h.unshut;
  }
