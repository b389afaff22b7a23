-- ===== src/Desktop/Lifecycle/Sound.antt =====
-- apps/desktop/src/main/main.ts: the invariants of the application at every event.
use nginx_admin.Common.{
  ℕ, zero, suc, Bool, true, false, not, Option, none, some, List, [], ◌∷◌, ◌≡◌, refl, All, is_some,
  remove_at, if◌then◌else◌,
}
use nginx_admin.Desktop.Startup.{SshRuntime}
use nginx_admin.Desktop.Lifecycle.{
  Setup, Window, is_starting, is_loading, is_checking, App, initial, Event, runtime_settled,
  page_settled, health_settled, activated, quit_begins, window_ready, window_closed, on_activate,
  on_closed, close_at, show_at, on_quit, step, run,
}
use nginx_admin.Desktop.Lifecycle.Invariant.{
  IsSandboxed, IsSound, create_window-IsSound, on_runtime-IsSound, on_page-IsSound,
  on_health-IsSound,
}

module _ (e : Setup) where
  chosen :
      (b : Bool) (x y : App)
      → (b ≡ true → IsSound e x)
      → IsSound e y
      → IsSound e (if b then x else y)
  chosen true x y h k = h refl
  chosen false x y h k = k

  -- Other windows, and an application that quits only elsewhere than on darwin.
  with_windows :
      (ws : List Window) (q : Bool) (a : App)
      → All (IsSandboxed e) ws
      → (q ≡ true → e.is_darwin ≡ false)
      → IsSound e a
      → IsSound e (record a { windows = ws; is_quitting = q })
  with_windows ws q a all quit h = record {
    windows = all;
    handlers = h.handlers;
    listening = h.listening;
    checked = h.checked;
    unstarted = h.unstarted;
    quitting = quit;
    unshut = h.unshut;
  }

  not_darwin : (b : Bool) → not b ≡ true → b ≡ false
  not_darwin true q = cc
  not_darwin false q = refl

  on_closed-IsSound :
      (ws : List Window) (a : App)
      → All (IsSandboxed e) ws
      → IsSound e a
      → IsSound e (on_closed e ws a)
  on_closed-IsSound [] a all h = with_windows [] (not e.is_darwin) a tt (not_darwin e.is_darwin) h
  on_closed-IsSound (w ∷ ws) a all h = with_windows (w ∷ ws) a.is_quitting a all h.quitting h

  remove_at-All :
      (ws : List Window) (i : ℕ) → All (IsSandboxed e) ws → All (IsSandboxed e) (remove_at ws i)
  remove_at-All [] i h = tt
  remove_at-All (w ∷ ws) zero (p, h) = h
  remove_at-All (w ∷ ws) (suc i) (p, h) = (p, remove_at-All ws i h)

  close_at-IsSound :
      (i : ℕ) (ws : List Window) (a : App)
      → All (IsSandboxed e) ws
      → IsSound e a
      → IsSound e (close_at e i ws a)
  close_at-IsSound i [] a all h = h
  close_at-IsSound i (w ∷ ws) a all h = on_closed-IsSound _ a (remove_at-All (w ∷ ws) i all) h

  show_at-All :
      (ws : List Window) (i : ℕ) → All (IsSandboxed e) ws → All (IsSandboxed e) (show_at ws i)
  show_at-All [] i h = tt
  show_at-All (w ∷ ws) zero (p, h) = (
    record {
      preload = p.preload;
      isolated = p.isolated;
      no_node = p.no_node;
      sandboxed = p.sandboxed;
      secure = p.secure;
      tools = p.tools;
    },
    h,
  )
  show_at-All (w ∷ ws) (suc i) (p, h) = (p, show_at-All ws i h)

  on_quit-IsSound : (a : App) → IsSound e a → IsSound e (on_quit a)
  on_quit-IsSound a h = record {
    windows = h.windows;
    handlers = h.handlers;
    listening = h.listening;
    checked = h.checked;
    unstarted = h.unstarted;
    quitting = h.quitting;
    unshut = λ q. unshut_if a.runtime q (h.unshut q);
  }
    where
      unshut_if :
          (o : Option SshRuntime)
          → o ≡ none
          → a.shutdowns ≡ 0
          → (if is_some o then suc a.shutdowns else a.shutdowns) ≡ 0
      unshut_if none q z = z
      unshut_if (some r) q z = cc

  step-IsSound : (a : App) (v : Event) → IsSound e a → IsSound e (step e a v)
  unfolding step on_activate
  step-IsSound a (runtime_settled r) h =
      chosen (is_starting a.phase) _ a (λ s. on_runtime-IsSound e r a s h) h
  step-IsSound a (page_settled r) h =
      chosen (is_loading a.phase) _ a (λ s. on_page-IsSound e r a h) h
  step-IsSound a (health_settled r) h =
      chosen (is_checking a.phase) _ a (λ s. on_health-IsSound e a s h) h
  step-IsSound a activated h = chosen _ _ a (λ s. create_window-IsSound e a h) h
  step-IsSound a quit_begins h = on_quit-IsSound a h
  step-IsSound a (window_ready i) h =
      with_windows (show_at a.windows i) a.is_quitting a (show_at-All a.windows i h.windows)
        h.quitting h
  step-IsSound a (window_closed i) h = close_at-IsSound i a.windows a h.windows h

  run-IsSound : (a : App) (vs : List Event) → IsSound e a → IsSound e (run e a vs)
  unfolding run
  run-IsSound a [] h = h
  run-IsSound a (v ∷ vs) h = run-IsSound (step e a v) vs (step-IsSound a v h)

  -- Whatever is reported, in any order: each window runs the preload script that was found,
  -- isolated and in the sandbox; the handlers of the bootstrap are there as soon as a runtime is
  -- made; the application listens to "activate" only with a way to log in; it quits of itself only
  -- elsewhere than on darwin; and the executor is shut down only when there is one.
  pub events-IsSound : (vs : List Event) → IsSound e (run e initial vs)
  events-IsSound vs = run-IsSound initial vs (record {
    windows = tt;
    handlers = refl;
    listening = λ q. cc;
    checked = λ q. cc;
    unstarted = λ q. refl;
    quitting = λ q. cc;
    unshut = λ q. refl;
  })
