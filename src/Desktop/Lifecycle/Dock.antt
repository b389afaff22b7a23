-- ===== src/Desktop/Lifecycle/Dock.antt =====
-- apps/desktop/src/main/main.ts: the windows without a way to log in.
use nginx_admin.Common.{
  Bool, true, false, ◌&&◌, List, [], ◌∷◌, ◌≡◌, refl, ap, sym, if◌then◌else◌, subst,
}
use nginx_admin.Desktop.Lifecycle.{
  Setup, finished, is_starting, is_loading, is_checking, App, initial, has_auth, Event,
  runtime_settled, page_settled, health_settled, activated, quit_begins, window_ready,
  window_closed, no_windows, on_activate, close_at, show_at, step, run,
}
use nginx_admin.Desktop.Lifecycle.Sound.{events-IsSound}

module _ (e : Setup) where
  -- The start is over, no window is open, and no handler could open one.
  record IsBare (a : App) : Type 0 where
    over : a.phase ≡ finished
    none_open : a.windows ≡ []
    deaf : a.listens_activate ≡ false

  kept : (b : Bool) (x y : App) → b ≡ false → IsBare y → IsBare (if b then x else y)
  kept true x y h k = cc
  kept false x y h k = k

  step-IsBare : (a : App) (v : Event) → IsBare a → IsBare (step e a v)
  unfolding step on_activate
  step-IsBare a (runtime_settled r) h = kept (is_starting a.phase) _ a (ap is_starting h.over) h
  step-IsBare a (page_settled r) h = kept (is_loading a.phase) _ a (ap is_loading h.over) h
  step-IsBare a (health_settled r) h = kept (is_checking a.phase) _ a (ap is_checking h.over) h
  step-IsBare a activated h = kept _ _ a (ap (λ b. b && no_windows a.windows) h.deaf) h
  step-IsBare a quit_begins h = record { over = h.over; none_open = h.none_open; deaf = h.deaf }
  step-IsBare a (window_ready i) h = record {
    over = h.over;
    none_open = ap (λ ws. show_at ws i) h.none_open;
    deaf = h.deaf;
  }
  step-IsBare a (window_closed i) h = subst (λ ws. IsBare (close_at e i ws a)) (sym h.none_open) h

  run-IsBare : (a : App) (vs : List Event) → IsBare a → IsBare (run e a vs)
  unfolding run
  run-IsBare a [] h = h
  run-IsBare a (v ∷ vs) h = run-IsBare (step e a v) vs (step-IsBare a v h)

  deaf_if :
      (b : Bool) (a : App)
      → (b ≡ true → has_auth a.runtime ≡ true)
      → has_auth a.runtime ≡ false
      → b ≡ false
  deaf_if true a h k = let on = h refl in cc
  deaf_if false a h k = refl

  -- When the start is over and no way to log in is known, then once the last window is closed no
  -- event opens a window again, "activate" included.
  pub run-without_auth :
      (vs ws : List Event)
      → (run e initial vs).phase ≡ finished
      → has_auth (run e initial vs).runtime ≡ false
      → (run e initial vs).windows ≡ []
      → (run e (run e initial vs) ws).windows ≡ []
  run-without_auth vs ws over no_auth closed =
      let a = run e initial vs in
      (run-IsBare a ws (record {
        over = over;
        none_open = closed;
        deaf = deaf_if a.listens_activate a (events-IsSound e vs).listening no_auth;
      })).none_open
