-- ===== src/Bootstrap/Order.antt =====
-- apps/desktop/src/main/ipc/registerBootstrapHandlers.ts: which commands the installation runs, and
-- in which order.
use nginx_admin.Common.{
  ℕ, Bool, true, false, Option, List, [], ◌∷◌, ◌++◌, Text, ◌≡◌, refl, ◌∙◌, sym, append_assoc,
  append-nil, or_else, Bool-cases, inl, inr, ◌⊎◌,
}
use nginx_admin.Effects.{
  Failure, error, remote_error, thrown, Result, ok, fail, Action, pure, and_then, ◌>>=◌,
}
use nginx_admin.Bootstrap.{
  IpcResult, success, failure, Defaults, Sender, Timeout, InstallDaemon, install_command,
  is_active_command, is_enabled_command, is_trusted_sender, normalize_timeout, answered,
  to_ipc_error, untrusted, installed, install_daemon,
}

abbrev pub is_ok : {A : Type 0} → Result A → Bool
is_ok (ok a) = true
is_ok (fail f) = false

-- A command that was run, and whether it returned.
abbrev pub Entry : Type 0
Entry = Text × Bool

-- An operation that writes down the commands it is given and whether they return, over one that
-- runs them.
abbrev pub logged :
    {S : Type 0} → (Text → ℕ → Action S Text) → Text → ℕ → Action (S × List Entry) Text
logged run_shell command timeout p =
    let (x, s) = run_shell command timeout p.0 in (x, (s, p.1 ++ (command, is_ok x) ∷ []))

abbrev pub unlogged : {S A : Type 0} → Action S A → Action (S × List Entry) A
unlogged m p = let (x, s) = m p.0 in (x, (s, p.1))

abbrev pub is_success : {A : Type 0} → IpcResult A → Bool
is_success (success a) = true
is_success (failure message code) = false

is_success-to_ipc_error : (f : Failure) → is_success (to_ipc_error {A = InstallDaemon} f) ≡ false
unfolding to_ipc_error
is_success-to_ipc_error (error message) = refl
is_success-to_ipc_error (remote_error message code) = refl
is_success-to_ipc_error thrown = refl

-- A run of commands, one after another, that goes on behind one that returns and stops at one that
-- fails; `true` if all have returned.
pub data Stops : List Text → List Entry → Bool → Type 0 where
  all_run : Stops [] [] true
  goes_on :
      {command : Text} {commands : List Text} {entries : List Entry} {b : Bool}
      → Stops commands entries b
      → Stops (command ∷ commands) ((command, true) ∷ entries) b
  stops_at :
      {command : Text} {commands : List Text}
      → Stops (command ∷ commands) ((command, false) ∷ []) false

record Ordered {S A : Type 0} (cmds : List Text) (before : List Entry)
    (p : Result A × (S × List Entry)) : Type 0 where
  entries : List Entry
  all_returned : Bool
  runs : p.1.1 ≡ before ++ entries
  stops : Stops cmds entries all_returned
  returns : (all_returned ≡ true) ⊎ (is_ok p.0 ≡ false)

module _ {S A : Type 0} where
  Ordered-logged :
      (command : Text) (k : Text → Action (S × List Entry) A) (cmds : List Text) (x : Result Text)
      (s : S) (before : List Entry)
      → ((out : Text)
          → Ordered cmds
              (before ++ (command, true) ∷ [])
              (k out (s, before ++ (command, true) ∷ [])))
      → Ordered (command ∷ cmds) before (and_then x k (s, before ++ (command, is_ok x) ∷ []))
  Ordered-logged command k cmds (ok out) s before h =
      let rest = h out in
      record {
        entries = (command, true) ∷ rest.entries;
        all_returned = rest.all_returned;
        runs = rest.runs ∙ rw append_assoc;
        stops = goes_on rest.stops;
        returns = rest.returns;
      }
  Ordered-logged command k cmds (fail f) s before h = record {
    entries = (command, false) ∷ [];
    all_returned = false;
    runs = refl;
    stops = stops_at;
    returns = inr refl;
  }

  Ordered-end :
      (x : Result ℕ) (k : ℕ → A) (s : S) (before : List Entry)
      → Ordered [] before (and_then x (λ n. pure (k n)) (s, before))
  Ordered-end (ok n) k s before = record {
    entries = [];
    all_returned = true;
    runs = sym (append-nil _);
    stops = all_run;
    returns = inl refl;
  }
  Ordered-end (fail f) k s before = record {
    entries = [];
    all_returned = true;
    runs = sym (append-nil _);
    stops = all_run;
    returns = inl refl;
  }

record Runs {S A : Type 0} (cmds : List Text) (m : Action (S × List Entry) A) : Type 0 where
  ordered : (s : S) (before : List Entry) → Ordered cmds before (m (s, before))

module _ {S A : Type 0} where
  Runs-logged :
      (run_shell : Text → ℕ → Action S Text) (command : Text) (timeout : ℕ)
      (k : Text → Action (S × List Entry) A) (cmds : List Text)
      → ((out : Text) → Runs cmds (k out))
      → Runs (command ∷ cmds) (logged run_shell command timeout >>= k)
  Runs-logged run_shell command timeout k cmds h = record {
    ordered = λ s before.
        let (x, s') = run_shell command timeout s in
        Ordered-logged command k cmds x s' before
          (λ out. (h out).ordered s' (before ++ (command, true) ∷ []));
  }

  Runs-end : (now : Action S ℕ) (k : ℕ → A) → Runs [] (unlogged now >>= λ n. pure (k n))
  Runs-end now k = record { ordered = λ s before. Ordered-end (now s).0 k (now s).1 before }

abbrev pub commands_of : Defaults → List Text
commands_of d =
    install_command d ∷ is_active_command d ∷ is_enabled_command d ∷ d.health_command ∷ []

module _ {S : Type 0} where
  -- What the log of an installation says, and the answer.
  abbrev pub Told : List Text → List Entry → IpcResult InstallDaemon × (S × List Entry) → Type 0
  Told commands before p =
      (entries : List Entry) × (all_returned : Bool) × (p.1.1 ≡ before ++ entries)
      × Stops commands entries all_returned
      × ((all_returned ≡ true) ⊎ (is_success p.0 ≡ false))

module _ {S : Type 0} (run_shell : Text → ℕ → Action S Text) (now : Action S ℕ) where
  installed-Runs :
      (d : Defaults) (timeout : ℕ)
      → Runs (commands_of d) (installed (logged run_shell) (unlogged now) d timeout)
  installed-Runs d timeout = Runs-logged run_shell (install_command d) timeout _ _ λ _.
      Runs-logged run_shell (is_active_command d) 15000 _ _ λ active.
        Runs-logged run_shell (is_enabled_command d) 15000 _ _
          λ enabled. Runs-logged run_shell d.health_command 15000 _ _ λ output. Runs-end now _

  answered-Told :
      (d : Defaults) (q : Result InstallDaemon × (S × List Entry)) (before : List Entry)
      → Ordered (commands_of d) before q
      → Told (commands_of d) before (answered q)
  answered-Told d (ok a, t) before o = (o.entries, o.all_returned, o.runs, o.stops, o.returns)
  answered-Told d (fail f, t) before o =
      (o.entries, o.all_returned, o.runs, o.stops, inr (is_success-to_ipc_error f))

  -- For a trusted sender an installation runs the script, the two questions to systemctl and the
  -- health command, in this order: it goes on behind a command that returns and stops at the first
  -- that fails, and it reports no success unless all four have returned. For another sender nothing
  -- is run.
  pub install_daemon-Ordered :
      (sender : Sender) (d : Defaults) (url : Option Text) (timeout : Timeout) (s : S)
      (before : List Entry)
      → let p = install_daemon (logged run_shell) (unlogged now) sender d url timeout (s, before) in
        ((is_trusted_sender sender (or_else url []) ≡ true) × Told (commands_of d) before p)
        ⊎ ((is_trusted_sender sender (or_else url []) ≡ false) × (p ≡ (untrusted, (s, before))))
  unfolding install_daemon
  install_daemon-Ordered sender d url timeout s before =
      elim (Bool-cases (is_trusted_sender sender (or_else url []))) [
        | inl e ↦ inl (
          e,
          rw e (
              answered-Told d _ before
                ((installed-Runs d (normalize_timeout timeout)).ordered s before)),
        )
        | inr e ↦ inr (e, rw e refl)
      ]
