-- ===== src/Server.antt =====
-- packages/core/src/useCases/server.ts and packages/shared/src/store/slices/serverSlice.ts.
use nginx_admin.Common.{ℕ, Option, none, some, List, [], ◌∷◌, Text, text}
use nginx_admin.Entities.{ServerStatus, running, stopped, restarting}

-- The statistics and the state of the server, over the numbers N of the language.
pub record ServerStats (N : Type 0) : Type 0 where
  pub requests : N
  pub traffic : Text
  pub active_connections : N
  pub uptime : N
  pub cpu_usage : N
  pub memory_usage : N

pub record ServerState (N : Type 0) : Type 0 where
  pub status : ServerStatus
  pub stats : ServerStats N
  pub version : Text
  pub last_updated : ℕ

-- An own property of `Partial<ServerState["stats"]>`.
pub data StatsUpdate (N : Type 0) : Type 0 where
  set_requests set_active_connections set_uptime set_cpu_usage set_memory_usage : N → StatsUpdate N
  set_traffic : Text → StatsUpdate N

abbrev pub toggled : ServerStatus → ServerStatus
toggled running = stopped
toggled stopped = running
toggled restarting = running

unfoldable pub toggle_status : ServerStatus → Option ServerStatus → ServerStatus
toggle_status current none = toggled current
toggle_status current (some next) = next

module _ {N : Type 0} where
  abbrev pub assign : StatsUpdate N → ServerStats N → ServerStats N
  assign (set_requests v) s = record s { requests = v }
  assign (set_active_connections v) s = record s { active_connections = v }
  assign (set_uptime v) s = record s { uptime = v }
  assign (set_cpu_usage v) s = record s { cpu_usage = v }
  assign (set_memory_usage v) s = record s { memory_usage = v }
  assign (set_traffic v) s = record s { traffic = v }

  -- `{ ...currentStats, ...newStats }`
  unfoldable pub update_stats : ServerStats N → List (StatsUpdate N) → ServerStats N
  update_stats s [] = s
  update_stats s (u ∷ us) = update_stats (assign u s) us

pub data ServerAction (N : Type 0) : Type 0 where
  toggle : Option ServerStatus → ServerAction N
  set_stats : List (StatsUpdate N) → ServerAction N
  set_info : Text → ServerAction N

-- The state of the store when it is made.
abbrev pub initial : {N : Type 0} → N → ℕ → ServerState N
initial zero_number now = record {
  status = stopped;
  stats = record {
    requests = zero_number;
    traffic = text "0B";
    active_connections = zero_number;
    uptime = zero_number;
    cpu_usage = zero_number;
    memory_usage = zero_number;
  };
  version = [];
  last_updated = now;
}

unfoldable pub update : {N : Type 0} → ℕ → ServerAction N → ServerState N → ServerState N
unfolding toggle_status update_stats
update now (toggle status) s = record s { status = toggle_status s.status status }
update now (set_stats us) s = record s { stats = update_stats s.stats us; last_updated = now }
update now (set_info version) s = record s { version = version; last_updated = now }
