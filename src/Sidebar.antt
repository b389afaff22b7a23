-- ===== src/Sidebar.antt =====
-- packages/shared/src/store/slices/uiSidebarSlice.ts
use nginx_admin.Common.{ℕ, ◌≤◌, Bool, true, false, not, List, [], ◌∷◌, min, max, arith}

pub record SidebarState : Type 0 where
  pub is_sidebar_open : Bool
  pub sidebar_width : ℕ
  pub is_resizing : Bool

abbrev pub initial : SidebarState
initial = record { is_sidebar_open = true; sidebar_width = 300; is_resizing = false }

pub data SidebarAction : Type 0 where
  toggle_sidebar start_resizing stop_resizing : SidebarAction
  set_sidebar_width : ℕ → SidebarAction

unfoldable pub clamp_width : ℕ → ℕ
clamp_width width = max 200 (min 500 width)

unfoldable pub update : SidebarAction → SidebarState → SidebarState
unfolding clamp_width
update toggle_sidebar s = record s { is_sidebar_open = not s.is_sidebar_open }
update (set_sidebar_width width) s = record s { sidebar_width = clamp_width width }
update start_resizing s = record s { is_resizing = true }
update stop_resizing s = record s { is_resizing = false }

unfoldable pub update_all : List SidebarAction → SidebarState → SidebarState
unfolding update
update_all [] s = s
update_all (a ∷ actions) s = update_all actions (update a s)

update_bounds :
    (a : SidebarAction) (s : SidebarState)
    → (200 ≤ s.sidebar_width) × (s.sidebar_width ≤ 500)
    → (200 ≤ (update a s).sidebar_width) × ((update a s).sidebar_width ≤ 500)
unfolding update
update_bounds a s h = ground arith

update_all_bounds :
    (actions : List SidebarAction) (s : SidebarState)
    → (200 ≤ s.sidebar_width) × (s.sidebar_width ≤ 500)
    → (200 ≤ (update_all actions s).sidebar_width) × ((update_all actions s).sidebar_width ≤ 500)
unfolding update_all
update_all_bounds [] s h = h
update_all_bounds (a ∷ actions) s h = update_all_bounds actions (update a s) (update_bounds a s h)

-- Whatever the user does, the sidebar is from 200 to 500 wide.
pub sidebar_width_bounds :
    (actions : List SidebarAction)
    → (200 ≤ (update_all actions initial).sidebar_width)
      × ((update_all actions initial).sidebar_width ≤ 500)
sidebar_width_bounds actions = update_all_bounds actions initial (omega arith)
