-- ===== src/Pages/Modal.antt =====
-- packages/shared/src/store/useRouteFormStore.ts
use nginx_admin.Common.{ℕ, Bool, true, false, Option, none, some}
use nginx_admin.Entities.{LocationConfig}
use nginx_admin.Forms.Drafts.{sanitize_location}

pub data FormMode : Type 0 where
  creating editing : FormMode

pub data ActiveTab : Type 0 where
  basic locations advanced preview : ActiveTab

pub record LocationEditing : Type 0 where
  pub index : Option ℕ
  pub value : Option LocationConfig

pub record ModalState : Type 0 where
  pub modal_open : Bool
  pub mode : FormMode
  pub active_tab : ActiveTab
  pub location_editing : LocationEditing

abbrev pub not_editing : LocationEditing
not_editing = record { index = none; value = none }

abbrev pub closed : ModalState
closed = record {
  modal_open = false;
  mode = creating;
  active_tab = basic;
  location_editing = not_editing;
}

unfoldable pub open_for_create : ModalState → ModalState
open_for_create s = record s { modal_open = true; mode = creating; active_tab = basic }

unfoldable pub open_for_edit : ModalState → ModalState
open_for_edit s = record s { modal_open = true; mode = editing; active_tab = basic }

unfoldable pub close_modal : ModalState → ModalState
close_modal s = record s { modal_open = false; location_editing = not_editing }

unfoldable pub set_active_tab : ActiveTab → ModalState → ModalState
set_active_tab tab s = record s { active_tab = tab }

abbrev sanitized : Option LocationConfig → Option LocationConfig
sanitized none = none
sanitized (some l) = some (sanitize_location l)

unfoldable pub start_edit_location : Option ℕ → Option LocationConfig → ModalState → ModalState
unfolding sanitize_location
start_edit_location index value s = record s {
  location_editing = record { index = index; value = sanitized value };
}
