-- ===== src/Server/Actions.antt =====
-- `ServerAction` and its names, which `strum` derives from the variants.
use dst_demo.Prelude.{Option, some, ◌≡◌}
use dst_demo.Text.{Text}
use dst_demo.Framing.Messages.{IsPlain}

pub data ServerAction : Type 0 where
  health list_transactions get_transaction create_transaction void_transaction get_balance :
      ServerAction
  close exit : ServerAction

-- `from_str` and `as_ref`.
pub record ActionNames : Type 0 where
  pub from_str : Text → Option ServerAction
  pub as_ref : ServerAction → Text

-- `Display`.
abbrev pub show_action : ActionNames → ServerAction → Text
show_action names action = names.as_ref action

-- What the program relies on: a name is plain text and is read back as its action.
pub record NameLaws (names : ActionNames) : Type 0 where
  pub reads : (a : ServerAction) → names.from_str (names.as_ref a) ≡ some a
  pub plain : (a : ServerAction) → IsPlain (names.as_ref a)
