-- ===== src/Ui/Navigator.antt =====
-- internal/ui/navigator.go: `AppNavigator`. A pane is the list of the objects in its container.
use go_p2p_messenger.Base.{Option, none, some, List, [], ◌∷◌, ◌++◌}

-- The content of the window: the split of both panes, or a screen of its own.
pub data Content (O : Type 0) : Type 0 where
  split : Content O
  full : O → Content O

pub record AppNavigator (O : Type 0) : Type 0 where
  pub master : List O
  pub detail : List O
  pub content : Content O

module _ {O : Type 0} where
  -- `n.detail.Objects = []fyne.CanvasObject{content}`
  unfoldable pub fill_detail : O → AppNavigator O → AppNavigator O
  fill_detail o n = record n { detail = o ∷ [] }

  -- `SetDefaultDetail`; `welcome` is its centred label.
  unfoldable pub set_default_detail : O → AppNavigator O → AppNavigator O
  unfolding fill_detail
  set_default_detail welcome n = fill_detail welcome n

  -- `SetDetail`; `none` is nil.
  unfoldable pub set_detail : O → Option O → AppNavigator O → AppNavigator O
  unfolding fill_detail set_default_detail
  set_detail welcome none n = set_default_detail welcome n
  set_detail welcome (some o) n = fill_detail o n

  unfoldable pub set_master : O → AppNavigator O → AppNavigator O
  set_master o n = record n { master = o ∷ [] }

  unfoldable pub set_content : O → AppNavigator O → AppNavigator O
  set_content o n = record n { content = full o }

  unfoldable pub set_split : AppNavigator O → AppNavigator O
  set_split n = record n { content = split }

  -- `NewAppNavigator`, where `a.NewWindow` gives a window without content.
  unfoldable pub new_app_navigator : O → AppNavigator O
  unfolding set_default_detail
  new_app_navigator welcome =
      set_default_detail welcome (record { master = []; detail = []; content = split })

  -- What the window shows.
  abbrev pub visible : AppNavigator O → List O
  visible n = elim n.content [ split ↦ n.master ++ n.detail | full o ↦ o ∷ [] ]
