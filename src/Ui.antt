-- ===== src/Ui.antt =====
-- internal/ui: the view models, the navigator and the screens. Of Fyne's widgets the model has what the
-- code sets in them.
pub mod ChatList
pub mod DirectChat
pub mod Navigator
pub mod Screens
