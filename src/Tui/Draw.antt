-- ===== src/Tui/Draw.antt =====
-- internal/tui/model.go: the drawing.
pub mod Panes
pub mod Logs
pub mod View
pub mod Anchor
pub mod Fills
pub mod Shows
mod Samples
