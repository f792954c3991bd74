-- ===== src/Results/Rendered.antt =====
-- When the views of the results render.
mod Parts
mod Prefs
mod Configs
mod Serve
pub mod Panel
pub mod Command
mod Status
mod Queries
