-- ===== src/Web.antt =====
-- apps/web/src: what the browser makes of the control plane's answers. The React runtime and the
-- layout are not modelled.
pub mod Format
pub mod Bar
pub mod Card
pub mod Fleet
pub mod Root
pub mod Dialog
pub mod AuthForm
mod Tests
mod DialogTests
