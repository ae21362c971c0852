-- ===== src/Drm.antt =====
-- The samples under drm/.
pub mod Cma
mod CmaMachine
mod FlipMachine
pub mod Libdrm
pub mod Modeset
pub mod MyGem
pub mod Planes
pub mod Vkms
pub mod Tables
