-- ===== src/Drm/Forgotten.antt =====
-- A modeset that the kernel refuses: drm_prepare and CDRMBackend::Commit (src/Backends/DRMBackend.cpp).
use cloud_desktop.Drm.Store.{Drm}
use cloud_desktop.Drm.Plan.{Plan}
