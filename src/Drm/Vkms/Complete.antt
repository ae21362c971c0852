-- ===== src/Drm/Vkms/Complete.antt =====
-- What the tables of the drivers of drm/driver/vkms lack of what their features need, as the
-- documentation of the DRM core has it.
use sample_code.Base.{◌≡◌, refl, Option, none, some, List, [], ◌∷◌, ◌++◌, if◌then◌else◌}
use sample_code.Drm.Tables.{
  CoreFunction, CrtcFuncs, PlaneFuncs, ConnectorFuncs, EncoderFuncs, ModeConfigFuncs,
  FileOperations, DrmDriver, ConnectorHelperFuncs,
}
use sample_code.Drm.Vkms.{DrmCore}
use sample_code.Drm.Vkms.Objects
use sample_code.Drm.Vkms.Dumb
use sample_code.Drm.Vkms.Legacy
use sample_code.Drm.Vkms.Atomic
use sample_code.Drm.Vkms.Dynamic

pub record Tables : Type 0 where
  pub driver : DrmDriver (Unit {0}) (Unit {0})
  pub plane : PlaneFuncs
  pub crtc : CrtcFuncs
  pub encoder : EncoderFuncs
  pub connector : ConnectorFuncs
  pub mode_config : Option ModeConfigFuncs
  pub connector_helper : Option ConnectorHelperFuncs

-- The hooks that a display needs, those that it needs for atomic commits, and the memory's.
pub data Hook : Type 0 where
  set_config crtc_destroy update_plane disable_plane plane_destroy : Hook
  encoder_destroy fill_modes connector_destroy get_modes fb_create : Hook
  crtc_reset crtc_duplicate crtc_destroy_state : Hook
  plane_reset plane_duplicate plane_destroy_state : Hook
  connector_reset connector_duplicate connector_destroy_state : Hook
  atomic_check atomic_commit : Hook
  gem_free gem_mmap : Hook

abbrev unset : {A : Type 0} → Hook → Option A → List Hook
unset h none = h ∷ []
unset h (some a) = []

abbrev fb_create_of : Option ModeConfigFuncs → Option CoreFunction
fb_create_of none = none
fb_create_of (some f) = f.fb_create

abbrev check_of : Option ModeConfigFuncs → Option CoreFunction
check_of none = none
check_of (some f) = f.atomic_check

abbrev commit_of : Option ModeConfigFuncs → Option CoreFunction
commit_of none = none
commit_of (some f) = f.atomic_commit

abbrev unset_helper : Option ConnectorHelperFuncs → List Hook
unset_helper none = get_modes ∷ []
unset_helper (some f) = unset get_modes f.get_modes

abbrev unset_mmap : Option (FileOperations (Unit {0})) → List Hook
unset_mmap none = gem_mmap ∷ []
unset_mmap (some f) = unset gem_mmap f.mmap

abbrev modeset_lacks : Tables → List Hook
modeset_lacks t =
    unset set_config t.crtc.set_config
    ++ (unset crtc_destroy t.crtc.destroy
        ++ (unset update_plane t.plane.update_plane
            ++ (unset disable_plane t.plane.disable_plane
                ++ (unset plane_destroy t.plane.destroy
                    ++ (unset encoder_destroy t.encoder.destroy
                        ++ (unset fill_modes t.connector.fill_modes
                            ++ (unset connector_destroy t.connector.destroy
                                ++ (unset_helper t.connector_helper
                                    ++ unset fb_create (fb_create_of t.mode_config)))))))))

abbrev atomic_lacks : Tables → List Hook
atomic_lacks t =
    unset crtc_reset t.crtc.reset
    ++ (unset crtc_duplicate t.crtc.atomic_duplicate_state
        ++ (unset crtc_destroy_state t.crtc.atomic_destroy_state
            ++ (unset plane_reset t.plane.reset
                ++ (unset plane_duplicate t.plane.atomic_duplicate_state
                    ++ (unset plane_destroy_state t.plane.atomic_destroy_state
                        ++ (unset connector_reset t.connector.reset
                            ++ (unset connector_duplicate t.connector.atomic_duplicate_state
                                ++ (unset connector_destroy_state t.connector.atomic_destroy_state
                                    ++ (unset atomic_check (check_of t.mode_config)
                                        ++ unset atomic_commit (commit_of t.mode_config))))))))))

abbrev gem_lacks : Tables → List Hook
gem_lacks t = unset gem_free t.driver.gem_free_object_unlocked ++ unset_mmap t.driver.fops

-- The hooks that the features of a driver need and that its tables leave NULL.
abbrev pub lacks : Tables → List Hook
lacks t =
    (if t.driver.driver_modeset then modeset_lacks t else [])
    ++ ((if t.driver.driver_atomic then atomic_lacks t else [])
        ++ (if t.driver.driver_gem then gem_lacks t else []))

-- vkms_drv_3.c to vkms_drv_6.c, and vkms_drv.c
pub data Driver : Type 0 where
  objects dumb legacy atomic dynamic : Driver

unfoldable pub tables : DrmCore → FileOperations (Unit {0}) → Driver → Tables
tables c made objects = record {
  driver = Objects.vkms_driver;
  plane = Objects.vkms_plane_funcs;
  crtc = Objects.vkms_crtc_funcs;
  encoder = Objects.vkms_encoder_funcs;
  connector = Objects.vkms_connector_funcs;
  mode_config = none;
  connector_helper = none;
}
tables c made dumb = record {
  driver = Dumb.vkms_driver;
  plane = Dumb.vkms_plane_funcs;
  crtc = Dumb.vkms_crtc_funcs;
  encoder = Dumb.vkms_encoder_funcs;
  connector = Dumb.vkms_connector_funcs;
  mode_config = some Dumb.vkms_mode_funcs;
  connector_helper = none;
}
tables c made legacy = record {
  driver = Legacy.vkms_driver;
  plane = Legacy.vkms_plane_funcs;
  crtc = Legacy.vkms_crtc_funcs;
  encoder = Legacy.vkms_encoder_funcs;
  connector = Legacy.vkms_connector_funcs;
  mode_config = some Legacy.vkms_mode_funcs;
  connector_helper = some (Legacy.vkms_conn_helper_funcs c);
}
tables c made atomic = record {
  driver = Atomic.vkms_driver;
  plane = Atomic.vkms_plane_funcs;
  crtc = Atomic.vkms_crtc_funcs;
  encoder = Atomic.vkms_encoder_funcs;
  connector = Atomic.vkms_connector_funcs;
  mode_config = some Atomic.vkms_mode_funcs;
  connector_helper = some (Atomic.vkms_conn_helper_funcs c);
}
tables c made dynamic = record {
  driver = Dynamic.vkms_driver made;
  plane = Dynamic.vkms_plane_funcs;
  crtc = Dynamic.vkms_crtc_funcs;
  encoder = Dynamic.vkms_encoder_funcs;
  connector = Dynamic.vkms_connector_funcs;
  mode_config = some Dynamic.vkms_mode_funcs;
  connector_helper = some (Dynamic.vkms_conn_helper_funcs c);
}

-- The early drivers make a display whose tables are empty.
abbrev still_missing : Driver → List Hook
still_missing objects =
    set_config ∷ crtc_destroy ∷ update_plane ∷ disable_plane ∷ plane_destroy ∷ encoder_destroy
    ∷ fill_modes ∷ connector_destroy ∷ get_modes ∷ fb_create ∷ []
still_missing dumb =
    set_config ∷ crtc_destroy ∷ update_plane ∷ disable_plane ∷ plane_destroy ∷ encoder_destroy
    ∷ fill_modes ∷ connector_destroy ∷ get_modes ∷ []
still_missing v = []

-- vkms_drv_5.c, vkms_drv_6.c, and vkms_drv.c where the core's macro sets mmap, lack none of the
-- hooks that their features need. vkms_drv_3.c and vkms_drv_4.c announce a display and lack all of
-- its hooks, but for the fb_create of vkms_drv_4.c.
lacks-tables :
    (c : DrmCore) (made : FileOperations (Unit {0})) (v : Driver)
    → unset_mmap (some made) ≡ []
    → lacks (tables c made v) ≡ still_missing v
unfolding tables Objects.vkms_driver Objects.vkms_plane_funcs Objects.vkms_crtc_funcs
    Objects.vkms_encoder_funcs Objects.vkms_connector_funcs Dumb.vkms_driver Dumb.vkms_plane_funcs
    Dumb.vkms_crtc_funcs Dumb.vkms_encoder_funcs Dumb.vkms_connector_funcs Dumb.vkms_mode_funcs
    Legacy.vkms_driver Legacy.vkms_plane_funcs Legacy.vkms_crtc_funcs Legacy.vkms_encoder_funcs
    Legacy.vkms_connector_funcs Legacy.vkms_mode_funcs Legacy.vkms_conn_helper_funcs
    Atomic.vkms_driver Atomic.vkms_plane_funcs Atomic.vkms_crtc_funcs Atomic.vkms_encoder_funcs
    Atomic.vkms_connector_funcs Atomic.vkms_mode_funcs Atomic.vkms_conn_helper_funcs
    Dynamic.vkms_driver Dynamic.vkms_plane_funcs Dynamic.vkms_crtc_funcs Dynamic.vkms_encoder_funcs
    Dynamic.vkms_connector_funcs Dynamic.vkms_mode_funcs Dynamic.vkms_conn_helper_funcs
lacks-tables c made objects e = refl
lacks-tables c made dumb e = refl
lacks-tables c made legacy e = refl
lacks-tables c made atomic e = refl
lacks-tables c made dynamic e = e
