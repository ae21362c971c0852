-- ===== src/Drm/Planes.antt =====
-- The programs under drm/application/ that show a plane: modeset-plane-test.c,
-- modeset-atomic-crtc.c and modeset-atomic-plane.c. Their buffer functions are those of
-- modeset-single-buffer.c. Not modelled: the flags of a commit, the rectangle of
-- `drmModeSetPlane`, and what is printed.
pub mod Lookup
pub mod Clean
mod Tests
use mathlib.Core.Logic.{ite}
use sample_code.Base.{ℕ, ◌*◌, ◌^◌, List, [], ◌∷◌, if◌then◌else◌, ne_zero, ℕ_discrete}
use sample_code.Effect.{Cmd, pure, ◌>>=◌, ◌>>◌, emit}
use sample_code.Drm.Libdrm.{
  ClientCap, universal_planes, atomic, PropertyName, crtc_id, active, mode_id, fb_id, crtc_x,
  crtc_y, crtc_w, crtc_h, src_x, src_y, src_w, src_h, DrmModeProperty, DrmModeModeInfo, Call,
  Device, open_card, get_resources, get_plane_resources, get_connector, get_properties,
  get_property, create_blob, atomic_alloc, deref, first,
}
use sample_code.Drm.Modeset.{BufferObject, modeset_create_white_fb, modeset_destroy_fb}

pub PropertyName-discrete : Discrete PropertyName
PropertyName-discrete = hlevel ℕ_discrete

-- `id` after the name of a property was compared.
abbrev pub id_if_named : PropertyName → DrmModeProperty → ℕ
id_if_named name property = ite (PropertyName-discrete property.name name) property.prop_id 0

-- What the programs find before they make their buffer.
pub record PlaneOutput : Type 0 where
  pub fd : ℕ
  pub crtc : ℕ
  pub conn : ℕ
  pub plane : ℕ
  pub mode : DrmModeModeInfo

unfoldable pub tear_down : PlaneOutput → Cmd Call ℕ
tear_down out = do
  emit (Call.free_connector out.conn)
  emit Call.free_plane_resources
  emit Call.free_resources
  emit (Call.close out.fd)
  pure 0

-- `drmModeAtomicAddProperty`, for each property and its value.
unfoldable pub add_properties : ℕ → ℕ → List ℕ → List ℕ → Cmd Call (Unit {0})
add_properties req obj [] values = pure tt
add_properties req obj (id ∷ ids) [] = pure tt
add_properties req obj (id ∷ ids) (value ∷ values) =
    emit (Call.add_property req obj id value) >> add_properties req obj ids values

module _ (d : Device) where
  -- The loop over the properties from one on: it ends at the first whose id it takes.
  unfoldable pub get_property_id : List ℕ → PropertyName → Cmd Call ℕ
  get_property_id [] name = pure 0
  get_property_id (p ∷ props) name = do
    r ← get_property d p
    property ← deref r
    let id = id_if_named name property
    emit (Call.free_property p)
    let rest = get_property_id props name
    if ne_zero id then pure id else rest

  -- `get_property_id` for each of the names.
  unfoldable pub get_property_ids : List ℕ → List PropertyName → Cmd Call (List ℕ)
  get_property_ids props [] = pure []
  get_property_ids props (name ∷ names) = do
    id ← get_property_id props name
    ids ← get_property_ids props names
    pure (id ∷ ids)

  -- The ids of some properties of an object, whose list is obtained and freed.
  unfoldable pub object_ids : ℕ → List PropertyName → Cmd Call (List ℕ)
  object_ids obj names = do
    r ← get_properties d obj
    props ← deref r
    ids ← get_property_ids props names
    emit (Call.free_properties obj)
    pure ids

  unfoldable pub set_up : Cmd Call PlaneOutput
  set_up = do
    fd ← open_card d
    r ← get_resources d
    res ← deref r
    crtc ← first res.crtcs
    conn ← first res.connectors
    emit (Call.set_client_cap universal_planes)
    r' ← get_plane_resources d
    planes ← deref r'
    plane ← first planes
    c ← get_connector d conn
    modes ← deref c
    mode ← first modes
    pure (record { fd = fd; crtc = crtc; conn = conn; plane = plane; mode = mode })

  -- `main` of modeset-plane-test.c
  unfoldable pub main_plane_test : Cmd Call ℕ
  main_plane_test = do
    out ← set_up
    bo ← modeset_create_white_fb d out.mode
    emit (Call.set_crtc out.crtc bo.fb_id out.conn out.mode)
    emit Call.getchar
    emit (Call.set_plane out.plane out.crtc bo.fb_id)
    emit Call.getchar
    modeset_destroy_fb bo
    tear_down out

  -- The atomic mode set of modeset-atomic-crtc.c and modeset-atomic-plane.c; the result is the
  -- blob of the mode.
  unfoldable pub set_mode : PlaneOutput → Cmd Call ℕ
  set_mode out = do
    emit (Call.set_client_cap atomic)
    conn_ids ← object_ids out.conn (crtc_id ∷ [])
    crtc_ids ← object_ids out.crtc (active ∷ mode_id ∷ [])
    blob ← create_blob d out.mode
    req ← atomic_alloc d
    add_properties req out.crtc crtc_ids (1 ∷ blob ∷ [])
    add_properties req out.conn conn_ids (out.crtc ∷ [])
    emit (Call.atomic_commit req)
    emit (Call.atomic_free req)
    emit Call.getchar
    pure blob

  -- The atomic plane update of modeset-atomic-plane.c.
  unfoldable pub update_plane : PlaneOutput → BufferObject → Cmd Call (Unit {0})
  update_plane out bo = do
    ids ←
        object_ids out.plane
          (crtc_id ∷ fb_id ∷ crtc_x ∷ crtc_y ∷ crtc_w ∷ crtc_h ∷ src_x ∷ src_y ∷ src_w ∷ src_h ∷ [])
    req ← atomic_alloc d
    add_properties req out.plane ids
        (out.crtc ∷ bo.fb_id ∷ 50 ∷ 50 ∷ 320 ∷ 320 ∷ 0 ∷ 0 ∷ 320 * 2 ^ 16 ∷ 320 * 2 ^ 16 ∷ [])
    emit (Call.atomic_commit req)
    emit (Call.atomic_free req)
    emit Call.getchar

  -- `main` of modeset-atomic-crtc.c
  unfoldable pub main_atomic_crtc : Cmd Call ℕ
  main_atomic_crtc = do
    out ← set_up
    bo ← modeset_create_white_fb d out.mode
    set_mode out
    emit (Call.set_plane out.plane out.crtc bo.fb_id)
    emit Call.getchar
    modeset_destroy_fb bo
    tear_down out

  -- `main` of modeset-atomic-plane.c
  unfoldable pub main_atomic_plane : Cmd Call ℕ
  main_atomic_plane = do
    out ← set_up
    bo ← modeset_create_white_fb d out.mode
    set_mode out
    update_plane out bo
    modeset_destroy_fb bo
    tear_down out
