-- ===== src/Drm/Modeset.antt =====
-- Three programs under drm/application/ that show dumb buffers on a display:
-- modeset-single-buffer.c, modeset-double-buffer.c and modeset-page-flip.c.
-- Not modelled: the arguments that the calls are given as constants (position, count and flags),
-- `signal`, `usleep`, and what is printed.
pub mod Fill
pub mod Flips
pub mod Wait
mod Looped
pub mod Clean
mod Tests
use Prim.Native.Nat.{bit_xor}
use sample_code.Base.{
  Bool, true, false, if◌then◌else◌, none, some, suc, zero, Option, ℕ, ◌+◌, ◌*◌, ◌/◌, ◌%◌, List, [],
  ◌∷◌, get_elem?, u32_mod,
}
use sample_code.Effect.{Cmd, pure, crash, ◌>>=◌, ◌>>◌, emit}
use sample_code.Drm.Libdrm.{
  Dumb, DrmModeRes, DrmModeModeInfo, Call, Device, open_card, get_resources, get_connector,
  create_dumb, add_fb, map_dumb, mmap, deref, first,
}

-- `struct buffer_object`. Its `size` is a `uint32_t`.
pub record BufferObject : Type 0 where
  pub width : ℕ
  pub height : ℕ
  pub pitch : ℕ
  pub handle : ℕ
  pub size : ℕ
  pub vaddr : Option ℕ
  pub fb_id : ℕ

-- `for (i = 0; …; i++) bo->vaddr[i] = color;` for `n` more rounds from `i`, on 32-bit words.
unfoldable pub fill : ℕ → ℕ → Option ℕ → ℕ → Cmd Call (Unit {0})
fill zero i vaddr color = pure tt
fill (suc n) i none color = crash
fill (suc n) i (some a) color = emit (Call.store (a + 4 * i) color) >> fill n (i + 1) (some a) color

-- `memset(vaddr, byte, size)`
unfoldable pub clear : Option ℕ → ℕ → ℕ → Cmd Call (Unit {0})
clear vaddr byte zero = pure tt
clear none byte (suc n) = crash
clear (some a) byte (suc n) = emit (Call.memset a byte (suc n))

unfoldable pub modeset_destroy_fb : BufferObject → Cmd Call (Unit {0})
modeset_destroy_fb bo = do
  emit (Call.rm_fb bo.fb_id)
  emit (Call.munmap bo.vaddr bo.size)
  emit (Call.destroy_dumb bo.handle)

-- `modeset_page_flip_handler`: `i` is its static variable, and the result is its new value.
unfoldable pub modeset_page_flip_handler : List BufferObject → ℕ → ℕ → Cmd Call ℕ
modeset_page_flip_handler buf crtc_id i = elim (get_elem? buf (bit_xor i 1)) [
  | none ↦ crash
  | some bo ↦ emit (Call.page_flip crtc_id bo.fb_id) >> pure (bit_xor i 1)
]

-- A round of `drmHandleEvent`, which is libdrm's: all that is known of it here is how often it
-- calls the program's handler.
unfoldable pub handle_event : List BufferObject → ℕ → ℕ → ℕ → Cmd Call ℕ
handle_event buf crtc_id zero i = pure i
handle_event buf crtc_id (suc n) i =
    modeset_page_flip_handler buf crtc_id i >>= handle_event buf crtc_id n

-- One call of `drmHandleEvent`: the flip events that it finds, and whether SIGINT arrives before
-- the loop's next test.
pub record Round : Type 0 where
  pub flip_events : ℕ
  pub interrupted : Bool

-- The new value of `terminate`.
unfoldable pub sigint_handler : Bool → Bool
sigint_handler terminate = true

-- `while (!terminate) drmHandleEvent(fd, &ev);` from the round `t` on, on fuel; `none` is a loop
-- that has not ended yet.
unfoldable pub wait_loop :
    List BufferObject → ℕ → (ℕ → Round) → ℕ → ℕ → Bool → ℕ → Cmd Call (Option ℕ)
unfolding sigint_handler
wait_loop buf crtc_id rounds zero t terminate i = pure none
wait_loop buf crtc_id rounds (suc fuel) t true i = pure (some i)
wait_loop buf crtc_id rounds (suc fuel) t false i = do
  i' ← handle_event buf crtc_id (rounds t).flip_events i
  wait_loop buf crtc_id rounds fuel (suc t)
      (if (rounds t).interrupted then sigint_handler false else false) i'

-- What the programs find before they make their buffers.
pub record Output : Type 0 where
  pub fd : ℕ
  pub crtc_id : ℕ
  pub conn_id : ℕ
  pub mode : DrmModeModeInfo

-- The end of each `main`.
unfoldable pub tear_down : Output → Cmd Call ℕ
tear_down out = do
  emit (Call.free_connector out.conn_id)
  emit Call.free_resources
  emit (Call.close out.fd)
  pure 0

abbrev pub set_crtc : Output → BufferObject → Cmd Call (Unit {0})
set_crtc out bo = emit (Call.set_crtc out.crtc_id bo.fb_id out.conn_id out.mode)

module _ (d : Device) where
  -- `modeset_create_fb` up to the mapping, for a buffer of the size of the mode.
  unfoldable pub map_fb : DrmModeModeInfo → Cmd Call BufferObject
  map_fb mode = do
    create ← create_dumb d mode.hdisplay mode.vdisplay 32
    fb_id ← add_fb d mode.hdisplay mode.vdisplay create.pitch create.handle
    offset ← map_dumb d create.handle
    vaddr ← mmap d create.size offset
    pure (record {
      width = mode.hdisplay;
      height = mode.vdisplay;
      pitch = create.pitch;
      handle = create.handle;
      size = create.size % u32_mod;
      vaddr = vaddr;
      fb_id = fb_id;
    })

  -- In modeset-double-buffer.c and modeset-page-flip.c.
  unfoldable pub modeset_create_fb : DrmModeModeInfo → ℕ → Cmd Call BufferObject
  modeset_create_fb mode color = do bo ← map_fb mode; fill (bo.size / 4) 0 bo.vaddr color; pure bo

  -- In modeset-single-buffer.c.
  unfoldable pub modeset_create_white_fb : DrmModeModeInfo → Cmd Call BufferObject
  modeset_create_white_fb mode = do bo ← map_fb mode; clear bo.vaddr 255 bo.size; pure bo

  -- The begin of each `main`.
  unfoldable pub set_up : Cmd Call Output
  set_up = do
    fd ← open_card d
    r ← get_resources d
    res ← deref r
    crtc_id ← first res.crtcs
    conn_id ← first res.connectors
    c ← get_connector d conn_id
    modes ← deref c
    mode ← first modes
    pure (record { fd = fd; crtc_id = crtc_id; conn_id = conn_id; mode = mode })

  -- `main` of modeset-single-buffer.c
  unfoldable pub main_single : Cmd Call ℕ
  main_single = do
    out ← set_up
    bo ← modeset_create_white_fb out.mode
    set_crtc out bo
    emit Call.getchar
    modeset_destroy_fb bo
    tear_down out

  -- `main` of modeset-double-buffer.c
  unfoldable pub main_double : Cmd Call ℕ
  main_double = do
    out ← set_up
    bo₀ ← modeset_create_fb out.mode 0xff0000
    bo₁ ← modeset_create_fb out.mode 0x0000ff
    set_crtc out bo₀
    emit Call.getchar
    set_crtc out bo₁
    emit Call.getchar
    modeset_destroy_fb bo₁
    modeset_destroy_fb bo₀
    tear_down out

  -- `main` of modeset-page-flip.c behind its loop; `none` is a loop that has not ended.
  unfoldable pub finish : Output → BufferObject → BufferObject → Option ℕ → Cmd Call (Option ℕ)
  finish out bo₀ bo₁ none = pure none
  finish out bo₀ bo₁ (some i) = do
    modeset_destroy_fb bo₁
    modeset_destroy_fb bo₀
    r ← tear_down out
    pure (some r)

  -- `main` of modeset-page-flip.c, with so much fuel for its loop. `terminate` says whether SIGINT
  -- has arrived before.
  unfoldable pub main_flip : (ℕ → Round) → ℕ → Bool → Cmd Call (Option ℕ)
  unfolding wait_loop finish
  main_flip rounds fuel terminate = do
    out ← set_up
    bo₀ ← modeset_create_fb out.mode 0xff0000
    bo₁ ← modeset_create_fb out.mode 0x0000ff
    set_crtc out bo₀
    emit (Call.page_flip out.crtc_id bo₀.fb_id)
    ended ← wait_loop (bo₀ ∷ bo₁ ∷ []) out.crtc_id rounds fuel 0 terminate 0
    finish out bo₀ bo₁ ended
