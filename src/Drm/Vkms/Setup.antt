-- ===== src/Drm/Vkms/Setup.antt =====
-- The order in which the drivers of drm/driver/vkms set a display up, and what becomes of errors.
use sample_code.Base.{
  ℕ, ℕ_discrete, Bool, true, false, ◌&&◌, not, ◌≡◌, refl, ◌⊎◌, inl, inr, Option, none, some, List,
  [], ◌∷◌, if◌then◌else◌, Option-cases,
}
use sample_code.Effect.{Cmd, fault}
use sample_code.Effect.Held.{Holds}
use sample_code.Effect.Ledger
use sample_code.Effect.Ledger.{Act, acquire, release, neutral}
use sample_code.Effect.Spec.{Returns, returns}
use sample_code.Kernel.{null, at, Ret, val}
use sample_code.Drm.MyGem
use sample_code.Drm.Cma
use sample_code.Drm.Vkms.{VkmsCall, DrmCore}
use sample_code.Drm.Vkms.Minimal
use sample_code.Drm.Vkms.Objects
use sample_code.Drm.Vkms.Dumb
use sample_code.Drm.Vkms.Legacy
use sample_code.Drm.Vkms.Atomic
use sample_code.Drm.Vkms.Dynamic

-- What a display is made of.
pub data Part : Type 0 where
  device config plane crtc encoder connector reset registered : Part

abbrev pub has : Part → List VkmsCall → Bool
has p [] = false
has device (VkmsCall.dev_init r ∷ l) = true
has config (VkmsCall.mode_config_init ∷ l) = true
has plane (VkmsCall.plane_init r ∷ l) = true
has crtc (VkmsCall.crtc_init r ∷ l) = true
has encoder (VkmsCall.encoder_init r ∷ l) = true
has connector (VkmsCall.connector_init r ∷ l) = true
has reset (VkmsCall.mode_config_reset ∷ l) = true
has registered (VkmsCall.dev_register r ∷ l) = true
has p (_ ∷ l) = has p l

abbrev pub has_all : List Part → List VkmsCall → Bool
has_all [] l = true
has_all (p ∷ ps) l = has p l && has_all ps l

-- What a call of the core works on, so what has to be there before.
abbrev pub needs : VkmsCall → List Part
needs VkmsCall.mode_config_init = device ∷ []
needs (VkmsCall.plane_init r) = device ∷ config ∷ []
needs VkmsCall.plane_helper_add = plane ∷ []
needs (VkmsCall.crtc_init r) = device ∷ config ∷ plane ∷ []
needs VkmsCall.crtc_helper_add = crtc ∷ []
needs (VkmsCall.encoder_init r) = device ∷ config ∷ []
needs (VkmsCall.connector_init r) = device ∷ config ∷ []
needs VkmsCall.connector_helper_add = connector ∷ []
needs (VkmsCall.connector_register r) = connector ∷ []
needs (VkmsCall.attach_encoder r) = connector ∷ encoder ∷ []
needs VkmsCall.mode_config_reset = plane ∷ crtc ∷ encoder ∷ connector ∷ []
needs (VkmsCall.vblank_init r) = device ∷ []
needs (VkmsCall.dev_register r) = device ∷ []
needs c = []

-- Every call of the log comes when all it needs is there, and before the device is registered,
-- when users may come.
abbrev pub ordered : List VkmsCall → Bool
ordered [] = true
ordered (c ∷ l) = has_all (needs c) l && (not (has registered l) && ordered l)

-- The drivers whose objects are static: drm/driver/my-gem, drm/driver/cma, and those of
-- drm/driver/vkms.
pub data Static : Type 0 where
  gem gem_cma minimal objects dumb legacy atomic : Static

unfoldable pub init : DrmCore → Static → Cmd VkmsCall Ret
unfolding MyGem.mygem_init Cma.mygem_init Minimal.vkms_init Objects.vkms_init Dumb.vkms_init
    Legacy.vkms_init Atomic.vkms_init
init c gem = MyGem.mygem_init c
init c gem_cma = Cma.mygem_init c
init c minimal = Minimal.vkms_init c
init c objects = Objects.vkms_init c
init c dumb = Dumb.vkms_init c
init c legacy = Legacy.vkms_init c
init c atomic = Atomic.vkms_init c

abbrev pub IsSetUp : Ret → List VkmsCall → Type 0
IsSetUp r l = (r ≡ val 0) × (ordered l ≡ true) × (has registered l ≡ true)

-- Whatever the core answers, errors included, loading each of the static drivers sets the display
-- up in an order that the core allows, ends by registering it, and reports success: no error of
-- the core is noticed.
init-IsSetUp : (c : DrmCore) (v : Static) → Returns IsSetUp (init c v [])
unfolding init
init-IsSetUp c gem = returns (refl, refl, refl)
init-IsSetUp c gem_cma = returns (refl, refl, refl)
init-IsSetUp c minimal = returns (refl, refl, refl)
init-IsSetUp c objects = returns (refl, refl, refl)
init-IsSetUp c dumb = returns (refl, refl, refl)
init-IsSetUp c legacy = returns (refl, refl, refl)
init-IsSetUp c atomic = returns (refl, refl, refl)

-- The ledger of the structure that vkms_drv.c allocates. With `frees`, the core frees the block that a device starts when the
-- last reference to it goes, as it does for a driver with no `release` callback.
abbrev pub act : Bool → VkmsCall → Act ℕ
act frees (VkmsCall.kzalloc (at p)) = acquire p
act frees (VkmsCall.kfree (at p)) = release p
act frees (VkmsCall.dev_unref (at p)) = if frees then release p else neutral
act frees c = neutral

abbrev pub held : Bool → List VkmsCall → Option (List ℕ)
held frees = Ledger.ledger ℕ_discrete (act frees)

vkms_init-loaded :
    (c : DrmCore) (frees : Bool) (p : ℕ)
    → c.kzalloc [] ≡ some p
    → Returns
        (λ r l. IsSetUp r.0 l × (r.1 ≡ at p) × Holds ℕ_discrete (act frees) l (p ∷ []))
        (Dynamic.vkms_init c [])
unfolding Dynamic.vkms_init Ledger.ledger
vkms_init-loaded c frees p e = rw e (returns ((refl, refl, refl), refl, record { is = refl }))

-- Without memory for its structure, loading vkms_drv.c accesses NULL. With it, and whatever else
-- the core answers, loading sets the display up as above, and holds the structure.
pub vkms_init-IsSetUp :
    (c : DrmCore) (frees : Bool)
    → ((c.kzalloc [] ≡ none) × ((l : List VkmsCall) × (Dynamic.vkms_init c [] ≡ fault l)))
      ⊎ ((p : ℕ) × (c.kzalloc [] ≡ some p)
          × Returns
              (λ r l. IsSetUp r.0 l × (r.1 ≡ at p) × Holds ℕ_discrete (act frees) l (p ∷ []))
              (Dynamic.vkms_init c []))
unfolding Dynamic.vkms_init
vkms_init-IsSetUp c frees = elim (Option-cases (c.kzalloc [])) [
  | inl e ↦
      let l = VkmsCall.kzalloc null ∷ [] in
      inl (e, (VkmsCall.dev_init (c.dev_init l) ∷ l, rw e refl))
  | inr (p, e) ↦ inr (p, e, vkms_init-loaded c frees p e)
]
