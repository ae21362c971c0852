-- ===== src/Drm/Cma/Life.antt =====
-- The life of a dumb buffer of drm/driver/cma/dumb.c.
use sample_code.Base.{ℕ, ◌≡◌, refl, none, some, List, ◌∷◌, inl, inr, Option-cases, ◌⊎◌}
use sample_code.Effect.{Cmd, fault, pure, ◌>>=◌}
use sample_code.Effect.Spec.{Returns, returns}
use sample_code.Kernel.{Kernel, Ptr, at, to_ptr, Res, mem_ref, Event}
use sample_code.Kernel.Held.{Holds, gain, skip}
use sample_code.Drm.Cma.{DumbArgs, drm_gem_cma_dumb_create, mygem_driver}
use sample_code.Drm.Tables.{CoreFunction, DrmDriver}

-- The end of an object's last reference: the core calls the driver's callback, if there is one.
-- `free` is what the core's own functions do.
abbrev pub drop_last :
    {M C : Type 0}
    → (CoreFunction → Ptr → Cmd Event (Unit {0}))
    → DrmDriver M C
    → Ptr
    → Cmd Event (Unit {0})
drop_last free driver obj = elim driver.gem_free_object_unlocked [
  | none ↦ pure tt
  | some f ↦ free f obj
]

module _ (k : Kernel) (free : CoreFunction → Ptr → Cmd Event (Unit {0})) where
  -- A buffer is made, and then the last reference to its object goes. The object is the one whose
  -- memory the driver was given.
  unfoldable pub dumb_life : DumbArgs → Cmd Event (Unit {0})
  unfolding mygem_driver
  dumb_life args l =
      let obj = to_ptr (k.kzalloc l k.sizeof_cma_object) in
      (drm_gem_cma_dumb_create k args >>= λ r. drop_last free (mygem_driver k) obj) l

  -- The driver of drm/driver/cma keeps every object: where there is memory for it, the object is
  -- still held after its last reference has gone, whatever the core's functions do. Where there
  -- is none, the driver accesses NULL.
  pub dumb_life-keeps :
      (args : DumbArgs) {l : List Event} {h : List Res}
      → Holds l h
      → ((k.kzalloc l k.sizeof_cma_object ≡ none)
          × ((m : List Event) × (dumb_life args l ≡ fault m)))
        ⊎ ((p : ℕ) × (k.kzalloc l k.sizeof_cma_object ≡ some p)
            × Returns (λ _ m. Holds m (mem_ref (at p) ∷ h)) (dumb_life args l))
  unfolding dumb_life mygem_driver drm_gem_cma_dumb_create
  dumb_life-keeps args {l} q = elim (Option-cases (k.kzalloc l k.sizeof_cma_object)) [
    | inl e ↦ inl (e, rw e (_, refl))
    | inr (p, e) ↦ inr (
      p,
      e,
      rw e (
          returns (
            skip (Event.dma_alloc_wc _ _) refl (
              skip (Event.drm_gem_handle_create _ _) refl (
                skip (Event.drm_gem_object_init _ _ _) refl
                  (gain (Event.kzalloc k.sizeof_cma_object (at p)) refl q))))),
    )
  ]
