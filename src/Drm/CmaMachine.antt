-- ===== src/Drm/CmaMachine.antt =====
-- A machine on which drm/driver/cma/dumb.c is loaded, for the program
-- drm/application/my-gem/dumb.c: the calls that the program makes of the card run the driver's
-- functions, which are found by its tables.
mod Shown
mod Tests
use sample_code.Base.{ℕ, ◌+◌, Bool, false, Option, none, some, List, [], ◌∷◌, ◌==◌, if◌then◌else◌}
use sample_code.Effect.{Run, ok, fault, Cmd, pure, ◌>>=◌, ◌>>◌}
use sample_code.Kernel.{Kernel, Ret, val, err, enodev, Vma, nonzero, Event}
use sample_code.Mmap.Eager.{seen, same_frame, area}
use sample_code.Drm.Cma.{DrmGemCmaObject, DumbArgs, Mmap, DumbCreate, mygem_driver}
use sample_code.Drm.Libdrm.{Call, Dumb, Device}
use sample_code.Drm.Tables.{Entry, core, own, DrmDriver}

-- The object of the buffer made last, the frame where the program's text was written, and whether
-- what was read last is that text.
pub record State : Type 0 where
  pub object : Option DrmGemCmaObject
  pub text_at : Option ℕ
  pub shown : Option Bool

abbrev pub loaded : State
loaded = record { object = none; text_at = none; shown = none }

abbrev asked : ℕ → ℕ → ℕ → DumbArgs
asked width height bpp = record {
  height = height;
  width = width;
  bpp = bpp;
  handle = 0;
  pitch = 0;
  size = 0;
}

abbrev answered : DumbArgs → Dumb
answered args = record { handle = args.handle; pitch = args.pitch; size = args.size }

abbrev failed : Dumb
failed = record { handle = 0; pitch = 0; size = 0 }

module _ (k : Kernel) where
  abbrev driver : DrmDriver Mmap DumbCreate
  driver = mygem_driver k

  -- A request to make a buffer, which the core gives to the driver. After a failure, the request
  -- keeps its zeros.
  abbrev create : ℕ → ℕ → ℕ → State → Cmd Event (Dumb × State)
  create width height bpp s = elim driver.dumb_create [
    | none ↦ pure (failed, s)
    | some e ↦ elim e [
      | core f ↦ pure (failed, s)
      | own f ↦ do
        r ← f (asked width height bpp)
        pure (if nonzero r.0 then (failed, s) else (answered r.1, record s { object = some r.2 }))
    ]
  ]

  -- `drm_gem_mmap` finds the object, if it does not fail.
  abbrev found : State → Ret → Option DrmGemCmaObject
  found s r = if nonzero r then none else s.object

  abbrev map_area : State → Vma → Cmd Event Ret
  map_area s vma = elim driver.fops [
    | none ↦ pure (err enodev)
    | some fops ↦ elim fops.mmap [
      | none ↦ pure (err enodev)
      | some e ↦ elim e [ core f ↦ pure (err enodev) | own f ↦ f (found s) vma ]
    ]
  ]

  -- The frame that an access to an address finds.
  abbrev look : ℕ → Cmd Event (Option ℕ)
  look a m = pure (seen k m a) m

  module _ (place : List Call → ℕ → ℕ) where
    -- A call, or an access to a mapping, that is made after those of `l`.
    unfoldable pub serve : Call → List Call → State → Cmd Event State
    serve (Call.create_dumb width height bpp req) l s = do r ← create width height bpp s; pure r.1
    serve (Call.mmap size offset a) l s = do map_area s (area (place l size) size); pure s
    serve (Call.write_text a) l s = do f ← look a; pure (record s { text_at = f })
    serve (Call.read_text a) l s = do
      f ← look a
      pure (record s { shown = some (same_frame f s.text_at) })
    serve c l s = pure s

    unfoldable pub serve_all : List Call → State → Cmd Event State
    unfolding serve
    serve_all [] s = pure s
    serve_all (c ∷ l) s = serve_all l s >>= serve c l

    abbrev placed : ℕ → Run Event Ret → Option ℕ
    placed a (ok r l) = if nonzero r then none else some a
    placed a (fault l) = none

    abbrev answer : Run Event (Dumb × State) → Dumb
    answer (ok r l) = r.0
    answer (fault l) = failed

    -- `d` answers all calls but the two that the driver serves.
    unfoldable pub machine : Device → List Event → Device
    unfolding serve_all
    machine d l₀ = record d {
      create_dumb = λ l w h bpp. answer ((serve_all l loaded >>= create w h bpp) l₀);
      mmap = λ l size offset.
          placed (place l size)
            ((serve_all l loaded >>= λ s. map_area s (area (place l size) size)) l₀);
    }
