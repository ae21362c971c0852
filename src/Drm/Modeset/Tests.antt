-- ===== src/Drm/Modeset/Tests.antt =====
-- The theorems about the display programs at a concrete device.
use sample_code.Base.{false, ◌==◌, arith, ℕ, ◌≡◌, refl, none, some, List, [], ◌∷◌}
use sample_code.Effect.{fault}
use sample_code.Effect.Spec.{Returns}
use sample_code.Drm.Libdrm.{Call, Device}
use sample_code.Drm.Libdrm.Sample.{tiny, device}
use sample_code.Drm.Modeset
use sample_code.Drm.Modeset.{BufferObject}
use sample_code.Drm.Modeset.Fill.{Mapped, Filled}
use sample_code.Drm.Modeset.Flips.{Flipped}

abbrev unmapped : Device
unmapped = record device { mmap = λ l size offset. none }

-- One event in each round, and SIGINT in the third.
abbrev until_third : ℕ → Modeset.Round
until_third t = record { flip_events = 1; interrupted = t == 2 }

modeset_create_fb-Filled_example :
    Returns
      (λ bo l'. (a : ℕ) × (m : List Call) × Mapped 8 bo a m × Filled a 255 2 0 m l')
      (Modeset.modeset_create_fb device tiny 255 [])
modeset_create_fb-Filled_example =
    Modeset.Fill.modeset_create_fb-Filled device tiny 255 [] (λ m size offset. (64, refl))
      (omega arith)

abbrev buffer : ℕ → BufferObject
buffer fb = record {
  width = 2;
  height = 1;
  pitch = 8;
  handle = fb;
  size = 8;
  vaddr = some 64;
  fb_id = fb;
}

abbrev flipped_once : List Call
flipped_once = Call.page_flip 10 5 ∷ []

flipped_once-Flipped : Flipped (buffer 5) (buffer 6) 10 1 0 flipped_once
flipped_once-Flipped = record { turn = Modeset.Flips.start; count = refl }

-- A program that finds no resources stops at once, by an invalid access.
abbrev bare : Device
bare = record device { get_resources = λ l. none }

main_double-bare :
    Modeset.main_double bare [] ≡ fault (Call.get_resources none ∷ Call.open_card 3 ∷ [])
unfolding Modeset.main_double Modeset.set_up
main_double-bare = refl

wait_loop-AllFlipped_example :
    Returns
      (Modeset.Wait.Stopped until_third
        (Modeset.Wait.AllFlipped (buffer 5) (buffer 6) 10 until_third 1)
        0
        2)
      (Modeset.wait_loop (buffer 5 ∷ buffer 6 ∷ []) 10 until_third 4 0 false 0 flipped_once)
wait_loop-AllFlipped_example =
    Modeset.Wait.wait_loop-AllFlipped (buffer 5) (buffer 6) 10 until_third 1 4 2 (omega arith) refl
      flipped_once-Flipped
