-- ===== src/Drm/FlipMachine/Tests.antt =====
-- The theorem about the page flips on vkms_drv_5.c at a concrete display.
use sample_code.Base.{ℕ, ◌≡◌, refl, false, some, List, [], ◌∷◌, length}
use sample_code.Effect.Spec.{Returns, returns}
use sample_code.Drm.FlipMachine.Pending.{first_rounds, OnePending, first_rounds-OnePending}
use sample_code.Drm.FlipMachine.{serve, serve_all}
use sample_code.Drm.Libdrm.Sample.{tiny}
use sample_code.Drm.Libdrm.{Call}
use sample_code.Drm.Modeset.{BufferObject, Round, wait_loop}

abbrev buffer : ℕ → BufferObject
buffer fb = record {
  width = 2;
  height = 1;
  pitch = 8;
  handle = fb;
  size = 8;
  vaddr = some 64;
  fb_id = fb;
}

abbrev begun : List Call
begun = Call.set_crtc 10 5 20 tiny ∷ []

abbrev one_each : ℕ → Round
one_each t = record { flip_events = 1; interrupted = false }

begun-served : Returns (λ s m. m ≡ []) (serve_all length begun 0 [])
unfolding serve_all serve
begun-served = returns refl

first_rounds-OnePending_example :
    Returns
      (λ i l.
        (wait_loop (buffer 5 ∷ buffer 6 ∷ []) 10 one_each 7 0 false 0 (Call.page_flip 10 5 ∷ begun)
          ≡ wait_loop (buffer 5 ∷ buffer 6 ∷ []) 10 one_each 4 3 false i l)
        × OnePending (buffer 5) (buffer 6) 10 length 0 [] one_each 3 i l)
      (first_rounds (buffer 5) (buffer 6) 10 one_each 3 0 (Call.page_flip 10 5 ∷ begun))
first_rounds-OnePending_example =
    first_rounds-OnePending (buffer 5) (buffer 6) 10 length 0 [] one_each 3 4 begun begun-served
      λ t h. refl
