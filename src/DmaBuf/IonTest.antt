-- ===== src/DmaBuf/IonTest.antt =====
-- dma-buf/09/dmabuf-test/ion_test.c on dma-buf/09/exporter-ion.c: the ioctl of the program runs the
-- driver's handler.

mod Tests
use sample_code.Base.{
  ℕ, zero, ◌≡◌, false, Option, none, some, List, [], ◌∷◌, ◌++◌, map, length, ==_of_eq, arith,
}
use sample_code.Effect.{Run, ok, fault, Cmd, pure, ◌>>=◌, ◌>>◌}
use sample_code.Effect.Spec
use sample_code.Kernel.{
  Kernel, Ptr, at, Ret, val, err, ion_answer, Res, mem_ref, page_ref, buffer_ref, Event,
}
use sample_code.Kernel.Held.{Holds}
use sample_code.DmaBuf.Machine.{no_ioctl}
use sample_code.Posix.Device.{ioctl_of}
use sample_code.Posix.{Sys, DeviceFile, Exit, success, minus_one, Os}
use sample_code.DmaBuf.Ion.{ion_ioctl, mdev}
use sample_code.DmaBuf.Ion.Alloc.{Allocated}
use sample_code.DmaBuf.Ion.Ioctl.{Answered}

-- The descriptor that the ioctl stored for its caller, if it told of no failure.
abbrev pub stored_fd : Run Event Ret → Option Ret
stored_fd (ok (val zero) (Event.copy_to_user (ion_answer d) zero ∷ l)) = some d.fd
stored_fd r = none

-- `before` is what the program leaves in the field `fd` of its argument.
module _ (k : Kernel) (before : Ret) where
  unfoldable pub request : ℕ → Cmd Event Ret
  request len =
      ioctl_of (λ cmd user. no_ioctl user) (mdev k) k.ion_ioc_alloc
        (record { len = len; fd = before })

  unfoldable pub serve : Sys → Cmd Event (Unit {0})
  serve (Sys.ion_alloc fd len r) = do request len; pure tt
  serve s = pure tt

  unfoldable pub serve_all : List Sys → Cmd Event (Unit {0})
  unfolding serve request
  serve_all [] = pure tt
  serve_all (s ∷ l) = serve_all l >> serve s

  unfoldable pub machine : (List Sys → DeviceFile → Option ℕ) → List Event → Os
  unfolding serve_all
  machine opens l₀ = record {
    open_file = opens;
    get_dmabuf = λ l fd. none;
    ion_alloc = λ l fd len. stored_fd ((serve_all l >> request len) l₀);
    mmap = λ l size g. none;
  }

-- A buffer of three pages is held on top of `h`.
pub record ThreePages (h : List Res) (l : List Event) : Type 0 where
  pub buffer : ℕ
  pub block : ℕ
  pub pages : List Ptr
  pub count : length pages ≡ 3
  pub holds : Holds l (buffer_ref (at buffer) ∷ (map page_ref pages ++ (mem_ref (at block) ∷ h)))

-- What a request for three pages stored, and what it leaves held.
pub data Called (h : List Res) : Option Ret → List Event → Type 0 where
  failed : {l : List Event} → Holds l h → Called h none l
  -- The buffer was made, and its descriptor did not reach the program.
  untold : {l : List Event} → ThreePages h l → Called h none l
  told : {l : List Event} (g : Ret) → ThreePages h l → Called h (some g) l
  -- What `dma_buf_fd` made of the ERR_PTR of a refused allocation.
  told_nothing : {l : List Event} (g : Ret) → Holds l h → Called h (some g) l

-- How the program ends.
pub data Tested (h : List Res) : Exit → List Event → Type 0 where
  nothing : {l : List Event} → Holds l h → Tested h minus_one l
  lost : {l : List Event} → ThreePages h l → Tested h minus_one l
  allocated : {l : List Event} → ThreePages h l → Tested h success l
  pretended : {l : List Event} → Holds l h → Tested h success l
