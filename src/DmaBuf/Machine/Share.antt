-- ===== src/DmaBuf/Machine/Share.antt =====
-- share_fd.c of dma-buf/06 and 08 on the drivers of those samples.
use sample_code.Base.{ℕ, ◌≡◌, refl, inl, inr, Option, none, some, List, [], ◌∷◌, Option-cases}
use sample_code.Effect.{Run, ok, fault, Cmd, and_then, pure, ◌>>=◌, ◌>>◌}
use sample_code.Effect.Spec.{Returns, returns}
use sample_code.Kernel.{Ret, val, Event}
use sample_code.Posix.{Sys, DeviceFile, exporter, importer, Exit, success, minus_one}
use sample_code.DmaBuf.Programs.{obtain_dmabuf, hand_over, share_fd}
use sample_code.DmaBuf.Machine.{Drivers, stored, handle, replay, machine}

and_then-pure : {E : Type 0} (r : Run E (Unit {0})) → and_then r (λ _. pure tt) ≡ r
and_then-pure (ok tt l) = refl
and_then-pure (fault l) = refl

and_then-and_then :
    {E A B C : Type 0} (r : Run E A) (f : A → Cmd E B) (g : B → Cmd E C)
    → and_then (and_then r f) g ≡ and_then r (λ a. f a >>= g)
and_then-and_then (ok a l) f g = refl
and_then-and_then (fault l) f g = refl

module _ (d : Drivers) where
  -- What the program is for: the importer gets the descriptor that the exporter gave out, and 0
  -- where it gave out none.
  unfoldable pub exchange : Cmd Event (Unit {0})
  exchange l₀ =
      let made = d.export_fd l₀ in
      ((d.export_fd >> d.import_fd (elim (stored made) [ none ↦ val 0 | some g ↦ g ])) >> pure tt)
        l₀

  module _ (opens : List Sys → DeviceFile → Option ℕ) (maps : List Sys → ℕ → Ret → Option ℕ) where
    -- How the program ends, and what its calls do in the kernel.
    pub data Shares (l₀ : List Event) : Exit → Run Event (Unit {0}) → Type 0 where
      no_exporter :
          {r : Run Event (Unit {0})} (l : List Sys)
          → opens l exporter ≡ none
          → r ≡ ok tt l₀
          → Shares l₀ minus_one r
      no_importer :
          {r : Run Event (Unit {0})} (l : List Sys)
          → opens l importer ≡ none
          → r ≡ (d.export_fd >> pure tt) l₀
          → Shares l₀ minus_one r
      shared : {r : Run Event (Unit {0})} → r ≡ exchange l₀ → Shares l₀ success r

    -- A run of share_fd ends: with -1 where a device file does not open, and no handler has run
    -- or that of the exporter alone; else with 0, after the exporter's handler and then the
    -- importer's, which is given the descriptor that the exporter stored, or 0.
    pub share_fd-Shares :
        (l₀ : List Event)
        → Returns (λ x l. Shares l₀ x (replay d l l₀)) (share_fd (machine d opens maps l₀) [])
    unfolding share_fd machine replay handle obtain_dmabuf hand_over exchange
    share_fd-Shares l₀ = elim (Option-cases (opens [] exporter)) [
      | inl e ↦ rw e (returns (no_exporter [] e refl))
      | inr (fd, e) ↦
          let g = stored (d.export_fd l₀) in
          let l =
            Sys.close (val fd) ∷ Sys.get_dmabuf fd g ∷ Sys.open_file exporter (some fd) ∷ [] in
          rw e (elim (Option-cases (opens l importer)) [
            | inl f ↦ rw f (returns (no_importer l f (simp (and_then-pure, and_then-and_then))))
            | inr (fd', f) ↦ rw f (returns (shared (simp (and_then-pure, and_then-and_then))))
          ])
    ]
