-- ===== src/Drm/Modeset/Fill.antt =====
-- What the programs under drm/application/ write into a new buffer.
use sample_code.Base.{
  ℕ, zero, suc, ◌+◌, ◌-◌, ◌*◌, ◌/◌, ◌%◌, ◌≤◌, ◌<◌, ◌≡◌, refl, ap, inl, inr, Option, none, some,
  List, ◌∷◌, arith, get_elem?, u32_mod, ℕ-cases,
}
use sample_code.Effect.{fault}
use sample_code.Effect.Spec
use sample_code.Effect.Spec.{Returns, returns}
use sample_code.Drm.Libdrm.{DrmModeModeInfo, Call, Device}
use sample_code.Drm.Modeset.{BufferObject, fill, map_fb, modeset_create_fb}

-- From `l` to `l'`, `n` words were stored, from word `i` of the mapping at `a` on, in order.
pub record Filled (a color n i : ℕ) (l l' : List Call) : Type 0 where
  pub words : (j : ℕ) → j < n → get_elem? l' (n - 1 - j) ≡ some (Call.store (a + 4 * (i + j)) color)
  pub older : (j : ℕ) → get_elem? l' (n + j) ≡ get_elem? l j

pub fill-Filled :
    (a color n i : ℕ) (l : List Call)
    → Returns (λ _ l'. Filled a color n i l l') (fill n i (some a) color l)
unfolding fill
fill-Filled a color zero i l = returns (record {
  words = λ j h. absurd (omega (arith, h));
  older = λ j. let e : 0 + j ≡ j = omega arith in rw e;
})
fill-Filled a color (suc n) i l =
    Spec.mono (fill-Filled a color n (i + 1) (Call.store (a + 4 * i) color ∷ l)) λ _ l' p. record {
      words = λ j h. elim (ℕ-cases j) [
        | inl e ↦
            let at_index : suc n - 1 - j ≡ n + 0 = omega (arith, e) in
            let at_word : a + 4 * (i + j) ≡ a + 4 * i = omega (arith, e) in
            rw (at_index, at_word) (p.older 0)
        | inr (j', e) ↦
            let at_index : suc n - 1 - j ≡ n - 1 - j' = omega (arith, e) in
            let at_word : a + 4 * (i + j) ≡ a + 4 * (i + 1 + j') = omega (arith, e) in
            rw (at_index, at_word) (p.words j' (omega (arith, h, e)))
      ];
      older = λ j. let e : suc n + j ≡ n + suc j = omega arith in rw e (p.older (suc j));
    }

fill-Filled_at :
    (a color n i : ℕ) (l : List Call) {m : ℕ} {vaddr : Option ℕ}
    → m ≡ n
    → vaddr ≡ some a
    → Returns (λ _ l'. Filled a color n i l l') (fill m i vaddr color l)
fill-Filled_at a color n i l s e = rw (s, e) (fill-Filled a color n i l)

fill-fault :
    (color n : ℕ) (l : List Call) {vaddr : Option ℕ}
    → vaddr ≡ none
    → 0 < n
    → fill n 0 vaddr color l ≡ fault l
unfolding fill
fill-fault color zero l e h = absurd (omega (arith, h))
fill-fault color (suc n) l e h = rw e refl

-- The last call of `l` mapped `size` bytes at `a` for the buffer `bo`.
pub record Mapped (size : ℕ) (bo : BufferObject) (a : ℕ) (l : List Call) : Type 0 where
  pub offset : ℕ
  pub before : List Call
  pub call : l ≡ (Call.mmap size offset (some a) ∷ before)
  pub at_vaddr : bo.vaddr ≡ some a
  pub sized : bo.size ≡ size

module _ (d : Device) where
  -- The size in bytes that the device answers for a buffer of the size of the mode.
  abbrev pub size_of : DrmModeModeInfo → List Call → ℕ
  size_of mode l = (d.create_dumb l mode.hdisplay mode.vdisplay 32).size

  map_fb-Mapped :
      (mode : DrmModeModeInfo) (l : List Call)
      → ((m : List Call) (size offset : ℕ) → (a : ℕ) × (d.mmap m size offset ≡ some a))
      → size_of mode l < u32_mod
      → Returns (λ bo m. (a : ℕ) × Mapped (size_of mode l) bo a m) (map_fb d mode l)
  unfolding map_fb
  map_fb-Mapped mode l ok fits =
      let c = d.create_dumb l mode.hdisplay mode.vdisplay 32 in
      let l₁ = Call.create_dumb mode.hdisplay mode.vdisplay 32 c ∷ l in
      let fb = d.add_fb l₁ mode.hdisplay mode.vdisplay c.pitch c.handle in
      let l₂ = Call.add_fb mode.hdisplay mode.vdisplay c.pitch c.handle fb ∷ l₁ in
      let offset = d.map_dumb l₂ c.handle in
      let l₃ = Call.map_dumb c.handle offset ∷ l₂ in
      let (a, e) = ok l₃ c.size offset in
      returns (
        a,
        record {
          offset = offset;
          before = l₃;
          call = rw e refl;
          at_vaddr = e;
          sized = omega (arith, fits);
        },
      )

  -- If `mmap` succeeds and the size that the device answers is below 2^32, `modeset_create_fb`
  -- maps that many bytes, and then stores the colour in every whole word of them, the first
  -- first, and nowhere else; the buffer that it returns carries that size.
  pub modeset_create_fb-Filled :
      (mode : DrmModeModeInfo) (color : ℕ) (l : List Call)
      → ((m : List Call) (size offset : ℕ) → (a : ℕ) × (d.mmap m size offset ≡ some a))
      → size_of mode l < u32_mod
      → Returns
          (λ bo l'.
            (a : ℕ) × (m : List Call) × Mapped (size_of mode l) bo a m
            × Filled a color (size_of mode l / 4) 0 m l')
          (modeset_create_fb d mode color l)
  unfolding modeset_create_fb
  modeset_create_fb-Filled mode color l ok fits = Spec.bind (map_fb-Mapped mode l ok fits) λ bo m p.
      Spec.bind
        (fill-Filled_at p.0 color (size_of mode l / 4) 0 m (ap (λ s. s / 4) p.1.sized) p.1.at_vaddr)
        λ _ l' q. returns (p.0, m, p.1, q)

  -- The programs do not look for MAP_FAILED: without a mapping, a buffer that has a word is
  -- written to all the same.
  modeset_create_fb-fault :
      (mode : DrmModeModeInfo) (color : ℕ) (l : List Call)
      → ((m : List Call) (size offset : ℕ) → d.mmap m size offset ≡ none)
      → 4 ≤ (d.create_dumb l mode.hdisplay mode.vdisplay 32).size % u32_mod
      → (m : List Call) × (modeset_create_fb d mode color l ≡ fault m)
  unfolding modeset_create_fb map_fb
  modeset_create_fb-fault mode color l failed h =
      let c = d.create_dumb l mode.hdisplay mode.vdisplay 32 in
      let l₁ = Call.create_dumb mode.hdisplay mode.vdisplay 32 c ∷ l in
      let fb = d.add_fb l₁ mode.hdisplay mode.vdisplay c.pitch c.handle in
      let l₂ = Call.add_fb mode.hdisplay mode.vdisplay c.pitch c.handle fb ∷ l₁ in
      let offset = d.map_dumb l₂ c.handle in
      let l₃ = Call.map_dumb c.handle offset ∷ l₂ in
      let e = failed l₃ c.size offset in
      let m = Call.mmap c.size offset (d.mmap l₃ c.size offset) ∷ l₃ in
      (m, rw (fill-fault color (c.size % u32_mod / 4) m e (omega (arith, h))) refl)
