-- ===== src/DmaBuf/Session.antt =====
-- What an exporter promises to the users of its buffer, and what follows for every sequence of
-- maps and unmaps that they make, in any order.
pub mod Live
use sample_code.Base.{
  ℕ, zero, suc, ◌≡◌, refl, ◌⊎◌, inl, inr, Option, none, some, List, [], ◌∷◌, ◌++◌, map,
}
use sample_code.Effect.{Cmd, pure, ◌>>=◌, ◌>>◌}
use sample_code.Effect.Spec
use sample_code.Effect.Spec.{Returns, returns}
use sample_code.Kernel.{Ptr, null, err_ptr, at, Errno, Direction, Res, Event}
use sample_code.Kernel.Bag.{Keeps}
use sample_code.DmaBuf.Core.{DmaBuf, DmaBufOps}

-- A mapping that was not taken down: the address of its table, and the resources that it holds.
pub record Lease : Type 0 where
  pub table : ℕ
  pub items : List Res

abbrev pub lent : List Lease → List Res
lent [] = []
lent (x ∷ xs) = x.items ++ lent xs

abbrev pub tables : List Lease → List ℕ
tables [] = []
tables (x ∷ xs) = x.table ∷ tables xs

abbrev pub AllReady : (Lease → Type 0) → List Lease → Type 0
AllReady P [] = Unit
AllReady P (x ∷ xs) = P x × AllReady P xs

-- The contract. `Ready l x` is what an exporter wants to be true of the log at a lease to take it
-- down. `Live l xs h`: the leases `xs` are ready, and held on top of `h`.
pub record Exporter {P : Type 0} (ops : DmaBufOps P) (d : DmaBuf P) : Type 1 where
  pub Ready : List Event → Lease → Type 0
  pub maps :
      (dir : Direction) (xs : List Lease) (h : List Res) {l : List Event}
      → Keeps l (lent xs ++ h)
      → AllReady (Ready l) xs
      → Returns
          (λ r l'.
            ((e : Errno) × (r ≡ err_ptr e) × Keeps l' (lent xs ++ h) × AllReady (Ready l') xs)
            ⊎ ((x : Lease) × (r ≡ at x.table)
                × Keeps l' (x.items ++ (lent xs ++ h))
                × AllReady (Ready l') (x ∷ xs)))
          (ops.map_dma_buf d dir l)
  pub unmaps :
      (dir : Direction) (x : Lease) (xs : List Lease) (h : List Res) {l : List Event}
      → Keeps l (x.items ++ h)
      → AllReady (Ready l) (x ∷ xs)
      → Returns
          (λ _ l'. Keeps l' h × AllReady (Ready l') xs)
          (ops.unmap_dma_buf d (at x.table) dir l)

-- What the users of a buffer ask for: a mapping, or the end of one of those that are there.
pub data Request : Type 0 where
  map_it : Direction → Request
  unmap_it : ℕ → Direction → Request

abbrev pub take_out : {A : Type 0} → ℕ → List A → Option (A × List A)
take_out i [] = none
take_out zero (x ∷ xs) = some (x, xs)
take_out (suc i) (x ∷ xs) = elim (take_out i xs) [ none ↦ none | some (y, ys) ↦ some (y, x ∷ ys) ]

abbrev pub keep_table : Ptr → List ℕ → List ℕ
keep_table null ts = ts
keep_table (err_ptr e) ts = ts
keep_table (at t) ts = t ∷ ts

module _ {P : Type 0} (ops : DmaBufOps P) (d : DmaBuf P) where
  abbrev pub serve : Request → List ℕ → Cmd Event (List ℕ)
  serve (map_it dir) ts = do r ← ops.map_dma_buf d dir; pure (keep_table r ts)
  serve (unmap_it i dir) ts = elim (take_out i ts) [
    | none ↦ pure ts
    | some (t, rest) ↦ ops.unmap_dma_buf d (at t) dir >> pure rest
  ]

  -- The requests one after another; the result is the tables that are still mapped.
  abbrev pub session : List Request → List ℕ → Cmd Event (List ℕ)
  session [] ts = pure ts
  session (q ∷ qs) ts = serve q ts >>= session qs

  -- The end of every mapping that is left.
  abbrev pub unmap_all : Direction → List ℕ → Cmd Event (Unit {0})
  unmap_all dir [] = pure tt
  unmap_all dir (t ∷ ts) = ops.unmap_dma_buf d (at t) dir >> unmap_all dir ts
