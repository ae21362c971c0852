-- ===== src/DmaBuf/Session/Live.antt =====
-- A session with any exporter that keeps its contract holds exactly what its open mappings lent.
use mathlib.Core.List.{append_assoc}
use sample_code.Base.{ℕ, zero, suc, ◌≡◌, refl, ◌∙◌, ◌⊎◌, inl, inr, none, some, List, [], ◌∷◌, ◌++◌}
use sample_code.Effect.Bag.{SameItems-append, SameItems-append_right, SameItems-swap}
use sample_code.Effect.{◌>>=◌}
use sample_code.Effect.Spec
use sample_code.Effect.Spec.{Returns, returns}
use sample_code.Kernel.{Direction, Res, Res-discrete, Event}
use sample_code.Kernel.Bag.{Keeps, SameItems, reorder}
use sample_code.DmaBuf.Core.{DmaBuf, DmaBufOps}
use sample_code.DmaBuf.Session.{
  Lease, lent, tables, AllReady, Exporter, Request, map_it, unmap_it, take_out, serve, session,
  unmap_all,
}

-- What `take_out` finds among the tables of leases.
module _ (Q : Lease → Type 0) where
  record Taken (i : ℕ) (xs : List Lease) : Type 0 where
    lease : Lease
    rest : List Lease
    found : take_out i (tables xs) ≡ some (lease.table, tables rest)
    items : SameItems (lent xs) (lease.items ++ lent rest)
    ready : AllReady Q xs → Q lease × AllReady Q rest

  taken : (i : ℕ) (xs : List Lease) → (take_out i (tables xs) ≡ none) ⊎ Taken i xs
  taken i [] = inl refl
  taken zero (x ∷ xs) =
      inr (record { lease = x; rest = xs; found = refl; items = λ a. refl; ready = λ r. r })
  taken (suc i) (x ∷ xs) = elim (taken i xs) [
    | inl e ↦ inl (rw (e, take_out))
    | inr t ↦ inr (record {
      lease = t.lease;
      rest = x ∷ t.rest;
      found = rw (t.found, take_out);
      items = λ a.
          SameItems-append Res-discrete x.items (lent xs) (t.lease.items ++ lent t.rest) t.items a
          ∙ SameItems-swap Res-discrete x.items t.lease.items (lent t.rest) a;
      ready = λ r. let s = t.ready r.1 in (s.0, (r.0, s.1));
    })
  ]

  regroup :
      {i : ℕ} {xs : List Lease} (h : List Res) {l : List Event} (t : Taken i xs)
      → Keeps l (lent xs ++ h)
      → Keeps l (t.lease.items ++ (lent t.rest ++ h))
  regroup {xs} h t p = rw (← append_assoc t.lease.items (lent t.rest) h) (
      reorder
        (SameItems-append_right Res-discrete (lent xs) (t.lease.items ++ lent t.rest) h t.items) p)

module _ {P : Type 0} {ops : DmaBufOps P} {d : DmaBuf P} (exporter : Exporter ops d) where
  open exporter use {Ready, maps, unmaps}

  -- The leases `xs`, whose tables are `ts`, are what a session has open.
  pub record Live (ts : List ℕ) (h : List Res) (l : List Event) : Type 0 where
    pub leases : List Lease
    pub at_tables : ts ≡ tables leases
    pub keeps : Keeps l (lent leases ++ h)
    pub ready : AllReady (Ready l) leases

  serve-Live :
      (q : Request) (xs : List Lease) (h : List Res) {l : List Event}
      → Keeps l (lent xs ++ h)
      → AllReady (Ready l) xs
      → Returns (λ ts l'. Live ts h l') (serve ops d q (tables xs) l)
  serve-Live (map_it dir) xs h p r = Spec.bind (maps dir xs h p r) λ a m s. elim s [
    | inl (e, f, p', r') ↦
        rw f (returns (record { leases = xs; at_tables = refl; keeps = p'; ready = r' }))
    | inr (x, f, p', r') ↦ rw f (
        returns (record {
          leases = x ∷ xs;
          at_tables = refl;
          keeps = rw (append_assoc x.items (lent xs) h) p';
          ready = r';
        }))
  ]
  serve-Live (unmap_it i dir) xs h {l} p r = elim (taken (Ready l) i xs) [
    | inl e ↦
        rw (e, serve) (returns (record { leases = xs; at_tables = refl; keeps = p; ready = r }))
    | inr t ↦
        rw (t.found, serve)
          (Spec.bind
            (unmaps dir t.lease t.rest (lent t.rest ++ h) (regroup (Ready l) h t p) (t.ready r))
            λ _ m s.
              returns (record { leases = t.rest; at_tables = refl; keeps = s.0; ready = s.1 }))
  ]

  -- Whatever a session asks for, and in whatever order, it holds just the items of the mappings
  -- that it has open, on top of what was held before.
  pub session-Live :
      (qs : List Request) (h : List Res) {ts : List ℕ} {l : List Event}
      → Live ts h l
      → Returns (λ ts' l'. Live ts' h l') (session ops d qs ts l)
  session-Live [] h v = returns v
  session-Live (q ∷ qs) h v =
      rw v.at_tables
        (Spec.bind (serve-Live q v.leases h v.keeps v.ready) λ ts m w. session-Live qs h w)

  unmap_all-Keeps :
      (dir : Direction) (xs : List Lease) (h : List Res) {l : List Event}
      → Keeps l (lent xs ++ h)
      → AllReady (Ready l) xs
      → Returns (λ _ l'. Keeps l' h) (unmap_all ops d dir (tables xs) l)
  unmap_all-Keeps dir [] h p r = returns p
  unmap_all-Keeps dir (x ∷ xs) h p r =
      Spec.bind (unmaps dir x xs (lent xs ++ h) (rw (← append_assoc x.items (lent xs) h) p) r)
        λ _ m s. unmap_all-Keeps dir xs h s.0 s.1

  -- A session that ends by taking down what is still mapped leaves held what it found.
  pub session-Keeps :
      (qs : List Request) (dir : Direction) (h : List Res) {l : List Event}
      → Keeps l h
      → Returns (λ _ l'. Keeps l' h) ((session ops d qs [] >>= unmap_all ops d dir) l)
  session-Keeps qs dir h p =
      Spec.bind
        (session-Live qs h (record { leases = []; at_tables = refl; keeps = p; ready = tt }))
        λ ts m v. rw v.at_tables (unmap_all-Keeps dir v.leases h v.keeps v.ready)
