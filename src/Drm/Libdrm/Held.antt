-- ===== src/Drm/Libdrm/Held.antt =====
-- What a log of the calls of a display program leaves held. An answer counts whether it is an
-- error or not, so that each call that obtains has to be met by one that gives back.
use sample_code.Base.{◌≡◌, ◌≢◌, Option, ℕ, ℕ_discrete, List, ◌∷◌}
use sample_code.Effect.Held
use sample_code.Effect.Ledger
use sample_code.Effect.Ledger.{Act, acquire, release, neutral, needs}
use sample_code.Drm.Libdrm.Calls.{Call}

pub data Item : Type 0 where
  card_ref : ℕ → Item
  resources_ref : Item
  connector_ref : ℕ → Item
  dumb_ref : ℕ → Item
  fb_ref : ℕ → Item
  mapping_ref : Option ℕ → Item
  plane_resources_ref : Item
  properties_ref : ℕ → Item
  property_ref : ℕ → Item
  blob_ref : ℕ → Item
  request_ref : ℕ → Item

pub Item-discrete : Discrete Item
Item-discrete = hlevel ℕ_discrete

abbrev pub act : Call → Act Item
act (Call.open_card fd) = acquire (card_ref fd)
act (Call.close fd) = release (card_ref fd)
act (Call.get_resources r) = acquire resources_ref
act Call.free_resources = release resources_ref
act (Call.get_connector id c) = acquire (connector_ref id)
act (Call.free_connector id) = release (connector_ref id)
act (Call.create_dumb w h bpp c) = acquire (dumb_ref c.handle)
act (Call.destroy_dumb handle) = release (dumb_ref handle)
act (Call.add_fb w h pitch handle fb) = acquire (fb_ref fb)
act (Call.rm_fb fb) = release (fb_ref fb)
act (Call.mmap size offset p) = acquire (mapping_ref p)
act (Call.munmap p size) = release (mapping_ref p)
act (Call.get_plane_resources r) = acquire plane_resources_ref
act Call.free_plane_resources = release plane_resources_ref
act (Call.get_properties obj ps) = acquire (properties_ref obj)
act (Call.free_properties obj) = release (properties_ref obj)
act (Call.get_property id r) = acquire (property_ref id)
act (Call.free_property id) = release (property_ref id)
act (Call.create_blob mode blob) = acquire (blob_ref blob)
act (Call.atomic_alloc req) = acquire (request_ref req)
act (Call.add_property req obj id value) = needs (request_ref req) neutral
act (Call.atomic_commit req) = needs (request_ref req) neutral
act (Call.atomic_free req) = release (request_ref req)
act c = neutral

abbrev pub Holds : List Call → List Item → Type 0
Holds = Held.Holds Item-discrete act

abbrev pub Has : Item → List Item → Type 0
Has = Ledger.Has Item-discrete

pub here : (r : Item) (h : List Item) → Has r (r ∷ h)
here r h = record { counted = Ledger.count_pos Item-discrete r h }

module _ {l : List Call} {h : List Item} where
  pub gain : (c : Call) {r : Item} → act c ≡ acquire r → Holds l h → Holds (c ∷ l) (r ∷ h)
  gain = Held.gain Item-discrete act

  pub skip : (c : Call) → act c ≡ neutral → Holds l h → Holds (c ∷ l) h
  skip = Held.skip Item-discrete act

  pub skip_from :
      (c : Call) {r : Item} → act c ≡ needs r neutral → Has r h → Holds l h → Holds (c ∷ l) h
  skip_from = Held.skip_from Item-discrete act

  pub drop : (c : Call) {r : Item} → act c ≡ release r → Holds l (r ∷ h) → Holds (c ∷ l) h
  drop = Held.drop Item-discrete act

  pub drop_below :
      (c : Call) {r s : Item}
      → act c ≡ release r
      → r ≢ s
      → Holds l (s ∷ r ∷ h)
      → Holds (c ∷ l) (s ∷ h)
  drop_below = Held.drop_below Item-discrete act

  -- A release of what was obtained last but two, and last but one.
  pub drop_third :
      (c : Call) {r s t : Item}
      → act c ≡ release r
      → r ≢ s
      → r ≢ t
      → Holds l (s ∷ t ∷ r ∷ h)
      → Holds (c ∷ l) (s ∷ t ∷ h)
  drop_third = Held.drop_third Item-discrete act
