-- ===== src/Drm/Planes/Lookup.antt =====
-- `get_property_id` of drm/application/modeset-atomic-crtc and modeset-atomic-plane.
use mathlib.Core.Logic.{if_pos, if_neg}
use sample_code.Base.{
  ℕ, suc, sym, ◌≡◌, ◌≢◌, ◌⊎◌, ◌∙◌, refl, inl, inr, some, List, [], ◌∷◌, arith, ℕ-cases,
}
use sample_code.Effect.Spec
use sample_code.Effect.Spec.{Returns, returns}
use sample_code.Drm.Libdrm.{PropertyName, DrmModeProperty, Call, Device}
use sample_code.Drm.Libdrm.Held.{Item, Holds, gain, drop}
use sample_code.Drm.Planes.{PropertyName-discrete, id_if_named, get_property_id}

-- What a search for `name` finds in `props`, given each property.
pub data Found (at_id : ℕ → DrmModeProperty) (name : PropertyName) : List ℕ → ℕ → Type 0 where
  nowhere : Found at_id name [] 0
  here :
      {props : List ℕ} (p : ℕ)
      → (at_id p).name ≡ name
      → (at_id p).prop_id ≢ 0
      → Found at_id name (p ∷ props) (at_id p).prop_id
  later :
      {props : List ℕ} {id : ℕ} (p : ℕ)
      → ((at_id p).name ≢ name) ⊎ ((at_id p).prop_id ≡ 0)
      → Found at_id name props id
      → Found at_id name (p ∷ props) id

-- The device answers `at_id`, whatever was called before.
abbrev pub Answers : Device → (ℕ → DrmModeProperty) → Type 0
Answers d at_id = (l : List Call) (p : ℕ) → d.get_property l p ≡ some (at_id p)

-- The code keeps an id other than 0 only of a property that has the name.
named-Found :
    (at_id : ℕ → DrmModeProperty) (name : PropertyName) (props : List ℕ) (p n : ℕ)
    → id_if_named name (at_id p) ≡ suc n
    → Found at_id name (p ∷ props) (suc n)
named-Found at_id name props p n z = elim (PropertyName-discrete (at_id p).name name) [
  | yes e ↦
      let kept : id_if_named name (at_id p) ≡ (at_id p).prop_id =
        if_pos (PropertyName-discrete (at_id p).name name) e (at_id p).prop_id 0 in
      rw (← z, kept) (here p e λ w. omega (arith, kept, z, w))
  | no ne ↦
      let none_kept : id_if_named name (at_id p) ≡ 0 =
        if_neg (PropertyName-discrete (at_id p).name name) ne (at_id p).prop_id 0 in
      absurd (omega (arith, none_kept, z))
]

other_name :
    (name : PropertyName) (r : DrmModeProperty)
    → id_if_named name r ≡ 0
    → (r.name ≢ name) ⊎ (r.prop_id ≡ 0)
other_name name r z = elim (PropertyName-discrete r.name name) [
  | yes e ↦ inr (sym (if_pos (PropertyName-discrete r.name name) e r.prop_id 0) ∙ z)
  | no ne ↦ inl ne
]

-- On a device that knows every property, `get_property_id` returns the id of the first property
-- of the list that has the name and an id other than 0, or 0 if there is none, and frees every
-- property that it obtained.
pub get_property_id-Found :
    (d : Device) (at_id : ℕ → DrmModeProperty) (name : PropertyName)
    → Answers d at_id
    → (props : List ℕ) {l : List Call} {h : List Item} → Holds l h
    → Returns (λ id l'. Found at_id name props id × Holds l' h) (get_property_id d props name l)
unfolding get_property_id
get_property_id-Found d at_id name known [] q = returns (nowhere, q)
get_property_id-Found d at_id name known (p ∷ props) {l} q =
    let q₁ = gain (Call.get_property p (some (at_id p))) refl q in
    let q₂ = drop (Call.free_property p) refl q₁ in
    elim (ℕ-cases (id_if_named name (at_id p))) [
      | inr (n, e) ↦ rw (known l p, e) (returns (named-Found at_id name props p n e, q₂))
      | inl e ↦
          rw (known l p, e)
            (Spec.mono (get_property_id-Found d at_id name known props q₂)
              λ id l' r. (later p (other_name name (at_id p) e) r.0, r.1))
    ]
