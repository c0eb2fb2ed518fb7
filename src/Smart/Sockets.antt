-- ===== src/Smart/Sockets.antt =====
-- The children of a SMART device: the numbering of outlets, and where each child is reported.
use kasa_exporter.Base.{
  Option, Bool, false, ℕ, ◌+◌, ◌≤◌, ◌≡◌, refl, ap, subst, ◌≢◌, inl, inr, true, none, some, List, [],
  ◌∷◌, map, arith, Bool-cases, All,
}
use kasa_exporter.Base.Text.{Text}
use kasa_exporter.Base.Int.{ℤ}
use kasa_exporter.Base.Decimal.{itoa_ℤ, itoa, itoa_injective}
use kasa_exporter.Base.Dict.{Distinct}
use kasa_exporter.Floats.{Arithmetic}
use kasa_exporter.Reading.{
  plug, bulb, light_strip, dimmer, wall_switch, unknown, DeviceType, Reading, strip, hub,
}
use kasa_exporter.Smart.{
  smart_alias, next_int, is_hub, smart_child, socket_id, Names, SmartDeviceInfo, smart_socket,
  smart_sockets, smart_children, apply_children,
}

-- Outlets without a position of their own.
abbrev pub Unplaced : {F : Type 0} → List (SmartDeviceInfo F) → Type 0
Unplaced = All (λ c. c.position ≡ none)

is_hub-eq : (t : DeviceType) → is_hub t ≡ true → t ≡ hub
is_hub-eq hub h = refl
is_hub-eq plug h = cc h
is_hub-eq strip h = cc h
is_hub-eq bulb h = cc h
is_hub-eq light_strip h = cc h
is_hub-eq dimmer h = cc h
is_hub-eq wall_switch h = cc h
is_hub-eq unknown h = cc h

module _ {F : Type 0} (names : Names) (fl : Arithmetic F) where
  other_number : (j i : ℕ) → i ≤ j → itoa (j + 1) ≢ itoa i
  other_number j i h e = let same = itoa_injective (j + 1) i e in omega arith

  ids_above :
      (i j : ℕ) (children : List (SmartDeviceInfo F))
      → i ≤ j
      → Unplaced children
      → All (λ id. id ≢ itoa i) (map (λ k. k.id) (smart_sockets names fl j children))
  unfolding smart_sockets smart_socket
  ids_above i j [] h u = tt
  ids_above i j (child ∷ children) h (p, u) = (
    λ e. other_number j i h (subst (λ position. socket_id names fl j position ≡ itoa i) p e),
    ids_above i (j + 1) children (omega arith) u,
  )

  -- Outlets that carry no position have different identifiers, so that unnamed ones stay distinct series.
  pub sockets-Distinct :
      (i : ℕ) (children : List (SmartDeviceInfo F))
      → Unplaced children
      → Distinct (map (λ k. k.id) (smart_sockets names fl i children))
  unfolding smart_sockets smart_socket
  sockets-Distinct i [] u = tt
  sockets-Distinct i (child ∷ children) (p, u) = (
    rw p (ids_above (i + 1) (i + 1) children (omega arith) u),
    sockets-Distinct (i + 1) children u,
  )

  abbrev pub number_of : (place : ℕ) → (position : Option ℤ) → Text
  number_of place none = itoa place
  number_of place (some position) = itoa_ℤ (next_int position)

  -- The outlets of a strip by their numbers, names and states: a child's number is its own position
  -- plus one, or where it has none its place in the list, counted from 1.
  abbrev pub listed : ℕ → List (SmartDeviceInfo F) → List (Text × Text × Option Bool)
  listed n [] = []
  listed n (c ∷ cs) = (number_of n c.position, smart_alias names c, c.device_on) ∷ listed (n + 1) cs

  socket_id_lem : (i : ℕ) (p : Option ℤ) → socket_id names fl i p ≡ number_of (i + 1) p
  socket_id_lem i none = refl
  socket_id_lem i (some position) = refl

  outlets-listed :
      (i : ℕ) (children : List (SmartDeviceInfo F))
      → map {B = Text × Text × Option Bool}
          (λ k. (k.id, k.alias, k.on))
          (smart_sockets names fl i children)
        ≡ listed (i + 1) children
  unfolding smart_sockets smart_socket
  outlets-listed i [] = refl
  outlets-listed i (child ∷ children) = λ j.
      (socket_id_lem i child.position j, smart_alias names child, child.device_on)
      ∷ outlets-listed (i + 1) children j

  sensors-listed :
      (children : List (SmartDeviceInfo F))
      → map {B = Text × Text × Text}
          (λ c. (c.id, c.alias, c.model))
          (smart_children names fl children)
        ≡ map {B = Text × Text × Text} (λ c. (c.device_id, smart_alias names c, c.model)) children
  unfolding smart_children smart_child
  sensors-listed [] = refl
  sensors-listed (child ∷ children) =
      ap (λ l. (child.device_id, smart_alias names child, child.model) ∷ l)
        (sensors-listed children)

  -- A hub keeps its outlets and has exactly these sensors; any other device keeps its sensors, has
  -- exactly these outlets, and is a strip.
  abbrev pub Reports : Reading F → List (SmartDeviceInfo F) → Bool → Reading F → Type 0
  Reports reading list true out =
      (map {B = Text × Text × Text} (λ c. (c.id, c.alias, c.model)) out.children
        ≡ map {B = Text × Text × Text} (λ c. (c.device_id, smart_alias names c, c.model)) list)
      × (out.sockets ≡ reading.sockets)
      × (out.device_type ≡ hub)
  Reports reading list false out =
      (map {B = Text × Text × Option Bool} (λ k. (k.id, k.alias, k.on)) out.sockets ≡ listed 1 list)
      × (out.children ≡ reading.children)
      × (out.device_type ≡ strip)

  -- Every child that a device lists is reported exactly once and in its place: by a hub as a sensor, under
  -- its identifier, name and model; by any other device as an outlet, under its number, name and state.
  -- A device that is not a hub is a strip from then on, and the other list stays as it was.
  pub children_reported :
      (reading : Reading F) (child : SmartDeviceInfo F) (rest : List (SmartDeviceInfo F))
      → Reports reading
          (child ∷ rest)
          (is_hub reading.device_type)
          (apply_children names fl reading (some (child ∷ rest)))
  unfolding apply_children
  children_reported reading child rest =
      let list = child ∷ rest in
      elim (Bool-cases (is_hub reading.device_type)) [
        | inl paired ↦ rw paired (sensors-listed list, refl, is_hub-eq reading.device_type paired)
        | inr other ↦ rw other (outlets-listed 0 list, refl, refl)
      ]
