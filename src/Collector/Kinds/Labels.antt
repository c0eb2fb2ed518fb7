-- ===== src/Collector/Kinds/Labels.antt =====
-- The label values of the samples of collector/*.go, against the label names of their descriptors.
use kasa_exporter.Base.{
  ℕ, ◌≡◌, refl, Bool, true, false, Option, none, some, List, [], ◌∷◌, ◌++◌, length, All, All-append,
}
use kasa_exporter.Base.Text.{Text, codes}
use kasa_exporter.Reading.{Child, Socket, Energy, Reading, DeviceType}
use kasa_exporter.Errors.{ok, err, Result}
use kasa_exporter.Collector.{
  readings_of_type, answered, labels_for, update_kind, new_energy_metrics, new_light_metrics,
  emit_light, emit_energy, emit_each, emit_counter, emit_gauge, Desc, Sample,
}
use kasa_exporter.Floats.{Arithmetic}
use kasa_exporter.Collector.Devices.{
  emit_outcome, emit_counts, emit_read, new_device_collector, device_update, emit_reading,
}
use kasa_exporter.Registry.{Outcome}
use kasa_exporter.Collector.Strip.{emit_strip, new_strip_collector, emit_socket_energy, emit_socket}
use kasa_exporter.Collector.Hub.{emit_hub, new_hub_collector, emit_child}
use kasa_exporter.Collector.Dimmer.{new_dimmer_collector, emit_dimmer}
use kasa_exporter.Collector.Bulb.{new_bulb_collector, emit_bulb}
use kasa_exporter.Collector.LightStrip.{new_light_strip_collector, emit_light_strip}
use kasa_exporter.Collector.Plug.{new_plug_collector, emit_plug}
use kasa_exporter.Collector.WallSwitch.{new_wall_switch_collector, emit_wall_switch}
use kasa_exporter.Collector.Kinds.{
  Kind, kind_update, plugs, strips, bulbs, light_strips, dimmers, wall_switches, hubs,
}

abbrev pub Fits : {F : Type 0} → Sample F → Type 0
Fits s = length s.labels ≡ length s.desc.label_names

-- What a nil descriptor, or one with that many label names, allows.
abbrev pub Has : ℕ → Option Desc → Type 0
Has n none = Unit
Has n (some desc) = n ≡ length desc.label_names

-- All samples of a list fit.
pub record AllFit {F : Type 0} (samples : List (Sample F)) : Type 0 where
  pub each : All Fits samples

module _ {F : Type 0} where
  infixr 5 ◌⊕◌
  ◌⊕◌ : {xs ys : List (Sample F)} → AllFit xs → AllFit ys → AllFit (xs ++ ys)
  h ⊕ k = record { each = All-append Fits _ _ h.each k.each }

  nothing-Fits : AllFit {F = F} []
  nothing-Fits = record { each = tt }

  gauge-Fits :
      (d : Option Desc) (v : Option F) (labels : List Text)
      → Has (length labels) d
      → AllFit (emit_gauge d v labels)
  unfolding emit_gauge
  gauge-Fits none v labels h = nothing-Fits
  gauge-Fits (some d) none labels h = nothing-Fits
  gauge-Fits (some d) (some v) labels h = record { each = (h, tt) }

  counter-Fits :
      (d : Option Desc) (v : Option F) (labels : List Text)
      → Has (length labels) d
      → AllFit (emit_counter d v labels)
  unfolding emit_counter
  counter-Fits none v labels h = nothing-Fits
  counter-Fits (some d) none labels h = nothing-Fits
  counter-Fits (some d) (some v) labels h = record { each = (h, tt) }

module _ {F : Type 0} (ops : Arithmetic F) where
  each-Fits :
      {A : Type 0} (emit : A → List (Sample F))
      → ((a : A) → AllFit (emit a))
      → (xs : List A) → AllFit (emit_each ops emit xs)
  each-Fits emit h [] = nothing-Fits
  each-Fits emit h (x ∷ xs) = h x ⊕ each-Fits emit h xs

  energy-Fits :
      (e : Option (Energy F)) (labels : List Text)
      → length labels ≡ 2
      → AllFit (emit_energy ops new_energy_metrics e labels)
  unfolding emit_energy
  energy-Fits none labels h = nothing-Fits
  energy-Fits (some e) labels h =
      gauge-Fits _ _ labels h
      ⊕ gauge-Fits _ _ labels h
      ⊕ gauge-Fits _ _ labels h
      ⊕ counter-Fits _ _ labels h

  light-Fits :
      (part noun : Text) (color : Bool) (r : Reading F)
      → AllFit (emit_light ops (new_light_metrics part noun color) r)
  unfolding emit_light
  light-Fits part noun true r =
      gauge-Fits _ _ _ refl
      ⊕ gauge-Fits _ _ _ refl
      ⊕ gauge-Fits _ _ _ refl
      ⊕ gauge-Fits _ _ _ refl
      ⊕ gauge-Fits _ _ _ refl
  light-Fits part noun false r =
      gauge-Fits _ _ _ refl
      ⊕ gauge-Fits _ _ _ refl
      ⊕ gauge-Fits _ _ _ tt
      ⊕ gauge-Fits _ _ _ tt
      ⊕ gauge-Fits _ _ _ tt

  reading-Fits : (r : Reading F) → AllFit (emit_reading ops new_device_collector r)
  unfolding emit_reading
  reading-Fits r =
      gauge-Fits _ _ _ refl
      ⊕ gauge-Fits _ _ _ refl
      ⊕ gauge-Fits _ _ _ refl
      ⊕ gauge-Fits _ _ _ refl
      ⊕ gauge-Fits _ _ _ refl
      ⊕ gauge-Fits _ _ _ refl
      ⊕ gauge-Fits _ _ _ refl
      ⊕ gauge-Fits _ _ _ refl

  outcome-Fits :
      (o : Outcome F) (r : Option (Reading F)) → AllFit (emit_read ops new_device_collector o r)
  outcome-Fits o none = gauge-Fits _ _ _ refl
  outcome-Fits o (some r) = reading-Fits r

  counts-Fits :
      (counts : List (DeviceType × ℕ)) → AllFit (emit_counts ops new_device_collector counts)
  counts-Fits [] = nothing-Fits
  counts-Fits ((t, n) ∷ counts) = gauge-Fits _ _ _ refl ⊕ counts-Fits counts

  -- Every sample of the device collector has as many label values as its descriptor has label names, so
  -- that prometheus.MustNewConstMetric takes it.
  pub device_labels_fit :
      (snapshot : Result (List (Outcome F)))
      → AllFit (device_update ops new_device_collector snapshot).0
  unfolding device_update
  device_labels_fit (err e) = nothing-Fits
  device_labels_fit (ok []) = nothing-Fits
  device_labels_fit (ok (o ∷ os)) =
      each-Fits (emit_outcome ops new_device_collector) (λ x. outcome-Fits x x.reading) (o ∷ os)
      ⊕ counts-Fits _

  socket_energy-Fits :
      (r : Reading F) (s : Socket F) (e : Option (Energy F))
      → AllFit
          (emit_socket_energy ops new_strip_collector (labels_for r ++ (s.id ∷ s.alias ∷ [])) e)
  socket_energy-Fits r s none = nothing-Fits
  socket_energy-Fits r s (some e) =
      gauge-Fits _ _ _ refl
      ⊕ gauge-Fits _ _ _ refl
      ⊕ gauge-Fits _ _ _ refl
      ⊕ counter-Fits _ _ _ refl

  socket-Fits :
      (r : Reading F) (s : Socket F) → AllFit (emit_socket ops new_strip_collector (labels_for r) s)
  unfolding emit_socket
  socket-Fits r s = gauge-Fits _ _ _ refl ⊕ gauge-Fits _ _ _ refl ⊕ socket_energy-Fits r s s.energy

  child-Fits :
      (r : Reading F) (c : Child F) → AllFit (emit_child ops new_hub_collector (labels_for r) c)
  unfolding emit_child
  child-Fits r c =
      gauge-Fits _ _ _ refl
      ⊕ gauge-Fits _ _ _ refl
      ⊕ gauge-Fits _ _ _ refl
      ⊕ gauge-Fits _ _ _ refl
      ⊕ gauge-Fits _ _ _ refl
      ⊕ gauge-Fits _ _ _ refl
      ⊕ gauge-Fits _ _ _ refl
      ⊕ gauge-Fits _ _ _ refl

  one_of-Fits :
      (b : Bool) (samples : List (Sample F)) → AllFit samples → AllFit (answered ops b samples).0
  one_of-Fits true samples h = h
  one_of-Fits false samples h = nothing-Fits

  update-Fits :
      (device_type : DeviceType) (emit : Reading F → List (Sample F))
      (snapshot : Result (List (Outcome F)))
      → ((r : Reading F) → AllFit (emit r))
      → AllFit (update_kind ops device_type emit snapshot).0
  update-Fits device_type emit (err e) h = nothing-Fits
  update-Fits device_type emit (ok results) h =
      one_of-Fits (readings_of_type results device_type).1 _
        (each-Fits emit h (readings_of_type results device_type).0)

  -- Every sample of the collector of any kind of device has as many label values as its descriptor has
  -- label names.
  pub kind_labels_fit :
      (kind : Kind) (snapshot : Result (List (Outcome F)))
      → AllFit (kind_update ops kind snapshot).0
  unfolding kind_update
  kind_labels_fit plugs s =
      update-Fits _ (emit_plug ops new_plug_collector) s
        (λ r. gauge-Fits _ _ _ refl ⊕ energy-Fits _ _ refl)
  kind_labels_fit strips s = update-Fits _ (emit_strip ops new_strip_collector) s (λ r.
      gauge-Fits _ _ _ refl
      ⊕ gauge-Fits _ _ _ refl
      ⊕ energy-Fits _ _ refl
      ⊕ each-Fits _ (socket-Fits r) _)
  kind_labels_fit bulbs s =
      update-Fits _ (emit_bulb ops new_bulb_collector) s
        (λ r. light-Fits (codes "bulb") (codes "bulb") true r ⊕ energy-Fits _ _ refl)
  kind_labels_fit light_strips s =
      update-Fits _ (emit_light_strip ops new_light_strip_collector) s (λ r.
        light-Fits (codes "lightstrip") (codes "light strip") true r
        ⊕ gauge-Fits _ _ _ refl
        ⊕ energy-Fits _ _ refl)
  kind_labels_fit dimmers s =
      update-Fits _ (emit_dimmer ops new_dimmer_collector) s
        (λ r. light-Fits (codes "dimmer") (codes "dimmer") false r ⊕ energy-Fits _ _ refl)
  kind_labels_fit wall_switches s =
      update-Fits _ (emit_wall_switch ops new_wall_switch_collector) s
        (λ r. gauge-Fits _ _ _ refl ⊕ energy-Fits _ _ refl)
  kind_labels_fit hubs s =
      update-Fits _ (emit_hub ops new_hub_collector) s
        (λ r. gauge-Fits _ _ _ refl ⊕ each-Fits _ (child-Fits r) _)
