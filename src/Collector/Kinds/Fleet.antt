-- ===== src/Collector/Kinds/Fleet.antt =====
-- collector/device.go: what a scrape says of the fleet as a whole.
use kasa_exporter.Base.{
  ℕ, ◌+◌, ◌≡◌, refl, ap, ◌∙◌, Bool, true, false, ◌&&◌, Option, none, some, List, [], ◌∷◌, ◌++◌, map,
  arith, if◌then◌else◌,
}
use kasa_exporter.Base.Text.{Text, ==ₜ_iff, ◌==ₜ◌, codes}
use kasa_exporter.Reading.{
  Reading, DeviceType, plug, strip, bulb, light_strip, dimmer, wall_switch, hub,
}
use kasa_exporter.Errors.{ok, err, Result}
use kasa_exporter.Collector.Devices.{
  emit_outcome, emit_read, new_device_collector, emit_counts, count_types, counted_type,
  device_update, emit_reading, increment,
}
use kasa_exporter.Collector.{
  update_kind, labels_for, type_text, readings_of_type, emit_each, emit_gauge, Sample, same_type,
  Desc,
}
use kasa_exporter.Floats.{Arithmetic}
use kasa_exporter.Registry.{Outcome}
use kasa_exporter.Collector.Kinds.{
  Kind, kind_update, plugs, strips, bulbs, light_strips, dimmers, wall_switches, hubs,
}

-- The number under a category; 0 where it has no entry.
abbrev pub tally : DeviceType → List (DeviceType × ℕ) → ℕ
tally t [] = 0
tally t ((other, n) ∷ counts) = if same_type other t then n else tally t counts

tally-increment :
    (t other : DeviceType) (counts : List (DeviceType × ℕ))
    → tally t (increment other counts) ≡ (if same_type other t then 1 else 0) + tally t counts
unfolding increment
tally-increment t other [] = ground arith
tally-increment t other ((x, n) ∷ counts) =
    let e1 = ==ₜ_iff (type_text x) (type_text other) in
    let e2 = ==ₜ_iff (type_text x) (type_text t) in
    let e3 = ==ₜ_iff (type_text other) (type_text t) in
    let later = tally-increment t other counts in ground arith

-- kasa_device_up
unfoldable pub is_up_desc : Desc → Bool
is_up_desc d = (d.subsystem ==ₜ codes "device") && (d.metric ==ₜ codes "up")

module _ {F : Type 0} (ops : Arithmetic F) where
  -- The number of results that are of a category: that of the reading, or the one that the device was
  -- last read as.
  abbrev pub of_category : DeviceType → List (Outcome F) → ℕ
  of_category t [] = 0
  of_category t (o ∷ os) =
      (if same_type (counted_type ops new_device_collector o.device_type o.reading) t then 1 else 0)
      + of_category t os

  count_types-tally :
      (t : DeviceType) (counts : List (DeviceType × ℕ)) (os : List (Outcome F))
      → tally t (count_types ops new_device_collector counts os) ≡ tally t counts + of_category t os
  count_types-tally t counts [] = omega arith
  count_types-tally t counts (o ∷ os) =
      let c = counted_type ops new_device_collector o.device_type o.reading in
      let a = count_types-tally t (increment c counts) os in
      let b = tally-increment t c counts in omega arith

  -- The device collector counts, under each category, exactly the devices of that category, those that
  -- failed under the one they were last read as.
  pub fleet_counted :
      (t : DeviceType) (os : List (Outcome F))
      → tally t (count_types ops new_device_collector [] os) ≡ of_category t os
  fleet_counted t os = let h = count_types-tally t [] os in omega arith

  -- The samples of kasa_device_up.
  abbrev pub is_up : Sample F → Bool
  is_up s = is_up_desc s.desc

  abbrev pub ups : List (Sample F) → List (Sample F)
  ups [] = []
  ups (s ∷ ss) = if is_up s then s ∷ ups ss else ups ss

  -- A device that was read is up under its address and name; one that failed is down under the
  -- address and name it was last known by.
  abbrev pub up_of : Outcome F → Option (Reading F) → Sample F
  up_of o none = record {
    desc = new_device_collector.up;
    is_counter = false;
    value = ops.of_ℕ 0;
    labels = o.host ∷ o.alias ∷ [];
  }
  up_of o (some reading) = record {
    desc = new_device_collector.up;
    is_counter = false;
    value = ops.of_ℕ 1;
    labels = labels_for reading;
  }

  ups-append : (xs ys : List (Sample F)) → ups (xs ++ ys) ≡ ups xs ++ ups ys
  ups-append [] ys = refl
  ups-append (x ∷ xs) ys = let later = ups-append xs ys in ground arith

  record NoUps (ss : List (Sample F)) : Type 0 where
    absent : ups ss ≡ []

  infixr 5 ◌⊕◌
  ◌⊕◌ : {xs ys : List (Sample F)} → NoUps xs → NoUps ys → NoUps (xs ++ ys)
  h ⊕ k = record { absent = ups-append _ _ ∙ (λ i. h.absent i ++ k.absent i) }

  other-NoUps :
      (d : Desc) (v : Option F) (labels : List Text)
      → is_up_desc d ≡ false
      → NoUps (emit_gauge (some d) v labels)
  unfolding emit_gauge
  other-NoUps d none labels h = record { absent = refl }
  other-NoUps d (some v) labels h = record { absent = ground arith }

  counts-NoUps :
      (counts : List (DeviceType × ℕ)) → NoUps (emit_counts ops new_device_collector counts)
  unfolding is_up_desc ◌==ₜ◌
  counts-NoUps [] = record { absent = refl }
  counts-NoUps ((t, n) ∷ counts) =
      other-NoUps new_device_collector.count _ _ refl ⊕ counts-NoUps counts

  own-ups :
      (d : Desc) (v : F) (labels : List Text) (rest : List (Sample F))
      → is_up_desc d ≡ true
      → NoUps rest
      → ups (emit_gauge (some d) (some v) labels ++ rest)
        ≡ record { desc = d; is_counter = false; value = v; labels = labels } ∷ []
  unfolding emit_gauge
  own-ups d v labels rest h k = let none_later = k.absent in ground arith

  sole-ups :
      (d : Desc) (v : F) (labels : List Text)
      → is_up_desc d ≡ true
      → ups (emit_gauge (some d) (some v) labels)
        ≡ record { desc = d; is_counter = false; value = v; labels = labels } ∷ []
  unfolding emit_gauge
  sole-ups d v labels h = ground arith

  unless_later : (xs ys : List (Sample F)) → ys ≡ [] → xs ++ ys ≡ xs
  unless_later [] ys h = h
  unless_later (x ∷ xs) ys h = ap (λ zs. x ∷ zs) (unless_later xs ys h)

  read-ups :
      (o : Outcome F) (r : Option (Reading F))
      → ups (emit_read ops new_device_collector o r) ≡ up_of o r ∷ []
  unfolding emit_reading is_up_desc ◌==ₜ◌
  read-ups o none = sole-ups new_device_collector.up _ _ refl
  read-ups o (some r) = own-ups new_device_collector.up _ _ _ refl (
      other-NoUps new_device_collector.info _ _ refl
      ⊕ other-NoUps new_device_collector.signal_strength _ _ refl
      ⊕ other-NoUps new_device_collector.signal_level _ _ refl
      ⊕ other-NoUps new_device_collector.uptime _ _ refl
      ⊕ other-NoUps new_device_collector.led_on _ _ refl
      ⊕ other-NoUps new_device_collector.overheated _ _ refl
      ⊕ other-NoUps new_device_collector.updating _ _ refl)

  each-ups :
      (os : List (Outcome F))
      → ups (emit_each ops (emit_outcome ops new_device_collector) os)
        ≡ map (λ o. up_of o o.reading) os
  each-ups [] = refl
  each-ups (o ∷ os) = ups-append _ _ ∙ (λ i. read-ups o o.reading i ++ each-ups os i)

  -- A scrape has exactly one kasa_device_up sample for each device of the snapshot, in its order: 1 with
  -- the reading's address and name where the device was read, and 0 with the last known ones where
  -- it was not.
  pub every_device_up :
      (os : List (Outcome F))
      → ups (device_update ops new_device_collector (ok os)).0 ≡ map (λ o. up_of o o.reading) os
  unfolding device_update
  every_device_up [] = refl
  every_device_up (o ∷ os) =
      let all = emit_each ops (emit_outcome ops new_device_collector) (o ∷ os) in
      let last = counts-NoUps (count_types ops new_device_collector [] (o ∷ os)) in
      ups-append all _ ∙ unless_later _ _ last.absent ∙ each-ups (o ∷ os)

  update-agrees :
      (device_type : DeviceType) (emit : Reading F → List (Sample F))
      (snapshot : Result (List (Outcome F)))
      → (update_kind ops device_type emit snapshot).1
        ≡ (device_update ops new_device_collector snapshot).1
  unfolding device_update readings_of_type
  update-agrees device_type emit (err e) = refl
  update-agrees device_type emit (ok []) = refl
  update-agrees device_type emit (ok (o ∷ os)) = refl

  -- The collector of every kind returns the same error as the device collector: that of the snapshot,
  -- "no data" where the snapshot is empty, and none otherwise, also where no device is of the kind.
  pub collectors_agree :
      (kind : Kind) (snapshot : Result (List (Outcome F)))
      → (kind_update ops kind snapshot).1 ≡ (device_update ops new_device_collector snapshot).1
  unfolding kind_update
  collectors_agree plugs s = update-agrees plug _ s
  collectors_agree strips s = update-agrees strip _ s
  collectors_agree bulbs s = update-agrees bulb _ s
  collectors_agree light_strips s = update-agrees light_strip _ s
  collectors_agree dimmers s = update-agrees dimmer _ s
  collectors_agree wall_switches s = update-agrees wall_switch _ s
  collectors_agree hubs s = update-agrees hub _ s
