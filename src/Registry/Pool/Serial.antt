-- ===== src/Registry/Pool/Serial.antt =====
-- kasa/registry.go: what a round of `readAll` comes to does not depend on how it is scheduled.
use kasa_exporter.Base.Text.{Text}
use kasa_exporter.Base.{ℕ, ◌≡◌, refl, sym, ap, ◌∙◌, subst, Bool, List, [], ◌∷◌, map}
use kasa_exporter.Connect.{Queriers}
use kasa_exporter.Device.{read_device, Device}
use kasa_exporter.Registry.{Registry, read_all, read_each, outcome, Outcome}
use kasa_exporter.Errors.{Result}
use kasa_exporter.Base.Dict.{Dict}
use kasa_exporter.Reading.{Reading}
use kasa_exporter.Base.Order.{sort_by}
use kasa_exporter.Registry.Pool.{
  collected, devices_after, results, Worker, waiting, holding, stored, done, Pool, spawned, slots,
  acquire, store, release, Turn, here, there, turn, Run, start, later, readers, AllDone,
}
use kasa_exporter.Registry.Pool.Independent.{Independent, unread, Turn-after, Turn-Independent}

module _ {W Q F : Type 0} (net : Queriers W Q F) where
  abbrev Settled : Type 0
  Settled = List (Outcome F) × Dict (Device Q) × W

  abbrev joined : Text → Device Q → Outcome F → Settled → Settled
  joined k d o (outs, ds, w) = (o ∷ outs, (k, d) ∷ ds, w)

  -- The outcomes and the devices when the goroutines that have not read yet do so in their order.
  pub settled : W → List (Worker Q F) → Settled
  settled w [] = ([], [], w)
  settled w (waiting k d ∷ vs) =
      let (r, d', w') = read_device net w d in joined k d' (outcome net d' r) (settled w' vs)
  settled w (holding k d ∷ vs) =
      let (r, d', w') = read_device net w d in joined k d' (outcome net d' r) (settled w' vs)
  settled w (stored k d o ∷ vs) = joined k d o (settled w vs)
  settled w (done k d o ∷ vs) = joined k d o (settled w vs)

  -- What the read of a device leaves to the rest of the round.
  abbrev read_then : Text → List (Worker Q F) → Result (Reading F) × Device Q × W → Settled
  read_then k vs (r, d, w) = joined k d (outcome net d r) (settled w vs)

  Turn-settled_read :
      {room : Bool} (w w' : W) (k : Text) (d : Device Q) (vs vs' : List (Worker Q F))
      → ((w1 : W)
          → Turn net room (read_device net w d).2 vs w1 vs'
          → settled w1 vs' ≡ settled (read_device net w d).2 vs)
      → (w1 : W) × (read_device net w' d ≡ ((read_device net w d).0, (read_device net w d).1, w1))
        × Turn net room (read_device net w d).2 vs w1 vs'
      → read_then k vs' (read_device net w' d) ≡ read_then k vs (read_device net w d)
  Turn-settled_read w w' k d vs vs' same_rest (w1, same, t) =
      ap (read_then k vs') same
      ∙ ap
          (joined k (read_device net w d).1
            (outcome net (read_device net w d).1 (read_device net w d).0))
          (same_rest w1 t)

  Turn-settled :
      (vs : List (Worker Q F)) {room : Bool} {w w' : W} {vs' : List (Worker Q F)}
      → Turn net room w vs w' vs'
      → Independent net (unread vs)
      → settled w' vs' ≡ settled w vs
  unfolding settled unread Independent
  Turn-settled [] t h = elim t [ ]
  Turn-settled (waiting k d ∷ vs) (here (acquire free)) h = refl
  Turn-settled (holding k d ∷ vs) (here store) h = refl
  Turn-settled (stored k d o ∷ vs) (here release) h = refl
  Turn-settled (waiting k d ∷ vs) {w} {w'} (there {vs'} t) h =
      Turn-settled_read w w' k d vs vs' (λ w1 t'. Turn-settled vs t' h.1) (Turn-after net d t h.0)
  Turn-settled (holding k d ∷ vs) {w} {w'} (there {vs'} t) h =
      Turn-settled_read w w' k d vs vs' (λ w1 t'. Turn-settled vs t' h.1) (Turn-after net d t h.0)
  Turn-settled (stored k d o ∷ vs) (there t) h = ap (joined k d o) (Turn-settled vs t h)
  Turn-settled (done k d o ∷ vs) (there t) h = ap (joined k d o) (Turn-settled vs t h)
  Turn-settled (done k d o ∷ vs) (here m) h = elim m [ ]

  Run-settled :
      {limit : ℕ} {s : Pool W Q F} {n : ℕ} {t : Pool W Q F}
      → Run net limit s n t
      → Independent net (unread s.workers)
      → (settled t.world t.workers ≡ settled s.world s.workers) × Independent net (unread t.workers)
  Run-settled start h = (refl, h)
  Run-settled (later {t} r (turn m)) h =
      let (same, apart) = Run-settled r h in
      (Turn-settled t.workers m apart ∙ same, Turn-Independent net m apart)

  settled-spawned :
      (w : W) (devices : Dict (Device Q)) → settled w (spawned devices) ≡ read_each net w devices
  unfolding settled read_each
  settled-spawned w [] = refl
  settled-spawned w ((k, d) ∷ devices) =
      ap
        (joined k (read_device net w d).1
          (outcome net (read_device net w d).1 (read_device net w d).0))
        (settled-spawned (read_device net w d).2 devices)

  unread-spawned :
      (devices : Dict (Device Q)) → unread (spawned {F = F} devices) ≡ map (λ e. e.1) devices
  unfolding unread
  unread-spawned [] = refl
  unread-spawned (e ∷ devices) = ap (λ ds. e.1 ∷ ds) (unread-spawned devices)

  settled-done :
      (w : W) (vs : List (Worker Q F))
      → AllDone vs
      → settled w vs ≡ (results vs, devices_after vs, w)
  unfolding settled AllDone results devices_after
  settled-done w [] h = refl
  settled-done w (done k d o ∷ vs) h = ap (joined k d o) (settled-done w vs h)
  settled-done w (waiting _ _ ∷ vs) h = absurd h
  settled-done w (holding _ _ ∷ vs) h = absurd h
  settled-done w (stored _ _ _ ∷ vs) h = absurd h

  -- When the goroutines of a round are done, in whatever order they ran, `readAll` returns the same
  -- outcomes, and leaves the same devices and the same world, as when it reads the devices one after
  -- the other, provided that no two of the devices influence each other.
  pub round-read_all :
      {n : ℕ} (w : W) (r : Registry Q F) (t : Pool W Q F)
      → Independent net (map (λ e. e.1) r.devices)
      → Run net (slots r.opts.concurrency) (readers w r) n t
      → AllDone t.workers
      → collected r t ≡ read_all net w r
  unfolding read_all
  round-read_all w r t apart run all =
      let same =
        (Run-settled run (subst (Independent net) (sym (unread-spawned r.devices)) apart)).0 in
      ap (λ (outs, devices, w'). (sort_by (λ o. o.host) outs, record r { devices = devices }, w'))
        (sym (settled-done t.world t.workers all) ∙ same ∙ settled-spawned w r.devices)
