-- ===== src/Registry/Pool.antt =====
-- The goroutines of `readAll` in kasa/registry.go, one for each device, as a step relation: they run
-- in any order, and a buffered channel bounds how many of them hold a slot. `device.Read` is one step
-- of the world, since the mutex of the device is held across it.
pub mod Bounded
pub mod Ends
pub mod Independent
pub mod Serial
pub mod Tests
use kasa_exporter.Base.Text.{Text}
use kasa_exporter.Base.Int.{ℤ, pos, negsuc}
use kasa_exporter.Base.Dict.{Dict}
use kasa_exporter.Connect.{Queriers}
use kasa_exporter.Device.{read_device, Device}
use kasa_exporter.Errors.{Result}
use kasa_exporter.Registry.{outcome, Outcome, Registry}
use kasa_exporter.Reading.{Reading}
use kasa_exporter.Base.Order.{sort_by}
use kasa_exporter.Base.{
  ℕ, zero, suc, ◌+◌, ◌-◌, ◌*◌, ◌/◌, ◌%◌, ◌^◌, ◌≤◌, ◌<◌, String, ◌≡◌, refl, sym, ap, ◌∙◌, subst, ◌≢◌,
  ◌↔◌, ◌⊎◌, inl, inr, Bool, true, false, not, ◌&&◌, ◌||◌, Option, none, some, List, [], ◌∷◌, ◌++◌,
  map, arith, ltb, leb, ◌==◌, if◌then◌else◌, ltb→lt, lt→ltb, leb→le, ==_iff, Bool-cases,
  Option-cases, length, get_elem?, set, get_or, take, drop, replicate, length-append,
  take-append-drop, length-take, length-drop, length-replicate, length-map, All, Any, take_all,
  drop_all, take-append, drop-append, is_some, All-append, All-take, All-drop,
}

-- Where a goroutine stands, for the device that the registry holds under `key`: before the send to
-- `limit`, after it, after the store into `results`, and after the deferred receive.
pub data Worker (Q F : Type 0) : Type 0 where
  waiting holding : (key : Text) → (d : Device Q) → Worker Q F
  stored done : (key : Text) → (d : Device Q) → (o : Outcome F) → Worker Q F

pub record Pool (W Q F : Type 0) : Type 0 where
  pub world : W
  pub workers : List (Worker Q F)

module _ {Q F : Type 0} where
  -- The values in the channel.
  pub holders : List (Worker Q F) → ℕ
  holders [] = 0
  holders (holding _ _ ∷ vs) = suc (holders vs)
  holders (stored _ _ _ ∷ vs) = suc (holders vs)
  holders (waiting _ _ ∷ vs) = holders vs
  holders (done _ _ _ ∷ vs) = holders vs

  abbrev pub spawned : Dict (Device Q) → List (Worker Q F)
  spawned = map (λ e. waiting e.0 e.1)

  -- What `wg.Wait` waits for.
  pub AllDone : List (Worker Q F) → Type 0
  AllDone [] = Unit
  AllDone (done _ _ _ ∷ vs) = AllDone vs
  AllDone (_ ∷ vs) = ⊥

  -- `results`, as far as they have been stored.
  pub results : List (Worker Q F) → List (Outcome F)
  results [] = []
  results (waiting _ _ ∷ vs) = results vs
  results (holding _ _ ∷ vs) = results vs
  results (stored _ _ o ∷ vs) = o ∷ results vs
  results (done _ _ o ∷ vs) = o ∷ results vs

  -- The devices that the registry and the goroutines share.
  pub devices_after : List (Worker Q F) → Dict (Device Q)
  devices_after [] = []
  devices_after (waiting k d ∷ vs) = (k, d) ∷ devices_after vs
  devices_after (holding k d ∷ vs) = (k, d) ∷ devices_after vs
  devices_after (stored k d _ ∷ vs) = (k, d) ∷ devices_after vs
  devices_after (done k d _ ∷ vs) = (k, d) ∷ devices_after vs

  -- The end of `readAll`, after `wg.Wait`.
  abbrev pub collected :
      {W : Type 0} → Registry Q F → Pool W Q F → List (Outcome F) × Registry Q F × W
  collected r t = (
    sort_by (λ o. o.host) (results t.workers),
    record r { devices = devices_after t.workers },
    t.world,
  )

  -- The pool as `readAll` starts it.
  abbrev pub readers : {W : Type 0} → W → Registry Q F → Pool W Q F
  readers w r = record { world = w; workers = spawned r.devices }

-- The capacity of the channel; NewRegistry lets no negative one through.
abbrev pub slots : ℤ → ℕ
slots (pos n) = n
slots (negsuc n) = 0

module _ {W Q F : Type 0} (net : Queriers W Q F) where
  abbrev pub stored_by : Text → Result (Reading F) × Device Q × W → Worker Q F
  stored_by key (r, d, w) = stored key d (outcome net d r)

  -- One step of one goroutine, `room` being whether the channel has a free slot.
  pub data Move (room : Bool) (w : W) : Worker Q F → W → Worker Q F → Type 0 where
    acquire : {k : Text} {d : Device Q} → room ≡ true → Move room w (waiting k d) w (holding k d)
    store :
        {k : Text} {d : Device Q}
        → Move room w (holding k d) (read_device net w d).2 (stored_by k (read_device net w d))
    release : {k : Text} {d : Device Q} {o : Outcome F} → Move room w (stored k d o) w (done k d o)

  pub data Turn (room : Bool) (w : W) : List (Worker Q F) → W → List (Worker Q F) → Type 0 where
    here :
        {v v' : Worker Q F} {w' : W} {vs : List (Worker Q F)}
        → Move room w v w' v'
        → Turn room w (v ∷ vs) w' (v' ∷ vs)
    there :
        {v : Worker Q F} {w' : W} {vs vs' : List (Worker Q F)}
        → Turn room w vs w' vs'
        → Turn room w (v ∷ vs) w' (v ∷ vs')

  pub data Step (limit : ℕ) (s : Pool W Q F) : Pool W Q F → Type 0 where
    turn :
        {w' : W} {vs' : List (Worker Q F)}
        → Turn (ltb (holders s.workers) limit) s.world s.workers w' vs'
        → Step limit s (record { world = w'; workers = vs' })

  -- A schedule of `n` steps.
  pub data Run (limit : ℕ) (s : Pool W Q F) : ℕ → Pool W Q F → Type 0 where
    start : Run limit s 0 s
    later : {n : ℕ} {t u : Pool W Q F} → Run limit s n t → Step limit t u → Run limit s (suc n) u
