-- ===== src/Registry/Pool/Independent.antt =====
-- Devices of kasa/registry.go that do not influence each other, and the steps of their goroutines.

use kasa_exporter.Base.{◌≡◌, refl, sym, subst, Bool, List, [], ◌∷◌, All}
use kasa_exporter.Connect.{Queriers}
use kasa_exporter.Device.{read_device, Device}
use kasa_exporter.Errors.{Result}
use kasa_exporter.Reading.{Reading}
use kasa_exporter.Registry.Pool.{
  stored_by, Worker, waiting, holding, stored, done, acquire, store, release, Turn, here, there,
}

module _ {Q F : Type 0} where
  -- The devices that are still to be read.
  unfoldable pub unread : List (Worker Q F) → List (Device Q)
  unread [] = []
  unread (waiting _ d ∷ vs) = d ∷ unread vs
  unread (holding _ d ∷ vs) = d ∷ unread vs
  unread (stored _ _ _ ∷ vs) = unread vs
  unread (done _ _ _ ∷ vs) = unread vs

module _ {W Q F : Type 0} (net : Queriers W Q F) where
  -- Two reads, one after the other: what each returns, each device after it, and the world.
  unfoldable pub in_turn :
      W
      → Device Q
      → Device Q
      → (Result (Reading F) × Device Q) × (Result (Reading F) × Device Q) × W
  in_turn w d e =
      let (r, d', w1) = read_device net w d in
      let (r', e', w2) = read_device net w1 e in ((r, d'), (r', e'), w2)

  abbrev pub swapped : {A B : Type 0} → A × B × W → B × A × W
  swapped (a, b, w) = (b, a, w)

  -- The two devices do not influence each other.
  unfoldable pub Commute : Device Q → Device Q → Type 0
  Commute d e = (w : W) → swapped (in_turn w e d) ≡ in_turn w d e

  -- No two of the devices influence each other.
  unfoldable pub Independent : List (Device Q) → Type 0
  Independent [] = Unit
  Independent (d ∷ ds) = All (Commute d) ds × Independent ds

  -- A step can be taken after the read of an independent device as well.
  pub Turn-after :
      {room : Bool} {w w' : W} {vs vs' : List (Worker Q F)} (d : Device Q)
      → Turn net room w vs w' vs'
      → All (Commute d) (unread vs)
      → (w1 : W) × (read_device net w' d ≡ ((read_device net w d).0, (read_device net w d).1, w1))
        × Turn net room (read_device net w d).2 vs w1 vs'
  unfolding unread Commute in_turn
  Turn-after d (here (acquire free)) h = (_, refl, here (acquire free))
  Turn-after d (here release) h = (_, refl, here release)
  Turn-after {room} {w} {vs = holding k e ∷ vs} d (here store) h =
      let c = h.0 w in
      (
        (c 1).2,
        λ i. ((c i).0.0, (c i).0.1, (c i).2),
        subst (λ v. Turn net room (read_device net w d).2 (holding k e ∷ vs) (c 1).2 (v ∷ vs))
            (sym (λ i. stored_by net k ((c i).1.0, (c i).1.1, (c i).2))) (here store),
      )
  Turn-after d (there {v = waiting k e} t) h =
      (let (w1, same, t') = Turn-after d t h.1 in (w1, same, there t'))
  Turn-after d (there {v = holding k e} t) h =
      (let (w1, same, t') = Turn-after d t h.1 in (w1, same, there t'))
  Turn-after d (there {v = stored k e o} t) h =
      (let (w1, same, t') = Turn-after d t h in (w1, same, there t'))
  Turn-after d (there {v = done k e o} t) h =
      (let (w1, same, t') = Turn-after d t h in (w1, same, there t'))

  Turn-All :
      {room : Bool} {w w' : W} {vs vs' : List (Worker Q F)} (P : Device Q → Type 0)
      → Turn net room w vs w' vs'
      → All P (unread vs)
      → All P (unread vs')
  unfolding unread
  Turn-All P (here (acquire free)) h = h
  Turn-All P (here store) h = h.1
  Turn-All P (here release) h = h
  Turn-All P (there {v = waiting k e} t) h = (h.0, Turn-All P t h.1)
  Turn-All P (there {v = holding k e} t) h = (h.0, Turn-All P t h.1)
  Turn-All P (there {v = stored k e o} t) h = Turn-All P t h
  Turn-All P (there {v = done k e o} t) h = Turn-All P t h

  pub Turn-Independent :
      {room : Bool} {w w' : W} {vs vs' : List (Worker Q F)}
      → Turn net room w vs w' vs'
      → Independent (unread vs)
      → Independent (unread vs')
  unfolding unread Independent
  Turn-Independent (here (acquire free)) h = h
  Turn-Independent (here store) h = h.1
  Turn-Independent (here release) h = h
  Turn-Independent (there {v = waiting k e} t) h =
      (Turn-All (Commute e) t h.0, Turn-Independent t h.1)
  Turn-Independent (there {v = holding k e} t) h =
      (Turn-All (Commute e) t h.0, Turn-Independent t h.1)
  Turn-Independent (there {v = stored k e o} t) h = Turn-Independent t h
  Turn-Independent (there {v = done k e o} t) h = Turn-Independent t h
