-- ===== src/Registry/Pool/Bounded.antt =====
-- kasa/registry.go: the concurrency of `readAll` is bounded.
use kasa_exporter.Base.{ℕ, ◌+◌, ◌≤◌, ◌≡◌, refl, ◌⊎◌, inl, inr, Bool, true, List, [], ◌∷◌, arith}
use kasa_exporter.Connect.{Queriers}
use kasa_exporter.Base.Dict.{Dict}
use kasa_exporter.Registry.{Registry}
use kasa_exporter.Device.{Device}
use kasa_exporter.Registry.Pool.{
  Worker, waiting, holding, stored, done, Pool, holders, spawned, slots, Move, acquire, store,
  release, Turn, here, there, Step, turn, Run, start, later, readers,
}

module _ {W Q F : Type 0} (net : Queriers W Q F) where
  Move-holders :
      {room : Bool} {w w' : W} {v v' : Worker Q F} (vs : List (Worker Q F))
      → Move net room w v w' v'
      → (holders (v' ∷ vs) ≤ holders (v ∷ vs))
        ⊎ ((room ≡ true) × (holders (v' ∷ vs) ≡ holders (v ∷ vs) + 1))
  unfolding holders
  Move-holders vs (acquire free) = inr (free, omega arith)
  Move-holders vs store = inl (omega arith)
  Move-holders vs release = inl (omega arith)

  cons_holders :
      {room : Bool} (vs vs' : List (Worker Q F)) (v : Worker Q F)
      → (holders vs' ≤ holders vs) ⊎ ((room ≡ true) × (holders vs' ≡ holders vs + 1))
      → (holders (v ∷ vs') ≤ holders (v ∷ vs))
        ⊎ ((room ≡ true) × (holders (v ∷ vs') ≡ holders (v ∷ vs) + 1))
  unfolding holders
  cons_holders vs vs' (waiting _ _) h = h
  cons_holders vs vs' (done _ _ _) h = h
  cons_holders vs vs' (holding _ _) h = ground arith
  cons_holders vs vs' (stored _ _ _) h = ground arith

  Turn-holders :
      {room : Bool} {w w' : W} {vs vs' : List (Worker Q F)}
      → Turn net room w vs w' vs'
      → (holders vs' ≤ holders vs) ⊎ ((room ≡ true) × (holders vs' ≡ holders vs + 1))
  Turn-holders (here {v} {v'} {w'} {vs} m) = Move-holders vs m
  Turn-holders (there {v} {w'} {vs} {vs'} t) = cons_holders vs vs' v (Turn-holders t)

  Step-holders :
      {limit : ℕ} {s t : Pool W Q F}
      → Step net limit s t
      → holders s.workers ≤ limit
      → holders t.workers ≤ limit
  Step-holders (turn m) h = grind (arith, Turn-holders m)

  Run-holders :
      {limit : ℕ} {s : Pool W Q F} {n : ℕ} {t : Pool W Q F}
      → Run net limit s n t
      → holders s.workers ≤ limit
      → holders t.workers ≤ limit
  Run-holders start h = h
  Run-holders (later r m) h = Step-holders m (Run-holders r h)

  holders-spawned : (devices : Dict (Device Q)) → holders (spawned {Q = Q} {F = F} devices) ≡ 0
  unfolding holders
  holders-spawned [] = refl
  holders-spawned (e ∷ devices) = holders-spawned devices

  -- However the goroutines of a round are scheduled, at no moment do more of them hold a slot (and so
  -- read a device) than the configured concurrency.
  pub round_bounded :
      {n : ℕ} (w : W) (r : Registry Q F) (t : Pool W Q F)
      → Run net (slots r.opts.concurrency) (readers w r) n t
      → holders t.workers ≤ slots r.opts.concurrency
  round_bounded w r t run = Run-holders run (grind (arith, holders-spawned r.devices))
