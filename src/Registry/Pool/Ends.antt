-- ===== src/Registry/Pool/Ends.antt =====
-- kasa/registry.go: a round of `readAll` comes to its end.
use mathlib.Core.Logic.{⊎_map}
use kasa_exporter.Base.{
  ℕ, zero, suc, ◌+◌, ◌-◌, ◌*◌, ◌≤◌, ◌≡◌, refl, sym, ◌∙◌, subst, ◌↔◌, ◌⊎◌, inl, inr, Bool, true,
  List, [], ◌∷◌, arith, ltb, length,
}
use kasa_exporter.Connect.{Queriers}
use kasa_exporter.Registry.{Registry}
use kasa_exporter.Base.Dict.{Dict}
use kasa_exporter.Device.{Device}
use kasa_exporter.Registry.Pool.{
  Worker, waiting, holding, stored, done, Pool, holders, spawned, slots, acquire, store, release,
  Turn, here, there, Step, turn, Run, start, later, readers, AllDone,
}

module _ {Q F : Type 0} where
  -- The steps that the goroutines have left.
  pub left : List (Worker Q F) → ℕ
  left [] = 0
  left (waiting _ _ ∷ vs) = 3 + left vs
  left (holding _ _ ∷ vs) = 2 + left vs
  left (stored _ _ _ ∷ vs) = 1 + left vs
  left (done _ _ _ ∷ vs) = left vs

  left-zero : (vs : List (Worker Q F)) → left vs ≡ 0 → AllDone vs
  unfolding left AllDone
  left-zero [] h = tt
  left-zero (done _ _ _ ∷ vs) h = left-zero vs h
  left-zero (waiting _ _ ∷ vs) h = absurd (omega arith)
  left-zero (holding _ _ ∷ vs) h = absurd (omega arith)
  left-zero (stored _ _ _ ∷ vs) h = absurd (omega arith)

  AllDone-left : (vs : List (Worker Q F)) → AllDone vs → left vs ≡ 0
  unfolding left AllDone
  AllDone-left [] h = refl
  AllDone-left (done _ _ _ ∷ vs) h = AllDone-left vs h
  AllDone-left (waiting _ _ ∷ vs) h = absurd h
  AllDone-left (holding _ _ ∷ vs) h = absurd h
  AllDone-left (stored _ _ _ ∷ vs) h = absurd h

  left-cons :
      (v : Worker Q F) (vs vs' : List (Worker Q F))
      → left vs ≡ 1 + left vs'
      → left (v ∷ vs) ≡ 1 + left (v ∷ vs')
  unfolding left
  left-cons (waiting _ _) vs vs' h = omega arith
  left-cons (holding _ _) vs vs' h = omega arith
  left-cons (stored _ _ _) vs vs' h = omega arith
  left-cons (done _ _ _) vs vs' h = h

module _ {W Q F : Type 0} (net : Queriers W Q F) where
  left-spawned :
      (devices : Dict (Device Q)) → left (spawned {Q = Q} {F = F} devices) ≡ 3 * length devices
  unfolding left
  left-spawned [] = refl
  left-spawned (e ∷ devices) = grind (arith, left-spawned devices)

  Turn-left :
      {room : Bool} {w w' : W} {vs vs' : List (Worker Q F)}
      → Turn net room w vs w' vs'
      → left vs ≡ 1 + left vs'
  unfolding left
  Turn-left (here (acquire free)) = omega arith
  Turn-left (here store) = omega arith
  Turn-left (here release) = omega arith
  Turn-left (there {v} {w'} {vs} {vs'} t) = left-cons v vs vs' (Turn-left t)

  Run-left :
      {limit : ℕ} {s : Pool W Q F} {n : ℕ} {t : Pool W Q F}
      → Run net limit s n t
      → n + left t.workers ≡ left s.workers
  Run-left start = omega arith
  Run-left (later r (turn m)) = grind (arith, Turn-left m, Run-left r)

  -- What some goroutine can do next.
  abbrev Enabled : Bool → W → List (Worker Q F) → Type 0
  Enabled room w vs = (w' : W) × (vs' : List (Worker Q F)) × Turn net room w vs w' vs'

  later_moves :
      {C : Type 0} {room : Bool} {w : W} {vs : List (Worker Q F)} (v : Worker Q F)
      → C ⊎ Enabled room w vs
      → C ⊎ Enabled room w (v ∷ vs)
  later_moves v = ⊎_map (λ c. c) (λ (w', vs', t). (w', v ∷ vs', there t))

  holder_moves :
      (room : Bool) (w : W) (vs : List (Worker Q F)) → (holders vs ≡ 0) ⊎ Enabled room w vs
  unfolding holders
  holder_moves room w [] = inl refl
  holder_moves room w (holding k d ∷ vs) = inr (_, _, here store)
  holder_moves room w (stored k d o ∷ vs) = inr (_, _, here release)
  holder_moves room w (waiting k d ∷ vs) = later_moves _ (holder_moves room w vs)
  holder_moves room w (done k d o ∷ vs) = later_moves _ (holder_moves room w vs)

  waiter_moves : (w : W) (vs : List (Worker Q F)) → AllDone vs ⊎ Enabled true w vs
  unfolding AllDone
  waiter_moves w [] = inl tt
  waiter_moves w (holding k d ∷ vs) = inr (_, _, here store)
  waiter_moves w (stored k d o ∷ vs) = inr (_, _, here release)
  waiter_moves w (waiting k d ∷ vs) = inr (_, _, here (acquire refl))
  waiter_moves w (done k d o ∷ vs) = later_moves _ (waiter_moves w vs)

  -- Some goroutine can move unless all are done, since one that holds a slot is never stopped.
  progress :
      (limit : ℕ) (s : Pool W Q F)
      → 1 ≤ limit
      → AllDone s.workers ⊎ ((t : Pool W Q F) × Step net limit s t)
  progress limit s h = elim (holder_moves (ltb (holders s.workers) limit) s.world s.workers) [
    | inl idle ↦
        ⊎_map (λ all. all) (λ (w', vs', t). (_, turn t))
          (subst (λ room. AllDone s.workers ⊎ Enabled room s.world s.workers) (sym (ground arith))
            (waiter_moves s.world s.workers))
    | inr (w', vs', t) ↦ inr (_, turn t)
  ]

  earlier :
      {limit : ℕ} {s t : Pool W Q F} {n : ℕ} {u : Pool W Q F}
      → Step net limit s t
      → Run net limit t n u
      → Run net limit s (suc n) u
  earlier m start = later start m
  earlier m (later r m') = later (earlier m r) m'

  settle :
      {limit : ℕ} (k : ℕ) (s : Pool W Q F)
      → 1 ≤ limit
      → left s.workers ≡ k
      → (t : Pool W Q F) × Run net limit s k t × AllDone t.workers
  settle zero s h e = (s, start, left-zero s.workers e)
  settle {limit} (suc k) s h e = elim (progress limit s h) [
    | inl all ↦ absurd (grind (arith, AllDone-left s.workers all))
    | inr (t, turn m) ↦
        (let (u, run, all) = settle k t h (grind (arith, Turn-left m)) in
          (u, earlier (turn m) run, all))
  ]

  -- The goroutines of a round run to their end however they are scheduled, the concurrency being at
  -- least one: no schedule takes more than three steps for each device, and the round is over
  -- exactly when it has taken them.
  pub round_ends :
      {n : ℕ} (w : W) (r : Registry Q F) (t : Pool W Q F)
      → 1 ≤ slots r.opts.concurrency
      → Run net (slots r.opts.concurrency) (readers w r) n t
      → (n ≤ 3 * length r.devices)
        × ((n ≡ 3 * length r.devices) ↔ AllDone t.workers)
        × ((u : Pool W Q F) × Run net (slots r.opts.concurrency) t (3 * length r.devices - n) u
            × AllDone u.workers)
  round_ends {n} w r t h run =
      let total = Run-left run ∙ left-spawned r.devices in
      (
        omega arith,
        (λ e. left-zero t.workers (omega arith), λ all. grind (arith, AllDone-left t.workers all)),
        settle (3 * length r.devices - n) t h (omega arith),
      )
