-- ===== src/Iot/Querier/Totals.antt =====
-- What the loop of `readSockets` in kasa/iot.go has counted and collected, and what a strip's own
-- energy must be, read off its outlets.
use mathlib.Core.List.{append-nil, map-append}
use kasa_exporter.Base.{
  or_else, ◌≢◌, ℕ, suc, ◌+◌, ◌≤◌, ◌≡◌, refl, sym, ap, ◌∙◌, ◌↔◌, inl, inr, Option, none, some, List,
  [], ◌∷◌, ◌++◌, map, arith, ltb, ◌==◌, if◌then◌else◌, Bool-cases, length, length-append, All,
}
use kasa_exporter.Base.Text.{Text}
use kasa_exporter.Base.Decimal.{itoa}
use kasa_exporter.Floats.{Arithmetic}
use kasa_exporter.Errors.{Result, ok, err, ok-injective}
use kasa_exporter.Reading.{Energy, Socket, Reading}
use kasa_exporter.Iot.{add_float, IotChild, add_energy}
use kasa_exporter.Iot.Querier.{Tally, socket_of, count_outlet, settle, strip_energy}

-- The energy readings among a strip's outlets.
abbrev pub energies : {F : Type 0} → List (Socket F) → List (Energy F)
energies [] = []
energies (k ∷ ks) = elim k.energy [ none ↦ energies ks | some e ↦ e ∷ energies ks ]

abbrev pub sum_energies : {F : Type 0} → Arithmetic F → Energy F → List (Energy F) → Energy F
sum_energies fl t [] = t
sum_energies fl t (e ∷ es) = sum_energies fl (add_energy fl t e) es

abbrev pub no_energy : {F : Type 0} → Energy F
no_energy = record {
  power_watts = none;
  voltage_volts = none;
  current_amperes = none;
  total_kwh = none;
}

-- The sum of the values that are there, from `t` on in their order; nothing where none is.
abbrev pub sum_from : {F : Type 0} → Arithmetic F → Option F → List (Option F) → Option F
sum_from fl t [] = t
sum_from fl t (none ∷ vs) = sum_from fl t vs
sum_from fl none (some v ∷ vs) = sum_from fl (some v) vs
sum_from fl (some t) (some v ∷ vs) = sum_from fl (some (fl.plus t v)) vs

-- The first value that is there.
abbrev pub first_of : {F : Type 0} → Option F → List (Option F) → Option F
first_of (some t) vs = some t
first_of none [] = none
first_of none (v ∷ vs) = first_of v vs

-- Power, current and counter are summed, of the readings that have them; the voltage, which the outlets
-- share, is that of the first reading that has one.
abbrev pub total_of : {F : Type 0} → Arithmetic F → Energy F → List (Energy F) → Energy F
total_of fl t es = record {
  power_watts = sum_from fl t.power_watts (map (λ e. e.power_watts) es);
  voltage_volts = first_of t.voltage_volts (map (λ e. e.voltage_volts) es);
  current_amperes = sum_from fl t.current_amperes (map (λ e. e.current_amperes) es);
  total_kwh = sum_from fl t.total_kwh (map (λ e. e.total_kwh) es);
}

-- What a strip's own energy must be, read off its outlets: nothing if no outlet has a reading; else
-- the totals of the readings, without the counter if an outlet has no reading.
abbrev pub summary : {F : Type 0} → Arithmetic F → List (Socket F) → Option (Energy F)
summary fl sockets =
    let es = energies sockets in
    let total = total_of fl no_energy es in
    if ltb 0 (length es)
    then some
        (if ltb (length es) (length sockets) then record total { total_kwh = none } else total)
    else none

sum_from-add_float :
    {F : Type 0} (fl : Arithmetic F) (t v : Option F) (vs : List (Option F))
    → sum_from fl (add_float fl t v) vs ≡ sum_from fl t (v ∷ vs)
sum_from-add_float fl none none vs = refl
sum_from-add_float fl (some t) none vs = refl
sum_from-add_float fl none (some v) vs = refl
sum_from-add_float fl (some t) (some v) vs = refl

first_of-or_else :
    {F : Type 0} (t v : Option F) (vs : List (Option F))
    → first_of (or_else t v) vs ≡ first_of t (v ∷ vs)
first_of-or_else none v vs = refl
first_of-or_else (some t) v vs = refl

first_of_nil : {F : Type 0} (t : Option F) → t ≡ first_of t []
first_of_nil none = refl
first_of_nil (some t) = refl

sum_energies_lem :
    {F : Type 0} (fl : Arithmetic F) (t : Energy F) (es : List (Energy F))
    → sum_energies fl t es ≡ total_of fl t es
unfolding add_energy
sum_energies_lem fl t [] = λ i. record {
  power_watts = t.power_watts;
  voltage_volts = first_of_nil t.voltage_volts i;
  current_amperes = t.current_amperes;
  total_kwh = t.total_kwh;
}
sum_energies_lem fl t (e ∷ es) = sum_energies_lem fl (add_energy fl t e) es ∙ (λ i. record {
  power_watts = sum_from-add_float fl t.power_watts e.power_watts (map (λ e. e.power_watts) es) i;
  voltage_volts =
      first_of-or_else t.voltage_volts e.voltage_volts (map (λ e. e.voltage_volts) es) i;
  current_amperes =
      sum_from-add_float fl t.current_amperes e.current_amperes (map (λ e. e.current_amperes) es) i;
  total_kwh = sum_from-add_float fl t.total_kwh e.total_kwh (map (λ e. e.total_kwh) es) i;
})

energies-append :
    {F : Type 0} (xs ys : List (Socket F)) → energies (xs ++ ys) ≡ energies xs ++ energies ys
energies-append [] ys = refl
energies-append (k ∷ xs) ys = ground (arith, energies-append xs ys)

pub sum_energies-append :
    {F : Type 0} (fl : Arithmetic F) (t : Energy F) (es : List (Energy F)) (e : Energy F)
    → sum_energies fl t (es ++ e ∷ []) ≡ add_energy fl (sum_energies fl t es) e
sum_energies-append fl t [] e = refl
sum_energies-append fl t (d ∷ es) e = sum_energies-append fl (add_energy fl t d) es e

-- Position and name of each outlet, counted from `i`.
abbrev pub numbered : {F : Type 0} → ℕ → List (IotChild F) → List (Text × Text)
numbered i [] = []
numbered i (c ∷ cs) = (itoa i, c.alias) ∷ numbered (i + 1) cs

pub length-numbered :
    {F : Type 0} (i : ℕ) (cs : List (IotChild F)) → length (numbered i cs) ≡ length cs
length-numbered i [] = refl
length-numbered i (c ∷ cs) = ap suc (length-numbered (i + 1) cs)

abbrev pub labels : {F : Type 0} → List (Socket F) → List (Text × Text)
labels = map (λ k. (k.id, k.alias))

-- The counts and the total agree with the outlets collected so far.
pub record Agrees {F : Type 0} (fl : Arithmetic F) (t : Tally F) : Type 0 where
  pub total : t.total ≡ sum_energies fl no_energy (energies t.sockets)
  pub measured : t.measured ≡ length (energies t.sockets)

sockets-count_outlet :
    {F : Type 0} (fl : Arithmetic F) (i : ℕ) (child : IotChild F) (r : Result (Option (Energy F)))
    (t : Tally F)
    → (count_outlet fl i child r t).sockets ≡ t.sockets ++ socket_of i child r ∷ []
unfolding count_outlet
sockets-count_outlet fl i child (err e) t = refl
sockets-count_outlet fl i child (ok none) t = refl
sockets-count_outlet fl i child (ok (some e)) t = refl

pub labels-count_outlet :
    {F : Type 0} (fl : Arithmetic F) (i : ℕ) (child : IotChild F) (r : Result (Option (Energy F)))
    (t : Tally F)
    → labels (count_outlet fl i child r t).sockets ≡ labels t.sockets ++ (itoa i, child.alias) ∷ []
unfolding socket_of
labels-count_outlet fl i child r t =
    rw (sockets-count_outlet fl i child r t)
      (map-append (λ k. (k.id, k.alias)) t.sockets (socket_of i child r ∷ []))

-- Whether the request for an outlet failed outright.
abbrev pub IsFailed : {F : Type 0} → Result (Option (Energy F)) → Type 0
IsFailed (ok e) = ⊥
IsFailed (err e) = Unit

unfoldable pub count_failed : {F : Type 0} → List (Result (Option (Energy F))) → ℕ
count_failed [] = 0
count_failed (ok e ∷ rs) = count_failed rs
count_failed (err e ∷ rs) = count_failed rs + 1

count_failed-le :
    {F : Type 0} (rs : List (Result (Option (Energy F)))) → count_failed rs ≤ length rs
unfolding count_failed
count_failed-le [] = omega arith
count_failed-le (ok e ∷ rs) = omega (arith, count_failed-le rs)
count_failed-le (err e ∷ rs) = omega (arith, count_failed-le rs)

pub All-IsFailed_iff :
    {F : Type 0} (rs : List (Result (Option (Energy F))))
    → (count_failed rs ≡ length rs) ↔ All IsFailed rs
unfolding count_failed
All-IsFailed_iff [] = (λ e. tt, λ h. refl)
All-IsFailed_iff (ok e ∷ rs) = (λ h. absurd (omega (arith, count_failed-le rs)), λ h. absurd h.0)
All-IsFailed_iff (err e ∷ rs) = (
  λ h. (tt, (All-IsFailed_iff rs).0 (omega arith)),
  λ h. omega (arith, (All-IsFailed_iff rs).1 h.1),
)

pub failures-count_outlet :
    {F : Type 0} (fl : Arithmetic F) (i : ℕ) (child : IotChild F) (r : Result (Option (Energy F)))
    (rs : List (Result (Option (Energy F)))) (t : Tally F)
    → (count_outlet fl i child r t).failures + count_failed rs ≡ t.failures + count_failed (r ∷ rs)
unfolding count_outlet count_failed
failures-count_outlet fl i child (err e) rs t = omega arith
failures-count_outlet fl i child (ok none) rs t = refl
failures-count_outlet fl i child (ok (some e)) rs t = refl

module _ {F : Type 0} (fl : Arithmetic F) where
  energies-snoc :
      (ks : List (Socket F)) (k : Socket F) (e : Energy F)
      → k.energy ≡ some e
      → energies (ks ++ k ∷ []) ≡ energies ks ++ e ∷ []
  energies-snoc ks k e h = energies-append ks (k ∷ []) ∙ ap (λ es. energies ks ++ es) (ground arith)

  energies-snoc_none :
      (ks : List (Socket F)) (k : Socket F)
      → k.energy ≡ none
      → energies (ks ++ k ∷ []) ≡ energies ks
  energies-snoc_none ks k h =
      let e : energies (k ∷ []) ≡ [] = ground arith in
      energies-append ks (k ∷ []) ∙ rw e (append-nil (energies ks))

  pub count_outlet-Agrees :
      (i : ℕ) (child : IotChild F) (r : Result (Option (Energy F))) (t : Tally F)
      → Agrees fl t
      → Agrees fl (count_outlet fl i child r t)
  unfolding count_outlet socket_of
  count_outlet-Agrees i child (err e) t a =
      let same = energies-snoc_none t.sockets (socket_of i child (err e)) refl in
      record { total = rw same a.total; measured = rw same a.measured }
  count_outlet-Agrees i child (ok none) t a =
      let same = energies-snoc_none t.sockets (socket_of i child (ok none)) refl in
      record { total = rw same a.total; measured = rw same a.measured }
  count_outlet-Agrees i child (ok (some e)) t a =
      let same = energies-snoc t.sockets (socket_of i child (ok (some e))) e refl in
      record {
        total =
            rw (same, sum_energies-append fl no_energy (energies t.sockets) e)
              (ap (λ u. add_energy fl u e) a.total);
        measured = rw same (omega (arith, a.measured, length-append (energies t.sockets) (e ∷ [])));
      }

pub settled :
    {F : Type 0} (n : ℕ) (reading : Reading F) (t : Tally F) {out : Reading F}
    → settle n reading t ≡ ok out
    → (out.sockets ≡ reading.sockets ++ t.sockets) × (out.energy ≡ strip_energy n t reading.energy)
settled n reading t {out} h = elim (Bool-cases (t.failures == n)) [
  | inl all ↦ ground arith
  | inr some_read ↦
      let same = ok-injective (rw some_read at h) in
      (ap (λ r. r.sockets) (sym same), ap (λ r. r.energy) (sym same))
]

pub strip_energy-summary :
    {F : Type 0} (fl : Arithmetic F) (t : Tally F) (n : ℕ)
    → Agrees fl t
    → length t.sockets ≡ n
    → strip_energy n t none ≡ summary fl t.sockets
strip_energy-summary fl t n a len =
    rw (a.measured, ← len, a.total, sum_energies_lem fl no_energy (energies t.sockets)) refl

energies-le : {F : Type 0} (ks : List (Socket F)) → length (energies ks) ≤ length ks
energies-le [] = omega arith
energies-le (k ∷ ks) = ground (arith, energies-le ks)

pub All-measured :
    {F : Type 0} (ks : List (Socket F))
    → length ks ≤ length (energies ks)
    → All (λ k. k.energy ≢ none) ks
All-measured [] h = tt
All-measured (k ∷ ks) h = ground (arith, energies-le ks, All-measured ks)

-- A counter in the summary means that no outlet is missing from it.
pub summary_complete :
    {F : Type 0} (fl : Arithmetic F) (ks : List (Socket F)) {e : Energy F}
    → summary fl ks ≡ some e
    → e.total_kwh ≢ none
    → All (λ k. k.energy ≢ none) ks
summary_complete fl ks {e} h counted = elim (Bool-cases (ltb (length (energies ks)) (length ks))) [
  | inl short ↦ absurd (counted (ground arith))
  | inr whole ↦ All-measured ks (ground arith)
]
