-- ===== src/Transport/Ideal.antt =====
-- A transport of kasa/iot.go without a network between: the device's answers themselves, and how the
-- work over another transport compares with the work over it.
use kasa_exporter.Base.Text.{Text}
use kasa_exporter.Transport.{Transport}
use kasa_exporter.Errors.{Result}
use kasa_exporter.Base.{◌≡◌, Bool, true, false, if◌then◌else◌}

-- Each request has its answer, or its error, and nothing is kept between requests.
abbrev pub ideal : (respond : Text → Result Text) → Transport (Unit {0})
ideal respond = record { query = λ s request. (respond request, s); close = λ s. s }

-- Over `net`, from the states that `Good` holds of, a request that fits is answered as `respond`
-- says, and leaves such a state.
abbrev pub Serves :
    {S : Type 0} → Transport S → (S → Type 0) → (Text → Type 0) → (Text → Result Text) → Type 0
Serves {S} net Good Fits respond =
    (s : S) (body : Text)
    → Good s
    → Fits body
    → ((net.query s body).0 ≡ respond body) × Good (net.query s body).1

-- The result and what is kept of the state agree with `y`, and the state is good.
abbrev pub Tracks : {A S T : Type 0} → (S → T) → (S → Type 0) → A × S → A × T → Type 0
Tracks keep Good x y = ((x.0, keep x.1) ≡ y) × Good x.1

pub if-Tracks :
    {A S T : Type 0} (keep : S → T) (Good : S → Type 0) (b : Bool) {x x' : A × S} {y y' : A × T}
    → Tracks keep Good x y
    → Tracks keep Good x' y'
    → Tracks keep Good (if b then x else x') (if b then y else y')
if-Tracks keep Good true h h' = h
if-Tracks keep Good false h h' = h'
