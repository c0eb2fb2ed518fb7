-- ===== src/Device/Memory.antt =====
-- What a device of kasa/device.go remembers of its reads.
use kasa_exporter.Base.{◌≡◌, refl, sym, subst, ◌≢◌, inl, inr, none, Option-cases}
use kasa_exporter.Errors.{Result, ok, err}
use kasa_exporter.Reading.{Reading}
use kasa_exporter.Connect.{Queriers}
use kasa_exporter.Device.{Device, type_of, or_text, answered, read_over, session, read_device}

module _ {W Q F : Type 0} (net : Queriers W Q F) where
  -- What a read says and leaves behind, by its outcome.
  abbrev pub Remembers : Device Q → Result (Reading F) → Device Q → Type 0
  Remembers d (err e) d' =
      (d'.host ≡ d.host)
      × (d'.alias ≡ d.alias)
      × (d'.device_type ≡ d.device_type)
      × (d'.querier ≡ none)
  Remembers d (ok reading) d' =
      (d'.host ≡ d.host)
      × (reading.host ≡ d.host)
      × (type_of d' ≡ reading.device_type)
      × (d'.alias ≡ or_text reading.alias d.alias)
      × (d'.querier ≢ none)

  answered-Remembers :
      (d : Device Q) (x : Result (Reading F) × Q × W)
      → Remembers d (answered net d x).0 (answered net d x).1
  answered-Remembers d (err e, q, w) = (refl, refl, refl, refl)
  answered-Remembers d (ok reading, q, w) = (refl, refl, refl, refl, λ e. cc e)

  read_over-Remembers :
      (d : Device Q) (x : Result Q × W)
      → (d.querier ≡ none)
      → Remembers d (read_over net d x).0 (read_over net d x).1
  read_over-Remembers d (err e, w) idle = (refl, refl, refl, idle)
  read_over-Remembers d (ok q, w) idle = answered-Remembers d (net.read w q)

  -- A read keeps the device's address. Where it fails, the name and the category that the device had
  -- stay, and no connection is left, so that the next read negotiates; where it succeeds, the
  -- reading carries the address, the category is the reading's, the name too if the reading has
  -- one, and the connection is kept.
  pub read-Remembers :
      (w : W) (d : Device Q) → Remembers d (read_device net w d).0 (read_device net w d).1
  unfolding read_device
  read-Remembers w d = elim (Option-cases d.querier) [
    | inl idle ↦ let x = session net w d d.querier in read_over-Remembers d x idle
    | inr (q, open_one) ↦
        subst
          (λ o.
            Remembers d (read_over net d (session net w d o)).0
              (read_over net d (session net w d o)).1)
          (sym open_one) (answered-Remembers d (net.read w q))
  ]
