-- ===== src/Registry/Round.antt =====
-- `readAll` of kasa/registry.go: the outcomes of one round of reads.
use mathlib.Core.List.{Perm}
use mathlib.Core.List.Perm
use kasa_exporter.Base.{◌≡◌, refl, ap, subst, [], ◌∷◌, map}
use kasa_exporter.Base.Dict.{Dict, keys}
use kasa_exporter.Base.Order.{sort_by, sort_by-perm, sort_by-IsSorted, IsSorted}
use kasa_exporter.Errors.{Result, ok, err}
use kasa_exporter.Reading.{Reading}
use kasa_exporter.Connect.{Queriers}
use kasa_exporter.Device.{Device, read_device}
use kasa_exporter.Device.Memory.{read-Remembers, Remembers}
use kasa_exporter.Registry.{Registry, outcome, read_each, read_all}

module _ {W Q F : Type 0} (net : Queriers W Q F) where
  host_kept :
      (d d' : Device Q) (r : Result (Reading F))
      → Remembers net d r d'
      → (outcome net d' r).host ≡ d.host
  host_kept d d' (ok reading) h = h.0
  host_kept d d' (err e) h = h.0

  read_each-hosts :
      (w : W) (devices : Dict (Device Q))
      → map (λ o. o.host) (read_each net w devices).0 ≡ map (λ e. e.1.host) devices
  unfolding read_each
  read_each-hosts w [] = refl
  read_each-hosts w ((host, d) ∷ devices) =
      let (r, d', w') = read_device net w d in
      λ i. host_kept d d' r (read-Remembers net w d) i ∷ read_each-hosts w' devices i

  pub read_each-keys :
      (w : W) (devices : Dict (Device Q)) → keys (read_each net w devices).1 ≡ keys devices
  unfolding read_each
  read_each-keys w [] = refl
  read_each-keys w ((host, d) ∷ devices) =
      ap (λ ks. host ∷ ks) (read_each-keys (read_device net w d).2 devices)

  -- A round has exactly one outcome for each device, under the device's address, and they are in the
  -- order of the addresses, whatever the order in which the devices were read.
  pub read_all_ordered :
      (w : W) (r : Registry Q F)
      → IsSorted (λ o. o.host) (read_all net w r).0
        × Perm (map (λ o. o.host) (read_all net w r).0) (map (λ e. e.1.host) r.devices)
  unfolding read_all
  read_all_ordered w r = (
    sort_by-IsSorted (λ o. o.host) (read_each net w r.devices).0,
    subst (λ hs. Perm (map (λ o. o.host) (sort_by (λ o. o.host) (read_each net w r.devices).0)) hs)
        (read_each-hosts w r.devices)
        (Perm.map (λ o. o.host) (sort_by-perm (λ o. o.host) (read_each net w r.devices).0)),
  )
