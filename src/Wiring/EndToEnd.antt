-- ===== src/Wiring/EndToEnd.antt =====
-- Reads of a managed device (kasa/device.go) through the negotiation, a dialect and a transport, down to
-- the answers of the device.
use kasa_exporter.Base.Text.{Text}
use kasa_exporter.Base.{ℕ, zero, suc, ◌≡◌, refl, sym, ap, subst, Option, none, some}
use kasa_exporter.Base.Int.{ℤ}
use kasa_exporter.Connect.{
  built, connect, connect_as, negotiate, Plan, Credentials, iot_over_xor, iot_over_klap,
  smart_over_klap, smart_over_aes,
}
use kasa_exporter.Errors.{err, ok, Result}
use kasa_exporter.Device.{session, answered, read_over, read_device, Device}
use kasa_exporter.Transport.Ideal.{ideal, Serves}
use kasa_exporter.Reading.{Reading}
use kasa_exporter.Discovery.{DiscoveryResult}
use kasa_exporter.Iot.Querier.{iot_read}
use kasa_exporter.Iot.Querier.Ideal.{iot_read-Follows}
use kasa_exporter.Smart.Querier.{smart_read}
use kasa_exporter.Smart.Querier.Ideal.{smart_read-Follows}
use kasa_exporter.Wiring.{
  smart_at, iot_at, wired, read_querier, Backend, World, Link, Querier, iot_querier, smart_querier,
  build_querier, links,
}

abbrev pub link_of : Querier → Link
link_of (iot_querier q) = q.transport
link_of (smart_querier q) = q.transport

-- A reading carries the address of its device.
abbrev pub placed : {F : Type 0} → Text → Result (Reading F) → Result (Reading F)
placed host (err e) = err e
placed host (ok reading) = ok (record reading { host = host })

module _ {W K F : Type 0} (b : Backend W K F) (respond : Text → Result Text) where
  -- The read of a querier when the answers of the device reach it as they are.
  abbrev pub plain_read : World W → Querier → Result (Reading F)
  plain_read w (iot_querier q) =
      (iot_read (ideal respond) b.iot_codec b.floats (kasa_exporter.Iot.Querier.Ideal.offline q)).0
  plain_read w (smart_querier q) =
      (smart_read (ideal respond) b.smart_json b.names b.floats
        (kasa_exporter.Smart.Querier.Ideal.offline (smart_at b w q))).0

-- A device and the world after `n` reads.
pub after_reads :
    {W K F : Type 0} → Backend W K F → ℕ → World W → Device Querier → Device Querier × World W
after_reads b zero w d = (d, w)
after_reads b (suc n) w d =
    after_reads b n (read_device (wired b) w d).2 (read_device (wired b) w d).1

-- The querier that a device has, or a new one.
abbrev pub held_or_new : Plan → Device Querier → Option Querier → Querier
held_or_new plan d none = build_querier d.host d.creds d.timeout plan
held_or_new plan d (some q) = q

-- The dialect of a plan.
abbrev pub IsIot : Plan → Type 0
IsIot iot_over_xor = Unit
IsIot (iot_over_klap url login) = Unit
IsIot (smart_over_klap url login) = ⊥
IsIot (smart_over_aes url) = ⊥

abbrev pub IsSmart : Plan → Type 0
IsSmart iot_over_xor = ⊥
IsSmart (iot_over_klap url login) = ⊥
IsSmart (smart_over_klap url login) = Unit
IsSmart (smart_over_aes url) = Unit

abbrev Matches : Plan → Querier → Type 0
Matches plan (iot_querier q) = IsIot plan
Matches plan (smart_querier q) = IsSmart plan

build_querier-Matches :
    (host : Text) (creds : Credentials) (timeout : ℤ) (plan : Plan)
    → Matches plan (build_querier host creds timeout plan)
unfolding build_querier
build_querier-Matches host creds timeout iot_over_xor = tt
build_querier-Matches host creds timeout (iot_over_klap url login) = tt
build_querier-Matches host creds timeout (smart_over_klap url login) = tt
build_querier-Matches host creds timeout (smart_over_aes url) = tt

module _ {W K F : Type 0} (b : Backend W K F) (Good : W × Link → Type 0) (plan : Plan) where
  abbrev HeldGood : World W → Option Querier → Type 0
  HeldGood w none = Unit
  HeldGood w (some q) = Good (w.net, link_of q) × Matches plan q

  -- The device was discovered, is spoken to as `plan` says, and the transport that it has, or gets when
  -- it has none, is good.
  pub record IsServed (w : World W) (d : Device Querier) : Type 0 where
    pub found : DiscoveryResult
    pub known : d.discovered ≡ some found
    pub planned : connect_as d.host found ≡ ok plan
    pub fresh : (v : W) → Good (v, link_of (build_querier d.host d.creds d.timeout plan))
    pub held : HeldGood w d.querier

  session-held_or_new :
      (w : World W) (d : Device Querier) (s : IsServed w d) (o : Option Querier)
      → session (wired b) w d o ≡ (ok (held_or_new plan d o), w)
  unfolding negotiate connect wired
  session-held_or_new w d s (some q) = refl
  session-held_or_new w d s none =
      subst
        (λ known.
          negotiate (wired b) d.host d.creds d.timeout w known ≡ (ok (held_or_new plan d none), w))
        (sym s.known) (λ i. (built (wired b) d.host d.creds d.timeout (s.planned i), w))

  -- The result of a read is `v`, under the address of the device, which stays served.
  abbrev Read :
      Device Querier → Result (Reading F) → Result (Reading F) × Device Querier × World W → Type 0
  Read d v x = (x.0 ≡ placed d.host v) × IsServed x.2 x.1

  answered-Read :
      (w : World W) (d : Device Querier) (s : IsServed w d) (v : Result (Reading F))
      (x : Result (Reading F) × Querier × World W)
      → x.0 ≡ v
      → Good (x.2.net, link_of x.1) × Matches plan x.1
      → Read d v (answered (wired b) d x)
  answered-Read w d s v (err e, q, w') same good = (
    ap (placed d.host) same,
    record { found = s.found; known = s.known; planned = s.planned; fresh = s.fresh; held = tt },
  )
  answered-Read w d s v (ok reading, q, w') same good = (
    ap (placed d.host) same,
    record { found = s.found; known = s.known; planned = s.planned; fresh = s.fresh; held = good },
  )

  module _ (Fits : Text → Type 0) (respond : Text → Result Text)
      (serves : Serves (links b) Good Fits respond)
      (iot_fits : IsIot plan → kasa_exporter.Iot.Querier.Ideal.AllFit b.iot_codec Fits)
      (smart_fits : IsSmart plan → kasa_exporter.Smart.Querier.Ideal.AllFit b.smart_json Fits) where
    read_querier-good :
        (w : World W) (q : Querier)
        → Good (w.net, link_of q) × Matches plan q
        → ((read_querier b w q).0 ≡ plain_read b respond w q)
          × (Good ((read_querier b w q).2.net, link_of (read_querier b w q).1)
              × Matches plan (read_querier b w q).1)
    unfolding read_querier
    read_querier-good w (iot_querier q) (good, matches) =
        let (same, good') =
          iot_read-Follows (links b) b.iot_codec b.floats Good Fits respond serves
            (iot_fits matches) (iot_at b w.net q) good in
        ((λ i. (same i).0), (good', matches))
    read_querier-good w (smart_querier q) (good, matches) =
        let (same, good') =
          smart_read-Follows (links b) b.smart_json b.names b.floats Good Fits respond serves
            (smart_fits matches) (smart_at b w q) good in
        ((λ i. (same i).0), (good', matches))

    held-good :
        (w : World W) (d : Device Querier) (s : IsServed w d) (o : Option Querier)
        → HeldGood w o
        → Good (w.net, link_of (held_or_new plan d o)) × Matches plan (held_or_new plan d o)
    held-good w d s none h = (s.fresh w.net, build_querier-Matches d.host d.creds d.timeout plan)
    held-good w d s (some q) h = h

    -- A read of a device whose transport serves its answers gives what the answers come to, under the
    -- address of the device, and leaves it served.
    pub read_device-Read :
        (w : World W) (d : Device Querier)
        → IsServed w d
        → Read d (plain_read b respond w (held_or_new plan d d.querier)) (read_device (wired b) w d)
    unfolding read_device wired
    read_device-Read w d s =
        let q = held_or_new plan d d.querier in
        let (same, good) = read_querier-good w q (held-good w d s d.querier s.held) in
        subst (λ x. Read d (plain_read b respond w q) (read_over (wired b) d x))
          (sym (session-held_or_new w d s d.querier))
          (answered-Read w d s (plain_read b respond w q) (read_querier b w q) same good)

    pub after_reads-IsServed :
        (n : ℕ) (w : World W) (d : Device Querier)
        → IsServed w d
        → IsServed (after_reads b n w d).1 (after_reads b n w d).0
    unfolding after_reads
    after_reads-IsServed zero w d s = s
    after_reads-IsServed (suc n) w d s =
        after_reads-IsServed n (read_device (wired b) w d).2 (read_device (wired b) w d).1
          (read_device-Read w d s).1
