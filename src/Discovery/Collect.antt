-- ===== src/Discovery/Collect.antt =====
-- `collect` of kasa/discover.go: what a sweep records for each address.
use kasa_exporter.Base.{
  ◌≡◌, ◌≢◌, ◌⊎◌, inl, inr, false, Option, none, some, List, [], ◌∷◌, arith, if◌then◌else◌,
  Bool-cases, Option-cases,
}
use kasa_exporter.Base.Text.{Text, ◌==ₜ◌, ==ₜ_iff, ==ₜ_refl}
use kasa_exporter.Iot.Querier.{IotCodec}
use kasa_exporter.Base.Dict.{lookup, lookup-insert}
use kasa_exporter.Discovery.{
  DiscoveryResult, SmartCodec, Datagram, parse_discovery_reply, encrypt_xor,
}
use kasa_exporter.Discovery.Sweeps.{merge_reply, Found, keeps_existing, merge, collect_from}

-- What may be recorded for one address after a reply: `old` before it, `new` the reply.
abbrev pub preferred : Option DiscoveryResult → DiscoveryResult → DiscoveryResult
preferred none new = new
preferred (some old) new = if keeps_existing (some old) new then old else new

pub lookup-merge :
    (h k : Text) (d : DiscoveryResult) (m : Found)
    → lookup k (merge h d m) ≡ (if h ==ₜ k then some (preferred (lookup h m) d) else lookup k m)
unfolding merge
lookup-merge h k d m = ground (arith, lookup-insert h k d m, ==ₜ_iff h k)

abbrev pub NamesTransport : Option DiscoveryResult → Type 0
NamesTransport none = ⊥
NamesTransport (some d) = d.encrypt_type ≢ encrypt_xor

-- A reply that names its transport is not replaced by one that does not.
NamesTransport-preferred :
    (old : Option DiscoveryResult) (new : DiscoveryResult)
    → NamesTransport old
    → NamesTransport (some (preferred old new))
NamesTransport-preferred (some old) new t = elim (Bool-cases (keeps_existing (some old) new)) [
  | inl kept ↦ rw kept t
  | inr replaced ↦ rw replaced (λ e.
      ground (arith, t, ==ₜ_iff old.encrypt_type encrypt_xor, ==ₜ_iff new.encrypt_type encrypt_xor))
]
NamesTransport-preferred none new t = absurd t

NamesTransport-merge :
    (h k : Text) (d : DiscoveryResult) (m : Found)
    → NamesTransport (lookup k m)
    → NamesTransport (lookup k (merge h d m))
NamesTransport-merge h k d m t = elim (Bool-cases (h ==ₜ k)) [
  | inl same ↦
      let e : h ≡ k = (==ₜ_iff h k).0 same in
      rw (lookup-merge h k d m, same, e) (NamesTransport-preferred (lookup k m) d t)
  | inr other ↦ rw (lookup-merge h k d m, other) t
]

NamesTransport-new :
    (old : Option DiscoveryResult) (new : DiscoveryResult)
    → new.encrypt_type ≢ encrypt_xor
    → NamesTransport (some (preferred old new))
NamesTransport-new none new t = t
NamesTransport-new (some old) new t =
    let fresh : (new.encrypt_type ==ₜ encrypt_xor) ≡ false =
      ground (arith, ==ₜ_iff new.encrypt_type encrypt_xor, t) in
    elim (Bool-cases (old.encrypt_type ==ₜ encrypt_xor)) [
      | inl x ↦ rw x t
      | inr x ↦ rw (x, fresh) t
    ]

NamesTransport-merge_self :
    (h : Text) (d : DiscoveryResult) (m : Found)
    → d.encrypt_type ≢ encrypt_xor
    → NamesTransport (lookup h (merge h d m))
NamesTransport-merge_self h d m t =
    rw (lookup-merge h h d m, ==ₜ_refl h) (NamesTransport-new (lookup h m) d t)

module _ {F : Type 0} (iot_codec : IotCodec F) (smart_codec : SmartCodec) where
  -- Some datagram from `h` is a reply that names its transport.
  abbrev pub HeardFrom : Text → List Datagram → Type 0
  HeardFrom h [] = ⊥
  HeardFrom h (g ∷ gs) =
      ((g.host ≡ h) × NamesTransport (parse_discovery_reply iot_codec smart_codec g))
      ⊎ HeardFrom h gs

  collect_keeps :
      (h : Text) (found : Found) (gs : List Datagram)
      → NamesTransport (lookup h found)
      → NamesTransport (lookup h (collect_from iot_codec smart_codec found gs))
  unfolding collect_from
  collect_keeps h found [] t = t
  collect_keeps h found (g ∷ gs) t =
      elim (Option-cases (parse_discovery_reply iot_codec smart_codec g)) [
        | inl none_here ↦ rw none_here (collect_keeps h found gs t)
        | inr (d, here) ↦
            rw here
              (collect_keeps h (merge g.host d found) gs (NamesTransport-merge g.host h d found t))
      ]

  -- In whatever order the datagrams come, an address that sent a reply naming its transport is
  -- recorded with a transport that was named, not as a device of the legacy protocol.
  pub collect_prefers_named :
      (h : Text) (found : Found) (gs : List Datagram)
      → HeardFrom h gs
      → NamesTransport (lookup h (collect_from iot_codec smart_codec found gs))
  unfolding collect_from
  collect_prefers_named h found [] heard = absurd heard
  collect_prefers_named h found (g ∷ gs) (inr later) =
      collect_prefers_named h
        (merge_reply g.host (parse_discovery_reply iot_codec smart_codec g) found) gs later
  collect_prefers_named h found (g ∷ gs) (inl (from, named)) =
      elim (Option-cases (parse_discovery_reply iot_codec smart_codec g)) [
        | inl none_here ↦ absurd (rw none_here at named)
        | inr (d, here) ↦
            rw (here, from)
              (collect_keeps h (merge h d found) gs
                (NamesTransport-merge_self h d found (rw here at named)))
      ]
