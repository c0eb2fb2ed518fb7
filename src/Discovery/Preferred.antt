-- ===== src/Discovery/Preferred.antt =====
-- `collect` of kasa/discover.go against a description of the reply that it keeps for an address.
use kasa_exporter.Base.{
  or_else-none, ap, ◌∙◌, refl, arith, inl, inr, Bool-cases, or_else, ◌≡◌, refl, ap, ◌∙◌, inl, inr,
  Bool, false, not, Option, none, some, List, [], ◌∷◌, arith, if◌then◌else◌, Bool-cases,
}
use kasa_exporter.Base.Text.{==ₜ_iff, Text, ◌==ₜ◌, ==ₜ_iff}
use kasa_exporter.Base.Dict.{lookup}
use kasa_exporter.Iot.Querier.{IotCodec}
use kasa_exporter.Discovery.{
  DiscoveryResult, SmartCodec, Datagram, parse_discovery_reply, encrypt_xor,
}
use kasa_exporter.Discovery.Sweeps.{Found, merge_reply, collect_from}
use kasa_exporter.Discovery.Collect.{preferred, lookup-merge}

-- A reply that names a transport other than that of the legacy protocol.
abbrev pub is_named : DiscoveryResult → Bool
is_named d = not (d.encrypt_type ==ₜ encrypt_xor)

abbrev pub last_named : List DiscoveryResult → Option DiscoveryResult
last_named [] = none
last_named (d ∷ ds) = or_else (last_named ds) (if is_named d then some d else none)

abbrev pub last : List DiscoveryResult → Option DiscoveryResult
last [] = none
last (d ∷ ds) = or_else (last ds) (some d)

-- The replies to one address, taken in one by one.
abbrev kept : Option DiscoveryResult → List DiscoveryResult → Option DiscoveryResult
kept old [] = old
kept old (d ∷ ds) = kept (some (preferred old d)) ds

abbrev names_one : Option DiscoveryResult → Bool
names_one none = false
names_one (some d) = is_named d

kept_lem :
    (old : Option DiscoveryResult) (ds : List DiscoveryResult)
    → kept old ds ≡ or_else (last_named ds) (if names_one old then old else or_else (last ds) old)
kept_lem none [] = refl
kept_lem (some o) [] = ground arith
kept_lem none (d ∷ ds) = let later = kept_lem (some d) ds in ground arith
kept_lem (some o) (d ∷ ds) = let later = kept_lem (some (preferred (some o) d)) ds in ground arith

abbrev with_reply : Bool → Option DiscoveryResult → List DiscoveryResult → List DiscoveryResult
with_reply own none ds = ds
with_reply own (some d) ds = if own then d ∷ ds else ds

taken :
    (h host : Text) (reply : Option DiscoveryResult) (found : Found) (ds : List DiscoveryResult)
    → kept (lookup h (merge_reply host reply found)) ds
      ≡ kept (lookup h found) (with_reply (host ==ₜ h) reply ds)
taken h host none found ds = refl
taken h host (some d) found ds =
    let merged = lookup-merge host h d found in
    elim (Bool-cases (host ==ₜ h)) [
      | inl same ↦
          let equal = ap (λ k. some (preferred (lookup k found) d)) ((==ₜ_iff host h).0 same) in
          rw (same, merged, same) (ap (λ old. kept old ds) equal)
      | inr other ↦ rw (other, merged, other) refl
    ]

module _ {F : Type 0} (iot_codec : IotCodec F) (smart_codec : SmartCodec) where
  -- The replies of one address among the datagrams, those that are recognised.
  abbrev pub replies_of : Text → List Datagram → List DiscoveryResult
  replies_of h [] = []
  replies_of h (g ∷ gs) =
      with_reply (g.host ==ₜ h) (parse_discovery_reply iot_codec smart_codec g) (replies_of h gs)

  collect_from-kept :
      (h : Text) (found : Found) (gs : List Datagram)
      → lookup h (collect_from iot_codec smart_codec found gs)
        ≡ kept (lookup h found) (replies_of h gs)
  unfolding collect_from
  collect_from-kept h found [] = refl
  collect_from-kept h found (g ∷ gs) =
      let reply = parse_discovery_reply iot_codec smart_codec g in
      collect_from-kept h (merge_reply g.host reply found) gs
      ∙ taken h g.host reply found (replies_of h gs)

  -- Of the replies that come from an address in a sweep, whatever comes between them, the one that is kept
  -- is the last that names its transport, and where none does the last of all: a later reply wins, unless
  -- it knows less.
  pub collect_from-lookup :
      (h : Text) (gs : List Datagram)
      → lookup h (collect_from iot_codec smart_codec [] gs)
        ≡ or_else (last_named (replies_of h gs)) (last (replies_of h gs))
  unfolding lookup
  collect_from-lookup h gs =
      let ds = replies_of h gs in
      collect_from-kept h [] gs
      ∙ kept_lem none ds
      ∙ ap (or_else (last_named ds)) (or_else-none (last ds))
