-- ===== src/Discovery/Sweeps.antt =====
-- A sweep of kasa/discover.go: the probes, and what is collected of the replies.
use kasa_exporter.Xor.{xor_encrypt}
use kasa_exporter.Base.Int.{ℤ, pos, negsuc}
use kasa_exporter.Base.Text.{codes}
use kasa_exporter.Base.{
  ℕ, zero, suc, Bool, true, false, not, ◌&&◌, Option, none, some, List, [], ◌∷◌, map, if◌then◌else◌,
}
use kasa_exporter.Base.Text.{Text, ◌==ₜ◌}
use kasa_exporter.Base.Dict.{Dict, lookup, insert}
use kasa_exporter.Errors.{Result, ok, err, socket_failed, probe_failed, no_answer}
use kasa_exporter.Iot.Querier.{IotCodec}
use kasa_exporter.Discovery.{
  discovery_port_iot, discovery_port_smart, encrypt_xor, DiscoveryResult, SmartCodec, Datagram,
  parse_discovery_reply,
}

-- The map of `collect`, by address.
abbrev pub Found : Type 0
Found = Dict DiscoveryResult

-- `existing.EncryptType != encryptXOR && result.EncryptType == encryptXOR`
abbrev pub keeps_existing : Option DiscoveryResult → DiscoveryResult → Bool
keeps_existing none result = false
keeps_existing (some existing) result =
    not (existing.encrypt_type ==ₜ encrypt_xor) && result.encrypt_type ==ₜ encrypt_xor

-- One round of `collect` with a reply that was recognised.
unfoldable pub merge : Text → DiscoveryResult → Found → Found
merge host result found =
    if keeps_existing (lookup host found) result then found else insert host result found

abbrev pub merge_reply : Text → Option DiscoveryResult → Found → Found
merge_reply host none found = found
merge_reply host (some result) found = merge host result found

module _ {F : Type 0} (iot_codec : IotCodec F) (smart_codec : SmartCodec) where
  -- The loop of `collect`, over the datagrams that arrive before the deadline.
  unfoldable pub collect_from : Found → List Datagram → Found
  collect_from found [] = found
  collect_from found (g ∷ gs) =
      collect_from (merge_reply g.host (parse_discovery_reply iot_codec smart_codec g) found) gs

-- The probe of the legacy port, and the packet that the SMART range answers to.
abbrev pub iot_probe : Text
iot_probe = xor_encrypt (codes "{\"system\":{\"get_sysinfo\":{}}}")

abbrev pub discovery_probe_smart : Text
discovery_probe_smart =
    2 ∷ 0 ∷ 0 ∷ 1 ∷ 0 ∷ 0 ∷ 0 ∷ 0 ∷ 0 ∷ 0 ∷ 0 ∷ 0 ∷ 0x46 ∷ 0x3c ∷ 0xb5 ∷ 0xd3 ∷ []

-- What net.ListenConfig gives: an error, a connection of another kind, or a UDP socket.
pub data Listening : Type 0 where
  refused other_conn udp_conn : Listening

-- The socket: `receive` gives the datagrams that arrive before the deadline, or before an error.
pub record Udp (W : Type 0) : Type 0 where
  pub listen : W → Listening × W
  pub resolves : (host : Text) → (port : ℕ) → Bool
  pub write : W → (host : Text) → (port : ℕ) → (payload : Text) → Bool × W
  pub receive : W → List Datagram × W
  pub close_socket : W → W

-- `discoverer`, but for its socket.
pub record Discoverer : Type 0 where
  pub packets : ℤ

-- for i := 0; i < packets; i++
abbrev pub rounds : ℤ → ℕ
rounds (pos n) = n
rounds (negsuc n) = 0

module _ {W : Type 0} (net : Udp W) where
  abbrev pub opened : (packets : ℤ) → Listening × W → Result Discoverer × W
  opened packets (refused, w) = (err socket_failed, w)
  opened packets (other_conn, w) = (err socket_failed, net.close_socket w)
  opened packets (udp_conn, w) = (ok (record { packets = packets }), w)

  -- `newDiscoverer`
  unfoldable pub new_discoverer : W → (packets : ℤ) → Result Discoverer × W
  new_discoverer w packets = opened packets (net.listen w)

  -- The loop of `probe`: any failed write is reported, and none stops the loop.
  unfoldable pub probe_rounds : ℕ → W → (target : Text) → Bool × W
  probe_rounds zero w target = (true, w)
  probe_rounds (suc n) w target =
      let (iot_sent, w1) = net.write w target discovery_port_iot iot_probe in
      let (smart_sent, w2) = net.write w1 target discovery_port_smart discovery_probe_smart in
      let (others_sent, w3) = probe_rounds n w2 target in
      (iot_sent && (smart_sent && others_sent), w3)

  abbrev pub if_resolved : Discoverer → W → (target : Text) → Bool → Bool × W
  if_resolved d w target false = (false, w)
  if_resolved d w target true = probe_rounds (rounds d.packets) w target

  -- `probe`: whether it succeeded.
  unfoldable pub probe : Discoverer → W → (target : Text) → Bool × W
  unfolding probe_rounds
  probe d w target =
      if_resolved d w target
        (net.resolves target discovery_port_iot && net.resolves target discovery_port_smart)

module _ {W F : Type 0} (net : Udp W) (iot_codec : IotCodec F) (smart_codec : SmartCodec) where
  -- What follows the probes; the socket is closed in any case.
  abbrev pub collected : Bool × W → Result (List DiscoveryResult) × W
  collected (false, w) = (err probe_failed, net.close_socket w)
  collected (true, w) =
      let (datagrams, w') = net.receive w in
      (ok (map (λ e. e.1) (collect_from iot_codec smart_codec [] datagrams)), net.close_socket w')

  abbrev pub swept_with :
      (target : Text) → Result Discoverer × W → Result (List DiscoveryResult) × W
  swept_with target (err e, w) = (err e, w)
  swept_with target (ok d, w) = collected (probe net d w target)

  -- `discover`
  unfoldable pub discover : W → (target : Text) → (packets : ℤ) → Result (List DiscoveryResult) × W
  unfolding new_discoverer probe
  discover w target packets = swept_with target (new_discoverer net w packets)

  abbrev pub first_answer : Text → Result (List DiscoveryResult) → Result DiscoveryResult
  first_answer host (err e) = err e
  first_answer host (ok []) = err no_answer
  first_answer host (ok (d ∷ ds)) = ok (record d { host = host })

  -- `discoverHost`
  unfoldable pub discover_host : W → (host : Text) → Result DiscoveryResult × W
  unfolding discover
  discover_host w host = let (r, w') = discover w host (pos 1) in (first_answer host r, w')
