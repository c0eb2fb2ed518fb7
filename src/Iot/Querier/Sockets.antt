-- ===== src/Iot/Querier/Sockets.antt =====
-- `readSockets` of kasa/iot.go: the outlets of a strip, and the totals derived from them.
use mathlib.Core.List.{append-nil, append_assoc}
use kasa_exporter.Base.{
  ℕ, suc, ◌+◌, ◌≡◌, refl, sym, ap, ◌∙◌, ◌≢◌, ◌↔◌, Option, none, some, List, [], ◌∷◌, ◌++◌, arith,
  length, length-map, All,
}
use kasa_exporter.Base.Decimal.{itoa}
use kasa_exporter.Floats.{Arithmetic}
use kasa_exporter.Errors.{Result, ok, err, no_outlet}
use kasa_exporter.Reading.{Energy, Reading}
use kasa_exporter.Transport.{Transport}
use kasa_exporter.Iot.{IotChild, IotSysinfo}
use kasa_exporter.Iot.Querier.{
  IotCodec, Tally, read_socket_energy, count_outlet, read_outlets, fill_sockets, empty_tally,
  settle, strip_energy, read_sockets,
}
use kasa_exporter.Iot.Querier.Totals.{
  summary, summary_complete, numbered, length-numbered, labels, Agrees, count_outlet-Agrees,
  labels-count_outlet, IsFailed, count_failed, All-IsFailed_iff, failures-count_outlet, settled,
  strip_energy-summary,
}

module _ {S F : Type 0} (net : Transport S) (codec : IotCodec F) (fl : Arithmetic F) where
  read_outlets-Agrees :
      (i : ℕ) (s : S) (sysinfo : IotSysinfo F) (children : List (IotChild F)) (t : Tally F)
      → Agrees fl t
      → Agrees fl (read_outlets net codec fl i s sysinfo children t).0
  unfolding read_outlets
  read_outlets-Agrees i s sysinfo [] t a = a
  read_outlets-Agrees i s sysinfo (child ∷ children) t a =
      let (r, s') = read_socket_energy net codec fl s sysinfo child in
      read_outlets-Agrees (i + 1) s' sysinfo children (count_outlet fl i child r t)
        (count_outlet-Agrees fl i child r t a)

  read_outlets-labels :
      (i : ℕ) (s : S) (sysinfo : IotSysinfo F) (children : List (IotChild F)) (t : Tally F)
      → labels (read_outlets net codec fl i s sysinfo children t).0.sockets
        ≡ labels t.sockets ++ numbered i children
  unfolding read_outlets
  read_outlets-labels i s sysinfo [] t = sym (append-nil (labels t.sockets))
  read_outlets-labels i s sysinfo (child ∷ children) t =
      let (r, s') = read_socket_energy net codec fl s sysinfo child in
      read_outlets-labels (i + 1) s' sysinfo children (count_outlet fl i child r t)
      ∙ rw (labels-count_outlet fl i child r t)
          (append_assoc (labels t.sockets) ((itoa i, child.alias) ∷ []) (numbered (i + 1) children))

  -- What the requests for the outlets came to, one after the other.
  abbrev pub outcomes : S → IotSysinfo F → List (IotChild F) → List (Result (Option (Energy F)))
  outcomes s sysinfo [] = []
  outcomes s sysinfo (child ∷ children) =
      let (r, s') = read_socket_energy net codec fl s sysinfo child in
      r ∷ outcomes s' sysinfo children

  length-outcomes :
      (s : S) (sysinfo : IotSysinfo F) (children : List (IotChild F))
      → length (outcomes s sysinfo children) ≡ length children
  length-outcomes s sysinfo [] = refl
  length-outcomes s sysinfo (child ∷ children) =
      ap suc (length-outcomes (read_socket_energy net codec fl s sysinfo child).1 sysinfo children)

  read_outlets-failures :
      (i : ℕ) (s : S) (sysinfo : IotSysinfo F) (children : List (IotChild F)) (t : Tally F)
      → (read_outlets net codec fl i s sysinfo children t).0.failures
        ≡ t.failures + count_failed (outcomes s sysinfo children)
  unfolding read_outlets count_failed
  read_outlets-failures i s sysinfo [] t = omega arith
  read_outlets-failures i s sysinfo (child ∷ children) t =
      let (r, s') = read_socket_energy net codec fl s sysinfo child in
      read_outlets-failures (i + 1) s' sysinfo children (count_outlet fl i child r t)
      ∙ failures-count_outlet fl i child r (outcomes s' sysinfo children) t

  module _ (s : S) (sysinfo : IotSysinfo F) (reading : Reading F) {child : IotChild F}
      {rest : List (IotChild F)} (has : sysinfo.children ≡ child ∷ rest) where
    -- The counts and the outlets at the end of the loop.
    tally : Tally F
    tally = (read_outlets net codec fl 1 s sysinfo (child ∷ rest) empty_tally).0

    read_sockets_lem :
        (read_sockets net codec fl s sysinfo reading).0
        ≡ settle (length (child ∷ rest)) reading tally
    unfolding read_sockets tally
    read_sockets_lem = ap (λ cs. (fill_sockets net codec fl s sysinfo reading cs).0) has

    tally_failures : tally.failures ≡ count_failed (outcomes s sysinfo (child ∷ rest))
    unfolding tally
    tally_failures = read_outlets-failures 1 s sysinfo (child ∷ rest) empty_tally ∙ omega arith

    settle_fails_iff :
        (settle (length (child ∷ rest)) reading tally ≡ err no_outlet)
        ↔ (tally.failures ≡ length (child ∷ rest))
    settle_fails_iff = (λ h. ground arith, λ h. ground arith)

    -- Of a strip with outlets the reading fails exactly if the request for every one of them failed.
    pub strip_fails_iff :
        ((read_sockets net codec fl s sysinfo reading).0 ≡ err no_outlet)
        ↔ All IsFailed (outcomes s sysinfo (child ∷ rest))
    strip_fails_iff =
        let all = All-IsFailed_iff (outcomes s sysinfo (child ∷ rest)) in
        let len = length-outcomes s sysinfo (child ∷ rest) in
        (
          λ h. all.0 (sym tally_failures ∙ settle_fails_iff.0 (sym read_sockets_lem ∙ h) ∙ sym len),
          λ h. read_sockets_lem ∙ settle_fails_iff.1 (tally_failures ∙ all.1 h ∙ len),
        )

    tally-Agrees : Agrees fl tally
    unfolding tally
    tally-Agrees =
        read_outlets-Agrees 1 s sysinfo (child ∷ rest) empty_tally
          (record { total = refl; measured = refl })

    labels-tally : labels tally.sockets ≡ numbered 1 (child ∷ rest)
    unfolding tally
    labels-tally = read_outlets-labels 1 s sysinfo (child ∷ rest) empty_tally

    length-tally : length tally.sockets ≡ length (child ∷ rest)
    length-tally =
        sym (length-map tally.sockets (λ k. (k.id, k.alias)))
        ∙ ap length labels-tally
        ∙ length-numbered 1 (child ∷ rest)

    settle_ok :
        {out : Reading F}
        → reading.sockets ≡ []
        → reading.energy ≡ none
        → settle (length (child ∷ rest)) reading tally ≡ ok out
        → (out.sockets ≡ tally.sockets) × (out.energy ≡ summary fl tally.sockets)
    settle_ok {out} no_sockets no_energy_yet h =
        let (sockets, energy) = settled (length (child ∷ rest)) reading tally h in
        (
          sockets ∙ ap (λ ks. ks ++ tally.sockets) no_sockets,
          energy
              ∙ ap (λ e. strip_energy (length (child ∷ rest)) tally e) no_energy_yet
              ∙ strip_energy-summary fl tally (length (child ∷ rest)) tally-Agrees length-tally,
        )

    -- A strip that is read has one socket for each outlet, numbered from 1 in their order and under
    -- the outlet's name. Its own energy is read off the sockets: nothing where none has a reading; else
    -- power, current and counter are the sums of those that the readings have, the voltage is that of
    -- the first reading that has one, and the counter is left out unless every socket has a reading,
    -- though not where a socket's reading has none.
    pub strip_read :
        {out : Reading F}
        → reading.sockets ≡ []
        → reading.energy ≡ none
        → (read_sockets net codec fl s sysinfo reading).0 ≡ ok out
        → (labels out.sockets ≡ numbered 1 (child ∷ rest)) × (out.energy ≡ summary fl out.sockets)
    strip_read no_sockets no_energy_yet h =
        let (same, energy) = settle_ok no_sockets no_energy_yet (sym read_sockets_lem ∙ h) in
        (ap labels same ∙ labels-tally, energy ∙ ap (λ ks. summary fl ks) (sym same))

    -- A strip's cumulative counter is reported only if every one of its sockets has a reading.
    pub counter_complete :
        {out : Reading F} {e : Energy F}
        → reading.sockets ≡ []
        → reading.energy ≡ none
        → (read_sockets net codec fl s sysinfo reading).0 ≡ ok out
        → out.energy ≡ some e
        → e.total_kwh ≢ none
        → All (λ k. k.energy ≢ none) out.sockets
    counter_complete {out} no_sockets no_energy_yet h has_energy counted =
        summary_complete fl out.sockets (sym (strip_read no_sockets no_energy_yet h).1 ∙ has_energy)
          counted
