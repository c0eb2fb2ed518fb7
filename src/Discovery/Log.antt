-- ===== src/Discovery/Log.antt =====
-- What a sweep of kasa/discover.go does with its socket.
use kasa_exporter.Base.Text.{Text}
use kasa_exporter.Base.{
  ℕ, zero, suc, ◌≡◌, refl, ap, ◌∙◌, Bool, true, false, ◌&&◌, List, [], ◌∷◌, ◌++◌,
}
use kasa_exporter.Base.Int.{ℤ}
use kasa_exporter.Iot.Querier.{IotCodec}
use kasa_exporter.Discovery.{discovery_port_smart, SmartCodec, discovery_port_iot}
use kasa_exporter.Discovery.Sweeps.{
  new_discoverer, probe, rounds, discovery_probe_smart, iot_probe, Listening, refused, other_conn,
  udp_conn, Udp, Discoverer, discover, probe_rounds, collected, swept_with, if_resolved, opened,
}

pub data Event : Type 0 where
  listened read_replies closed : Event
  wrote : (host : Text) → (port : ℕ) → (payload : Text) → (sent : Bool) → Event

module _ {W : Type 0} (net : Udp W) where
  -- The same socket, with a log of what is done with it; the world is what it answers with.
  abbrev pub logged : Udp (W × List Event)
  logged = record {
    listen = λ (w, log). let (l, w') = net.listen w in (l, (w', log ++ listened ∷ []));
    resolves = net.resolves;
    write = λ (w, log) host port payload.
        let (sent, w') = net.write w host port payload in
        (sent, (w', log ++ wrote host port payload sent ∷ []));
    receive = λ (w, log). let (gs, w') = net.receive w in (gs, (w', log ++ read_replies ∷ []));
    close_socket = λ (w, log). (net.close_socket w, log ++ closed ∷ []);
  }

-- The two datagrams of each round, with what the socket says to them.
abbrev pub probes : {W : Type 0} → Udp W → ℕ → W → (target : Text) → List Event
probes net zero w target = []
probes net (suc n) w target =
    let (iot_sent, w1) = net.write w target discovery_port_iot iot_probe in
    let (smart_sent, w2) = net.write w1 target discovery_port_smart discovery_probe_smart in
    wrote target discovery_port_iot iot_probe iot_sent
    ∷ wrote target discovery_port_smart discovery_probe_smart smart_sent
    ∷ probes net n w2 target

-- No write among the events failed.
abbrev pub all_sent : List Event → Bool
all_sent [] = true
all_sent (wrote host port payload sent ∷ events) = sent && all_sent events
all_sent (listened ∷ events) = all_sent events
all_sent (read_replies ∷ events) = all_sent events
all_sent (closed ∷ events) = all_sent events

-- The replies are read only if the probes were sent, and the socket is closed in any case.
abbrev pub ending : Bool → List Event
ending true = read_replies ∷ closed ∷ []
ending false = closed ∷ []

-- What a sweep does once it has asked for a socket, by what it met: the socket, whether the target
-- resolves, and the writes with what the socket said to them.
abbrev pub sweep_events : Listening → (resolved : Bool) → (writes : List Event) → List Event
sweep_events refused resolved writes = []
sweep_events other_conn resolved writes = closed ∷ []
sweep_events udp_conn false writes = closed ∷ []
sweep_events udp_conn true writes = writes ++ ending (all_sent writes)

append_nil : (xs : List Event) → xs ≡ xs ++ []
append_nil [] = refl
append_nil (x ∷ xs) = ap (λ l. x ∷ l) (append_nil xs)

assoc : (xs ys zs : List Event) → (xs ++ ys) ++ zs ≡ xs ++ (ys ++ zs)
assoc [] ys zs = refl
assoc (x ∷ xs) ys zs = ap (λ l. x ∷ l) (assoc xs ys zs)

-- What `x` comes to when the events are logged.
abbrev pub With : {A W : Type 0} → A × W → List Event → A × (W × List Event)
With (a, w) log = (a, (w, log))

module _ {W : Type 0} (net : Udp W) where
  rounds_log :
      (n : ℕ) (w : W) (log : List Event) (target : Text)
      → probe_rounds (logged net) n (w, log) target
        ≡ With (probe_rounds net n w target) (log ++ probes net n w target)
  unfolding probe_rounds
  rounds_log zero w log target = ap (λ l. (true, (w, l))) (append_nil log)
  rounds_log (suc n) w log target =
      let (iot_sent, w1) = net.write w target discovery_port_iot iot_probe in
      let (smart_sent, w2) = net.write w1 target discovery_port_smart discovery_probe_smart in
      let first = wrote target discovery_port_iot iot_probe iot_sent in
      let second = wrote target discovery_port_smart discovery_probe_smart smart_sent in
      ap (λ x. (iot_sent && (smart_sent && x.0), x.1))
        (rounds_log n w2 ((log ++ first ∷ []) ++ second ∷ []) target)
      ∙ ap (λ l. With (probe_rounds net (suc n) w target) l)
          (assoc (log ++ first ∷ []) (second ∷ []) (probes net n w2 target)
            ∙ assoc log (first ∷ []) (second ∷ probes net n w2 target))

  rounds_sent :
      (n : ℕ) (w : W) (target : Text)
      → (probe_rounds net n w target).0 ≡ all_sent (probes net n w target)
  unfolding probe_rounds
  rounds_sent zero w target = refl
  rounds_sent (suc n) w target =
      let (iot_sent, w1) = net.write w target discovery_port_iot iot_probe in
      let (smart_sent, w2) = net.write w1 target discovery_port_smart discovery_probe_smart in
      ap (λ b. iot_sent && (smart_sent && b)) (rounds_sent n w2 target)

module _ {W F : Type 0} (net : Udp W) (iot_codec : IotCodec F) (smart_codec : SmartCodec) where
  collected_log :
      (sent : Bool) (w : W) (log : List Event)
      → collected (logged net) iot_codec smart_codec (sent, (w, log))
        ≡ With (collected net iot_codec smart_codec (sent, w)) (log ++ ending sent)
  collected_log false w log = refl
  collected_log true w log =
      ap (λ l. With (collected net iot_codec smart_codec (true, w)) l)
        (assoc log (read_replies ∷ []) (closed ∷ []))

  probed_log :
      (d : Discoverer) (w : W) (log : List Event) (target : Text) (resolved : Bool)
      → collected
          (logged net)
          iot_codec
          smart_codec
          (if_resolved (logged net) d (w, log) target resolved)
        ≡ With
            (collected net iot_codec smart_codec (if_resolved net d w target resolved))
            (log ++ sweep_events udp_conn resolved (probes net (rounds d.packets) w target))
  probed_log d w log target false = refl
  probed_log d w log target true =
      let n = rounds d.packets in
      let (sent, w') = probe_rounds net n w target in
      ap (collected (logged net) iot_codec smart_codec) (rounds_log net n w log target)
      ∙ collected_log sent w' (log ++ probes net n w target)
      ∙ ap (λ l. With (collected net iot_codec smart_codec (sent, w')) l)
          (assoc log (probes net n w target) (ending sent)
            ∙ ap (λ b. log ++ (probes net n w target ++ ending b)) (rounds_sent net n w target))

  swept_log :
      (x : Listening × W) (log : List Event) (target : Text) (packets : ℤ)
      → swept_with
          (logged net)
          iot_codec
          smart_codec
          target
          (opened (logged net) packets (x.0, (x.1, log)))
        ≡ With (swept_with net iot_codec smart_codec target (opened net packets x)) (
            log
            ++ sweep_events x.0
                (net.resolves target discovery_port_iot && net.resolves target discovery_port_smart)
                (probes net (rounds packets) x.1 target))
  unfolding probe
  swept_log (refused, w) log target packets =
      ap
        (λ l.
          With (swept_with net iot_codec smart_codec target (opened net packets (refused, w))) l)
        (append_nil log)
  swept_log (other_conn, w) log target packets = refl
  swept_log (udp_conn, w) log target packets =
      probed_log (record { packets = packets }) w log target
        (net.resolves target discovery_port_iot && net.resolves target discovery_port_smart)

  -- A sweep asks for one socket. If it gets a UDP socket and the target resolves, it writes both probes to
  -- their ports once for each packet, in every round, also after a write has failed; it reads the
  -- replies exactly where the socket failed none of the writes; and it closes the socket that it got exactly once, after
  -- its last use, whatever happened. The log changes neither the result nor the network.
  pub discover_log :
      (w : W) (target : Text) (packets : ℤ)
      → discover (logged net) iot_codec smart_codec (w, []) target packets
        ≡ With (discover net iot_codec smart_codec w target packets) (
            listened
            ∷ sweep_events
                (net.listen w).0
                (net.resolves target discovery_port_iot && net.resolves target discovery_port_smart)
                (probes net (rounds packets) (net.listen w).1 target))
  unfolding discover new_discoverer
  discover_log w target packets = swept_log (net.listen w) (listened ∷ []) target packets
