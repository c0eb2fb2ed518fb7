-- ===== src/Iot/Querier/Ideal.antt =====
-- The reads of kasa/iot.go depend on a transport only through what the device answers.
use kasa_exporter.Base.Text.{Text}
use kasa_exporter.Base.{
  ℕ, ◌+◌, ◌≡◌, refl, ap, subst, false, Option, none, some, List, [], ◌∷◌, length,
}
use kasa_exporter.Transport.{Transport}
use kasa_exporter.Transport.Ideal.{ideal, Serves, Tracks, if-Tracks}
use kasa_exporter.Floats.{Arithmetic}
use kasa_exporter.Errors.{err, Result, ok}
use kasa_exporter.Reading.{Reading, DeviceType}
use kasa_exporter.Iot.{
  iot_reading, energy_of, either_realtime, IotChild, IotEmeter, IotSysinfo, IotResponse,
}
use kasa_exporter.Iot.Querier.{
  checked_sysinfo, is_strip, decoded, settle, count_outlet, child_energy, empty_tally, Tally,
  full_child_id, read_sysinfo, read_single, device_energy, is_lighting, switch_module, read_strip,
  asked_module, read_response, other_module, second_answer, sent, iot_read, retry_emeter,
  EmeterModule, read_sockets, fill_sockets, read_outlets, read_socket_energy, iot_query, IotCodec,
  IotRequest, IotQuerier, get_sysinfo, get_realtime, get_child_realtime,
}

-- A querier without its transport.
abbrev pub offline : {S : Type 0} → IotQuerier S → IotQuerier (Unit {0})
offline q = record {
  transport = tt;
  emeter_module = q.emeter_module;
  device_has_emeter = q.device_has_emeter;
}

-- Every request that can be written fits.
abbrev pub AllFit : {F : Type 0} → IotCodec F → (Text → Type 0) → Type 0
AllFit codec Fits =
    (request : IotRequest) (body : Text) → codec.marshal request ≡ ok body → Fits body

module _ {S F : Type 0} (net : Transport S) (codec : IotCodec F) (fl : Arithmetic F)
    (Good : S → Type 0) (Fits : Text → Type 0) (respond : Text → Result Text)
    (serves : Serves net Good Fits respond) (fits : AllFit codec Fits) where
  abbrev Answers : {A : Type 0} → A × S → A × Unit {0} → Type 0
  Answers x y = Tracks (λ s. tt) Good x y

  abbrev Follows : {A : Type 0} → A × IotQuerier S → A × IotQuerier (Unit {0}) → Type 0
  Follows x y = Tracks offline (λ q. Good q.transport) x y

  sent-Answers :
      (s : S) (r : Result Text)
      → ((body : Text) → r ≡ ok body → Fits body)
      → Good s
      → Answers (sent net codec fl s r) (sent (ideal respond) codec fl tt r)
  sent-Answers s (err e) h good = (refl, good)
  sent-Answers s (ok body) h good =
      let (answer, good') = serves s body good (h body refl) in
      ((λ i. (decoded net codec fl (answer i), tt)), good')

  iot_query-Answers :
      (s : S) (request : IotRequest)
      → Good s
      → Answers (iot_query net codec fl s request) (iot_query (ideal respond) codec fl tt request)
  unfolding iot_query
  iot_query-Answers s request good = sent-Answers s (codec.marshal request) (fits request) good

  read_socket_energy-Answers :
      (s : S) (sysinfo : IotSysinfo F) (child : IotChild F)
      → Good s
      → Answers
          (read_socket_energy net codec fl s sysinfo child)
          (read_socket_energy (ideal respond) codec fl tt sysinfo child)
  unfolding read_socket_energy
  read_socket_energy-Answers s sysinfo child good =
      let (same, good') =
        iot_query-Answers s (get_child_realtime (full_child_id sysinfo child)) good in
      ((λ i. (child_energy net codec fl (same i).0, tt)), good')

  read_outlets-Answers :
      (i : ℕ) (s : S) (sysinfo : IotSysinfo F) (children : List (IotChild F)) (t : Tally F)
      → Good s
      → Answers
          (read_outlets net codec fl i s sysinfo children t)
          (read_outlets (ideal respond) codec fl i tt sysinfo children t)
  unfolding read_outlets
  read_outlets-Answers i s sysinfo [] t good = (refl, good)
  read_outlets-Answers i s sysinfo (child ∷ children) t good =
      let (r, s') = read_socket_energy net codec fl s sysinfo child in
      let (same, good') = read_socket_energy-Answers s sysinfo child good in
      subst
        (λ r'.
          Answers
            (read_outlets net codec fl (i + 1) s' sysinfo children (count_outlet fl i child r t))
            (read_outlets (ideal respond) codec fl (i + 1) tt sysinfo children
              (count_outlet fl i child r' t)))
        (ap (λ x. x.0) same)
        (read_outlets-Answers (i + 1) s' sysinfo children (count_outlet fl i child r t) good')

  fill_sockets-Answers :
      (s : S) (sysinfo : IotSysinfo F) (reading : Reading F) (children : List (IotChild F))
      → Good s
      → Answers
          (fill_sockets net codec fl s sysinfo reading children)
          (fill_sockets (ideal respond) codec fl tt sysinfo reading children)
  unfolding fill_sockets
  fill_sockets-Answers s sysinfo reading [] good = (refl, good)
  fill_sockets-Answers s sysinfo reading (child ∷ children) good =
      let (same, good') = read_outlets-Answers 1 s sysinfo (child ∷ children) empty_tally good in
      ((λ i. (settle (length (child ∷ children)) reading (same i).0, tt)), good')

  read_strip-Follows :
      (q : IotQuerier S) (sysinfo : IotSysinfo F) (reading : Reading F)
      → Good q.transport
      → Follows
          (read_strip net codec fl q sysinfo reading)
          (read_strip (ideal respond) codec fl (offline q) sysinfo reading)
  unfolding read_sockets
  read_strip-Follows q sysinfo reading good =
      let (same, good') = fill_sockets-Answers q.transport sysinfo reading sysinfo.children good in
      ((λ i. ((same i).0, record (offline q) { device_has_emeter = false })), good')

  switch_module-Follows :
      (q : IotQuerier S) (other : EmeterModule) (energy : Option (IotEmeter F))
      → Good q.transport
      → Follows
          (switch_module net codec fl q other energy)
          (switch_module (ideal respond) codec fl (offline q) other energy)
  switch_module-Follows q other none good = (refl, good)
  switch_module-Follows q other (some energy) good = (refl, good)

  second_answer-Follows :
      (q : IotQuerier S) (other : EmeterModule) (r : Result (IotResponse F))
      → Good q.transport
      → Follows
          (second_answer net codec fl q other r)
          (second_answer (ideal respond) codec fl (offline q) other r)
  second_answer-Follows q other (err e) good = (refl, good)
  second_answer-Follows q other (ok response) good =
      switch_module-Follows q other (either_realtime response) good

  retry_emeter-Follows :
      (q : IotQuerier S) (device_type : DeviceType)
      → Good q.transport
      → Follows
          (retry_emeter net codec fl q device_type)
          (retry_emeter (ideal respond) codec fl (offline q) device_type)
  unfolding retry_emeter
  retry_emeter-Follows q device_type good =
      let other = other_module q.emeter_module in
      let (r, s) = iot_query net codec fl q.transport (get_realtime other) in
      let (same, good') = iot_query-Answers q.transport (get_realtime other) good in
      if-Tracks offline (λ q'. Good q'.transport) (is_lighting device_type)
        (subst
          (λ x.
            Follows (second_answer net codec fl (record q { transport = s }) other r)
              (second_answer (ideal respond) codec fl (offline q) other x.0))
          same (second_answer-Follows (record q { transport = s }) other r good'))
        (refl, good)

  device_energy-Follows :
      (q : IotQuerier S) (device_type : DeviceType) (energy : Option (IotEmeter F))
      → Good q.transport
      → Follows
          (device_energy net codec fl q device_type energy)
          (device_energy (ideal respond) codec fl (offline q) device_type energy)
  device_energy-Follows q device_type (some energy) good = (refl, good)
  device_energy-Follows q device_type none good =
      if-Tracks offline (λ q'. Good q'.transport) q.device_has_emeter
        (retry_emeter-Follows q device_type good) (refl, good)

  read_single-Follows :
      (q : IotQuerier S) (response : IotResponse F) (reading : Reading F)
      → Good q.transport
      → Follows
          (read_single net codec fl q response reading)
          (read_single (ideal respond) codec fl (offline q) response reading)
  read_single-Follows q response reading good =
      let (same, good') =
        device_energy-Follows q reading.device_type (either_realtime response) good in
      ((λ i. (ok (record reading { energy = energy_of fl (same i).0 }), (same i).1)), good')

  read_sysinfo-Follows :
      (q : IotQuerier S) (response : IotResponse F) (sysinfo : Result (IotSysinfo F))
      → Good q.transport
      → Follows
          (read_sysinfo net codec fl q response sysinfo)
          (read_sysinfo (ideal respond) codec fl (offline q) response sysinfo)
  read_sysinfo-Follows q response (err e) good = (refl, good)
  read_sysinfo-Follows q response (ok sysinfo) good =
      if-Tracks offline (λ q'. Good q'.transport) (is_strip (iot_reading sysinfo).device_type)
        (read_strip-Follows q sysinfo (iot_reading sysinfo) good)
        (read_single-Follows q response (iot_reading sysinfo) good)

  read_response-Follows :
      (q : IotQuerier S) (r : Result (IotResponse F))
      → Good q.transport
      → Follows
          (read_response net codec fl q r)
          (read_response (ideal respond) codec fl (offline q) r)
  read_response-Follows q (err e) good = (refl, good)
  read_response-Follows q (ok response) good =
      read_sysinfo-Follows q response (checked_sysinfo net codec fl response) good

  -- Over a transport that serves the device's answers, a read gives what it gives over the answers
  -- themselves, remembers the same, and leaves the transport in a good state, whichever kind of
  -- device it is and whatever it answers.
  pub iot_read-Follows :
      (q : IotQuerier S)
      → Good q.transport
      → Follows (iot_read net codec fl q) (iot_read (ideal respond) codec fl (offline q))
  unfolding iot_read
  iot_read-Follows q good =
      let request = get_sysinfo (asked_module net codec fl q) in
      let (r, s) = iot_query net codec fl q.transport request in
      let (same, good') = iot_query-Answers q.transport request good in
      subst
        (λ x.
          Follows (read_response net codec fl (record q { transport = s }) r)
            (read_response (ideal respond) codec fl (offline q) x.0))
        same (read_response-Follows (record q { transport = s }) r good')
