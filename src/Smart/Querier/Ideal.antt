-- ===== src/Smart/Querier/Ideal.antt =====
-- The reads of kasa/smart.go depend on a transport only through what the device answers.
use kasa_exporter.Base.Text.{Text}
use kasa_exporter.Base.{ℕ, ◌≡◌, refl, subst, Option, none, some, List}
use kasa_exporter.Errors.{Result, ok, err}
use kasa_exporter.Transport.{Transport}
use kasa_exporter.Transport.Ideal.{ideal, Serves, Tracks}
use kasa_exporter.Smart.{Names}
use kasa_exporter.Floats.{Arithmetic}
use kasa_exporter.Base.Dict.{lookup, Dict}
use kasa_exporter.Reading.{Reading}
use kasa_exporter.Smart.Querier.{
  info_of, read_info, narrowed_if_ok, read_results, received, methods_of, get_device_info,
  results_of, next_id, exchanged, smart_read, read_energy, narrowed, raw_info, smart_batch,
  smart_query, SmartJson, SmartRequest, SmartQuerier, single, multiple,
}

-- A querier without its transport.
abbrev pub offline : {S : Type 0} → SmartQuerier S → SmartQuerier (Unit {0})
offline q = record {
  transport = tt;
  request_id = q.request_id;
  wants_energy = q.wants_energy;
  wants_power = q.wants_power;
  wants_children = q.wants_children;
}

-- Every request that can be written fits.
abbrev pub AllFit : {F : Type 0} → SmartJson F → (Text → Type 0) → Type 0
AllFit json Fits =
    (request : SmartRequest) (body : Text) → json.marshal request ≡ ok body → Fits body

module _ {S F : Type 0} (net : Transport S) (json : SmartJson F) (names : Names) (fl : Arithmetic F)
    (Good : S → Type 0) (Fits : Text → Type 0) (respond : Text → Result Text)
    (serves : Serves net Good Fits respond) (fits : AllFit json Fits) where
  abbrev Follows : {A : Type 0} → A × SmartQuerier S → A × SmartQuerier (Unit {0}) → Type 0
  Follows x y = Tracks offline (λ q. Good q.transport) x y

  exchanged-Follows :
      (q : SmartQuerier S) (r : Result Text)
      → ((body : Text) → r ≡ ok body → Fits body)
      → Good q.transport
      → Follows (exchanged net json q r) (exchanged (ideal respond) json (offline q) r)
  exchanged-Follows q (err e) h good = (refl, good)
  exchanged-Follows q (ok body) h good =
      let (answer, good') = serves q.transport body good (h body refl) in
      ((λ i. (received net json (answer i), offline q)), good')

  smart_query-Follows :
      (q : SmartQuerier S) (request : ℕ → SmartRequest)
      → Good q.transport
      → Follows
          (smart_query net json q request)
          (smart_query (ideal respond) json (offline q) request)
  unfolding smart_query
  smart_query-Follows q request good =
      exchanged-Follows (record q { request_id = next_id q }) (json.marshal (request (next_id q)))
        (fits (request (next_id q))) good

  smart_batch-Follows :
      (q : SmartQuerier S) (methods : List Text)
      → Good q.transport
      → Follows
          (smart_batch net json q methods)
          (smart_batch (ideal respond) json (offline q) methods)
  unfolding smart_batch
  smart_batch-Follows q methods good =
      let (same, good') = smart_query-Follows q (λ id. multiple id methods) good in
      ((λ i. (results_of net json (same i).0, (same i).1)), good')

  raw_info-Follows :
      (q : SmartQuerier S) (own : Option Text)
      → Good q.transport
      → Follows
          (raw_info net json names fl q own)
          (raw_info (ideal respond) json names fl (offline q) own)
  raw_info-Follows q (some raw) good = (refl, good)
  raw_info-Follows q none good = smart_query-Follows q (λ id. single id get_device_info) good

  narrowed-Follows :
      (results : Dict Text) (r : Result (Reading F)) (q : SmartQuerier S)
      → Good q.transport
      → Follows
          (narrowed_if_ok net json names fl results (r, q))
          (narrowed_if_ok (ideal respond) json names fl results (r, offline q))
  unfolding narrowed
  narrowed-Follows results (err e) q good = (refl, good)
  narrowed-Follows results (ok reading) q good = (refl, good)

  read_results-Follows :
      (r : Result (Dict Text)) (q : SmartQuerier S)
      → Good q.transport
      → Follows
          (read_results net json names fl (r, q))
          (read_results (ideal respond) json names fl (r, offline q))
  unfolding read_energy
  read_results-Follows (err e) q good = (refl, good)
  read_results-Follows (ok results) q good =
      let (raw, q') = raw_info net json names fl q (lookup get_device_info results) in
      let (same, good') = raw_info-Follows q (lookup get_device_info results) good in
      subst
        (λ x.
          Follows
            (narrowed_if_ok net json names fl results
              (read_info net json names fl results (info_of net json names fl raw), q'))
            (narrowed_if_ok (ideal respond) json names fl results
              (read_info net json names fl results (info_of net json names fl x.0), x.1)))
        same
        (narrowed-Follows results
          (read_info net json names fl results (info_of net json names fl raw)) q' good')

  -- Over a transport that serves the device's answers, a read gives what it gives over the answers
  -- themselves, switches off the same methods, counts the same requests, and leaves the transport in a
  -- good state, whatever the device answers.
  pub smart_read-Follows :
      (q : SmartQuerier S)
      → Good q.transport
      → Follows
          (smart_read net json names fl q)
          (smart_read (ideal respond) json names fl (offline q))
  unfolding smart_read methods_of
  smart_read-Follows q good =
      let (results, q') = smart_batch net json q (methods_of q) in
      let (same, good') = smart_batch-Follows q (methods_of q) good in
      subst
        (λ x.
          Follows (read_results net json names fl (results, q'))
            (read_results (ideal respond) json names fl x))
        same (read_results-Follows results q' good')
