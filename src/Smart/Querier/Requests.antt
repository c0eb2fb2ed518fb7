-- ===== src/Smart/Querier/Requests.antt =====
-- What a read of kasa/smart.go costs, and what later reads ask for.
use kasa_exporter.Base.{
  ap, ◌∙◌, is_some, ℕ, ◌+◌, ◌≤◌, ◌≡◌, refl, subst, true, ◌&&◌, ◌||◌, Option, none, some, arith,
}
use kasa_exporter.Base.Text.{==ₜ_iff, Text, ◌==ₜ◌, contains}
use kasa_exporter.Base.Dict.{Dict, lookup}
use kasa_exporter.Errors.{ok-injective, Result, ok, err}
use kasa_exporter.Floats.{Arithmetic}
use kasa_exporter.Transport.{Transport}
use kasa_exporter.Reading.{Reading}
use kasa_exporter.Iot.Querier.Emeter.{counting}
use kasa_exporter.Smart.{Names}
use kasa_exporter.Smart.Querier.{
  info_of, multiple, read_info, single, SmartQuerier, SmartJson, SmartRequest, smart_query,
  smart_batch, smart_read, read_results, raw_info, methods_of, narrowed, narrowed_if_ok,
  get_device_info, get_energy_usage, get_current_power, get_child_device_list,
}

same_lookup :
    (results : Dict Text) (method m : Text)
    → (method ==ₜ m) ≡ true
    → is_some (lookup method results) ≡ is_some (lookup m results)
same_lookup results method m h = ap (λ n. is_some (lookup n results)) ((==ₜ_iff method m).0 h)

module _ {S F : Type 0} (net : Transport S) (json : SmartJson F) where
  query_requests :
      (q : SmartQuerier (S × ℕ)) (request : ℕ → SmartRequest)
      → (smart_query (counting net) json q request).1.transport.1 ≤ q.transport.1 + 1
  unfolding smart_query
  query_requests q request = ground arith

  query_keeps :
      (q : SmartQuerier S) (request : ℕ → SmartRequest)
      → methods_of (smart_query net json q request).1 ≡ methods_of q
  unfolding smart_query methods_of
  query_keeps q request = ground arith

module _ {S F : Type 0} (net : Transport S) (json : SmartJson F) (names : Names)
    (fl : Arithmetic F) where
  raw_info_requests :
      (q : SmartQuerier (S × ℕ)) (raw : Option Text)
      → (raw_info (counting net) json names fl q raw).1.transport.1 ≤ q.transport.1 + 1
  raw_info_requests q none = query_requests net json q (λ id. single id get_device_info)
  raw_info_requests q (some raw) = omega arith

  narrowed_if_ok-transport :
      {T : Type 0} (results : Dict Text) (x : Result (Reading F) × SmartQuerier T)
      (other : Transport T)
      → (narrowed_if_ok other json names fl results x).1.transport ≡ x.1.transport
  unfolding narrowed
  narrowed_if_ok-transport results (err e, q) other = refl
  narrowed_if_ok-transport results (ok reading, q) other = refl

  read_results_requests :
      (x : Result (Dict Text) × SmartQuerier (S × ℕ))
      → (read_results (counting net) json names fl x).1.transport.1 ≤ x.1.transport.1 + 1
  read_results_requests (err e, q) = omega arith
  read_results_requests (ok results, q) =
      let (raw, q') = raw_info (counting net) json names fl q (lookup get_device_info results) in
      let kept =
        narrowed_if_ok-transport results
          (
            read_info (counting net) json names fl results
                (info_of (counting net) json names fl raw),
            q',
          )
          (counting net) in
      let bound = raw_info_requests q (lookup get_device_info results) in rw kept bound

  -- A read makes at most two requests: the batch, and one more where it left the device information out.
  pub smart_read_requests :
      (q : SmartQuerier (S × ℕ))
      → (smart_read (counting net) json names fl q).1.transport.1 ≤ q.transport.1 + 2
  unfolding smart_read smart_batch
  smart_read_requests q =
      let batch = smart_batch (counting net) json q (methods_of q) in
      let one = query_requests net json q (λ id. multiple id (methods_of q)) in
      let more = read_results_requests batch in omega arith

  raw_info_keeps :
      (q : SmartQuerier S) (raw : Option Text)
      → methods_of (raw_info net json names fl q raw).1 ≡ methods_of q
  raw_info_keeps q none = query_keeps net json q (λ id. single id get_device_info)
  raw_info_keeps q (some raw) = refl

  contains-methods_of :
      (q : SmartQuerier S) (m : Text)
      → contains (methods_of q) m ≡ (
          get_device_info ==ₜ m
          || (q.wants_energy && get_energy_usage ==ₜ m
              || (q.wants_power && get_current_power ==ₜ m
                  || q.wants_children && get_child_device_list ==ₜ m)))
  unfolding methods_of contains
  contains-methods_of q m = ground arith

  narrowed-contains :
      (results : Dict Text) (q : SmartQuerier S) (m : Text)
      → contains (methods_of (narrowed net json names fl results q)) m ≡ true
      → contains (methods_of q) m ≡ true
  unfolding narrowed
  narrowed-contains results q m h =
      let after = contains-methods_of (narrowed net json names fl results q) m in
      let before = contains-methods_of q m in ground arith

  narrowed_if_ok-contains :
      (results : Dict Text) (x : Result (Reading F) × SmartQuerier S) (m : Text)
      → contains (methods_of (narrowed_if_ok net json names fl results x).1) m ≡ true
      → contains (methods_of x.1) m ≡ true
  narrowed_if_ok-contains results (err e, q) m h = h
  narrowed_if_ok-contains results (ok reading, q) m h = narrowed-contains results q m h

  read_results-contains :
      (x : Result (Dict Text) × SmartQuerier S) (m : Text)
      → contains (methods_of (read_results net json names fl x).1) m ≡ true
      → contains (methods_of x.1) m ≡ true
  read_results-contains (err e, q) m h = h
  read_results-contains (ok results, q) m h =
      let (raw, q') = raw_info net json names fl q (lookup get_device_info results) in
      let same = raw_info_keeps q (lookup get_device_info results) in
      rw (← same) (
        narrowed_if_ok-contains results
          (read_info net json names fl results (info_of net json names fl raw), q') m h)

  -- A read never makes a later one ask for a method that it did not ask for itself: a method that was
  -- found to be unsupported stays off, whatever the device answers.
  pub smart_read_narrows :
      (q : SmartQuerier S) (m : Text)
      → contains (methods_of (smart_read net json names fl q).1) m ≡ true
      → contains (methods_of q) m ≡ true
  unfolding smart_read smart_batch
  smart_read_narrows q m h =
      let same = query_keeps net json q (λ id. multiple id (methods_of q)) in
      subst (λ ms. contains ms m ≡ true) same
        (read_results-contains (smart_batch net json q (methods_of q)) m h)

  narrowed_answered :
      (results : Dict Text) (q : SmartQuerier S) (m : Text)
      → contains (methods_of (narrowed net json names fl results q)) m
        ≡ (contains (methods_of q) m && (get_device_info ==ₜ m || is_some (lookup m results)))
  unfolding narrowed
  narrowed_answered results q m =
      let after = contains-methods_of (narrowed net json names fl results q) m in
      let before = contains-methods_of q m in
      let energy = same_lookup results get_energy_usage m in
      let power = same_lookup results get_current_power m in
      let children = same_lookup results get_child_device_list m in
      ground (arith, after, before, energy, power, children)

  narrowed_if_ok_answered :
      (results : Dict Text) (x : Result (Reading F) × SmartQuerier S) (reading : Reading F)
      (m : Text)
      → (narrowed_if_ok net json names fl results x).0 ≡ ok reading
      → contains (methods_of (narrowed_if_ok net json names fl results x).1) m
        ≡ (contains (methods_of x.1) m && (get_device_info ==ₜ m || is_some (lookup m results)))
  narrowed_if_ok_answered results (err e, q) reading m h = absurd (cc h)
  narrowed_if_ok_answered results (ok other, q) reading m h = narrowed_answered results q m

  read_results_answered :
      (x : Result (Dict Text) × SmartQuerier S) (results : Dict Text) (reading : Reading F)
      (m : Text)
      → x.0 ≡ ok results
      → (read_results net json names fl x).0 ≡ ok reading
      → contains (methods_of (read_results net json names fl x).1) m
        ≡ (contains (methods_of x.1) m && (get_device_info ==ₜ m || is_some (lookup m results)))
  read_results_answered (err e, q) results reading m b h = absurd (cc b)
  read_results_answered (ok out, q) results reading m b h =
      let (raw, q') = raw_info net json names fl q (lookup get_device_info out) in
      let same = raw_info_keeps q (lookup get_device_info out) in
      let exact =
        narrowed_if_ok_answered out
          (read_info net json names fl out (info_of net json names fl raw), q') reading m h in
      let known = ap (λ o. is_some (lookup m o)) (ok-injective b) in
      let asked = ap (λ ms. contains ms m) same in ground (arith, exact, known, asked)

  -- After a read that gave a reading, the next one asks for the device information and for exactly those
  -- of the other methods that were asked for and that the batch had a result of.
  pub smart_read_answered :
      (q : SmartQuerier S) (results : Dict Text) (reading : Reading F) (m : Text)
      → (smart_batch net json q (methods_of q)).0 ≡ ok results
      → (smart_read net json names fl q).0 ≡ ok reading
      → contains (methods_of (smart_read net json names fl q).1) m
        ≡ (contains (methods_of q) m && (get_device_info ==ₜ m || is_some (lookup m results)))
  unfolding smart_read smart_batch
  smart_read_answered q results reading m b h =
      let same = query_keeps net json q (λ id. multiple id (methods_of q)) in
      read_results_answered (smart_batch net json q (methods_of q)) results reading m b h
      ∙ ap (λ ms. contains ms m && (get_device_info ==ₜ m || is_some (lookup m results))) same
