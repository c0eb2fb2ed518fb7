-- ===== src/Connect/Negotiate.antt =====
-- `negotiate` of kasa/connect.go: what a negotiated connection has shown, and when probing stops.
use kasa_exporter.Base.{
  ◌≡◌, refl, ap, ◌∙◌, inl, inr, false, none, List, [], ◌∷◌, ◌++◌, Bool-cases, All, All-append,
}
use kasa_exporter.Base.Text.{Text}
use kasa_exporter.Base.Int.{ℤ}
use kasa_exporter.Errors.{Error, Result, ok, err}
use kasa_exporter.Reading.{Reading}
use kasa_exporter.Discovery.{DiscoveryResult}
use kasa_exporter.Connect.{
  Credentials, Queriers, is_unauthorized, probe_order, connect, kept, read_once, after_asking,
  asked, attempt, next_round, try_candidates, negotiate, unicast_discovery_budget,
}

-- Only the last of the reasons may be a refused login.
abbrev pub OnlyLastRefused : List Error → Type 0
OnlyLastRefused [] = Unit
OnlyLastRefused (e ∷ []) = Unit
OnlyLastRefused (e ∷ (f ∷ rest)) = (is_unauthorized e ≡ false) × OnlyLastRefused (f ∷ rest)

abbrev NoneRefused : List Error → Type 0
NoneRefused = All (λ e. is_unauthorized e ≡ false)

OnlyLastRefused-append :
    (es : List Error) (e : Error) → NoneRefused es → OnlyLastRefused (es ++ e ∷ [])
OnlyLastRefused-append [] e h = tt
OnlyLastRefused-append (a ∷ []) e (p, h) = (p, tt)
OnlyLastRefused-append (a ∷ (b ∷ es)) e (p, h) = (p, OnlyLastRefused-append (b ∷ es) e h)

OnlyLastRefused-of_none : (es : List Error) → NoneRefused es → OnlyLastRefused es
OnlyLastRefused-of_none [] h = tt
OnlyLastRefused-of_none (a ∷ []) h = tt
OnlyLastRefused-of_none (a ∷ (b ∷ es)) (p, h) = (p, OnlyLastRefused-of_none (b ∷ es) h)

-- The value of a result, with something to give where it is an error.
abbrev ok_value {ℓ} : {A : Type ℓ} → A → Result A → A
ok_value d (ok a) = a
ok_value d (err e) = d

module _ {W Q F : Type 0} (net : Queriers W Q F) (host : Text) (creds : Credentials)
    (timeout : ℤ) where
  -- A querier that has just answered a read, which left the world in the state `w`.
  pub record Answered (q : Q) (w : W) : Type 0 where
    pub before : W
    pub fresh : Q
    pub reading : Reading F
    pub answer : net.read before fresh ≡ (ok reading, q, w)

  kept-Answered :
      (w w' : W) (q0 q : Q) (x : Result (Reading F) × Q × W)
      → net.read w q0 ≡ x
      → kept net host creds timeout x ≡ (ok q, w')
      → Answered q w'
  kept-Answered w w' q0 q (ok reading, q', w'') e h = record {
    before = w;
    fresh = q0;
    reading = reading;
    answer = e ∙ (λ i. (ok reading, ok_value q' (h i).0, (h i).1));
  }
  kept-Answered w w' q0 q (err f, q', w'') e h = absurd (cc (ap (λ p. p.0) h))

  read_once-Answered :
      (w w' : W) (r : Result Q) (q : Q)
      → read_once net host creds timeout w r ≡ (ok q, w')
      → Answered q w'
  read_once-Answered w w' (ok q0) q h = kept-Answered w w' q0 q (net.read w q0) refl h
  read_once-Answered w w' (err e) q h = absurd (cc (ap (λ p. p.0) h))

  attempt-Answered :
      (w w' : W) (d : DiscoveryResult) (q : Q)
      → attempt net host creds timeout w d ≡ (ok q, w')
      → Answered q w'
  unfolding attempt
  attempt-Answered w w' d q h = read_once-Answered w w' (connect net host creds timeout d) q h

  next_round-Answered :
      (w' : W) (x : Result Q × W) (reasons reasons' : List Error) (q : Q)
      (rest : W → List Error → Result Q × W × List Error)
      → (x ≡ (ok q, w') → Answered q w')
      → ((v : W) (so_far : List Error) → rest v so_far ≡ (ok q, w', reasons') → Answered q w')
      → next_round net host creds timeout x reasons rest ≡ (ok q, w', reasons')
      → Answered q w'
  next_round-Answered w' (ok q0, w0) reasons reasons' q rest here later h =
      here (λ i. ((h i).0, (h i).1))
  next_round-Answered w' (err e, w0) reasons reasons' q rest here later h =
      elim (Bool-cases (is_unauthorized e)) [
        | inl refused ↦ absurd (cc (ap (λ p. p.0) (rw refused at h)))
        | inr other ↦ later w0 (reasons ++ e ∷ []) (rw other at h)
      ]

  try_candidates-Answered :
      (w w' : W) (cs : List DiscoveryResult) (reasons reasons' : List Error) (q : Q)
      → try_candidates net host creds timeout w cs reasons ≡ (ok q, w', reasons')
      → Answered q w'
  unfolding try_candidates
  try_candidates-Answered w w' [] reasons reasons' q h = absurd (cc (ap (λ p. p.0) h))
  try_candidates-Answered w w' (c ∷ cs) reasons reasons' q h =
      next_round-Answered w' (attempt net host creds timeout w c) reasons reasons' q
        (λ v so_far. try_candidates net host creds timeout v cs so_far) (attempt-Answered w w' c q)
        (λ v so_far. try_candidates-Answered v w' cs so_far reasons' q) h

  after_asking-Answered :
      (w' : W) (q : Q) (x : Result Q × W)
      → (x ≡ (ok q, w') → Answered q w')
      → after_asking net host creds timeout x.1 x.0 ≡ (ok q, w')
      → Answered q w'
  after_asking-Answered w' q (ok q0, w0) here h = here h
  after_asking-Answered w' q (err e, w0) here h =
      let reasons' = (try_candidates net host creds timeout w0 probe_order []).2 in
      try_candidates-Answered w0 w' probe_order [] reasons' q (λ i. ((h i).0, (h i).1, reasons'))

  asked-Answered :
      (w w' : W) (q : Q) (d : Result DiscoveryResult)
      → asked net host creds timeout w d ≡ (ok q, w')
      → Answered q w'
  asked-Answered w w' q (ok found) h = attempt-Answered w w' found q h
  asked-Answered w w' q (err e) h = absurd (cc (ap (λ p. p.0) h))

  -- A device that was not described beforehand is connected only by a querier that has just answered
  -- a read: the negotiation's result, and the state it leaves, are those of a successful read.
  pub negotiate-Answered :
      (w w' : W) (q : Q) → negotiate net host creds timeout w none ≡ (ok q, w') → Answered q w'
  unfolding negotiate
  negotiate-Answered w w' q h =
      let (d, w1) = net.discover_host w host (unicast_discovery_budget timeout) in
      after_asking-Answered w' q (asked net host creds timeout w1 d) (asked-Answered w1 w' q d) h

  next_round-refused :
      (x : Result Q × W) (reasons : List Error) (rest : W → List Error → Result Q × W × List Error)
      → NoneRefused reasons
      → ((v : W) (so_far : List Error) → NoneRefused so_far → OnlyLastRefused (rest v so_far).2)
      → OnlyLastRefused (next_round net host creds timeout x reasons rest).2
  next_round-refused (ok q, w) reasons rest h later = OnlyLastRefused-of_none reasons h
  next_round-refused (err e, w) reasons rest h later = elim (Bool-cases (is_unauthorized e)) [
    | inl refused ↦ rw refused (OnlyLastRefused-append reasons e h)
    | inr other ↦
        rw other (later w (reasons ++ e ∷ []) (All-append _ reasons (e ∷ []) h (other, tt)))
  ]

  loop_refused :
      (w : W) (cs : List DiscoveryResult) (reasons : List Error)
      → NoneRefused reasons
      → OnlyLastRefused (try_candidates net host creds timeout w cs reasons).2
  unfolding try_candidates
  loop_refused w [] reasons h = OnlyLastRefused-of_none reasons h
  loop_refused w (c ∷ cs) reasons h =
      next_round-refused (attempt net host creds timeout w c) reasons
        (λ v so_far. try_candidates net host creds timeout v cs so_far) h
        (λ v so_far k. loop_refused v cs so_far k)

  -- A refused login ends the probing: of the reasons that are collected, only the last may be one.
  pub refused_stops :
      (w : W) (cs : List DiscoveryResult)
      → OnlyLastRefused (try_candidates net host creds timeout w cs []).2
  refused_stops w cs = loop_refused w cs [] tt
