-- ===== src/Klap/Session.antt =====
-- The handshake and the retry of kasa/klap.go.
use mathlib.Core.Option
use kasa_exporter.Base.{
  ℕ, zero, suc, ◌+◌, ◌*◌, ◌≤◌, ◌≡◌, subst, inl, inr, true, false, some, List, [], ◌∷◌, ◌++◌, arith,
  Bool-cases, Any,
}
use kasa_exporter.Base.Text.{Text, ◌==ₜ◌, ==ₜ_iff}
use kasa_exporter.Base.Int.{ℤ}
use kasa_exporter.Errors.{Result, ok, err}
use kasa_exporter.Connect.{Credentials}
use kasa_exporter.Klap.{Crypto, Http, KlapTransport, klap_auth_hash, matching_hash}
use kasa_exporter.Klap.Query.{
  handshake, send_request, Attempt, settled, forbidden, or_again, after_ready, ready, query_loop,
  klap_query,
}

same_hash : {a b : Text} → some a ≡ some b → a ≡ b
same_hash h = cc h

module _ (crypto : Crypto) (version : ℤ) (local_seed remote_seed server_hash : Text) where
  -- A hash that is agreed on is that of one of the candidates, and the device's own digest confirms it.
  pub record Confirmed (candidates : List Credentials) (hash : Text) : Type 0 where
    pub digest : crypto.sha256 (local_seed ++ (remote_seed ++ hash)) ≡ server_hash
    pub of_candidate : Any (λ c. klap_auth_hash crypto c version ≡ hash) candidates

  -- The hash that the handshake agrees on is that of one of the candidates, and its digest with the two
  -- seeds is the one that the device sent.
  pub matching_hash-Confirmed :
      (candidates : List Credentials) (hash : Text)
      → matching_hash crypto version local_seed remote_seed server_hash candidates ≡ some hash
      → Confirmed candidates hash
  unfolding matching_hash
  matching_hash-Confirmed [] hash h = cc h
  matching_hash-Confirmed (c ∷ cs) hash h =
      let own = klap_auth_hash crypto c version in
      elim (Bool-cases (crypto.sha256 (local_seed ++ (remote_seed ++ own)) ==ₜ server_hash)) [
        | inl right ↦
            let same : own ≡ hash = same_hash (rw right at h) in
            record {
              digest = (==ₜ_iff _ _).0 (
                  subst
                    (λ x. (crypto.sha256 (local_seed ++ (remote_seed ++ x)) ==ₜ server_hash) ≡ true)
                    same right);
              of_candidate = inl same;
            }
        | inr wrong ↦
            let later = matching_hash-Confirmed cs hash (rw wrong at h) in
            record { digest = later.digest; of_candidate = inr later.of_candidate }
      ]

-- An HTTP client with a count of the posts.
abbrev pub counting : {W : Type 0} → Http W → Http (W × ℕ)
counting http = record {
  post =
      λ (w, n) path session body. let (r, w') = http.post w path session body in (r, (w', n + 1));
  random = λ (w, n). Option.map (λ p. (p.0, (p.1, n))) (http.random w);
}

module _ {W : Type 0} (crypto : Crypto) (http : Http W) where
  handshake_posts :
      (w : W × ℕ) (t : KlapTransport) → (handshake crypto (counting http) w t).2.1 ≤ w.1 + 2
  unfolding handshake
  handshake_posts w t = ground arith

  send_posts :
      (w : W × ℕ) (t : KlapTransport) (request : Text)
      → (send_request crypto (counting http) w t request).2.1 ≤ w.1 + 1
  unfolding send_request
  send_posts w t request = ground arith

  ready_posts : (w : W × ℕ) (t : KlapTransport) → (ready crypto (counting http) w t).2.1 ≤ w.1 + 2
  ready_posts w t = let bound = handshake_posts w t in ground arith

  after_ready_posts :
      (request : Text) (r : Result (Unit {0}) × KlapTransport × (W × ℕ))
      → (after_ready crypto (counting http) request r).2.1 ≤ r.2.1 + 1
  after_ready_posts request (err e, t, w) = omega arith
  after_ready_posts request (ok _, t, w) = send_posts w t request

  or_again_posts :
      (n m : ℕ) (again : KlapTransport → W × ℕ → Result Text × KlapTransport × (W × ℕ))
      → ((t : KlapTransport) (w : W × ℕ) → (again t w).2.1 ≤ w.1 + m)
      → (r : Attempt × KlapTransport × (W × ℕ)) → r.2.1 ≤ n
      → (or_again crypto (counting http) again r).2.1 ≤ n + m
  or_again_posts n m again bound (settled r, t, w) h = omega arith
  or_again_posts n m again bound (forbidden, t, w) h =
      let b = bound (record t { established = false }) w in omega arith

  query_loop_posts :
      (k : ℕ) (w : W × ℕ) (t : KlapTransport) (request : Text)
      → (query_loop crypto (counting http) k w t request).2.1 ≤ w.1 + 3 * k
  unfolding query_loop
  query_loop_posts zero w t request = omega arith
  query_loop_posts (suc k) w t request =
      let first = ready crypto (counting http) w t in
      let b1 = ready_posts w t in
      let b2 = after_ready_posts request first in
      let b =
        or_again_posts (w.1 + 3) (3 * k)
          (λ t' w'. query_loop crypto (counting http) k w' t' request)
          (λ t' w'. query_loop_posts k w' t' request)
          (after_ready crypto (counting http) request first) (omega arith) in
      omega arith

  -- A query makes at most six posts over the client, whatever the device answers: two attempts, each
  -- with at most the two of a handshake and the one of the request.
  pub query_posts :
      (w : W × ℕ) (t : KlapTransport) (request : Text)
      → (klap_query crypto (counting http) w t request).2.1 ≤ w.1 + 6
  unfolding klap_query
  query_posts w t request = query_loop_posts 2 w t request
