-- ===== src/Broker/Serve.antt =====
-- The connection loop of crates/datarail-broker/src/lib.rs, `serve_conn`, over any handler.
use hu_gr_datarail.Prelude.{
  ℕ, zero, suc, ◌≤◌, ◌≡◌, refl, Bool, none, some, List, [], ◌∷◌, ◌++◌, Bytes, length, arith, All,
}
use hu_gr_datarail.Broker.{Request, Response, encode_response}
use hu_gr_datarail.Broker.Stream.{
  read_frame, next_request, requests_of, responses_of, CanSend, CanAnswer,
  next_request-encode_request, read_responses, read_responses-responses_of,
}

module _ {ℓ} {S : Type ℓ} (handle : S → Request → Response × S) where
  -- what the handler answers to them
  unfoldable pub answers : S → List Request → List Response × S
  answers server [] = ([], server)
  answers server (req ∷ reqs) =
      let (resp, left) = handle server req in
      let (resps, last) = answers left reqs in (resp ∷ resps, last)

  module _ (is_utf8 : Bytes → Bool) where
    -- The loop for a number of rounds: what it writes, and the server that it leaves.
    unfoldable pub serve_conn : ℕ → S → Bytes → Bytes × S
    serve_conn zero server stream = ([], server)
    serve_conn (suc rounds) server stream = elim (next_request is_utf8 stream) [
      | none ↦ ([], server)
      | some (req, rest) ↦
          let (resp, left) = handle server req in
          let (out, last) = serve_conn rounds left rest in (encode_response resp ++ out, last)
    ]

    serve_conn-answers :
        (rounds : ℕ) (server : S) (reqs : List Request)
        → length reqs ≤ rounds
        → All (CanSend is_utf8) reqs
        → serve_conn rounds server (requests_of reqs)
          ≡ (responses_of ((answers server reqs).0), (answers server reqs).1)
    unfolding serve_conn requests_of answers responses_of next_request read_frame
    serve_conn-answers zero server [] l c = refl
    serve_conn-answers (suc rounds) server [] l c = refl
    serve_conn-answers zero server (req ∷ reqs) l c = absurd (omega (arith, l))
    serve_conn-answers (suc rounds) server (req ∷ reqs) l (c, cs) =
        let (resp, left) = handle server req in
        rw (serve_conn, next_request-encode_request is_utf8 req (requests_of reqs) c)
          (rw (serve_conn-answers rounds left reqs (omega (arith, l)) cs) refl)

    -- A client that writes requests one behind the other reads the handler's answers to all of them, in
    -- order, and the server is where the handler left it. Bodies are at most 2 ^ 26 bytes, strings are text
    -- and offsets are words, and the loop goes round once for each request at least.
    pub served :
        (rounds : ℕ) (server : S) (reqs : List Request)
        → length reqs ≤ rounds
        → All (CanSend is_utf8) reqs
        → All (CanAnswer is_utf8) ((answers server reqs).0)
        → (read_responses is_utf8
              (length ((answers server reqs).0))
              ((serve_conn rounds server (requests_of reqs)).0)
            ≡ some ((answers server reqs).0))
          × ((serve_conn rounds server (requests_of reqs)).1 ≡ (answers server reqs).1)
    served rounds server reqs l c a =
        rw (serve_conn-answers rounds server reqs l c)
          (read_responses-responses_of is_utf8 ((answers server reqs).0) a, refl)
