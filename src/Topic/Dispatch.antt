-- ===== src/Topic/Dispatch.antt =====
-- Dispatch of a record of crates/datarail-topic/src/lib.rs, as it was produced.
use hu_gr_datarail.Prelude.{
  ℕ, ◌+◌, ◌^◌, ◌%◌, ◌<◌, ◌≡◌, refl, ap, ◌∙◌, subst, inl, inr, none, some, Bool-cases, List, [], ◌∷◌,
  ◌++◌, Bytes, length, take, drop, length-append, append_assoc, drop-length-append,
  take-length-append, arith,
}
use hu_gr_datarail.Prelude.Words.{le_bytes, length-le_bytes, take-le_bytes_4, le_value-le_bytes_4}
use hu_gr_datarail.Keyrouter.{
  Router, Candidate, fnv1a, best_of, improve, is_better, weight, node_of, route_keyhash, route,
}
use hu_gr_datarail.Topic.{
  ok, no_members, if_empty, LogOps, Group, record_of, split_record, on_route, on_split, on_read,
  on_reader, reader_of, dispatch_next,
}

pub length-record_of :
    (key payload : Bytes) → length (record_of key payload) ≡ 4 + length key + length payload
unfolding record_of
length-record_of key payload = omega (
  arith,
  length-append (le_bytes 4 (length key) ++ key) payload,
  length-append (le_bytes 4 (length key)) key,
  length-le_bytes 4 (length key),
)

take-record_of : (key payload : Bytes) → take 4 (record_of key payload) ≡ le_bytes 4 (length key)
unfolding record_of
take-record_of key payload =
    ap (take 4) (append_assoc (le_bytes 4 (length key)) key payload)
    ∙ take-le_bytes_4 (length key) (key ++ payload)

drop-record_of : (key payload : Bytes) → drop 4 (record_of key payload) ≡ key ++ payload
unfolding record_of
drop-record_of key payload =
    ap (drop 4) (append_assoc (le_bytes 4 (length key)) key payload)
    ∙ subst (λ n. drop n (le_bytes 4 (length key) ++ (key ++ payload)) ≡ key ++ payload)
        (length-le_bytes 4 (length key))
        (drop-length-append (le_bytes 4 (length key)) (key ++ payload))

pub split_record-record_of :
    (key payload : Bytes)
    → length key < 2 ^ 32
    → split_record (record_of key payload) ≡ some (key, payload)
unfolding split_record
split_record-record_of key payload h = rw (take-record_of key payload) (
    rw (drop-record_of key payload) (
      rw (le_value-le_bytes_4 (length key) h) (
        rw (take-length-append key payload) (
          rw (drop-length-append key payload)
            (ground (arith, length-record_of key payload, length-append key payload))))))

-- A candidate is kept or replaced, so a router with a node finds one.
improve-some : (w node : ℕ) (best : Candidate) → (b : ℕ × ℕ) × (improve w node best ≡ some b)
improve-some w node none = ((w, node), refl)
improve-some w node (some b) = elim (Bool-cases (is_better w node (some b))) [
  | inl better ↦ ((w, node), rw better refl)
  | inr kept ↦ (b, rw kept refl)
]

best_of-some :
    (h : ℕ) (best : ℕ × ℕ) (nodes : List ℕ) → (b : ℕ × ℕ) × (best_of h (some best) nodes ≡ some b)
unfolding best_of
best_of-some h best [] = (best, refl)
best_of-some h best (node ∷ nodes) =
    let (b, e) = improve-some (weight h node) node (some best) in
    let (c, f) = best_of-some h b nodes in (c, ap (λ k. best_of h k nodes) e ∙ f)

pub route-some :
    (r : Router) (key : Bytes) (node : ℕ) (nodes : List ℕ)
    → r.nodes ≡ node ∷ nodes
    → (member : ℕ) × (route r key ≡ some member)
unfolding route route_keyhash best_of
route-some r key node nodes h =
    let (b, e) = best_of-some (fnv1a key) (weight (fnv1a key) node, node) nodes in
    (b.1, ap (λ ns. node_of (best_of (fnv1a key) none ns)) h ∙ ap node_of e)

-- When the reader of a group with members gives a record as it was produced, the record is dispatched with
-- its offset, key and payload to the member that the router gives for the key, and the cursor moves to just
-- past the record, as a u64. The key is shorter than 2 ^ 32 bytes.
pub dispatch_next-record_of :
    {L R : Type 0} (logs : LogOps L R) (log : L) (g : Group R) (reader rest : R) (offset : ℕ)
    (key payload : Bytes) (node : ℕ) (nodes : List ℕ)
    → g.router.nodes ≡ node ∷ nodes
    → reader_of logs log g g.replay ≡ ok reader
    → logs.read_next reader ≡ (ok (some (offset, record_of key payload)), rest)
    → length key < 2 ^ 32
    → (member : ℕ) × (route g.router key ≡ some member)
      × (dispatch_next logs log g ≡ (
        ok (some (record { member = member; offset = offset; key = key; payload = payload })),
        record g {
          cursor = (offset + 8 + (4 + length key + length payload)) % 2 ^ 64;
          replay = some rest;
        },
      ))
unfolding dispatch_next on_reader on_read on_split on_route
dispatch_next-record_of logs log g reader rest offset key payload node nodes h e f short =
    let (member, owner) = route-some g.router key node nodes h in
    let rec = record_of key payload in
    let read : Group _ = record g { replay = some rest } in
    let past : ℕ → Group _ = λ size. record read { cursor = (offset + 8 + size) % 2 ^ 64 } in
    (
      member,
      owner,
      ap (λ ns. if_empty ns (no_members, g) (on_reader logs g (reader_of logs log g g.replay))) h
          ∙ ap (on_reader logs g) e
          ∙ ap (on_read logs g) f
          ∙ ap (on_split logs read offset (length rec)) (split_record-record_of key payload short)
          ∙ ap (on_route logs (past (length rec)) offset key payload) owner
          ∙ ap
              (λ size. (
                ok (
                    some
                      (record { member = member; offset = offset; key = key; payload = payload })),
                past size,
              ))
              (length-record_of key payload),
    )
