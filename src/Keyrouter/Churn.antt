-- ===== src/Keyrouter/Churn.antt =====
-- What a change of the nodes moves: crates/datarail-keyrouter/src/lib.rs.
use hu_gr_datarail.Prelude.{
  ℕ, ◌≡◌, ◌⊎◌, refl, sym, ap, ◌∙◌, true, false, none, some, List, [], ◌∷◌, ◌++◌, Bytes, nat_eq,
  nat_eq_iff, arith, Bool-cases, inl, inr,
}
use hu_gr_datarail.Keyrouter.{
  Router, Candidate, weight, has, add_node, without_first, remove_node, is_better, improve, best_of,
  node_of, route_keyhash, route, fnv1a,
}

best_of-append :
    (h : ℕ) (best : Candidate) (ns : List ℕ) (id : ℕ)
    → best_of h best (ns ++ (id ∷ [])) ≡ improve (weight h id) id (best_of h best ns)
unfolding best_of
best_of-append h best [] id = refl
best_of-append h best (n ∷ ns) id = best_of-append h (improve (weight h n) n best) ns id

improve-either :
    (w id : ℕ) (best : Candidate)
    → (node_of (improve w id best) ≡ node_of best) ⊎ (node_of (improve w id best) ≡ some id)
improve-either w id best = elim (Bool-cases (is_better w id best)) [
  | inl better ↦ rw better (inr refl)
  | inr worse ↦ rw worse (inl refl)
]

-- After a node is added a key is routed where it was before, or to the new node.
pub route-add_node :
    (r : Router) (id : ℕ) (key : Bytes)
    → (route (add_node r id).1 key ≡ route r key) ⊎ (route (add_node r id).1 key ≡ some id)
unfolding route route_keyhash add_node
route-add_node r id key = elim (Bool-cases (has r.nodes id)) [
  | inl present ↦ rw present (inl refl)
  | inr absent ↦ rw absent (
      rw (best_of-append (fnv1a key) none r.nodes id)
        (improve-either (weight (fnv1a key) id) id (best_of (fnv1a key) none r.nodes)))
]

is_better_trans :
    (w n v x : ℕ) (best : Candidate)
    → is_better v x best ≡ true
    → is_better w n (some (v, x)) ≡ true
    → is_better w n best ≡ true
is_better_trans w n v x none b c = refl
is_better_trans w n v x (some (bw, bn)) b c = ground (arith, b, c)

is_better_tie :
    (w n v x : ℕ)
    → is_better w n (some (v, x)) ≡ false
    → is_better v x (some (w, n)) ≡ false
    → ◌≡◌ {A = Candidate} (some (w, n)) (some (v, x))
is_better_tie w n v x b c =
    let weights : w ≡ v = ground (arith, b, c) in
    let nodes : n ≡ x = ground (arith, b, c) in rw weights (rw nodes refl)

-- A candidate that beats another ends as the best, or makes no difference.
best_of-beaten :
    (h w x : ℕ) (best : Candidate) (ns : List ℕ)
    → is_better w x best ≡ true
    → (best_of h (some (w, x)) ns ≡ best_of h best ns) ⊎ (best_of h (some (w, x)) ns ≡ some (w, x))
unfolding best_of
best_of-beaten h w x best [] b = inr refl
best_of-beaten h w x best (n ∷ ns) b = elim (Bool-cases (is_better (weight h n) n (some (w, x)))) [
  | inl over ↦
      let over' = is_better_trans (weight h n) n w x best b over in rw over (rw over' (inl refl))
  | inr under ↦ elim (Bool-cases (is_better (weight h n) n best)) [
    | inr worse ↦ rw under (rw worse (best_of-beaten h w x best ns b))
    | inl better ↦ elim (Bool-cases (is_better w x (some (weight h n, n)))) [
      | inl again ↦ rw under (rw better (best_of-beaten h w x (some (weight h n, n)) ns again))
      | inr level ↦
          let same = is_better_tie (weight h n) n w x under level in
          rw under (rw better (inl (ap (λ c. best_of h c ns) (sym same))))
    ]
  ]
]

best_of-skip :
    (h id : ℕ) (best : Candidate) (n : ℕ) (ns : List ℕ)
    → n ≡ id
    → (best_of h (improve (weight h n) n best) ns ≡ best_of h best ns)
      ⊎ (node_of (best_of h (improve (weight h n) n best) ns) ≡ some id)
best_of-skip h id best n ns same = elim (Bool-cases (is_better (weight h n) n best)) [
  | inr worse ↦ rw worse (inl refl)
  | inl better ↦ rw better (elim (best_of-beaten h (weight h n) n best ns better) [
    | inl e ↦ inl e
    | inr e ↦ inr (ap node_of e ∙ ap some same)
  ])
]

best_of-without :
    (h id : ℕ) (best : Candidate) (ns : List ℕ)
    → (best_of h best ns ≡ best_of h best (without_first ns id))
      ⊎ (node_of (best_of h best ns) ≡ some id)
unfolding best_of without_first
best_of-without h id best [] = inl refl
best_of-without h id best (n ∷ ns) = elim (Bool-cases (nat_eq n id)) [
  | inl same ↦ rw same (best_of-skip h id best n ns ((nat_eq_iff n id).0 same))
  | inr other ↦ rw other (best_of-without h id (improve (weight h n) n best) ns)
]

-- After a node is removed a key is routed where it was before, unless it was routed to that node.
pub route-remove_node :
    (r : Router) (id : ℕ) (key : Bytes)
    → (route (remove_node r id).1 key ≡ route r key) ⊎ (route r key ≡ some id)
unfolding route route_keyhash remove_node
route-remove_node r id key = elim (Bool-cases (has r.nodes id)) [
  | inr absent ↦ rw absent (inl refl)
  | inl present ↦ rw present (elim (best_of-without (fnv1a key) id none r.nodes) [
    | inl e ↦ inl (sym (ap node_of e))
    | inr e ↦ inr e
  ])
]
