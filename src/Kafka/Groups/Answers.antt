-- ===== src/Kafka/Groups/Answers.antt =====
-- What the members of a group of crates/datarail-kafka/src/coordinator.rs are answered.
use hu_gr_datarail.Prelude.{
  ℕ, ◌≡◌, refl, sym, ap, ◌∙◌, Bool, true, false, not, ◌&&◌, Option, none, some, List, [], ◌∷◌,
  Bytes, Bytes_eq, bytes_eq_iff, ◌==◌, ==_refl, nat_eq, length, arith, Bool-cases, Option-cases,
  inl, inr, if◌then◌else◌,
}
use hu_gr_datarail.Prelude.Dict
use hu_gr_datarail.Prelude.Dict.{get-insert, get-remove, get-retain, retain-all}
use hu_gr_datarail.Kafka.Groups.{
  Group, stable, Member, Members, names, lost_leader, is_live, expire_stale, after_expiry,
  is_stable, no_error,
}
use hu_gr_datarail.Kafka.Groups.Calls.{
  Coordinator, put, assigned, assignment_of, assign_all, is_nil, submit, sync_start, sync_enter,
  sync_found, beat,
}
use hu_gr_datarail.Kafka.Groups.Sound.{IsSound}

-- What the leader's list gives a member: its last entry, or what it had.
unfoldable pub given : List (Bytes × Bytes) → Bytes → Option Bytes → Option Bytes
given [] mid had = had
given ((k, bytes) ∷ rest) mid had = given rest mid (if k == mid then some bytes else had)

abbrev pub bytes_of : Option Bytes → Bytes
bytes_of none = []
bytes_of (some bytes) = bytes

and_false : (b : Bool) (x y : Group) → (if b && false then x else y) ≡ y
and_false true x y = refl
and_false false x y = refl

abbrev with_bytes : Bytes → Member → Member
with_bytes bytes m = record m { assignment = some bytes }

other_key :
    (ms : Members) (k mid : Bytes) (m : Member)
    → Dict.get ms k ≡ none
    → Dict.get ms mid ≡ some m
    → (k == mid) ≡ false
other_key ms k mid m absent e = elim (Bool-cases (k == mid)) [
  | inl same ↦
      let clash : none ≡ some m = sym absent ∙ ap (Dict.get ms) ((bytes_eq_iff k mid).0 same) ∙ e in
      cc
  | inr other ↦ other
]

assign_all-given :
    (assignments : List (Bytes × Bytes)) (ms : Members) (mid : Bytes) (m : Member)
    → Dict.get ms mid ≡ some m
    → Dict.get (assign_all ms assignments) mid
      ≡ some (record m { assignment = given assignments mid m.assignment })
unfolding assign_all given
assign_all-given [] ms mid m e = e
assign_all-given ((k, bytes) ∷ rest) ms mid m e = elim (Option-cases (Dict.get ms k)) [
  | inl absent ↦ rw absent (rw (other_key ms k mid m absent e) (assign_all-given rest ms mid m e))
  | inr (n, present) ↦
      let n' = record n { assignment = some bytes } in
      elim (Bool-cases (k == mid)) [
        | inl same ↦
            let both : some n ≡ some m =
              sym present ∙ ap (Dict.get ms) ((bytes_eq_iff k mid).0 same) ∙ e in
            let now : Dict.get (Dict.insert ms k n') mid ≡ some (with_bytes bytes m) =
              get-insert ms k mid n' ∙ rw same (ap (Dict.map_option (with_bytes bytes)) both) in
            rw present
              (rw same (assign_all-given rest (Dict.insert ms k n') mid (with_bytes bytes m) now))
        | inr other ↦ rw present (
            rw other (
              assign_all-given rest (Dict.insert ms k n') mid m
                (get-insert ms k mid n' ∙ rw other e)))
      ]
]

submit-leads :
    (g : Group) (leader : Bytes) (assignments : List (Bytes × Bytes))
    → g.leader ≡ some leader
    → is_nil assignments ≡ false
    → submit leader assignments g
      ≡ record g { members = assign_all g.members assignments; state = stable; deadline = none }
unfolding submit
submit-leads g leader assignments leads full =
    let own : names g.leader leader ≡ true = ap (λ o. names o leader) leads ∙ ==_refl leader in
    rw full (rw own refl)

assignment_of-stable :
    (m : Member) → assignment_of stable m ≡ some (assigned (bytes_of m.assignment))
assignment_of-stable m = elim (Option-cases m.assignment) [
  | inl absent ↦ rw absent refl
  | inr (bytes, present) ↦ rw present refl
]

-- In a sound group that is not stable, when the leader's `sync` hands in a list of assignments that
-- is not empty, every member's `sync` at that generation is answered NONE with the last bytes listed
-- for it, and with no bytes where the list does not name it.
pub sync_found-submit :
    (g : Group) (leader mid : Bytes) (assignments : List (Bytes × Bytes))
    → IsSound g
    → is_stable g.state ≡ false
    → g.leader ≡ some leader
    → is_nil assignments ≡ false
    → Dict.contains_key g.members mid ≡ true
    → sync_found mid g.generation (submit leader assignments g)
      ≡ some (assigned (bytes_of (given assignments mid none)))
unfolding sync_found
sync_found-submit g leader mid assignments sound unstable leads full present =
    elim (Option-cases (Dict.get g.members mid)) [
      | inl absent ↦ absurd (ground (arith, absent, present))
      | inr (m, there) ↦
          let gen : nat_eq g.generation g.generation ≡ true = ground arith in
          let none_yet = sound.clean unstable mid m there in
          rw (submit-leads g leader assignments leads full) (
            rw gen (
              rw (assign_all-given assignments g.members mid m there) (
                rw none_yet
                  (assignment_of-stable (record m { assignment = given assignments mid none })))))
    ]

sync_start-follower :
    (mid : Bytes) (generation : ℕ) (assignments : List (Bytes × Bytes)) (g : Group)
    → names g.leader mid ≡ false
    → (sync_start mid generation assignments g).1 ≡ g
unfolding sync_start submit
sync_start-follower mid generation assignments g n = elim (Option-cases (Dict.get g.members mid)) [
  | inl absent ↦ rw absent refl
  | inr (m, present) ↦ elim (Bool-cases (nat_eq g.generation generation)) [
    | inl same ↦ rw present (rw same (rw n (and_false (not (is_nil assignments)) _ g)))
    | inr other ↦ rw present (rw other refl)
  ]
]

same_put :
    (c : Coordinator) (group j : Bytes) (g g' : Group)
    → Dict.get c.groups group ≡ some g
    → g' ≡ g
    → Dict.get (put c group g').groups j ≡ Dict.get c.groups j
same_put c group j g g' e same = elim (Bool-cases (group == j)) [
  | inl own ↦
      get-insert c.groups group j g'
      ∙ rw own (ap some same ∙ sym e ∙ ap (Dict.get c.groups) ((bytes_eq_iff group j).0 own))
  | inr other ↦ get-insert c.groups group j g' ∙ rw other refl
]

-- The `sync` of a member that is not the leader leaves every group as it was, whatever assignments
-- it carries.
pub sync_enter-follower :
    (c : Coordinator) (group mid : Bytes) (generation : ℕ) (assignments : List (Bytes × Bytes))
    (g : Group) (j : Bytes)
    → Dict.get c.groups group ≡ some g
    → names g.leader mid ≡ false
    → Dict.get (sync_enter c group mid generation assignments).1.groups j ≡ Dict.get c.groups j
unfolding sync_enter
sync_enter-follower c group mid generation assignments g j e n =
    rw e (same_put c group j g _ e (sync_start-follower mid generation assignments g n))

kept_or_dropped :
    (g : Group) (left : Members) (mid : Bytes) (m : Member)
    → Dict.get left mid ≡ some m
    → ((after_expiry g left).state ≡ g.state)
      × ((after_expiry g left).generation ≡ g.generation)
      × ((after_expiry g left).members ≡ left)
unfolding Dict.get
kept_or_dropped g [] mid m e = cc
kept_or_dropped g (n ∷ ns) mid m e = elim (Bool-cases (lost_leader g.leader (n ∷ ns))) [
  | inl lost ↦ rw lost (refl, refl, refl)
  | inr kept ↦ rw kept (refl, refl, refl)
]

-- While a member is live, an expiry changes only the members.
expire_stale-live :
    (g : Group) (mid : Bytes) (m : Member) (now : ℕ)
    → Dict.get g.members mid ≡ some m
    → is_live now m ≡ true
    → ((expire_stale now g).state ≡ g.state)
      × ((expire_stale now g).generation ≡ g.generation)
      × ((expire_stale now g).members ≡ Dict.retain (λ k n. is_live now n) g.members)
unfolding expire_stale
expire_stale-live g mid m now e live =
    let left = Dict.retain (λ k n. is_live now n) g.members in
    let stays : Dict.get left mid ≡ some m =
      get-retain (λ k n. is_live now n) g.members mid ∙ rw e (rw live refl) in
    elim (Bool-cases (nat_eq (length left) (length g.members))) [
      | inl same ↦ rw same (refl, refl, refl)
      | inr fewer ↦ rw fewer (kept_or_dropped g left mid m stays)
    ]

abbrev live_test : ℕ → Option Member → Option Bool
live_test now none = none
live_test now (some m) = some (is_live now m)

other_member :
    (ms : Members) (mid k : Bytes) (m n : Member) (now : ℕ)
    → Dict.get ms mid ≡ some m
    → Dict.get ms k ≡ some n
    → is_live now m ≡ true
    → is_live now n ≡ false
    → (mid == k) ≡ false
other_member ms mid k m n now e ek live dead = elim (Bool-cases (mid == k)) [
  | inl same ↦
      let both : some m ≡ some n = sym e ∙ ap (Dict.get ms) ((bytes_eq_iff mid k).0 same) ∙ ek in
      let clash : some (is_live now m) ≡ some (is_live now n) = ap (live_test now) both in
      ground (arith, clash, live, dead)
  | inr other ↦ other
]

-- A heartbeat of a live member at the generation of a stable group is answered NONE and leaves the
-- group stable at that generation, though it removes each other member whose session is over.
pub beat-expires :
    (g : Group) (mid k : Bytes) (m n : Member) (now : ℕ)
    → Dict.get g.members mid ≡ some m
    → is_live now m ≡ true
    → g.state ≡ stable
    → Dict.get g.members k ≡ some n
    → is_live now n ≡ false
    → ((beat mid g.generation now g).0 ≡ no_error)
      × ((beat mid g.generation now g).1.state ≡ stable)
      × ((beat mid g.generation now g).1.generation ≡ g.generation)
      × (Dict.get (beat mid g.generation now g).1.members k ≡ none)
unfolding beat
beat-expires g mid k m n now e live st ek dead =
    let (state, generation, members) = expire_stale-live g mid m now e live in
    let left = Dict.retain (λ j o. is_live now o) g.members in
    let stays : Dict.get left mid ≡ some m =
      get-retain (λ j o. is_live now o) g.members mid ∙ rw e (rw live refl) in
    let goes : Dict.get left k ≡ none =
      get-retain (λ j o. is_live now o) g.members k ∙ rw ek (rw dead refl) in
    let gen : nat_eq g.generation g.generation ≡ true = ground arith in
    let apart : (mid == k) ≡ false = other_member g.members mid k m n now e ek live dead in
    rw members (
      rw stays (
        rw generation
          (rw gen (rw state (rw st (refl, refl, refl, get-insert left mid k _ ∙ rw apart goes))))))
