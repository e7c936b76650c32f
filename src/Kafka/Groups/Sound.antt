-- ===== src/Kafka/Groups/Sound.antt =====
-- The invariant of a group of crates/datarail-kafka/src/coordinator.rs: its leader is a member, no
-- assignment stands outside `Stable`, and its generation is never the unknown one.
use hu_gr_datarail.Prelude.{
  ℕ, ◌^◌, ◌<◌, ◌≡◌, sym, ◌∙◌, subst, Bool, true, false, Option, none, some, [], ◌∷◌, Bytes,
  Bytes_eq, nat_eq, nat_eq_iff, length, arith, Bool-cases, inl, inr,
}
use hu_gr_datarail.Prelude.Dict
use hu_gr_datarail.Prelude.Dict.{
  get-insert, get-insert_by, get-remove, get-retain, get-map_values, get-first_key, retain-all,
}
use hu_gr_datarail.Kafka.Groups.{
  Group, Member, Members, new_group, lost_leader, after_expiry, is_live, expire_stale, is_stable,
}

abbrev pub HasLeader : Option Bytes → Members → Type 0
HasLeader leader members = (l : Bytes) → leader ≡ some l → Dict.contains_key members l ≡ true

abbrev pub IsClean : Members → Type 0
IsClean members = (mid : Bytes) (m : Member) → Dict.get members mid ≡ some m → m.assignment ≡ none

pub record IsSound (g : Group) : Type 0 where
  pub leads : HasLeader g.leader g.members
  pub clean : is_stable g.state ≡ false → IsClean g.members
  pub positive : g.generation < 2 ^ 31

pub new_group-IsSound : IsSound new_group
unfolding Dict.get
new_group-IsSound = record { leads = λ l e. cc; clean = λ s mid m e. cc; positive = omega arith }

-- What a sublist of the members inherits.
sub-IsClean :
    (ms left : Members)
    → ((k : Bytes) (m : Member) → Dict.get left k ≡ some m → Dict.get ms k ≡ some m)
    → IsClean ms
    → IsClean left
sub-IsClean ms left sub h mid m e = h mid m (sub mid m e)

pub nil-IsClean : IsClean []
unfolding Dict.get
nil-IsClean mid m e = cc

pub first-HasLeader : (ms : Members) → HasLeader (Dict.first_key ms) ms
first-HasLeader ms l e = get-first_key ms l e

kept-HasLeader :
    (leader : Option Bytes) (ms : Members) → lost_leader leader ms ≡ false → HasLeader leader ms
kept-HasLeader none ms h l e = cc
kept-HasLeader (some k) ms h l e = ground (arith, h, e)

after_expiry-IsSound :
    (g : Group) (left : Members)
    → ((k : Bytes) (m : Member) → Dict.get left k ≡ some m → Dict.get g.members k ≡ some m)
    → IsSound g
    → IsSound (after_expiry g left)
after_expiry-IsSound g [] sub h = record {
  leads = λ l e. cc;
  clean = λ s. nil-IsClean;
  positive = h.positive;
}
after_expiry-IsSound g (m ∷ ms) sub h = elim (Bool-cases (lost_leader g.leader (m ∷ ms))) [
  | inl lost ↦ rw lost (record {
    leads = first-HasLeader (m ∷ ms);
    clean = λ s. sub-IsClean g.members (m ∷ ms) sub (h.clean s);
    positive = h.positive;
  })
  | inr kept ↦ rw kept (record {
    leads = kept-HasLeader g.leader (m ∷ ms) kept;
    clean = λ s. sub-IsClean g.members (m ∷ ms) sub (h.clean s);
    positive = h.positive;
  })
]

keep_if-some :
    (p : Member → Bool) (o : Option Member) (m : Member) → Dict.keep_if p o ≡ some m → o ≡ some m
keep_if-some p none m e = cc
keep_if-some p (some n) m e = ground (arith, e)

live_sub :
    (now : ℕ) (ms : Members) (k : Bytes) (m : Member)
    → Dict.get (Dict.retain (λ mid n. is_live now n) ms) k ≡ some m
    → Dict.get ms k ≡ some m
live_sub now ms k m e =
    keep_if-some (is_live now) (Dict.get ms k) m
      (sym (get-retain (λ mid n. is_live now n) ms k) ∙ e)

pub expire_stale-IsSound : (now : ℕ) (g : Group) → IsSound g → IsSound (expire_stale now g)
unfolding expire_stale
expire_stale-IsSound now g h =
    let left = Dict.retain (λ mid m. is_live now m) g.members in
    elim (Bool-cases (nat_eq (length left) (length g.members))) [
      | inl same ↦ rw same (
          subst (λ ms. IsSound (record g { members = ms }))
            (sym (retain-all (λ mid m. is_live now m) g.members ((nat_eq_iff _ _).0 same))) h)
      | inr fewer ↦ rw fewer (after_expiry-IsSound g left (live_sub now g.members) h)
    ]
