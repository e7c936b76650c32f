-- ===== src/Keyrouter.antt =====
-- crates/datarail-keyrouter/src/lib.rs: rendezvous routing of keys to consumer nodes. A u64 is a
-- number below 2 ^ 64.
pub mod Churn
mod Runs
use hu_gr_datarail.Prelude.{
  ℕ, ◌+◌, ◌*◌, ◌/◌, ◌%◌, ◌^◌, bit_xor, Bool, true, false, ◌&&◌, ◌||◌, Option, none, some, List, [],
  ◌∷◌, ◌++◌, Bytes, ltb, nat_eq, if◌then◌else◌,
}

unfoldable pub mix64 : ℕ → ℕ
mix64 x =
    let a = bit_xor x (x / 2 ^ 33) in
    let b = a * 0xff51_afd7_ed55_8ccd % 2 ^ 64 in
    let c = bit_xor b (b / 2 ^ 33) in
    let d = c * 0xc4ce_b9fe_1a85_ec53 % 2 ^ 64 in bit_xor d (d / 2 ^ 33)

unfoldable pub fnv_loop : ℕ → Bytes → ℕ
fnv_loop h [] = h
fnv_loop h (b ∷ bs) = fnv_loop (bit_xor h b * 0x100_0000_01b3 % 2 ^ 64) bs

abbrev pub fnv1a : Bytes → ℕ
fnv1a bytes = fnv_loop 0xcbf2_9ce4_8422_2325 bytes

unfoldable pub weight : ℕ → ℕ → ℕ
weight key_hash node = mix64 (bit_xor key_hash (mix64 node))

pub record Router : Type 0 where
  pub nodes : List ℕ

unfoldable pub has : List ℕ → ℕ → Bool
has [] id = false
has (n ∷ ns) id = nat_eq n id || has ns id

unfoldable pub add_node : Router → ℕ → Bool × Router
add_node r id =
    if has r.nodes id then (false, r) else (true, record { nodes = r.nodes ++ (id ∷ []) })

unfoldable pub without_first : List ℕ → ℕ → List ℕ
without_first [] id = []
without_first (n ∷ ns) id = let rest = without_first ns id in if nat_eq n id then ns else n ∷ rest

unfoldable pub remove_node : Router → ℕ → Bool × Router
remove_node r id =
    if has r.nodes id then (true, record { nodes = without_first r.nodes id }) else (false, r)

unfoldable pub from_nodes : Router → List ℕ → Router
from_nodes r [] = r
from_nodes r (n ∷ ns) = from_nodes (add_node r n).1 ns

-- (weight, node)
abbrev pub Candidate : Type 0
Candidate = Option (ℕ × ℕ)

abbrev pub is_better : ℕ → ℕ → Candidate → Bool
is_better w node none = true
is_better w node (some (bw, bn)) = ltb bw w || (nat_eq w bw && ltb node bn)

abbrev pub improve : ℕ → ℕ → Candidate → Candidate
improve w node best = if is_better w node best then some (w, node) else best

-- The loop of `route_keyhash` over the nodes that are left.
unfoldable pub best_of : ℕ → Candidate → List ℕ → Candidate
best_of key_hash best [] = best
best_of key_hash best (node ∷ nodes) =
    best_of key_hash (improve (weight key_hash node) node best) nodes

abbrev pub node_of : Candidate → Option ℕ
node_of none = none
node_of (some (w, n)) = some n

unfoldable pub route_keyhash : Router → ℕ → Option ℕ
route_keyhash r key_hash = node_of (best_of key_hash none r.nodes)

unfoldable pub route : Router → Bytes → Option ℕ
route r key = route_keyhash r (fnv1a key)
