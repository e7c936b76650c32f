-- ===== src/Keyrouter/Runs.antt =====
-- A router of three nodes.
use hu_gr_datarail.Prelude.{◌≡◌, ◌⊎◌, some, [], ◌∷◌, Bytes}
use hu_gr_datarail.Keyrouter.{Router, add_node, remove_node, route}
use hu_gr_datarail.Keyrouter.Churn.{route-add_node, route-remove_node}

abbrev three : Router
three = record { nodes = 1 ∷ 2 ∷ 3 ∷ [] }

abbrev order_key : Bytes
order_key = 111 ∷ 45 ∷ 55 ∷ []

route-add_node_example :
    (route (add_node three 4).1 order_key ≡ route three order_key)
    ⊎ (route (add_node three 4).1 order_key ≡ some 4)
route-add_node_example = route-add_node three 4 order_key

route-remove_node_example :
    (route (remove_node three 2).1 order_key ≡ route three order_key)
    ⊎ (route three order_key ≡ some 2)
route-remove_node_example = route-remove_node three 2 order_key
