-- ===== src/Mm/ForwardList/Tests.antt =====
-- A list of three nodes: 8 before 16 before 24.
use hecto_os.Base.{ℕ, ◌≡◌, refl, some, List, [], ◌∷◌, ◌==◌, if◌then◌else◌, arith}
use hecto_os.Mm.FrameAllocator.{holds, forget}
use hecto_os.Mm.ForwardList.{ForwardList, push_front, pop_front, remove_node}
use hecto_os.Mm.ForwardList.Chain.{Chain, push_front-Chain, pop_front-Chain, remove_node-Chain}

abbrev three : ForwardList
three = record { head = 8; next = λ m. if m == 8 then 16 else if m == 16 then 24 else 0 }

abbrev nodes : List ℕ
nodes = 8 ∷ 16 ∷ 24 ∷ []

three-Chain : Chain three.next three.head nodes
unfolding holds
three-Chain = (refl, omega arith, refl, (refl, omega arith, refl, (refl, omega arith, refl, refl)))

push_front-Chain_example : Chain (push_front 40 three).next (push_front 40 three).head (40 ∷ nodes)
unfolding holds
push_front-Chain_example = push_front-Chain 40 nodes three (omega arith) refl three-Chain

pop_front-Chain_example :
    (l' : ForwardList) × (pop_front three ≡ some l')
    × Chain l'.next l'.head (16 ∷ 24 ∷ [])
    × (l'.next 8 ≡ 0)
pop_front-Chain_example = pop_front-Chain 8 (16 ∷ 24 ∷ []) three three-Chain

remove_node-Chain_example :
    (l' : ForwardList) × (remove_node 3 16 three ≡ some l')
    × Chain l'.next l'.head (forget 16 nodes)
unfolding holds
remove_node-Chain_example =
    remove_node-Chain 3 16 nodes three (omega arith) (omega arith) refl three-Chain
