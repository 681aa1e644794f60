-- ===== src/Mm/ForwardList/Chain.antt =====
-- The nodes of a linked list as a list of addresses: what each operation does to it.
use hecto_os.Base.{
  ℕ, zero, suc, ◌≤◌, ◌<◌, ◌≡◌, ◌≢◌, refl, subst, ◌∙◌, inl, inr, true, false, not, some, List, [],
  ◌∷◌, ◌==◌, Bool-cases, length, arith,
}
use hecto_os.Mm.FrameAllocator.{holds, forget}
use hecto_os.Mm.ForwardList.{
  Links, ForwardList, set_next, push_front, pop_front, remove_loop, remove_node,
}

-- From `p` on the links go through `nodes` and end; no node stands twice.
abbrev pub Chain : Links → ℕ → List ℕ → Type 0
Chain next p [] = p ≡ 0
Chain next p (node ∷ nodes) =
    (p ≡ node) × (0 < node) × (holds node nodes ≡ false) × Chain next (next node) nodes

-- A write to a node that does not stand in a chain leaves it.
Chain-set_next :
    (next : Links) (m value p : ℕ) (nodes : List ℕ)
    → holds m nodes ≡ false
    → Chain next p nodes
    → Chain (set_next next m value) p nodes
unfolding set_next holds
Chain-set_next next m value p [] apart c = c
Chain-set_next next m value p (node ∷ nodes) apart (at, some_node, once, c) =
    let other : (node == m) ≡ false = ground (arith, apart) in
    let rest : holds m nodes ≡ false = ground (arith, apart) in
    (at, some_node, once, rw other (Chain-set_next next m value (next node) nodes rest c))

-- A node that is not in the list comes to its front.
pub push_front-Chain :
    (node : ℕ) (nodes : List ℕ) (l : ForwardList)
    → 0 < node
    → holds node nodes ≡ false
    → Chain l.next l.head nodes
    → Chain (push_front node l).next (push_front node l).head (node ∷ nodes)
unfolding push_front set_next
push_front-Chain node nodes l some_node fresh c =
    let here : (node == node) ≡ true = ground arith in
    (refl, some_node, fresh, rw here (Chain-set_next l.next node l.head l.head nodes fresh c))

-- The first node goes, and the others stay in order.
pub pop_front-Chain :
    (node : ℕ) (nodes : List ℕ) (l : ForwardList)
    → Chain l.next l.head (node ∷ nodes)
    → (l' : ForwardList) × (pop_front l ≡ some l')
      × Chain l'.next l'.head nodes
      × (l'.next node ≡ 0)
unfolding pop_front set_next
pop_front-Chain node nodes l (at, some_node, once, c) =
    let there : not (l.head == 0) ≡ true = ground arith in
    let here : (node == node) ≡ true = ground arith in
    (
      record { head = l.next l.head; next = set_next l.next l.head 0 },
      rw there refl,
      rw at (Chain-set_next l.next node 0 (l.next node) nodes once c),
      rw at (rw here refl),
    )

holds-forget :
    (n node : ℕ) (nodes : List ℕ) → holds n nodes ≡ false → holds n (forget node nodes) ≡ false
unfolding holds forget
holds-forget n node [] h = h
holds-forget n node (m ∷ nodes) h = ground (arith, holds-forget n node nodes)

remove_loop-Chain :
    (fuel node at : ℕ) (nodes : List ℕ) (next : Links)
    → length nodes ≤ fuel
    → 0 < node
    → holds node nodes ≡ true
    → holds at nodes ≡ false
    → Chain next (next at) nodes
    → (next' : Links) × (remove_loop fuel node at next ≡ some next')
      × Chain next' (next' at) (forget node nodes)
      × ((m : ℕ) → m ≢ at → holds m nodes ≡ false → next' m ≡ next m)
unfolding remove_loop set_next holds forget
remove_loop-Chain fuel node at [] next enough some_node there apart c = absurd (cc)
remove_loop-Chain zero node at (n ∷ nodes) next enough some_node there apart c =
    absurd (omega arith)
remove_loop-Chain (suc fuel) node at (n ∷ nodes) next enough some_node there apart
      (first, pos, once, c) =
    elim (Bool-cases (n == node)) [
      | inl found ↦
          let same : n ≡ node = ground (arith, found) in
          let test : (next at == node) ≡ true = ground (arith, first, found) in
          let here : (at == at) ≡ true = ground arith in
          let outside : holds at nodes ≡ false = ground (arith, apart) in
          let c' = subst (λ (m : ℕ). Chain next (next m) nodes) same c in
          (
            set_next next at (next node),
            rw test refl,
            rw (found, here) (Chain-set_next next at (next node) (next node) nodes outside c'),
            λ m ne h. ground (arith, ne),
          )
      | inr on ↦
          let further : (next at == node) ≡ false = ground (arith, first, on) in
          let not_null : (next at == 0) ≡ false = ground (arith, first) in
          let deeper : holds node nodes ≡ true = ground (arith, there, on) in
          let outside : holds at nodes ≡ false = ground (arith, apart) in
          let apart_n : at ≢ n = ground (arith, apart) in
          let (next', done, chain, others) =
            remove_loop-Chain fuel node n nodes next (omega arith) some_node deeper once c in
          (
            next',
            rw (further, not_null) (rw first done),
            rw on (others at apart_n outside ∙ first, pos, holds-forget n node nodes once, chain),
            λ m ne h. others m (ground (arith, h)) (ground (arith, h)),
          )
    ]

-- A node of the list is taken out, and the others stay in order: one round for each node suffices.
pub remove_node-Chain :
    (fuel node : ℕ) (nodes : List ℕ) (l : ForwardList)
    → length nodes ≤ fuel
    → 0 < node
    → holds node nodes ≡ true
    → Chain l.next l.head nodes
    → (l' : ForwardList) × (remove_node fuel node l ≡ some l')
      × Chain l'.next l'.head (forget node nodes)
unfolding remove_node holds forget
remove_node-Chain fuel node [] l enough some_node there c = absurd (cc)
remove_node-Chain fuel node (n ∷ nodes) l enough some_node there (first, pos, once, c) =
    elim (Bool-cases (n == node)) [
      | inl found ↦
          let same : n ≡ node = ground (arith, found) in
          let test : (l.head == node) ≡ true = ground (arith, first, found) in
          (
            record l { head = l.next node },
            rw test refl,
            rw found (subst (λ (m : ℕ). Chain l.next (l.next m) nodes) same c),
          )
      | inr on ↦
          let further : (l.head == node) ≡ false = ground (arith, first, on) in
          let not_null : (l.head == 0) ≡ false = ground (arith, first) in
          let deeper : holds node nodes ≡ true = ground (arith, there, on) in
          let (next', done, chain, _) =
            remove_loop-Chain fuel node n nodes l.next (omega arith) some_node deeper once c in
          let done' : remove_loop fuel node l.head l.next ≡ some next' = rw first done in
          (
            record l { next = next' },
            rw (further, not_null) (rw done' refl),
            rw on (first, pos, holds-forget n node nodes once, chain),
          )
    ]
