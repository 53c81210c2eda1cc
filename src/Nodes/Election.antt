-- ===== src/Nodes/Election.antt =====
-- Which node a health check leaves as the primary.
use gitally.Prelude.{
  ℕ, zero, suc, ◌+◌, ◌≡◌, ◌≢◌, refl, sym, ◌∙◌, subst, Bool, true, false, not, ◌&&◌, Option, none,
  some, some_eq, is_some, List, [], ◌∷◌, arith, ◌==◌, get_elem?, take, Bool-cases, inl, inr, All,
}
use gitally.Nodes.{
  NodeStatus, is_healthy, LocalElector, healthy_at, check_health, new_primary, elect, check_nodes,
  get_shard,
}

abbrev pub IsDown : NodeStatus → Type 0
IsDown n = is_healthy n ≡ false

-- With these nodes: a healthy primary stays; or the first healthy node takes its place; or no node is
-- healthy, and the call returns an error.
pub data Elects (nodes : List NodeStatus) (primary : ℕ) : LocalElector × Bool → Type 0 where
  keeps :
      healthy_at (get_elem? nodes primary) ≡ true
      → Elects nodes primary (record { nodes = nodes; primary_node = primary }, true)
  moves :
      (i : ℕ)
      → healthy_at (get_elem? nodes primary) ≡ false
      → healthy_at (get_elem? nodes i) ≡ true
      → All IsDown (take i nodes)
      → Elects nodes primary (record { nodes = nodes; primary_node = i }, true)
  fails :
      All IsDown nodes
      → Elects nodes primary (record { nodes = nodes; primary_node = primary }, false)

-- From an index on, the primary is not healthy.
abbrev IsDownAt : ℕ → ℕ → List NodeStatus → Type 0
IsDownAt primary i ns = (d : ℕ) → i + d ≡ primary → healthy_at (get_elem? ns d) ≡ false

IsDownAt-tail :
    (primary i : ℕ) (n : NodeStatus) (ns : List NodeStatus)
    → IsDownAt primary i (n ∷ ns)
    → IsDownAt primary (suc i) ns
IsDownAt-tail primary i n ns h d e = h (suc d) (omega (arith, e))

IsDown-head :
    (primary i : ℕ) (n : NodeStatus) (ns : List NodeStatus)
    → IsDownAt primary i (n ∷ ns)
    → (not (i == primary) && is_healthy n) ≡ false
    → IsDown n
unfolding healthy_at
IsDown-head primary i n ns h e = elim (Bool-cases (i == primary)) [
  | inl b ↦ h 0 (ground (arith, b))
  | inr b ↦ sym (rw b refl) ∙ e
]

new_primary-found :
    (primary i k : ℕ) (ns : List NodeStatus)
    → IsDownAt primary i ns
    → new_primary primary i ns ≡ some k
    → (d : ℕ) × (k ≡ i + d) × (healthy_at (get_elem? ns d) ≡ true) × All IsDown (take d ns)
unfolding new_primary healthy_at
new_primary-found primary i k [] h e = cc
new_primary-found primary i k (n ∷ ns) h e =
    elim (Bool-cases (not (i == primary) && is_healthy n)) [
      | inl b ↦ (zero, omega (arith, some_eq i k (sym (rw b refl) ∙ e)), healthy b, tt)
      | inr b ↦
          let (d, p, q, r) =
            new_primary-found primary (suc i) k ns (IsDownAt-tail primary i n ns h)
              (sym (rw b refl) ∙ e) in
          (suc d, omega (arith, p), q, (IsDown-head primary i n ns h b, r))
    ]
  where
    healthy : (not (i == primary) && is_healthy n) ≡ true → is_healthy n ≡ true
    healthy b = ground (arith, b)

new_primary-none :
    (primary i : ℕ) (ns : List NodeStatus)
    → IsDownAt primary i ns
    → new_primary primary i ns ≡ none
    → All IsDown ns
unfolding new_primary
new_primary-none primary i [] h e = tt
new_primary-none primary i (n ∷ ns) h e = elim (Bool-cases (not (i == primary) && is_healthy n)) [
  | inl b ↦ absurd (clash (sym e ∙ rw b refl))
  | inr b ↦ (
    IsDown-head primary i n ns h b,
    new_primary-none primary (suc i) ns (IsDownAt-tail primary i n ns h) (sym (rw b refl) ∙ e),
  )
]
  where
    clash : none ≢ some i
    clash q = cc

All-IsDown-get :
    (ns : List NodeStatus) (i : ℕ) → All IsDown ns → healthy_at (get_elem? ns i) ≡ false
unfolding healthy_at
All-IsDown-get [] i h = refl
All-IsDown-get (n ∷ ns) zero h = h.0
All-IsDown-get (n ∷ ns) (suc i) h = All-IsDown-get ns i h.1

elect-Elects :
    (nodes : List NodeStatus) (primary : ℕ) (o : Option ℕ)
    → healthy_at (get_elem? nodes primary) ≡ false
    → new_primary primary 0 nodes ≡ o
    → Elects nodes primary (elect nodes primary o)
unfolding elect
elect-Elects nodes primary none down e = Elects.fails (
    new_primary-none primary 0 nodes
      (λ d p. subst (λ i. healthy_at (get_elem? nodes i) ≡ false) (sym (omega (arith, p))) down) e)
elect-Elects nodes primary (some k) down e =
    let (d, p, q, r) =
      new_primary-found primary 0 k nodes
        (λ d p. subst (λ i. healthy_at (get_elem? nodes i) ≡ false) (sym (omega (arith, p))) down)
        e in
    let same : d ≡ k = omega (arith, p) in
    Elects.moves k down (subst (λ i. healthy_at (get_elem? nodes i) ≡ true) same q)
      (subst (λ i. All IsDown (take i nodes)) same r)

served : (s : LocalElector) → is_some (get_shard s) ≡ healthy_at (get_elem? s.nodes s.primary_node)
unfolding get_shard
served s = elim (Bool-cases (healthy_at (get_elem? s.nodes s.primary_node))) [
  | inl b ↦ rw b refl
  | inr b ↦ rw b refl
]

Elects-served :
    (nodes : List NodeStatus) (primary : ℕ) (r : LocalElector × Bool)
    → Elects nodes primary r
    → is_some (get_shard r.0) ≡ r.1
Elects-served nodes primary r (Elects.keeps h) = served _ ∙ h
Elects-served nodes primary r (Elects.moves i d h a) = served _ ∙ h
Elects-served nodes primary r (Elects.fails a) = served _ ∙ All-IsDown-get nodes primary a

-- After the health checks a healthy primary stays, else the first healthy node becomes the primary,
-- and there is an error when no node is healthy; `GetShard` answers just when there is no error.
pub check_nodes-Elects :
    (s : LocalElector) (serving : ℕ → Bool)
    → Elects (check_health serving 0 s.nodes) s.primary_node (check_nodes s serving)
      × (is_some (get_shard (check_nodes s serving).0) ≡ (check_nodes s serving).1)
unfolding check_nodes
check_nodes-Elects s serving =
    let nodes = check_health serving 0 s.nodes in
    let elects : Elects nodes s.primary_node (check_nodes s serving) =
      elim (Bool-cases (healthy_at (get_elem? nodes s.primary_node))) [
        | inl b ↦ rw b (Elects.keeps b)
        | inr b ↦ rw b (elect-Elects nodes s.primary_node _ b refl)
      ] in
    (elects, Elects-served nodes s.primary_node (check_nodes s serving) elects)
