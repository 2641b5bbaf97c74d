-- ===== src/Registry/Balance/Minimum.antt =====
-- The node that the balancing picks carries the least load.
use rust_distributed_gameser.Prelude.{
  ◌≡◌, ◌≢◌, ap, refl, true, false, some, [], ◌∷◌, In, here, there, arith, inl, inr, ◌⊎◌, Bool-cases,
  ◌≤◌,
}
use rust_distributed_gameser.Prelude.Text.{Text}
use rust_distributed_gameser.Float.{Float, ◌≼◌, lt, eq}
use rust_distributed_gameser.Float.Laws.{IsIeee}
use rust_distributed_gameser.HashMap.{HashMap, get}
use rust_distributed_gameser.HashMap.Keys.{text_key}
use rust_distributed_gameser.HashMap.Entries.{In-get}
use rust_distributed_gameser.Common.Node.{NodeInfo}
use rust_distributed_gameser.Registry.State.{NodeState}
use rust_distributed_gameser.Registry.Balance.{is_lighter, min_load, get_min_load_node}

module _ {F : Type 0} ⦃fl : Float F⦄ (laws : IsIeee F) where
  -- The load factor is a number.
  abbrev pub IsNumber : NodeState F → Type 0
  IsNumber s = s.state_info.load_factor ≼ s.state_info.load_factor

  abbrev pub AreNumbers : HashMap Text (NodeState F) → Type 0
  AreNumbers states = (k : Text) (s : NodeState F) → In (k, s) states → IsNumber s

  not_lighter_self : (s : NodeState F) → is_lighter s s ≡ false
  unfolding is_lighter
  not_lighter_self s = ground arith

  lighter_below :
      (s m r : NodeState F)
      → is_lighter s m ≡ true
      → is_lighter s r ≡ false
      → is_lighter m r ≡ false
  unfolding is_lighter
  lighter_below s m r h n =
      let x = s.state_info.load_factor in
      let y = m.state_info.load_factor in
      let z = r.state_info.load_factor in
      ground
        (arith, laws.le_trans x y z, laws.le_trans z x y, laws.le_trans y z x, laws.le_trans z y x)

  not_lighter_trans :
      (s m r : NodeState F)
      → IsNumber s
      → IsNumber m
      → IsNumber r
      → is_lighter s m ≡ false
      → is_lighter m r ≡ false
      → is_lighter s r ≡ false
  unfolding is_lighter
  not_lighter_trans s m r a b c h n =
      let x = s.state_info.load_factor in
      let y = m.state_info.load_factor in
      let z = r.state_info.load_factor in
      ground (
        arith,
        laws.le_total x y a b,
        laws.le_total y z b c,
        laws.le_total x z a c,
        laws.le_trans x y z,
        laws.le_trans z y x,
        laws.le_trans x z y,
        laws.le_trans y x z,
      )

  -- Where the loop ends there is an entry that was met, and none is lighter.
  pub record IsMinimum (states : HashMap Text (NodeState F)) (start end : Text × NodeState F)
      : Type 0 where
    pub met : (end ≡ start) ⊎ In end states
    pub number : IsNumber end.1
    pub below_start : is_lighter start.1 end.1 ≡ false
    pub below : (k : Text) (s : NodeState F) → In (k, s) states → is_lighter s end.1 ≡ false

  taken :
      (k : Text) (s : NodeState F) (states : HashMap Text (NodeState F)) (key : Text)
      (min : NodeState F) (end : Text × NodeState F)
      → is_lighter s min ≡ true
      → IsMinimum states (k, s) end
      → IsMinimum ((k, s) ∷ states) (key, min) end
  taken k s states key min end h v = record {
    met = inr (elim v.met [ inl p ↦ here p | inr i ↦ there i ]);
    number = v.number;
    below_start = lighter_below s min end.1 h v.below_start;
    below =
        λ j q i. elim i [ here p ↦ rw (ap (λ z. z.1) p) v.below_start | there i' ↦ v.below j q i' ];
  }

  kept :
      (k : Text) (s : NodeState F) (states : HashMap Text (NodeState F)) (key : Text)
      (min : NodeState F) (end : Text × NodeState F)
      → IsNumber min
      → IsNumber s
      → is_lighter s min ≡ false
      → IsMinimum states (key, min) end
      → IsMinimum ((k, s) ∷ states) (key, min) end
  kept k s states key min end n number_s h v =
      let under : is_lighter s end.1 ≡ false =
        not_lighter_trans s min end.1 number_s n v.number h v.below_start in
      record {
        met = elim v.met [ inl p ↦ inl p | inr i ↦ inr (there i) ];
        number = v.number;
        below_start = v.below_start;
        below = λ j q i. elim i [ here p ↦ rw (ap (λ z. z.1) p) under | there i' ↦ v.below j q i' ];
      }

  pub min_load-IsMinimum :
      (states : HashMap Text (NodeState F)) (key : Text) (min : NodeState F)
      → IsNumber min
      → AreNumbers states
      → IsMinimum states (key, min) (min_load states key min)
  unfolding min_load
  min_load-IsMinimum [] key min n ns = record {
    met = inl refl;
    number = n;
    below_start = not_lighter_self min;
    below = λ k s i. elim i [ ];
  }
  min_load-IsMinimum ((k, s) ∷ states) key min n ns =
      let tail : AreNumbers states = λ j q i. ns j q (there i) in
      let number_s : IsNumber s = ns k s (here refl) in
      elim (Bool-cases (is_lighter s min)) [
        | inl h ↦
            (let v = min_load-IsMinimum states k s number_s tail in
              rw h (taken k s states key min (min_load states k s) h v))
        | inr h ↦
            (let v = min_load-IsMinimum states key min n tail in
              rw h (kept k s states key min (min_load states key min) n number_s h v))
      ]

  -- Not to be lighter, in words of the load alone.
  abbrev pub IsNoBetter : NodeState F → NodeState F → Type 0
  IsNoBetter q s =
      (lt q.state_info.load_factor s.state_info.load_factor ≡ false)
      × (eq q.state_info.load_factor s.state_info.load_factor ≡ true
          → (q.state_info.max_connection ≤ s.state_info.max_connection)
            × (q.state_info.max_connection ≡ s.state_info.max_connection
                → s.state_info.current_connection ≤ q.state_info.current_connection))

  not_lighter-IsNoBetter : (q s : NodeState F) → is_lighter q s ≡ false → IsNoBetter q s
  unfolding is_lighter
  not_lighter-IsNoBetter q s h = (ground arith, λ e. (ground arith, λ m. ground arith))

  -- Let there be a node, let the nodes be those that have a state, and let the load factors be
  -- numbers. Then a node is found, without a panic, and no state has a smaller load factor than
  -- that node's, nor with the same load factor a larger number of connections allowed, nor with
  -- both the same fewer connections.
  pub get_min_load_node_lem :
      (states : HashMap Text (NodeState F)) (nodes : HashMap Text NodeInfo)
      → nodes ≢ []
      → ((k : Text) (n : NodeInfo)
          → get k nodes ≡ some n
          → (s : NodeState F) × (get k states ≡ some s))
      → ((k : Text) (s : NodeState F) → In (k, s) states → (n : NodeInfo) × (get k nodes ≡ some n))
      → AreNumbers states
      → (k : Text) × (n : NodeInfo) × (s : NodeState F) × (get_min_load_node states nodes
          ≡ some (some n))
        × (get k nodes ≡ some n)
        × In (k, s) states
        × ((j : Text) (q : NodeState F) → In (j, q) states → IsNoBetter q s)
  unfolding get_min_load_node get
  get_min_load_node_lem states [] some_node has_state has_node numbers = absurd (some_node refl)
  get_min_load_node_lem states ((key, n) ∷ nodes) some_node has_state has_node numbers =
      let (s, e) = has_state key n (ground arith) in
      let start : In (key, s) states = In-get key s states e in
      let v = min_load-IsMinimum states key s (numbers key s start) numbers in
      let r = min_load states key s in
      let there_r : In (r.0, r.1) states = elim v.met [ inl p ↦ rw p start | inr i ↦ i ] in
      let (m, hit) = has_node r.0 r.1 there_r in
      (
        r.0,
        m,
        r.1,
        rw (e, hit),
        hit,
        there_r,
        λ j q i. not_lighter-IsNoBetter q r.1 (v.below j q i),
      )
