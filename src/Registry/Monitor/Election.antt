-- ===== src/Registry/Monitor/Election.antt =====
-- The messages of an election.
use rust_distributed_gameser.Prelude.{
  ◌≡◌, ◌≢◌, ◌∙◌, refl, sym, ap, some, arith, List, [], ◌∷◌, In, here, there, Outcome, done,
}
use rust_distributed_gameser.Prelude.Text.{Text, Text_discrete}
use rust_distributed_gameser.Float.{Float}
use rust_distributed_gameser.HashMap.{HashMap, get, remove, keys}
use rust_distributed_gameser.HashMap.Keys.{text_key}
use rust_distributed_gameser.HashMap.Laws.{get-remove}
use rust_distributed_gameser.HashMap.Entries.{In-get}
use rust_distributed_gameser.Common.Node.{NodeInfo, get_key}
use rust_distributed_gameser.Common.Message.{Json, Message, PeerIdentity, ZmqMessage, to_router_msg}
use rust_distributed_gameser.Common.Message.Build
use rust_distributed_gameser.Registry.State.{AppContext}
use rust_distributed_gameser.Registry.Balance.{get_min_load_node}
use rust_distributed_gameser.Registry.Valid.{HasPeers}
use rust_distributed_gameser.Registry.Monitor.{
  send_to, send_change_master, elect_from, elect_master,
}

In-keys :
    {V : Type 0} (k : Text) (m : HashMap Text V) → In k (keys m) → (v : V) × (get k m ≡ some v)
unfolding get
In-keys k [] i = elim i [ ]
In-keys k ((j, v) ∷ m) (here e) = (v, ground arith)
In-keys k ((j, v) ∷ m) (there i) = elim (Text_discrete j k) [
  | yes p ↦ (v, ground arith)
  | no n ↦ (let (w, hit) = In-keys k m i in (w, ground arith))
]

keys-In : {V : Type 0} (k : Text) (v : V) (m : HashMap Text V) → In (k, v) m → In k (keys m)
keys-In k v [] i = elim i [ ]
keys-In k v ((j, w) ∷ m) (here e) = here (ap (λ z. z.0) e)
keys-In k v ((j, w) ∷ m) (there i) = there (keys-In k v m i)

module _ {F : Type 0} ⦃fl : Float F⦄ ⦃jm : Json Message⦄ ⦃jn : Json NodeInfo⦄ where
  -- A run that changes nothing but what was sent, and sends a message to some peers.
  abbrev Sends : Message → List Text → AppContext F → Outcome (AppContext F) → Type 0
  Sends msg ks ctx o =
      (more : List ZmqMessage) × (o ≡ done (record ctx { sent = more }))
      × ((z : ZmqMessage) → In z ctx.sent → In z more)
      × ((k : Text) (peer : PeerIdentity)
          → In k ks
          → get k ctx.node_id_peer_id_map ≡ some peer
          → In (to_router_msg peer msg) more)

  send_change_master-Sends :
      (master : Text) (n : NodeInfo) (ks : List Text) (ctx : AppContext F)
      → ((k : Text) → In k ks → (peer : PeerIdentity) × (get k ctx.node_id_peer_id_map ≡ some peer))
      → Sends (Build.change_master master n) ks ctx (send_change_master master n ks ctx)
  unfolding send_change_master send_to
  send_change_master-Sends master n [] ctx peers =
      (ctx.sent, refl, λ z i. i, λ k peer i. elim i [ ])
  send_change_master-Sends master n (k ∷ ks) ctx peers =
      let (peer, hit) = peers k (here refl) in
      let msg = to_router_msg peer (Build.change_master master n) in
      let (more, run, keep, told) =
        send_change_master-Sends master n ks (record ctx { sent = msg ∷ ctx.sent })
          (λ j i. peers j (there i)) in
      (
        more,
        rw (hit, run) refl,
        λ z i. keep z (there i),
        λ j other i e. elim i [
          | there l ↦ told j other l e
          | here p ↦
              (let same : some peer ≡ some other =
                  sym hit ∙ ap (λ q. get q ctx.node_id_peer_id_map) (sym p) ∙ e in
                let one : peer ≡ other = ground arith in rw (← one) (keep msg (here refl)))
        ],
      )

  -- An election whose choice is known tells the chosen node and all others, and changes nothing but
  -- what was sent.
  pub elect_from-Sends :
      (n : NodeInfo) (peer : PeerIdentity) (ctx : AppContext F)
      → HasPeers ctx
      → get (get_key n) ctx.node_id_peer_id_map ≡ some peer
      → (more : List ZmqMessage) × (elect_from (some (some n)) ctx
          ≡ done (record ctx { sent = more }))
        × In (to_router_msg peer (Build.convert_to_master (get_key n))) more
        × ((k : Text) (m : NodeInfo) (other : PeerIdentity)
            → get k ctx.node_list ≡ some m
            → k ≢ get_key n
            → get k ctx.node_id_peer_id_map ≡ some other
            → In (to_router_msg other (Build.change_master (get_key n) n)) more)
  unfolding send_to
  elect_from-Sends n peer ctx peers hit =
      let rest = remove (get_key n) ctx.node_list in
      let ctx1 = record ctx {
        sent = to_router_msg peer (Build.convert_to_master (get_key n)) ∷ ctx.sent;
      } in
      let (more, run, keep, told) = send_change_master-Sends (get_key n) n (keys rest) ctx1 (λ k i.
        let (m, there_k) = In-keys k rest i in
        peers k m (ground (arith, get-remove k (get_key n) ctx.node_list))) in
      (
        more,
        rw (hit, run) refl,
        keep _ (here refl),
        λ k m other e ne at.
            told k other
              (keys-In k m rest
                (In-get k m rest (ground (arith, get-remove k (get_key n) ctx.node_list))))
              at,
      )

  -- Where the registry centre knows the peer of every node, an election with a choice runs to its
  -- end, leaves the nodes and the master as they were, tells the chosen node to convert and tells
  -- every other node of the list who the new master is.
  pub election_tells_all :
      (n : NodeInfo) (peer : PeerIdentity) (ctx : AppContext F)
      → HasPeers ctx
      → get_min_load_node ctx.node_state ctx.node_list ≡ some (some n)
      → get (get_key n) ctx.node_id_peer_id_map ≡ some peer
      → (more : List ZmqMessage) × (elect_master ctx ≡ done (record ctx { sent = more }))
        × In (to_router_msg peer (Build.convert_to_master (get_key n))) more
        × ((k : Text) (m : NodeInfo) (other : PeerIdentity)
            → get k ctx.node_list ≡ some m
            → k ≢ get_key n
            → get k ctx.node_id_peer_id_map ≡ some other
            → In (to_router_msg other (Build.change_master (get_key n) n)) more)
  unfolding elect_master
  election_tells_all n peer ctx peers least hit = rw least (elect_from-Sends n peer ctx peers hit)
