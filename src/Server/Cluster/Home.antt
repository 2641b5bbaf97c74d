-- ===== src/Server/Cluster/Home.antt =====
-- A user clear of the axes has a home whenever it logs in.
use rust_distributed_gameser.Prelude.{
  ℕ, ◌≡◌, true, Option, none, some, Option-cases, inl, inr, arith, List, done,
}
use rust_distributed_gameser.Float.{Float}
use rust_distributed_gameser.Float.Laws.{IsIeee}
use rust_distributed_gameser.HashMap.{HashMap, get, contains_key}
use rust_distributed_gameser.HashMap.Keys.{int_key}
use rust_distributed_gameser.Common.Basic.{User, Velocity, RectScope}
use rust_distributed_gameser.Common.Basic.Laws.{IsInWorld}
use rust_distributed_gameser.Common.Node.{NodeInfo, StateInfo}
use rust_distributed_gameser.Common.Message.{Json, Message, RegisterResp}
use rust_distributed_gameser.Config.{GameServerConf}
use rust_distributed_gameser.MapTool.{MapTag, map_tag_key, pos2map_tag}
use rust_distributed_gameser.MapTool.Bounds.{IsGridTag, IsClearOfAxis, pos2map_tag-IsGridTag}
use rust_distributed_gameser.World.State.{World, Map, find_user}
use rust_distributed_gameser.World.Users.{tag_of_user, add_user, remove_user}
use rust_distributed_gameser.World.Users.Logout.{find_user-add_user, remove_user-add_user}
use rust_distributed_gameser.Server.Cluster.{Cluster, Reach}
use rust_distributed_gameser.Server.Cluster.Whole.{IsWhole, IsWhole-IsGridTag, Reach-AreSound}

module _ {F : Type 0} ⦃fl : Float F⦄ where
  held :
      (t : MapTag) (maps : HashMap MapTag (Map F))
      → contains_key t maps ≡ true
      → (m : Map F) × (get t maps ≡ some m)
  unfolding contains_key
  held t maps h = elim (Option-cases (get t maps)) [
    | inl miss ↦ absurd (ground arith)
    | inr hit ↦ hit
  ]

  tag-IsGridTag :
      (laws : IsIeee F) (n : ℕ) (u : User F)
      → n ≡ 200_000
      → IsInWorld u.position
      → IsClearOfAxis laws u.position.x
      → IsClearOfAxis laws u.position.y
      → IsGridTag F (pos2map_tag n u.position)
  tag-IsGridTag laws n u e inside ox oy = rw e (pos2map_tag-IsGridTag laws u.position inside ox oy)

  home_of :
      (laws : IsIeee F) (conf : GameServerConf F) (w : World F) (u : User F)
      → IsWhole w
      → IsInWorld u.position
      → IsClearOfAxis laws u.position.x
      → IsClearOfAxis laws u.position.y
      → (m : Map F) × (get (tag_of_user w u) w.maps ≡ some m)
  home_of laws conf w u whole inside ox oy = held (tag_of_user w u) w.maps (
      (IsWhole-IsGridTag conf w (tag_of_user w u) whole).1
        (tag-IsGridTag laws w.area_len u (whole.1 (tag_of_user w u)).1 inside ox oy))

module _ {F : Type 0} ⦃fl : Float F⦄ ⦃jm : Json Message⦄ ⦃jv : Json (Velocity F)⦄
    ⦃ju : Json (User F)⦄ ⦃js : Json (RectScope F)⦄ ⦃jl : Json (List (User F))⦄
    ⦃jf : Json (StateInfo F)⦄ ⦃jn : Json NodeInfo⦄ ⦃jr : Json RegisterResp⦄ where
  -- At any time of a run of a master and a slave, a user who logs in at the master inside the world,
  -- each coordinate positive, or negative and not so near to 0 that its quotient by the side of a
  -- map rounds to 0, stands in the map of its position, and its logout then does not panic and takes
  -- it out of that map and of the list.
  pub ever_home :
      (laws : IsIeee F) (conf conf' : GameServerConf F) (found : Option NodeInfo) (c : Cluster F)
      (u : User F)
      → Reach conf conf' found c
      → IsInWorld u.position
      → IsClearOfAxis laws u.position.x
      → IsClearOfAxis laws u.position.y
      → let w = c.master.server.world in
        (find_user (add_user u w).maps (tag_of_user w u) u.id ≡ some u)
        × ((w' : World F) × (remove_user u.id (add_user u w) ≡ done w')
            × (get u.id w'.users ≡ none)
            × (find_user w'.maps (tag_of_user w u) u.id ≡ none))
  ever_home laws conf conf' found c u reach inside ox oy =
      let w = c.master.server.world in
      let (m, hit) =
        home_of laws conf w u (Reach-AreSound conf conf' found reach).0.0 inside ox oy in
      let (w', run, unlisted, gone, rest, others) = remove_user-add_user u w m hit in
      (find_user-add_user u w m hit, (w', run, unlisted, gone))
