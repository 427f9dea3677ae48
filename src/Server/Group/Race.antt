-- ===== src/Server/Group/Race.antt =====
-- A proxy that joins a group between the two sections of `Listen`, server/group/tcp.go.
use chml_frp_frp.Prelude.{
  ℕ, suc, String, ◌≡◌, ◌≢◌, refl, Bool, true, false, none, some, List, [], ◌∷◌, ◌++◌, ◌==◌, arith,
  eq_refl,
}
use chml_frp_frp.Server.Ports.{occupy, release, set, set_name}
use chml_frp_frp.Server.Ports.Reserve.{acquired}
use chml_frp_frp.Server.Group.{
  TcpGroupCtl, find_group, Request, joined, join_group, close_listener, no_listeners,
  reaches_listener,
}

-- A group whose one listener listens on a port that the manager has handed out.
pub record Single (name : String) (port g l : ℕ) (c : TcpGroupCtl) : Type 0 where
  pub known : c.groups name ≡ some g
  pub named : (c.store g).group ≡ name
  pub on_port : (c.store g).real_port ≡ port
  pub open_channel : (c.store g).accept_closed ≡ false
  pub only : (c.store g).lns ≡ l ∷ []
  pub ctx : ℕ
  pub in_use : c.port_manager.used_ports port ≡ some ctx

module _ (available : ℕ → ℕ → Bool) (now later g l : ℕ) (keys : List ℕ)
    (can_listen : String → ℕ → Bool) (r : Request) (c : TcpGroupCtl)
    (single : Single r.group r.port g l c) (nonzero : r.port ≢ 0)
    (probe : available 1 r.port ≡ true) (ok : can_listen r.addr r.port ≡ true) where
  -- The group after its listener is closed.
  abbrev pub removed : TcpGroupCtl
  removed = record c {
    groups = set_name r.group none c.groups;
    store =
        set g (record (c.store g) { lns = []; accept_closed = true; listening = false }) c.store;
    port_manager = release now r.port c.port_manager;
  }

  same : (n : ℕ) → (n == n) ≡ true
  same n = ground arith

  closes : close_listener now g l c ≡ some removed
  unfolding close_listener
  closes = rw (single.only, same l, single.open_channel, single.named, single.on_port)

  finds : find_group r.group c ≡ (g, c)
  unfolding find_group
  finds = rw (find_group, single.known)

  free_again : removed.port_manager.free_ports r.port ≡ true
  unfolding release
  free_again = rw (release, single.in_use, same r.port)

  removed_empty : no_listeners (removed.store g).lns ≡ true
  removed_empty = rw (same g)

  abbrev rejoined : TcpGroupCtl
  rejoined = record removed {
    store =
        set g
          (record (removed.store g) {
            group = r.group;
            group_key = r.group_key;
            addr = r.addr;
            port = r.port;
            real_port = r.port;
            listening = true;
            lns = (removed.store g).lns ++ c.next_listener ∷ [];
          })
          removed.store;
    next_listener = suc c.next_listener;
    port_manager = occupy r.proxy_name later r.port removed.port_manager;
  }

  rejoins :
      join_group available later keys can_listen r g removed
      ≡ (joined c.next_listener r.port, rejoined)
  unfolding join_group
  rejoins = rw (
    removed_empty,
    acquired available r.proxy_name later r.port keys removed.port_manager nonzero free_again probe,
    ok,
  )

  panics : close_listener later g c.next_listener rejoined ≡ none
  unfolding close_listener
  panics = rw (same g, same c.next_listener)

  -- `Listen` finds the group in one section and joins it in another. If the one listener of the group
  -- is closed in between, the proxy that found the group joins it after it was removed: it gets its
  -- port, but the controller does not know the group any more, no connection reaches a listener of
  -- the group as its channel is closed, and closing the new listener panics.
  pub find-close-join :
      (find_group r.group c ≡ (g, c))
      × (close_listener now g l c ≡ some removed)
      × ((join_group available later keys can_listen r g removed).0 ≡ joined c.next_listener r.port)
      × ((join_group available later keys can_listen r g removed).1.groups r.group ≡ none)
      × (reaches_listener ((join_group available later keys can_listen r g removed).1.store g)
          ≡ false)
      × (close_listener later g c.next_listener
            (join_group available later keys can_listen r g removed).1
          ≡ none)
  unfolding reaches_listener
  find-close-join = (
    finds,
    closes,
    rw (rejoins) refl,
    rw (rejoins, eq_refl r.group) refl,
    rw (rejoins, same g) refl,
    rw (rejoins) panics,
  )
