-- ===== src/Server/Group/Laws.antt =====
-- What becomes of the port of a group, server/group/tcp.go.
use chml_frp_frp.Prelude.{
  ℕ, suc, String, ◌≡◌, ◌≢◌, refl, Bool, true, false, Option, none, some, List, [], ◌∷◌, ◌++◌, arith,
  eq_refl, ◌==◌,
}
use chml_frp_frp.Server.Ports.{
  Reply, already_used, granted, acquire, acquire_specified, occupy, release, set, set_name, refused,
}
use chml_frp_frp.Server.Ports.Reserve.{acquired}
use mathlib.Core.Option
use chml_frp_frp.Server.Group.{
  TcpGroup, TcpGroupCtl, new_group, find_group, no_listeners, Request, joined, failed,
  cannot_listen, no_port, join_group, listen, close_listener,
}

module _ (available : ℕ → ℕ → Bool) (now : ℕ) (keys : List ℕ) (r : Request) (c : TcpGroupCtl)
    (fresh : c.groups r.group ≡ none) (nonzero : r.port ≢ 0)
    (free : c.port_manager.free_ports r.port ≡ true) (probe : available 1 r.port ≡ true) where
  abbrev found : TcpGroupCtl
  found = record c {
    groups = set_name r.group (some c.next) c.groups;
    store = set c.next new_group c.store;
    next = suc c.next;
  }

  find_fresh : find_group r.group c ≡ (c.next, found)
  unfolding find_group
  find_fresh = rw (find_group, fresh)

  abbrev opened : TcpGroupCtl
  opened = record found {
    store =
        set c.next
          (record (found.store c.next) {
            group = r.group;
            group_key = r.group_key;
            addr = r.addr;
            port = r.port;
            real_port = r.port;
            listening = true;
            lns = (found.store c.next).lns ++ c.next_listener ∷ [];
          })
          found.store;
    next_listener = suc c.next_listener;
    port_manager = occupy r.proxy_name now r.port c.port_manager;
  }

  own_cell : (c.next == c.next) ≡ true
  own_cell = ground arith

  reply :
      acquire available r.proxy_name now r.port keys c.port_manager
      ≡ (granted r.port, occupy r.proxy_name now r.port c.port_manager)
  reply = acquired available r.proxy_name now r.port keys c.port_manager nonzero free probe

  found_empty : no_listeners (found.store c.next).lns ≡ true
  unfolding new_group
  found_empty = rw (own_cell) refl

  -- The first proxy of a group, on a free port.
  listened :
      (can_listen : String → ℕ → Bool)
      → can_listen r.addr r.port ≡ true
      → listen available now keys can_listen r c ≡ (joined c.next_listener r.port, opened)
  unfolding listen join_group new_group
  listened can_listen ok = rw (find_fresh, found_empty, reply, ok)

  -- If the socket cannot be opened, the port stays in use.
  listen_fails :
      (can_listen : String → ℕ → Bool)
      → can_listen r.addr r.port ≡ false
      → listen available now keys can_listen r c ≡ (
        failed cannot_listen,
        record found { port_manager = occupy r.proxy_name now r.port c.port_manager },
      )
  unfolding listen join_group new_group
  listen_fails can_listen no_socket = rw (find_fresh, found_empty, reply, no_socket)

  abbrev member : TcpGroup
  member = record {
    group = r.group;
    group_key = r.group_key;
    addr = r.addr;
    port = r.port;
    real_port = r.port;
    accept_closed = false;
    listening = true;
    lns = c.next_listener ∷ [];
  }

  cell : opened.store c.next ≡ member
  unfolding new_group
  cell = rw (own_cell) refl

  listener : (c.next_listener == c.next_listener) ≡ true
  listener = ground arith

  abbrev closed_at : ℕ → TcpGroupCtl
  closed_at later = record opened {
    groups = set_name r.group none opened.groups;
    store =
        set c.next (record member { lns = []; accept_closed = true; listening = false })
          opened.store;
    port_manager = release later r.port opened.port_manager;
  }

  closes : (later : ℕ) → close_listener later c.next c.next_listener opened ≡ some (closed_at later)
  unfolding close_listener new_group
  closes later = rw (close_listener, cell, listener)

  free_again :
      (later : ℕ)
      → (release later r.port (occupy r.proxy_name now r.port c.port_manager)).free_ports r.port
        ≡ true
  unfolding occupy release
  free_again later = ground arith

  -- A proxy that is the first of its group, on a free port on which the socket can be opened, joins
  -- with that port; when its listener is closed then, nothing panics, the group is gone, and another
  -- proxy is granted the port.
  pub listen-close :
      (can_listen : String → ℕ → Bool) (later at : ℕ) (other : String)
      → can_listen r.addr r.port ≡ true
      → ((listen available now keys can_listen r c).0 ≡ joined c.next_listener r.port)
        × (Option.map {B = Option ℕ × Reply}
              (λ (d : TcpGroupCtl).
                (d.groups r.group, (acquire available other at r.port keys d.port_manager).0))
              (close_listener later c.next c.next_listener
                (listen available now keys can_listen r c).1)
            ≡ some (none, granted r.port))
  listen-close can_listen later at other ok =
      rw
        (
          listened can_listen ok,
          closes later,
          acquired available other at r.port keys (closed_at later).port_manager nonzero
              (free_again later) probe,
          eq_refl r.group,
        )
        (refl, refl)

  abbrev leaked : TcpGroupCtl
  leaked = record found { port_manager = occupy r.proxy_name now r.port c.port_manager }

  find_again : find_group r.group leaked ≡ (c.next, leaked)
  unfolding find_group
  find_again = rw (find_group, eq_refl r.group)

  refused_again :
      (others : ℕ → ℕ → Bool) (at : ℕ) (ks : List ℕ)
      → acquire others r.proxy_name at r.port ks leaked.port_manager
        ≡ (refused already_used, leaked.port_manager)
  unfolding acquire acquire_specified occupy
  refused_again others at ks = ground arith

  -- A proxy that is the first of its group, on a free port on which the socket cannot be opened, is
  -- refused and leaves the port in use: when it asks again, it is refused as the port is already
  -- used, whatever the probes and the socket say by then, and the group has no listener.
  pub listen-leaks :
      (can_listen again : String → ℕ → Bool) (others : ℕ → ℕ → Bool) (at : ℕ) (ks : List ℕ)
      → can_listen r.addr r.port ≡ false
      → ((listen available now keys can_listen r c).0 ≡ failed cannot_listen)
        × ((listen others at ks again r (listen available now keys can_listen r c).1).0
            ≡ failed (no_port already_used))
        × (no_listeners ((listen available now keys can_listen r c).1.store c.next).lns ≡ true)
  unfolding listen join_group new_group
  listen-leaks can_listen again others at ks no_socket =
      rw (listen_fails can_listen no_socket, find_again, found_empty, refused_again others at ks)
        (refl, refl, refl)
