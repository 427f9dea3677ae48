-- ===== src/Server/Register/Within.antt =====
-- The limit of the ports of a client, whatever happens to the proxies of all clients,
-- server/control.go.
use chml_frp_frp.Prelude.{
  ℕ, String, ◌≡◌, Bool, none, some, ◌==◌, inl, inr, Bool-cases, Option-cases,
}
use chml_frp_frp.Server.Ports.{set}
use chml_frp_frp.Client.Manager.{lookup}
use chml_frp_frp.Server.Register.{
  Client, Registry, exceeds, begin_register, give_back, started_proxy, end_register, close_proxy,
  stop_client,
}
use chml_frp_frp.Server.Register.Counted.{
  Within, room_begin, room_back, room_refused, room_set, room_delete, room_stop,
}

module _ (max : ℕ) where
  abbrev pub AllWithin : Registry → Type 0
  AllWithin s = (i : ℕ) → Within max (s.clients i)

  change-AllWithin :
      (i : ℕ) (c : Client) (s : Registry)
      → AllWithin s
      → Within max c
      → (j : ℕ) → Within max (set i c s.clients j)
  change-AllWithin i c s v own j = elim (Bool-cases (j == i)) [
    | inl e ↦ rw e own
    | inr e ↦ rw e (v j)
  ]

  pub begin_register-AllWithin :
      (i : ℕ) (name : String) (used : ℕ) (s : Registry)
      → AllWithin s
      → (s.clients i).pending ≡ none
      → AllWithin (begin_register max i name used s).1
  unfolding begin_register
  begin_register-AllWithin i name used s v idle =
      let c = s.clients i in
      elim (Bool-cases (exceeds max used c)) [
        | inl e ↦ rw (begin_register, e) v
        | inr e ↦ elim (Option-cases (s.pxys name)) [
          | inr (j, held) ↦
              rw (begin_register, e, held)
                (change-AllWithin i _ s v (room_refused max c used (v i)))
          | inl free ↦
              rw (begin_register, e, free)
                (change-AllWithin i _ s v (room_begin max c name used (v i) idle e))
        ]
      ]

  give_back-AllWithin :
      (i : ℕ) (name : String) (used : ℕ) (s : Registry)
      → AllWithin s
      → (s.clients i).pending ≡ some (name, used)
      → AllWithin (give_back max i used s)
  give_back-AllWithin i name used s v busy =
      change-AllWithin i _ s v (room_back max (s.clients i) name used (v i) busy)

  started_proxy-AllWithin :
      (i : ℕ) (name : String) (used : ℕ) (s : Registry)
      → AllWithin s
      → (s.clients i).pending ≡ some (name, used)
      → AllWithin (started_proxy max i name used s).1
  started_proxy-AllWithin i name used s v busy = elim (Option-cases (s.pxys name)) [
    | inr (j, held) ↦ rw (started_proxy, held) (give_back-AllWithin i name used s v busy)
    | inl free ↦
        rw (started_proxy, free)
          (change-AllWithin i _ s v (room_set max (s.clients i) name used (v i) busy))
  ]

  pub end_register-AllWithin :
      (runs : Bool) (i : ℕ) (s : Registry) → AllWithin s → AllWithin (end_register max runs i s).1
  unfolding end_register
  end_register-AllWithin runs i s v = elim (Option-cases (s.clients i).pending) [
    | inl e ↦ rw (end_register, e) v
    | inr ((name, used), e) ↦
        rw (end_register, e)
          (elim (Bool-cases runs) [
            | inl r ↦ rw r (started_proxy-AllWithin i name used s v e)
            | inr r ↦ rw r (give_back-AllWithin i name used s v e)
          ])
  ]

  pub close_proxy-AllWithin :
      (i : ℕ) (name : String) (s : Registry) → AllWithin s → AllWithin (close_proxy max i name s).1
  unfolding close_proxy
  close_proxy-AllWithin i name s v = elim (Option-cases (lookup name (s.clients i).proxies)) [
    | inl e ↦ rw (close_proxy, e) v
    | inr (used, e) ↦
        rw (close_proxy, e)
          (change-AllWithin i _ s v (room_delete max (s.clients i) name used (v i) e))
  ]

  pub stop_client-AllWithin : (i : ℕ) (s : Registry) → AllWithin s → AllWithin (stop_client i s)
  unfolding stop_client
  stop_client-AllWithin i s v = change-AllWithin i _ s v (room_stop max (s.clients i) (v i))
