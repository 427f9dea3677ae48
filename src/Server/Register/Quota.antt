-- ===== src/Server/Register/Quota.antt =====
-- What holds of the proxies of all clients, whatever they register and close, server/control.go and
-- server/proxy/proxy.go.
use mathlib.Core.Option.{some_inj}
use chml_frp_frp.Prelude.{
  ℕ, zero, suc, String, ◌≡◌, refl, sym, ◌∙◌, Bool, true, false, ◌||◌, none, some, arith,
}
use chml_frp_frp.Client.Manager.{lookup}
use chml_frp_frp.Server.Register.{
  Client, Registry, new_registry, begin_register, end_register, close_proxy, stop_client,
}
use chml_frp_frp.Server.Register.Counted.{Counted, Within}
use chml_frp_frp.Server.Register.Valid.{
  IsValid, begin_register-IsValid, end_register-IsValid, close_proxy-IsValid, stop_client-IsValid,
}
use chml_frp_frp.Server.Register.Within.{
  AllWithin, begin_register-AllWithin, end_register-AllWithin, close_proxy-AllWithin,
  stop_client-AllWithin,
}

module _ (max : ℕ) where
  -- What happens to the registry. The manager of a client begins to register a proxy, if it registers
  -- no other, and ends that; it has ended when the client stops, which happens once. A proxy is
  -- closed at any time, as the dashboard does so too. The flag tells of a proxy that was closed when
  -- its client had stopped.
  pub data Step (s : Registry) : Bool → Registry → Type 0 where
    begins :
        (i : ℕ) (name : String) (used : ℕ)
        → (s.clients i).stopped ≡ false
        → (s.clients i).pending ≡ none
        → Step s false (begin_register max i name used s).1
    ends :
        (runs : Bool) (i : ℕ)
        → (s.clients i).stopped ≡ false
        → Step s false (end_register max runs i s).1
    closes : (i : ℕ) (name : String) → Step s (s.clients i).stopped (close_proxy max i name s).1
    stops : (i : ℕ) → (s.clients i).stopped ≡ false → Step s false (stop_client i s)

  -- The registries that the steps reach, and whether a proxy was closed late on the way.
  pub data Reachable : Bool → Registry → Type 0 where
    empty : Reachable false new_registry
    goes_on :
        {before late : Bool} {s t : Registry}
        → Reachable before s
        → Step s late t
        → Reachable (before || late) t

  Step-IsValid :
      {late : Bool} {s t : Registry} → Step s late t → late ≡ false → IsValid max s → IsValid max t
  Step-IsValid {s = s} (begins i name used live idle) h v =
      begin_register-IsValid max i name used s v idle
  Step-IsValid {s = s} (ends runs i live) h v = end_register-IsValid max runs i s v live
  Step-IsValid {s = s} (closes i name) h v = close_proxy-IsValid max i name s v h
  Step-IsValid {s = s} (stops i live) h v = stop_client-IsValid max i s v live

  Step-AllWithin :
      {late : Bool} {s t : Registry} → Step s late t → AllWithin max s → AllWithin max t
  Step-AllWithin {s = s} (begins i name used live idle) v =
      begin_register-AllWithin max i name used s v idle
  Step-AllWithin {s = s} (ends runs i live) v = end_register-AllWithin max runs i s v
  Step-AllWithin {s = s} (closes i name) v = close_proxy-AllWithin max i name s v
  Step-AllWithin {s = s} (stops i live) v = stop_client-AllWithin max i s v

  counted_new : (m : ℕ) → Counted m (new_registry.clients 0)
  unfolding new_registry
  counted_new zero = tt
  counted_new (suc m) = (refl, omega arith)

  room_new : (m : ℕ) → Within m (new_registry.clients 0)
  unfolding new_registry
  room_new zero = tt
  room_new (suc m) = (omega arith, omega arith)

  new_registry-IsValid : IsValid max new_registry
  unfolding new_registry
  new_registry-IsValid = record {
    client = λ i. record {
      counted = counted_new max;
      distinct = tt;
      owned = λ live name used h. absurd (cc);
    };
  }

  both_false : (a b : Bool) → (a || b) ≡ false → (a ≡ false) × (b ≡ false)
  both_false a b h = (ground arith, ground arith)

  Reachable-IsValid : {late : Bool} {s : Registry} → Reachable late s → late ≡ false → IsValid max s
  Reachable-IsValid empty h = new_registry-IsValid
  Reachable-IsValid (goes_on {before} {late} past step) h =
      let (early, now) = both_false before late h in
      Step-IsValid step now (Reachable-IsValid past early)

  Reachable-AllWithin : {late : Bool} {s : Registry} → Reachable late s → AllWithin max s
  unfolding new_registry
  Reachable-AllWithin empty i = room_new max
  Reachable-AllWithin (goes_on past step) i = Step-AllWithin step (Reachable-AllWithin past) i

  -- What is known of the ports of a client, without and with a proxy that was closed late.
  abbrev pub Limited : Bool → Client → Type 0
  Limited false c = Counted max c
  Limited true c = Within max c

  -- Whatever the clients register, close and end, and the dashboard closes, in any order: where ports
  -- are limited, the ports of the proxies of each client, with those of the one that it starts, are
  -- no more than `portsUsedNum`, and this is within the limit. As long as no proxy of a stopped
  -- client was closed, `portsUsedNum` is exactly their sum.
  pub Reachable-quota :
      (late : Bool) (s : Registry) (i : ℕ) → Reachable late s → Limited late (s.clients i)
  Reachable-quota false s i r = ((Reachable-IsValid r refl).client i).counted
  Reachable-quota true s i r = Reachable-AllWithin r i

  -- As long as no proxy of a stopped client was closed, no name belongs to two clients that were not
  -- stopped.
  pub Reachable-names :
      (s : Registry) (i j : ℕ) (name : String) (m n : ℕ)
      → Reachable false s
      → (s.clients i).stopped ≡ false
      → (s.clients j).stopped ≡ false
      → lookup name (s.clients i).proxies ≡ some m
      → lookup name (s.clients j).proxies ≡ some n
      → i ≡ j
  Reachable-names s i j name m n r live live' held held' =
      let v = Reachable-IsValid r refl in
      let mine = (v.client i).owned live name m held in
      let theirs = (v.client j).owned live' name n held' in some_inj.0 (sym mine ∙ theirs)
