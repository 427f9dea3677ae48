-- ===== src/Client/Manager/Live.antt =====
-- What holds of the proxies of a client in every manager that client/proxy/proxy_manager.go reaches:
-- a proxy of the map was not stopped, so that none is stopped twice, which would panic.
use mathlib.Core.Option.{some_inj}
use chml_frp_frp.Prelude.{
  String, ◌≡◌, ◌≢◌, refl, sym, ◌∙◌, subst, inl, inr, true, false, Option, none, some, List, [], ◌∷◌,
  arith, str_eq, All, Bool-cases, Option-cases,
}
use chml_frp_frp.Client.Wrapper.{
  Wrapper, Call, answered, stops, round, well, ill, call, new_wrapper, set_running_status, stop,
  check_round, status_normal_callback, status_failed_callback, closed,
}
use chml_frp_frp.Client.Wrapper.Valid.{IsValid, new_wrapper-IsValid, call-IsValid}
use chml_frp_frp.Client.Manager.{
  ProxyConfOps, Proxy, ProxyManager, new_manager, set_name, lookup, take_out, started, is_kept,
  drop_changed, drop_proxies, add_missing, add_proxies, reload, close, start_proxy,
}
use chml_frp_frp.Client.Manager.Dropped.{AllRun, ListsMap, stopped_proxy, take_out_lem}
use chml_frp_frp.Client.Manager.Closed.{Distinct, stop_proxies-Halted}
use chml_frp_frp.Client.Manager.Leaves.{Leaves, Ends, reload-Leaves, close-Ends}

call-stopped : (c : Call) (w : Wrapper) → c ≢ stops → (call c w).stopped ≡ w.stopped
unfolding call set_running_status check_round status_normal_callback status_failed_callback
call-stopped (answered remote resp_err run_err) w h = ground arith
call-stopped stops w h = absurd (h refl)
call-stopped (round now) w h = ground arith
call-stopped well w h = refl
call-stopped ill w h = refl

module _ {C : Type 0} where
  -- A proxy of the map.
  abbrev pub Runs : Proxy C → Type 0
  Runs p = IsValid p.wrapper × (p.wrapper.stopped ≡ false)

  -- A proxy that left the map.
  abbrev pub Ended : Proxy C → Type 0
  Ended p = IsValid p.wrapper × (p.wrapper.phase ≡ closed) × (p.wrapper.stopped ≡ true)

  pub record IsLive (pm : ProxyManager C) : Type 0 where
    pub live : (name : String) (p : Proxy C) → pm.proxies name ≡ some p → Runs p
    pub ended : All Ended pm.stopped

  pub IsLive-AllRun : (pm : ProxyManager C) → IsLive pm → AllRun pm
  IsLive-AllRun pm v name p found = (v.live name p found).1

  stopped_proxy-Ended : (p : Proxy C) → Runs p → Ended (stopped_proxy p)
  unfolding stop call
  stopped_proxy-Ended p (valid, runs) =
      let kept = call-IsValid stops p.wrapper valid in
      (subst IsValid (rw (call, runs) refl) kept, refl, refl)

  -- A manager in which the entry of one name was replaced.
  set-live :
      (k : String) (o : Option (Proxy C)) (pm : ProxyManager C)
      → IsLive pm
      → ((p : Proxy C) → o ≡ some p → Runs p)
      → (name : String) (p : Proxy C) → set_name k o pm.proxies name ≡ some p
      → Runs p
  set-live k o pm v new name p found = elim (Bool-cases (str_eq name k)) [
    | inl h ↦ new p (sym (rw h refl) ∙ found)
    | inr h ↦ v.live name p (sym (rw h refl) ∙ found)
  ]

  take_out-IsLive :
      (k : String) (p : Proxy C) (pm : ProxyManager C)
      → IsLive pm
      → Runs p
      → (after : ProxyManager C) × (take_out k p pm ≡ some after) × IsLive after
  take_out-IsLive k p pm v runs = (
    record { proxies = set_name k none pm.proxies; stopped = stopped_proxy p ∷ pm.stopped },
    take_out_lem k p pm runs.1,
    record {
      live = set-live k none pm v (λ q h. absurd (cc));
      ended = (stopped_proxy-Ended p runs, v.ended);
    },
  )

  pub close-IsLive :
      (names : List String) (pm : ProxyManager C)
      → Distinct names
      → IsLive pm
      → (after : ProxyManager C) × (close names pm ≡ some after) × IsLive after
  unfolding close
  close-IsLive names pm d v =
      let (left, h, halted) =
        stop_proxies-Halted names pm d (λ name p _ found. (v.live name p found).1) in
      (
        record left { proxies = λ _. none },
        rw (close, h) refl,
        record {
          live = λ name p h. absurd (cc);
          ended =
              halted.no_other Ended v.ended
                (λ name p _ found. stopped_proxy-Ended p (v.live name p found));
        },
      )

  pub new_manager-IsLive : IsLive (new_manager {C = C})
  unfolding new_manager
  new_manager-IsLive = record { live = λ name p h. absurd (cc); ended = tt }

  -- A call of the worker, of the monitor or of the server on a proxy of the map.
  unfoldable pub on_proxy : String → Call → ProxyManager C → ProxyManager C
  unfolding call
  on_proxy k c pm = elim (pm.proxies k) [
    | none ↦ pm
    | some p ↦ record pm {
      proxies = set_name k (some (record p { wrapper = call c p.wrapper })) pm.proxies;
    }
  ]

  pub on_proxy-IsLive :
      (k : String) (c : Call) (pm : ProxyManager C)
      → c ≢ stops
      → IsLive pm
      → IsLive (on_proxy k c pm)
  unfolding on_proxy
  on_proxy-IsLive k c pm other v = elim (Option-cases (pm.proxies k)) [
    | inl e ↦ rw (on_proxy, e) v
    | inr (p, e) ↦
        let (valid, runs) = v.live k p e in
        rw (on_proxy, e)
          (record {
            live = set-live k (some (record p { wrapper = call c p.wrapper })) pm v (λ q h.
                subst Runs (some_inj.0 h)
                  (call-IsValid c p.wrapper valid, call-stopped c p.wrapper other ∙ runs));
            ended = v.ended;
          })
  ]

  -- The answer of the server is a call on its proxy.
  pub start_proxy-on_proxy :
      (k remote resp_err : String) (run_err : Option String) (pm : ProxyManager C)
      → (start_proxy k remote resp_err run_err pm).1
        ≡ on_proxy k (answered remote resp_err run_err) pm
  unfolding start_proxy on_proxy call
  start_proxy-on_proxy k remote resp_err run_err pm = elim (Option-cases (pm.proxies k)) [
    | inl e ↦ rw (start_proxy, on_proxy, e) refl
    | inr (p, e) ↦ rw (start_proxy, on_proxy, e) refl
  ]

module _ {C : Type 0} (ops : ProxyConfOps C) where
  drop_changed-IsLive :
      (cfgs : List (String × C)) (k : String) (pm : ProxyManager C)
      → IsLive pm
      → (left : ProxyManager C) × (drop_changed ops cfgs k pm ≡ some left) × IsLive left
  drop_changed-IsLive cfgs k pm v = elim (Option-cases (pm.proxies k)) [
    | inl e ↦ (pm, rw (drop_changed, e) refl, v)
    | inr (p, e) ↦ elim (Bool-cases (is_kept ops p (lookup k cfgs))) [
      | inl same ↦ (pm, rw (drop_changed, e, same) refl, v)
      | inr changed ↦
          let (left, h, w) = take_out-IsLive k p pm v (v.live k p e) in
          (left, rw (drop_changed, e, changed) h, w)
    ]
  ]

  drop_proxies-IsLive :
      (names : List String) (cfgs : List (String × C)) (pm : ProxyManager C)
      → IsLive pm
      → (left : ProxyManager C) × (drop_proxies ops names cfgs pm ≡ some left) × IsLive left
  unfolding drop_proxies
  drop_proxies-IsLive [] cfgs pm v = (pm, refl, v)
  drop_proxies-IsLive (k ∷ names) cfgs pm v =
      let (next, first, u) = drop_changed-IsLive cfgs k pm v in
      let (left, rest, w) = drop_proxies-IsLive names cfgs next u in
      (left, rw (drop_proxies, first) rest, w)

  started-Runs : (c : C) → Runs (started ops c)
  unfolding started new_wrapper
  started-Runs c = (new_wrapper-IsValid _, refl)

  add_proxies-IsLive :
      (cfgs : List (String × C)) (pm : ProxyManager C)
      → IsLive pm
      → IsLive (add_proxies ops cfgs pm)
  unfolding add_proxies
  add_proxies-IsLive [] pm v = v
  add_proxies-IsLive ((k, c) ∷ cfgs) pm v =
      add_proxies-IsLive cfgs (add_missing ops k c pm) (elim (Option-cases (pm.proxies k)) [
        | inl e ↦
            rw (add_missing, e)
              (record {
                live =
                    set-live k (some (started ops c)) pm v
                      (λ q h. subst Runs (some_inj.0 h) (started-Runs c));
                ended = v.ended;
              })
        | inr (p, e) ↦ rw (add_missing, e) v
      ])

  pub reload-IsLive :
      (names : List String) (cfgs : List (String × C)) (pm : ProxyManager C)
      → IsLive pm
      → (after : ProxyManager C) × (reload ops names cfgs pm ≡ some after) × IsLive after
  unfolding reload
  reload-IsLive names cfgs pm v =
      let (left, h, w) = drop_proxies-IsLive names cfgs pm v in
      (add_proxies ops cfgs left, rw (reload, h) refl, add_proxies-IsLive cfgs left w)

  -- What happens to a manager: a reload and the end of the client, if they do not panic, the answers
  -- of the server, and a round of the worker or a report of the monitor of a proxy.
  pub data Step (pm : ProxyManager C) : ProxyManager C → Type 0 where
    reloads :
        (names : List String) (cfgs : List (String × C)) (after : ProxyManager C)
        → reload ops names cfgs pm ≡ some after
        → Step pm after
    closes :
        (names : List String) (after : ProxyManager C)
        → Distinct names
        → close names pm ≡ some after
        → Step pm after
    answers :
        (k remote resp_err : String) (run_err : Option String)
        → Step pm (start_proxy k remote resp_err run_err pm).1
    turns : (k : String) (c : Call) → c ≢ stops → Step pm (on_proxy k c pm)

  pub data Reachable : ProxyManager C → Type 0 where
    begins : Reachable new_manager
    goes_on : {pm next : ProxyManager C} → Reachable pm → Step pm next → Reachable next

  Step-IsLive : {pm next : ProxyManager C} → Step pm next → IsLive pm → IsLive next
  Step-IsLive {pm} (reloads names cfgs after h) v =
      let (found, e, w) = reload-IsLive names cfgs pm v in subst IsLive (some_inj.0 (sym e ∙ h)) w
  Step-IsLive {pm} (closes names after d h) v =
      let (found, e, w) = close-IsLive names pm d v in subst IsLive (some_inj.0 (sym e ∙ h)) w
  Step-IsLive {pm} (answers k remote resp_err run_err) v =
      rw (start_proxy-on_proxy k remote resp_err run_err pm)
        (on_proxy-IsLive k (answered remote resp_err run_err) pm (λ e. cc) v)
  Step-IsLive {pm} (turns k c other) v = on_proxy-IsLive k c pm other v

  pub all_reached : {pm : ProxyManager C} → Reachable pm → IsLive pm
  all_reached begins = new_manager-IsLive
  all_reached (goes_on before step) = Step-IsLive step (all_reached before)

  -- In every manager that the calls reach, whatever their order: a proxy of the map was not stopped,
  -- and its phase fits the messages that it sent; and a proxy that was stopped is closed for good. For
  -- the keys of its map: a reload does not panic by stopping a proxy twice, and each proxy from before
  -- it is as it was or has been stopped; and the end of the client does not panic either, stops each
  -- proxy, and leaves the map empty.
  pub Reachable-IsLive :
      (pm : ProxyManager C) (names : List String) (cfgs : List (String × C))
      → Reachable pm
      → ListsMap names pm
      → Distinct names
      → IsLive pm × Leaves pm (reload ops names cfgs pm) × Ends pm (close names pm)
  Reachable-IsLive pm names cfgs r lists d =
      let v = all_reached r in
      let runs = IsLive-AllRun pm v in
      (v, reload-Leaves ops names cfgs pm runs lists, close-Ends names pm runs lists d)
