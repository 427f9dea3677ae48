-- ===== src/Server/Visitor/Laws.antt =====
-- Which visitors reach a secret proxy, server/visitor/visitor.go and server/proxy/stcp.go.
use mathlib.Core.List.{Mem, mem-cons_self}
use mathlib.Core.Option.{some_inj}
use chml_frp_frp.Prelude.{
  ℕ, String, ◌≡◌, ◌≢◌, ◌≤◌, ◌<◌, ltb→lt, ◌⊎◌, refl, sym, ap, ◌∙◌, subst, Bool, true, false, not,
  ◌&&◌, Option, none, some, List, [], ◌∷◌, ◌++◌, ltb, length, str_eq, eq_iff, eq_refl, ◌==◌, ℤ,
  arith, inl, inr, Bool-cases, Option-cases,
}
use chml_frp_frp.Server.Ports.{set}
use chml_frp_frp.Client.Manager.{set_name}
use chml_frp_frp.Server.Visitor.{
  ListenerBundle, VisitorManager, VisitorError, accept_size, put_conn, listen, close_listener,
  VisitorConn, is_allowed, hand_over, new_conn, stcp_run, stcp_close, put_failed, not_found,
  auth_failed, not_allowed, encryption_failed, new_internal_listener,
}

-- `lo.Contains` finds the members of a list.
pub record IsContains (contains : String → List String → Bool) : Type 0 where
  pub finds : (x : String) (xs : List String) → contains x xs ≡ true → Mem x xs
  pub found : (x : String) (xs : List String) → Mem x xs → contains x xs ≡ true

-- A manager in which the queue of a listener was set.
abbrev pub with_queue : ℕ → List ℕ → VisitorManager → VisitorManager
with_queue l queue vm = record vm {
  store = set l (record (vm.store l) { accept_ch = queue }) vm.store;
}

module _ (get_auth_key : String → ℤ → String) (contains : String → List String → Bool) where
  -- A connection that passes the checks of a listener.
  pub record Passes (c : VisitorConn) (b : ListenerBundle) : Type 0 where
    pub signed : get_auth_key b.sk c.timestamp ≡ c.sign_key
    pub user : Mem c.visitor_user b.allow_users ⊎ Mem "*" b.allow_users
    pub encrypted : (c.use_encryption && not c.encryptable) ≡ false

  -- What happens to a connection. It is refused, and nothing changes; or it passes the checks of the
  -- listener of that name, and then stands at the end of its queue, or is closed without an error
  -- because the queue is full, or fails because the listener is closed.
  pub data Outcome (name : String) (c : VisitorConn) (vm : VisitorManager)
      : Option VisitorError × VisitorManager → Type 0 where
    refused :
        (e : VisitorError)
        → e ≢ put_failed
        → ((b : ListenerBundle) → vm.listeners name ≡ some b → Passes c b → ⊥)
        → Outcome name c vm (some e, vm)
    queued :
        (b : ListenerBundle)
        → vm.listeners name ≡ some b
        → Passes c b
        → (vm.store b.l).closed ≡ false
        → length (vm.store b.l).accept_ch < accept_size
        → Outcome name c vm (none, with_queue b.l ((vm.store b.l).accept_ch ++ c.conn ∷ []) vm)
    dropped :
        (b : ListenerBundle)
        → vm.listeners name ≡ some b
        → Passes c b
        → (vm.store b.l).closed ≡ false
        → accept_size ≤ length (vm.store b.l).accept_ch
        → Outcome name c vm (none, with_queue b.l (vm.store b.l).accept_ch vm)
    failed :
        (b : ListenerBundle)
        → vm.listeners name ≡ some b
        → Passes c b
        → (vm.store b.l).closed ≡ true
        → Outcome name c vm (some put_failed, with_queue b.l (vm.store b.l).accept_ch vm)

  hand_over-Outcome :
      (name : String) (c : VisitorConn) (vm : VisitorManager) (b : ListenerBundle)
      → vm.listeners name ≡ some b
      → Passes c b
      → Outcome name c vm (hand_over c b.l vm)
  unfolding hand_over put_conn
  hand_over-Outcome name c vm b found p = elim (Bool-cases (vm.store b.l).closed) [
    | inl e ↦ subst (Outcome name c vm) (rw (hand_over, e) refl) (failed b found p e)
    | inr e ↦ elim (Bool-cases (ltb (length (vm.store b.l).accept_ch) accept_size)) [
      | inl room ↦
          subst (Outcome name c vm) (rw (hand_over, e, room) refl)
            (queued b found p e (ltb→lt _ _ room))
      | inr full ↦
          subst (Outcome name c vm) (rw (hand_over, e, full) refl)
            (dropped b found p e (ground arith))
    ]
  ]

  module _ (law : IsContains contains) where
    allowed_user :
        (c : VisitorConn) (b : ListenerBundle)
        → is_allowed get_auth_key contains c b ≡ true
        → Mem c.visitor_user b.allow_users ⊎ Mem "*" b.allow_users
    allowed_user c b h = elim (Bool-cases (contains c.visitor_user b.allow_users)) [
      | inl e ↦ inl (law.finds c.visitor_user b.allow_users e)
      | inr e ↦ inr (law.finds "*" b.allow_users (sym (rw e refl) ∙ h))
    ]

    user_allowed :
        (c : VisitorConn) (b : ListenerBundle)
        → Mem c.visitor_user b.allow_users ⊎ Mem "*" b.allow_users
        → is_allowed get_auth_key contains c b ≡ true
    user_allowed c b (inl m) = let e = law.found c.visitor_user b.allow_users m in ground arith
    user_allowed c b (inr m) = let e = law.found "*" b.allow_users m in ground arith

    -- Every connection of a visitor ends in one of these ways: it is queued only for a listener of its
    -- name whose key signs it and that allows its user, or everyone.
    pub new_conn-Outcome :
        (name : String) (c : VisitorConn) (vm : VisitorManager)
        → Outcome name c vm (new_conn get_auth_key contains name c vm)
    unfolding new_conn
    new_conn-Outcome name c vm = elim (Option-cases (vm.listeners name)) [
      | inl e ↦ rw (new_conn, e) (refused not_found (λ h. cc) (λ b found p. absurd (cc)))
      | inr (b, e) ↦ elim (Bool-cases (str_eq (get_auth_key b.sk c.timestamp) c.sign_key)) [
        | inr bad ↦
            rw (new_conn, e, bad)
              (refused auth_failed (λ h. cc)
                (λ d found p.
                  let same : d ≡ b = some_inj.0 (sym found ∙ e) in
                  let signed = (eq_iff _ _).1 (
                    subst (λ (q : ListenerBundle). get_auth_key q.sk c.timestamp ≡ c.sign_key) same
                      p.signed) in
                  cc))
        | inl signed ↦ elim (Bool-cases (is_allowed get_auth_key contains c b)) [
          | inr other ↦
              rw (new_conn, e, signed, other)
                (refused not_allowed (λ h. cc)
                  (λ d found p.
                    let same : d ≡ b = some_inj.0 (sym found ∙ e) in
                    let user = user_allowed c b (
                      subst
                        (λ (q : ListenerBundle).
                          Mem c.visitor_user q.allow_users ⊎ Mem "*" q.allow_users)
                        same p.user) in
                    cc))
          | inl user ↦ elim (Bool-cases (c.use_encryption && not c.encryptable)) [
            | inl fails ↦
                rw (new_conn, e, signed, user, fails)
                  (refused encryption_failed (λ h. cc) (λ d found p. let works = p.encrypted in cc))
            | inr works ↦
                rw (new_conn, e, signed, user, works)
                  (hand_over-Outcome name c vm b e (record {
                    signed = (eq_iff _ _).0 signed;
                    user = allowed_user c b user;
                    encrypted = works;
                  }))
          ]
        ]
      ]
    ]

-- The manager after a secret proxy without a list of users has started.
abbrev pub run_own : String → String → String → ℕ → VisitorManager → VisitorManager
run_own name user sk l vm = (stcp_run name user sk [] l vm).1

listen_free :
    (name sk : String) (allow_users : List String) (l : ℕ) (vm : VisitorManager)
    → vm.listeners name ≡ none
    → listen name sk allow_users l vm ≡ (
      none,
      record {
        listeners =
            set_name name
              (some (record { l = l; sk = sk; allow_users = allow_users }))
              vm.listeners;
        store = set l new_internal_listener vm.store;
      },
    )
unfolding listen
listen_free name sk allow_users l vm free = rw (listen, free) refl

module _ (get_auth_key : String → ℤ → String) (contains : String → List String → Bool)
    (law : IsContains contains) (name user sk : String) (l : ℕ) (vm : VisitorManager) where
  abbrev own_bundle : ListenerBundle
  own_bundle = record { l = l; sk = sk; allow_users = user ∷ [] }

  abbrev listening : VisitorManager
  listening = record {
    listeners = set_name name (some own_bundle) vm.listeners;
    store = set l new_internal_listener vm.store;
  }

  abbrev after_run : VisitorManager
  after_run = run_own name user sk l vm

  run_own_lem : vm.listeners name ≡ none → run_own name user sk l vm ≡ listening
  unfolding stcp_run listen
  run_own_lem free =
      ap (λ (r : Option VisitorError × VisitorManager). r.1)
        (listen_free name sk (user ∷ []) l vm free)

  -- Under a free name, a secret proxy without a list of users gets the connection of a visitor of its
  -- own user that knows its key, if the encryption works. Once the proxy has closed, the visitor is
  -- told that there is no such proxy, and every name is held as before the proxy started.
  pub stcp_run-new_conn-stcp_close :
      (c : VisitorConn) (other : String)
      → vm.listeners name ≡ none
      → get_auth_key sk c.timestamp ≡ c.sign_key
      → (c.use_encryption && not c.encryptable) ≡ false
      → c.visitor_user ≡ user
      → (new_conn get_auth_key contains name c after_run
          ≡ (none, with_queue l (c.conn ∷ []) after_run))
        × ((new_conn get_auth_key contains name c (stcp_close name l after_run)).0 ≡ some not_found)
        × ((stcp_close name l after_run).listeners other ≡ vm.listeners other)
  unfolding new_conn stcp_close close_listener hand_over put_conn
  stcp_run-new_conn-stcp_close c other free signed works own = (
    rw (run_own_lem free) (rw (new_conn, eq_refl name, key, allowed, works) (rw own_cell refl)),
    rw (run_own_lem free) (rw (new_conn, eq_refl name) refl),
    rw (run_own_lem free) (elim (Bool-cases (str_eq other name)) [
      | inl e ↦ rw e (sym (ap vm.listeners ((eq_iff other name).0 e) ∙ free))
      | inr e ↦ rw e refl
    ]),
  )
    where
      own_cell : (l == l) ≡ true
      own_cell = ground arith

      key : str_eq (get_auth_key sk c.timestamp) c.sign_key ≡ true
      key = (eq_iff _ _).1 signed

      allowed : is_allowed get_auth_key contains c own_bundle ≡ true
      allowed =
          user_allowed get_auth_key contains law c own_bundle
            (inl (subst (λ (u : String). Mem u (user ∷ [])) (sym own) mem-cons_self))
