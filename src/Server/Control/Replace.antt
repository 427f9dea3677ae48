-- ===== src/Server/Control/Replace.antt =====
-- A client that logs in again before its old control has ended, server/control.go.
use chml_frp_frp.Prelude.{ℕ, ◌≡◌, refl, ap, true, false, Option, none, some, [], arith, ◌==◌}
use chml_frp_frp.Vhost.Router.{Bytes, bytes_eq}
use chml_frp_frp.Vhost.Router.Bytes.{bytes_eq_refl}
use chml_frp_frp.Server.Ports.{set}
use chml_frp_frp.Server.Control.{Control, ControlManager, add, del, set_id, replaced}

module _ (id : Bytes) (a b : ℕ) (cm : ControlManager) where
  -- The manager after the control `b` has come under the id of `a`.
  abbrev pub second : Option ℕ × ControlManager
  second = add id b (add id a cm).1

  abbrev pub known : ControlManager → Option ℕ
  known d = d.ctls_by_run_id id

  abbrev first : ControlManager
  first = (add id a cm).1

  abbrev both : ControlManager
  both = record {
    ctls_by_run_id = set_id id (some b) (set_id id (some a) cm.ctls_by_run_id);
    store = set a (replaced (first.store a)) first.store;
  }

  second_lem : second ≡ (some a, both)
  unfolding add
  second_lem = rw (bytes_eq_refl id) refl

  held : both.ctls_by_run_id id ≡ some b
  held = rw (bytes_eq_refl id) refl

  old_cell : both.store a ≡ replaced (first.store a)
  old_cell = ground arith

  own : (b == b) ≡ true
  own = ground arith

  del_old : (b == a) ≡ false → del id a both ≡ both
  unfolding del
  del_old differ = rw (bytes_eq_refl id, differ) refl

  del_new : del id b both ≡ record both { ctls_by_run_id = set_id id none both.ctls_by_run_id }
  unfolding del
  del_new = rw (bytes_eq_refl id, own) refl

  -- A second control comes under the id of a first one: the first is returned and has been stopped,
  -- without its id; when it is deleted after its end, the second stays; when the second is deleted,
  -- none is left, and the controls of other ids are those from before.
  pub add-del :
      (other : Bytes)
      → (b == a) ≡ false
      → bytes_eq other id ≡ false
      → (second.0 ≡ some a)
        × ((second.1.store a).stopped ≡ true)
        × ((second.1.store a).run_id ≡ [])
        × (known (del id a second.1) ≡ some b)
        × (known (del id b second.1) ≡ none)
        × ((del id b second.1).ctls_by_run_id other ≡ cm.ctls_by_run_id other)
  add-del other differ apart =
      rw (second_lem, del_old differ, del_new)
        (
          refl,
          ap (λ (c : Control). c.stopped) old_cell,
          ap (λ (c : Control). c.run_id) old_cell,
          held,
          rw (bytes_eq_refl id) refl,
          rw (apart) refl,
        )
