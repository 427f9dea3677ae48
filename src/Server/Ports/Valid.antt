-- ===== src/Server/Ports/Valid.antt =====
-- The invariant of the manager of ports in server/ports/ports.go, and the steps that take or free a
-- port.
use chml_frp_frp.Prelude.{
  ℕ, ◌<◌, String, ◌≡◌, ◌≢◌, refl, Bool, true, false, none, some, List, inl, inr, arith, ◌==◌,
  str_eq, eq_iff, Bool-cases, Option-cases,
}
use chml_frp_frp.Server.Ports.{
  Manager, set, allowed_by, new_manager, occupy, release, clean_reserved,
}

-- A port in use belongs to an open context of its own.
pub record Owned (allowed : ℕ → Bool) (pm : Manager) (p i : ℕ) : Type 0 where
  pub numbered : i < pm.next
  pub same_port : (pm.store i).port ≡ p
  pub opened : (pm.store i).closed ≡ false
  pub permitted : allowed p ≡ true

-- A reservation names a context of its proxy.
pub record Kept (allowed : ℕ → Bool) (pm : Manager) (name : String) (i : ℕ) : Type 0 where
  pub numbered : i < pm.next
  pub same_name : (pm.store i).proxy_name ≡ name
  pub permitted : allowed (pm.store i).port ≡ true

-- The maps agree with each other and with the allowed ports, which are either free or in use.
pub record IsValid (allowed : ℕ → Bool) (pm : Manager) : Type 0 where
  pub owned : (p i : ℕ) → pm.used_ports p ≡ some i → Owned allowed pm p i
  pub kept : (name : String) (i : ℕ) → pm.reserved_ports name ≡ some i → Kept allowed pm name i
  pub free_unused : (p : ℕ) → pm.free_ports p ≡ true → pm.used_ports p ≡ none
  pub free_allowed : (p : ℕ) → pm.free_ports p ≡ true → allowed p ≡ true
  pub unused_free : (p : ℕ) → allowed p ≡ true → pm.used_ports p ≡ none → pm.free_ports p ≡ true

pub new_manager-IsValid : (ports : List ℕ) → IsValid (allowed_by ports) (new_manager ports)
unfolding new_manager
new_manager-IsValid ports = record {
  owned = λ p i h. absurd (ground arith);
  kept = λ name i h. absurd (ground arith);
  free_unused = λ p h. refl;
  free_allowed = λ p h. h;
  unused_free = λ p h e. h;
}

-- A map with one key changed, at that key and elsewhere.
set_here : {A : Type 0} (k : ℕ) (a : A) (f : ℕ → A) → set k a f k ≡ a
set_here k a f = ground arith

set_else : {A : Type 0} (k : ℕ) (a : A) (f : ℕ → A) (i : ℕ) → i ≢ k → set k a f i ≡ f i
set_else k a f i h = ground arith

some_inj : {i j : ℕ} → some i ≡ some j → i ≡ j
some_inj h = cc

module _ (allowed : ℕ → Bool) (pm : Manager) (valid : IsValid allowed pm) where
  occupy-Owned :
      (name : String) (now port : ℕ)
      → allowed port ≡ true
      → (p i : ℕ) → (occupy name now port pm).used_ports p ≡ some i
      → Owned allowed (occupy name now port pm) p i
  unfolding occupy
  occupy-Owned name now port ok p i h = elim (Bool-cases (p == port)) [
    | inl e ↦ record {
      numbered = ground arith;
      same_port = ground arith;
      opened = ground arith;
      permitted = ground arith;
    }
    | inr e ↦
        let old = valid.owned p i (ground arith) in
        let before = old.numbered in
        record {
          numbered = ground arith;
          same_port = ground (arith, old.same_port);
          opened = ground (arith, old.opened);
          permitted = old.permitted;
        }
  ]

  occupy-Kept :
      (name : String) (now port : ℕ)
      → allowed port ≡ true
      → (other : String) (i : ℕ) → (occupy name now port pm).reserved_ports other ≡ some i
      → Kept allowed (occupy name now port pm) other i
  unfolding occupy
  occupy-Kept name now port ok other i h = elim (Bool-cases (str_eq other name)) [
    | inl e ↦ record {
      numbered = ground arith;
      same_name = ground (arith, eq_iff other name);
      permitted = ground arith;
    }
    | inr e ↦
        let old = valid.kept other i (ground arith) in
        let before = old.numbered in
        record {
          numbered = ground arith;
          same_name = ground (arith, old.same_name);
          permitted = ground (arith, old.permitted);
        }
  ]

  pub occupy-IsValid :
      (name : String) (now port : ℕ)
      → allowed port ≡ true
      → IsValid allowed (occupy name now port pm)
  unfolding occupy
  occupy-IsValid name now port ok = record {
    owned = occupy-Owned name now port ok;
    kept = occupy-Kept name now port ok;
    free_unused = λ p h. ground (arith, valid.free_unused p);
    free_allowed = λ p h. ground (arith, valid.free_allowed p);
    unused_free = λ p h e. ground (arith, valid.unused_free p);
  }

  release-Owned :
      (now port i : ℕ)
      → pm.used_ports port ≡ some i
      → (p j : ℕ) → (release now port pm).used_ports p ≡ some j
      → Owned allowed (release now port pm) p j
  unfolding release
  release-Owned now port i e p j h =
      let gone = valid.owned port i e in
      let old = valid.owned p j (ground arith) in
      let gone_port = gone.same_port in
      let old_port = old.same_port in
      record {
        numbered = ground (arith, old.numbered);
        same_port = ground arith;
        opened = ground (arith, old.opened);
        permitted = old.permitted;
      }

  release-Kept :
      (now port i : ℕ)
      → pm.used_ports port ≡ some i
      → (name : String) (j : ℕ) → (release now port pm).reserved_ports name ≡ some j
      → Kept allowed (release now port pm) name j
  unfolding release
  release-Kept now port i e name j h =
      let old = valid.kept name j (ground arith) in
      record {
        numbered = ground (arith, old.numbered);
        same_name = ground (arith, old.same_name);
        permitted = ground (arith, old.permitted);
      }

  pub release-IsValid : (now port : ℕ) → IsValid allowed (release now port pm)
  unfolding release
  release-IsValid now port = elim (Option-cases (pm.used_ports port)) [
    | inl e ↦ rw (release, e) valid
    | inr (i, e) ↦ record {
      owned = release-Owned now port i e;
      kept = release-Kept now port i e;
      free_unused = λ p h. ground (arith, valid.free_unused p);
      free_allowed = λ p h. ground (arith, valid.free_allowed p, (valid.owned port i e).permitted);
      unused_free = λ p h n. ground (arith, valid.unused_free p);
    }
  ]

  pub clean_reserved-IsValid : (now : ℕ) → IsValid allowed (clean_reserved now pm)
  unfolding clean_reserved
  clean_reserved-IsValid now = record {
    owned = λ p i h.
        let old = valid.owned p i h in
        record {
          numbered = old.numbered;
          same_port = old.same_port;
          opened = old.opened;
          permitted = old.permitted;
        };
    kept = λ name i h.
        let old = valid.kept name i (ground arith) in
        record { numbered = old.numbered; same_name = old.same_name; permitted = old.permitted };
    free_unused = valid.free_unused;
    free_allowed = valid.free_allowed;
    unused_free = valid.unused_free;
  }
