-- ===== src/Server/Register/Counted.antt =====
-- The number of ports of a client, and what each operation of server/control.go does to it.
use chml_frp_frp.Prelude.{
  ℕ, zero, suc, ◌+◌, ◌≤◌, String, ◌≡◌, refl, ◌∙◌, ap, true, false, Option, none, some, ℤ, pos,
  pos_part, neg_part, ◌+ℤ◌, ltb_ℤ, arith, int_laws, +ℤ_parts, -ℤ_parts,
}
use chml_frp_frp.Client.Manager.{lookup}
use chml_frp_frp.Server.Register.{set_entry, delete_entry, Client, use_ports, free_ports, exceeds}
use chml_frp_frp.Server.Register.Entries.{
  sum_ports, sum_ports-delete_entry, sum_ports-set_entry, sum_ports-set_entry_le,
}

abbrev pub pending_ports : Option (String × ℕ) → ℕ
pending_ports none = 0
pending_ports (some (name, used)) = used

-- The ports of a client, with those of the proxy that it starts.
abbrev pub ports_of : Client → ℕ
ports_of c = sum_ports c.proxies + pending_ports c.pending

-- Where ports are limited, their number is right and within the limit.
abbrev pub Counted : ℕ → Client → Type 0
Counted zero c = Unit
Counted (suc max) c = (c.ports_used_num ≡ pos (ports_of c)) × (ports_of c ≤ suc max)

not_over : (m : ℕ) (a : ℤ) → ltb_ℤ (pos m) a ≡ false → pos_part a ≤ m + neg_part a
not_over m a h = ground arith

pub counted_begin :
    (m : ℕ) (c : Client) (name : String) (used : ℕ)
    → Counted m c
    → c.pending ≡ none
    → exceeds m used c ≡ false
    → Counted m (record (use_ports m used c) { pending = some (name, used) })
counted_begin zero c name used h idle fits = tt
counted_begin (suc m) c name used (h, le) idle fits =
    let p = ap pending_ports idle in
    let q = ap pos_part h in
    let r = ap neg_part h in
    let t = +ℤ_parts c.ports_used_num (pos used) in
    let room = not_over (suc m) (c.ports_used_num +ℤ pos used) fits in (omega int_laws, omega arith)

pub counted_back :
    (m : ℕ) (c : Client) (name : String) (used : ℕ)
    → Counted m c
    → c.pending ≡ some (name, used)
    → Counted m (record (free_ports m used c) { pending = none })
counted_back zero c name used h busy = tt
counted_back (suc m) c name used (h, le) busy =
    let p = ap pending_ports busy in
    let q = ap pos_part h in
    let r = ap neg_part h in
    let t = -ℤ_parts c.ports_used_num (pos used) in (omega int_laws, omega arith)

pub proxies-use_ports : (m used : ℕ) (c : Client) → (use_ports m used c).proxies ≡ c.proxies
proxies-use_ports zero used c = refl
proxies-use_ports (suc m) used c = refl

pub stopped-use_ports : (m used : ℕ) (c : Client) → (use_ports m used c).stopped ≡ c.stopped
stopped-use_ports zero used c = refl
stopped-use_ports (suc m) used c = refl

pub proxies-free_ports : (m used : ℕ) (c : Client) → (free_ports m used c).proxies ≡ c.proxies
proxies-free_ports zero used c = refl
proxies-free_ports (suc m) used c = refl

pub stopped-free_ports : (m used : ℕ) (c : Client) → (free_ports m used c).stopped ≡ c.stopped
stopped-free_ports zero used c = refl
stopped-free_ports (suc m) used c = refl

pub counted_refused :
    (m : ℕ) (c : Client) (used : ℕ)
    → Counted m c
    → Counted m (free_ports m used (use_ports m used c))
counted_refused zero c used h = tt
counted_refused (suc m) c used (h, le) =
    let q = ap pos_part h in
    let r = ap neg_part h in
    let t = +ℤ_parts c.ports_used_num (pos used) in
    let u = -ℤ_parts (c.ports_used_num +ℤ pos used) (pos used) in (omega int_laws, le)

pub counted_set :
    (m : ℕ) (c : Client) (name : String) (used : ℕ)
    → Counted m c
    → c.pending ≡ some (name, used)
    → lookup name c.proxies ≡ none
    → Counted m (record c { proxies = set_entry name used c.proxies; pending = none })
counted_set zero c name used h busy fresh = tt
counted_set (suc m) c name used (h, le) busy fresh =
    let p = ap pending_ports busy in
    let t = sum_ports-set_entry name used c.proxies fresh in (h ∙ ap pos (omega arith), omega arith)

pub counted_delete :
    (m : ℕ) (c : Client) (name : String) (used : ℕ)
    → Counted m c
    → lookup name c.proxies ≡ some used
    → Counted m (record (free_ports m used c) { proxies = delete_entry name c.proxies })
counted_delete zero c name used h found = tt
counted_delete (suc m) c name used (h, le) found =
    let p = sum_ports-delete_entry name c.proxies used found in
    let q = ap pos_part h in
    let r = ap neg_part h in
    let t = -ℤ_parts c.ports_used_num (pos used) in (omega int_laws, omega arith)

pub counted_stop : (m : ℕ) (c : Client) → Counted m c → Counted m (record c { stopped = true })
counted_stop zero c h = tt
counted_stop (suc m) c h = h

-- Whatever was lost, the ports of a client are among those counted, and these within the limit.
abbrev pub Within : ℕ → Client → Type 0
Within zero c = Unit
Within (suc max) c =
    (ports_of c + neg_part c.ports_used_num ≤ pos_part c.ports_used_num)
    × (pos_part c.ports_used_num ≤ suc max + neg_part c.ports_used_num)

pub room_begin :
    (m : ℕ) (c : Client) (name : String) (used : ℕ)
    → Within m c
    → c.pending ≡ none
    → exceeds m used c ≡ false
    → Within m (record (use_ports m used c) { pending = some (name, used) })
room_begin zero c name used h idle fits = tt
room_begin (suc m) c name used (h, le) idle fits =
    let p = ap pending_ports idle in
    let t = +ℤ_parts c.ports_used_num (pos used) in
    let room = not_over (suc m) (c.ports_used_num +ℤ pos used) fits in (omega arith, room)

pub room_back :
    (m : ℕ) (c : Client) (name : String) (used : ℕ)
    → Within m c
    → c.pending ≡ some (name, used)
    → Within m (record (free_ports m used c) { pending = none })
room_back zero c name used h busy = tt
room_back (suc m) c name used (h, le) busy =
    let p = ap pending_ports busy in
    let t = -ℤ_parts c.ports_used_num (pos used) in (omega arith, omega arith)

pub room_refused :
    (m : ℕ) (c : Client) (used : ℕ) → Within m c → Within m (free_ports m used (use_ports m used c))
room_refused zero c used h = tt
room_refused (suc m) c used (h, le) =
    let t = +ℤ_parts c.ports_used_num (pos used) in
    let u = -ℤ_parts (c.ports_used_num +ℤ pos used) (pos used) in (omega arith, omega arith)

pub room_set :
    (m : ℕ) (c : Client) (name : String) (used : ℕ)
    → Within m c
    → c.pending ≡ some (name, used)
    → Within m (record c { proxies = set_entry name used c.proxies; pending = none })
room_set zero c name used h busy = tt
room_set (suc m) c name used (h, le) busy =
    let p = ap pending_ports busy in
    let t = sum_ports-set_entry_le name used c.proxies in (omega arith, le)

pub room_delete :
    (m : ℕ) (c : Client) (name : String) (used : ℕ)
    → Within m c
    → lookup name c.proxies ≡ some used
    → Within m (record (free_ports m used c) { proxies = delete_entry name c.proxies })
room_delete zero c name used h found = tt
room_delete (suc m) c name used (h, le) found =
    let p = sum_ports-delete_entry name c.proxies used found in
    let t = -ℤ_parts c.ports_used_num (pos used) in (omega arith, omega arith)

pub room_stop : (m : ℕ) (c : Client) → Within m c → Within m (record c { stopped = true })
room_stop zero c h = tt
room_stop (suc m) c h = h
