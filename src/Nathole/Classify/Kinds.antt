-- ===== src/Nathole/Classify/Kinds.antt =====
-- What the kind of a network says of the addresses under which it was seen, pkg/nathole/classify.go.
use chml_frp_frp.Prelude.{
  ℕ, ◌+◌, ◌≤◌, String, ◌≡◌, ◌↔◌, refl, sym, ◌∙◌, Bool, true, false, not, ◌||◌, some, List, [], ◌∷◌,
  map, length, leb, str_eq, eq_iff, All, arith, inl, inr, Bool-cases,
}
use chml_frp_frp.Nathole.Classify.{
  easy_nat, NatFeature, Address, Seen, nothing_seen, note_public, note_address, see_addresses,
  feature_of, feature, classify_nat_feature,
}

-- An address with the IP and the port of another.
abbrev pub SameAs : Address → Address → Type 0
SameAs a x = (x.ip ≡ a.ip) × (x.port ≡ a.port)

-- What the loop knows after some addresses, the first of which is `a`.
record Knows (a : Address) (seen : List Address) (s : Seen) : Type 0 where
  base_ip : s.base_ip ≡ a.ip
  base_port : s.base_port ≡ a.port
  same_ips : (s.ip_changed ≡ false) ↔ All (λ x. x.ip ≡ a.ip) seen
  same_ports : (s.port_changed ≡ false) ↔ All (λ x. x.port ≡ a.port) seen
  within : All (λ x. (s.port_min ≤ x.port_num) × (x.port_num ≤ s.port_max)) seen

-- A flag that is raised where a text differs from the one to which it is compared.
raised :
    (base own y : String) (b : Bool) {Q : Type 0}
    → base ≡ own
    → ((b ≡ false) ↔ Q)
    → ((not (str_eq base y) || b) ≡ false) ↔ ((y ≡ own) × Q)
raised base own y b e q = elim (Bool-cases (str_eq base y)) [
  | inl same ↦
      let eq : y ≡ own = sym ((eq_iff base y).0 same) ∙ e in
      rw same (λ h. (eq, q.0 h), λ h. q.1 h.1)
  | inr differ ↦ rw differ (
    λ h. absurd (cc),
    λ h. let same : str_eq base y ≡ true = (eq_iff base y).1 (e ∙ sym h.0) in absurd (cc),
  )
]

widen :
    (low high low' high' : ℕ) (seen : List Address)
    → low' ≤ low
    → high ≤ high'
    → All (λ x. (low ≤ x.port_num) × (x.port_num ≤ high)) seen
    → All (λ x. (low' ≤ x.port_num) × (x.port_num ≤ high')) seen
widen low high low' high' [] hl hh h = tt
widen low high low' high' (x ∷ seen) hl hh ((p, q), h) =
    ((omega arith, omega arith), widen low high low' high' seen hl hh h)

-- The addresses in the order in which the loop has met them, the last one first.
abbrev rev_onto : List Address → List Address → List Address
rev_onto [] seen = seen
rev_onto (x ∷ xs) seen = rev_onto xs (x ∷ seen)

All-rev_onto :
    (P : Address → Type 0) (xs seen : List Address)
    → All P (rev_onto xs seen)
    → All P xs × All P seen
All-rev_onto P [] seen h = (tt, h)
All-rev_onto P (x ∷ xs) seen h =
    let (later, (p, ps)) = All-rev_onto P xs (x ∷ seen) h in ((p, later), ps)

rev_onto-All :
    (P : Address → Type 0) (xs seen : List Address)
    → All P xs
    → All P seen
    → All P (rev_onto xs seen)
rev_onto-All P [] seen h k = k
rev_onto-All P (x ∷ xs) seen (p, ps) k = rev_onto-All P xs (x ∷ seen) ps (p, k)

module _ (contains : String → List String → Bool) (local_ips : List String) (a : Address) where
  note : Address → Seen → Seen
  note x s = note_address contains local_ips x (note_public contains local_ips x s)

  step-Knows :
      (seen : List Address) (x : Address) (s : Seen)
      → str_eq a.ip "" ≡ false
      → Knows a seen s
      → Knows a (x ∷ seen) (note x s)
  unfolding note
  step-Knows seen x s named k =
      let known : str_eq s.base_ip "" ≡ false = rw (k.base_ip) named in
      rw (note, note_address, known)
        (record {
          base_ip = k.base_ip;
          base_port = k.base_port;
          same_ips = raised s.base_ip a.ip x.ip s.ip_changed k.base_ip k.same_ips;
          same_ports = raised s.base_port a.port x.port s.port_changed k.base_port k.same_ports;
          within = (
            (ground arith, ground arith),
            widen s.port_min s.port_max _ _ seen (ground arith) (ground arith) k.within,
          );
        })

  loop-Knows :
      (seen xs : List Address) (s : Seen)
      → str_eq a.ip "" ≡ false
      → Knows a seen s
      → (t : Seen) × (see_addresses contains local_ips (map some xs) s ≡ some t)
        × Knows a (rev_onto xs seen) t
  unfolding see_addresses note
  loop-Knows seen [] s named k = (s, refl, k)
  loop-Knows seen (x ∷ xs) s named k =
      loop-Knows (x ∷ seen) xs (note x s) named (step-Knows seen x s named k)

-- What the kind of a network says of the addresses, the first of which is `a`.
pub record Kinds (a : Address) (rest : List Address) (f : NatFeature) : Type 0 where
  pub easy : (f.nat_type ≡ easy_nat) ↔ All (SameAs a) rest
  pub regular :
      f.regular_ports_change ≡ true
      → All (λ x. x.ip ≡ a.ip) rest
        × (low : ℕ) × All (λ x. (low ≤ x.port_num) × (x.port_num ≤ low + 5)) (a ∷ rest)

pair_up :
    (a : Address) (xs : List Address)
    → All (λ x. x.ip ≡ a.ip) xs
    → All (λ x. x.port ≡ a.port) xs
    → All (SameAs a) xs
pair_up a [] h k = tt
pair_up a (x ∷ xs) (h, hs) (k, ks) = ((h, k), pair_up a xs hs ks)

unpair :
    (a : Address) (xs : List Address)
    → All (SameAs a) xs
    → All (λ x. x.ip ≡ a.ip) xs × All (λ x. x.port ≡ a.port) xs
unpair a [] h = (tt, tt)
unpair a (x ∷ xs) ((h, k), hs) = let (ips, ports) = unpair a xs hs in ((h, ips), (k, ports))

easy_flags :
    (t : Seen)
    → ((feature_of t).nat_type ≡ easy_nat) ↔ ((t.ip_changed ≡ false) × (t.port_changed ≡ false))
unfolding feature_of
easy_flags t = ground arith

regular_flags :
    (t : Seen)
    → (feature_of t).regular_ports_change ≡ true
    → (t.ip_changed ≡ false) × (t.port_max ≤ t.port_min + 5)
unfolding feature_of
regular_flags t h = ground arith

Knows-Kinds :
    (a : Address) (rest : List Address) (t : Seen)
    → Knows a (rev_onto rest (a ∷ [])) t
    → Kinds a rest (feature_of t)
Knows-Kinds a rest t k = record {
  easy = (
    λ h.
        let (ips, ports) = (easy_flags t).0 h in
        pair_up a rest (All-rev_onto _ rest (a ∷ []) (k.same_ips.0 ips)).0
          (All-rev_onto _ rest (a ∷ []) (k.same_ports.0 ports)).0,
    λ h.
        let (ips, ports) = unpair a rest h in
        (easy_flags t).1 (
          k.same_ips.1 (rev_onto-All _ rest (a ∷ []) ips (refl, tt)),
          k.same_ports.1 (rev_onto-All _ rest (a ∷ []) ports (refl, tt)),
        ),
  );
  regular = λ h.
      let (ips, near) = regular_flags t h in
      let (inside, (own, _)) = All-rev_onto _ rest (a ∷ []) k.within in
      (
        (All-rev_onto _ rest (a ∷ []) (k.same_ips.0 ips)).0,
        t.port_min,
        widen t.port_min t.port_max t.port_min (t.port_min + 5) (a ∷ rest) (omega arith)
            (omega arith) (own, inside),
      );
}

-- From at least two addresses that can be read, the first of them with an IP: the network is easy just
-- if all the others have the IP and the port of the first; if its ports change regularly, all have one
-- IP, and the ports lie within five of each other.
pub classify_nat_feature-Kinds :
    (contains : String → List String → Bool) (local_ips : List String) (a b : Address)
    (rest : List Address)
    → str_eq a.ip "" ≡ false
    → (f : NatFeature) × (classify_nat_feature contains local_ips (map some (a ∷ b ∷ rest))
        ≡ feature f)
      × Kinds a (b ∷ rest) f
unfolding classify_nat_feature see_addresses note
classify_nat_feature-Kinds contains local_ips a b rest named =
    let (t, e, k) =
      loop-Knows contains local_ips a (a ∷ []) (b ∷ rest) (note contains local_ips a a nothing_seen)
        named first in
    (feature_of t, rw (classify_nat_feature, many, e) refl, Knows-Kinds a (b ∷ rest) t k)
  where
    many : leb (length (map some (a ∷ b ∷ rest))) 1 ≡ false
    many = ground arith

    first : Knows a (a ∷ []) (note contains local_ips a a nothing_seen)
    first = record {
      base_ip = refl;
      base_port = refl;
      same_ips = (λ h. (refl, tt), λ h. refl);
      same_ports = (λ h. (refl, tt), λ h. refl);
      within = ((omega arith, omega arith), tt);
    }
