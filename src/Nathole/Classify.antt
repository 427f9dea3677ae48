-- ===== src/Nathole/Classify.antt =====
-- pkg/nathole/classify.go: the kind of a network, from the addresses under which it was seen. An
-- address comes as `net.SplitHostPort` and `strconv.Atoi` read it, or as none where one of them fails.
-- A port is not negative. `contains` is `lo.Contains`.
pub mod Kinds
use chml_frp_frp.Prelude.{
  ℕ, ◌-◌, String, Bool, true, false, not, ◌&&◌, ◌||◌, Option, none, some, List, [], ◌∷◌, ltb, leb,
  str_eq, length, suc, if◌then◌else◌,
}

pub data NatType : Type 0 where
  easy_nat hard_nat : NatType

pub data Behavior : Type 0 where
  no_change ip_changed port_changed both_changed : Behavior

pub record NatFeature : Type 0 where
  pub nat_type : NatType
  pub behavior : Behavior
  pub ports_difference : ℕ
  pub regular_ports_change : Bool
  pub public_network : Bool

pub record Address : Type 0 where
  pub ip : String
  pub port : String
  pub port_num : ℕ

-- The variables of the loop.
pub record Seen : Type 0 where
  pub base_ip : String
  pub base_port : String
  pub port_max : ℕ
  pub port_min : ℕ
  pub ip_changed : Bool
  pub port_changed : Bool
  pub public_network : Bool

abbrev pub nothing_seen : Seen
nothing_seen = record {
  base_ip = "";
  base_port = "";
  port_max = 0;
  port_min = 0;
  ip_changed = false;
  port_changed = false;
  public_network = false;
}

module _ (contains : String → List String → Bool) (local_ips : List String) where
  abbrev pub note_public : Address → Seen → Seen
  note_public a s = record s { public_network = contains a.ip local_ips || s.public_network }

  -- A round of the loop, below the test for a public network.
  abbrev pub note_address : Address → Seen → Seen
  note_address a s =
      if str_eq s.base_ip ""
      then record s {
        base_ip = a.ip;
        base_port = a.port;
        port_max = a.port_num;
        port_min = a.port_num;
      }
      else record s {
        port_max = if ltb s.port_max a.port_num then a.port_num else s.port_max;
        port_min = if ltb a.port_num s.port_min then a.port_num else s.port_min;
        ip_changed = not (str_eq s.base_ip a.ip) || s.ip_changed;
        port_changed = not (str_eq s.base_port a.port) || s.port_changed;
      }

  -- The loop, which ends at the first address that cannot be read.
  unfoldable pub see_addresses : List (Option Address) → Seen → Option Seen
  see_addresses [] s = some s
  see_addresses (none ∷ rest) s = none
  see_addresses (some a ∷ rest) s = see_addresses rest (note_address a (note_public a s))

abbrev pub nat_type_of : Behavior → NatType
nat_type_of no_change = easy_nat
nat_type_of _ = hard_nat

abbrev pub behavior_of : Seen → Behavior
behavior_of s =
    if s.ip_changed && s.port_changed
    then both_changed
    else if s.ip_changed
    then ip_changed
    else if s.port_changed
    then port_changed
    else no_change

abbrev pub is_port_changed : Behavior → Bool
is_port_changed port_changed = true
is_port_changed _ = false

-- The end of the function, after the loop.
unfoldable pub feature_of : Seen → NatFeature
feature_of s =
    let only_ports = is_port_changed (behavior_of s) in
    let difference = s.port_max - s.port_min in
    record {
      nat_type = nat_type_of (behavior_of s);
      behavior = behavior_of s;
      ports_difference = if only_ports then difference else 0;
      regular_ports_change = only_ports && leb difference 5 && leb 1 difference;
      public_network = s.public_network;
    }

pub data ClassifyError : Type 0 where
  not_enough_addresses bad_address : ClassifyError

pub data Classified : Type 0 where
  feature : NatFeature → Classified
  failed : ClassifyError → Classified

abbrev pub classified : Option Seen → Classified
classified none = failed bad_address
classified (some s) = feature (feature_of s)

-- `ClassifyNATFeature`
unfoldable pub classify_nat_feature :
    (String → List String → Bool) → List String → List (Option Address) → Classified
unfolding see_addresses feature_of
classify_nat_feature contains local_ips addresses =
    if leb (length addresses) 1
    then failed not_enough_addresses
    else classified (see_addresses contains local_ips addresses nothing_seen)

pub record Counts : Type 0 where
  pub easy_count : ℕ
  pub hard_count : ℕ
  pub ports_changed_regular_count : ℕ

abbrev pub count_feature : NatFeature → Counts → Counts
count_feature f n = elim f.nat_type [
  | easy_nat ↦ record n { easy_count = suc n.easy_count }
  | hard_nat ↦ record n {
    hard_count = suc n.hard_count;
    ports_changed_regular_count =
        if f.regular_ports_change
        then suc n.ports_changed_regular_count
        else n.ports_changed_regular_count;
  }
]

abbrev pub count_all : List NatFeature → Counts → Counts
count_all [] n = n
count_all (f ∷ fs) n = count_all fs (count_feature f n)

-- `ClassifyFeatureCount`
unfoldable pub classify_feature_count : List NatFeature → Counts
classify_feature_count features =
    count_all features (record { easy_count = 0; hard_count = 0; ports_changed_regular_count = 0 })
