-- ===== src/Nathole/Behavior.antt =====
-- pkg/nathole/analysis.go: the tables of what the two ends of a hole punch do, by mode.
pub mod Tables
use chml_frp_frp.Prelude.{
  ℕ, ◌≡◌, refl, Option, none, some, List, [], ◌∷◌, get_elem?, All, ◌==◌, if◌then◌else◌,
}

-- `unset` is the role of the empty behaviour.
pub data Role : Type 0 where
  sender receiver unset : Role

pub record RecommandBehavior : Type 0 where
  pub role : Role
  pub ttl : ℕ
  pub send_delay_ms : ℕ
  pub ports_range_number : ℕ
  pub ports_random_number : ℕ
  pub listen_random_ports : ℕ

-- A behaviour of which only the role is set.
abbrev pub plain : Role → RecommandBehavior
plain role = record {
  role = role;
  ttl = 0;
  send_delay_ms = 0;
  ports_range_number = 0;
  ports_random_number = 0;
  listen_random_ports = 0;
}

abbrev pub Behaviors : Type 0
Behaviors = List (RecommandBehavior × RecommandBehavior)

abbrev with_ttl : ℕ → RecommandBehavior → RecommandBehavior
with_ttl n b = record b { ttl = n }

abbrev with_delay : ℕ → RecommandBehavior → RecommandBehavior
with_delay n b = record b { send_delay_ms = n }

abbrev with_range : ℕ → RecommandBehavior → RecommandBehavior
with_range n b = record b { ports_range_number = n }

abbrev with_random : ℕ → RecommandBehavior → RecommandBehavior
with_random n b = record b { ports_random_number = n }

abbrev with_listen : ℕ → RecommandBehavior → RecommandBehavior
with_listen n b = record b { listen_random_ports = n }

abbrev pub mode0_behaviors : Behaviors
mode0_behaviors =
    (plain sender, with_ttl 7 (plain receiver))
    ∷ (with_ttl 7 (plain receiver), plain sender)
    ∷ (plain sender, with_ttl 4 (plain receiver))
    ∷ (with_ttl 4 (plain receiver), plain sender)
    ∷ (plain sender, plain receiver)
    ∷ (plain receiver, plain sender)
    ∷ (with_delay 5000 (plain sender), plain receiver)
    ∷ (with_delay 10000 (plain sender), plain receiver)
    ∷ (plain receiver, with_delay 5000 (plain sender))
    ∷ (plain receiver, with_delay 10000 (plain sender))
    ∷ []

abbrev pub mode1_behaviors : Behaviors
mode1_behaviors =
    (plain sender, with_range 10 (with_ttl 7 (plain receiver)))
    ∷ (with_delay 2000 (plain sender), with_range 10 (with_ttl 7 (plain receiver)))
    ∷ (plain sender, with_range 10 (with_ttl 4 (plain receiver)))
    ∷ (with_delay 2000 (plain sender), with_range 10 (with_ttl 4 (plain receiver)))
    ∷ (plain sender, with_range 10 (plain receiver))
    ∷ (with_delay 2000 (plain sender), with_range 10 (plain receiver))
    ∷ []

-- The sender of the modes 2 and 4.
abbrev random_sender : RecommandBehavior
random_sender = with_delay 3000 (with_random 1000 (plain sender))

abbrev pub mode2_behaviors : Behaviors
mode2_behaviors =
    (random_sender, with_ttl 7 (with_listen 256 (plain receiver)))
    ∷ (random_sender, with_ttl 4 (with_listen 256 (plain receiver)))
    ∷ (random_sender, with_listen 256 (plain receiver))
    ∷ []

abbrev pub mode3_behaviors : Behaviors
mode3_behaviors =
    (with_range 10 (plain sender), with_range 10 (with_ttl 7 (plain receiver)))
    ∷ (with_range 10 (plain sender), with_range 10 (with_ttl 4 (plain receiver)))
    ∷ (with_range 10 (plain sender), with_range 10 (plain receiver))
    ∷ (with_range 10 (with_ttl 7 (plain receiver)), with_range 10 (plain sender))
    ∷ (with_range 10 (with_ttl 4 (plain receiver)), with_range 10 (plain sender))
    ∷ (with_range 10 (plain receiver), with_range 10 (plain sender))
    ∷ []

abbrev pub mode4_behaviors : Behaviors
mode4_behaviors =
    (random_sender, with_range 2 (with_ttl 7 (with_listen 256 (plain receiver))))
    ∷ (random_sender, with_range 2 (with_ttl 4 (with_listen 256 (plain receiver))))
    ∷ (random_sender, with_range 2 (with_listen 256 (plain receiver)))
    ∷ []

abbrev pub get_behavior_by_mode : ℕ → Behaviors
get_behavior_by_mode mode =
    if mode == 0
    then mode0_behaviors
    else if mode == 1
    then mode1_behaviors
    else if mode == 2
    then mode2_behaviors
    else if mode == 3
    then mode3_behaviors
    else if mode == 4
    then mode4_behaviors
    else mode0_behaviors

abbrev pub behavior_or_empty :
    Option (RecommandBehavior × RecommandBehavior) → RecommandBehavior × RecommandBehavior
behavior_or_empty none = (plain unset, plain unset)
behavior_or_empty (some pair) = pair

-- `getBehaviorByModeAndIndex`
unfoldable pub get_behavior_by_mode_and_index : ℕ → ℕ → RecommandBehavior × RecommandBehavior
get_behavior_by_mode_and_index mode index =
    behavior_or_empty (get_elem? (get_behavior_by_mode mode) index)
