-- ===== src/Examples/Webhook.antt =====
-- The admission of the profile of a Minecraft server.
use minato.Prelude.{
  ℕ, ◌≡◌, ◌↔◌, ltb, if◌then◌else◌, ℤ, pos, negsuc, none, some, [], ◌∷◌, codes, atoi, unsigned,
  of_digits, refl, Option, ◌==◌,
}
use minato.Api.Meta.{lookup}
use minato.Api.GameProfile.{GameProfile}
use minato.Webhook.GameProfile.{
  Parsed, quantity, invalid, Quantities, validate_game_profile, required, validate_ports,
  validate_port, validate_resource_tiers, validate_tier_names, tier_name_error, tier_name_pattern,
  ends_alphanumeric, validate_default_tier, no_tiers, validate_storage_sizes, validate_min,
  validate_max, validate_range,
}
use minato.Webhook.Accepted.{IsAccepted, validate_game_profile-IsAccepted}
use minato.Examples.Data.{minecraft}

abbrev number_of : Option ℤ → Parsed ℕ
number_of none = invalid "no number"
number_of (some (negsuc n)) = invalid "negative"
number_of (some (pos n)) = quantity n

abbrev compare : ℕ → ℕ → ℤ
compare a b = if ltb a b then negsuc 0 else if a == b then pos 0 else pos 1

-- Decimal numbers.
abbrev decimals : Quantities
decimals = record { Quantity = ℕ; parse = λ v. number_of (atoi (codes v)); cmp = compare }

abbrev sized : GameProfile
sized = record minecraft {
  spec = record minecraft.spec {
    ports =
        (record { name = "game"; container_port = pos 25565; protocol = ""; exposed = none }) ∷ [];
    resources = record {
      requirements = "";
      tiers = ("small", "1") ∷ ("big", "4") ∷ [];
      default = "small";
    };
    storage = record {
      mount_path = "/data";
      size_default = "20";
      size_min = "10";
      size_max = "50";
    };
    agent = record { image = "minato/agent"; version = "" };
  };
}

sized_is_admitted : validate_game_profile decimals sized ≡ none
unfolding validate_game_profile required validate_ports validate_port validate_resource_tiers
    validate_tier_names tier_name_error tier_name_pattern ends_alphanumeric validate_default_tier
    no_tiers validate_storage_sizes validate_min validate_max validate_range lookup atoi unsigned
    of_digits
sized_is_admitted = refl

validate_game_profile-IsAccepted_example :
    (validate_game_profile decimals sized ≡ none) ↔ IsAccepted decimals sized
validate_game_profile-IsAccepted_example = validate_game_profile-IsAccepted decimals sized
