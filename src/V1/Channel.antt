-- ===== src/V1/Channel.antt =====
-- api/v1/clawchannel_types.go
use hackaway_repo.Base.{String, Bool, true, false, Option, none, some, List, [], ◌∷◌, lookup}
use hackaway_repo.Kube.Objects.{ObjectMeta}

abbrev pub channel_type_telegram : String
channel_type_telegram = "telegram"

abbrev pub channel_type_slack : String
channel_type_slack = "slack"

abbrev pub channel_type_discord : String
channel_type_discord = "discord"

abbrev pub channel_type_msteams : String
channel_type_msteams = "msteams"

abbrev pub channels_with_bot_token : List (String × Bool)
channels_with_bot_token =
    (channel_type_telegram, true)
    ∷ (channel_type_slack, true)
    ∷ (channel_type_discord, true)
    ∷ (channel_type_msteams, true)
    ∷ []

abbrev pub channels_with_app_token : List (String × Bool)
channels_with_app_token = (channel_type_slack, true) ∷ []

-- m[k] for a map into `bool`, false on a missing key
unfoldable pub flag : List (String × Bool) → String → Bool
unfolding lookup
flag m k = elim (lookup k m) [ none ↦ false | some b ↦ b ]

-- m[k] for a map into `string`, empty on a missing key
unfoldable pub entry : List (String × String) → String → String
unfolding lookup
entry m k = elim (lookup k m) [ none ↦ "" | some s ↦ s ]

abbrev pub provider_api_formats : List (String × String)
provider_api_formats =
    ("anthropic", "anthropic-messages")
    ∷ ("openai", "openai-responses")
    ∷ ("google", "google-genai")
    ∷ []

abbrev pub provider_base_urls : List (String × String)
provider_base_urls =
    ("anthropic", "https://api.anthropic.com")
    ∷ ("openai", "https://api.openai.com/v1")
    ∷ ("google", "https://generativelanguage.googleapis.com/v1beta")
    ∷ []

abbrev pub default_provider_api_keys_secret : String
default_provider_api_keys_secret = "openclaw-api-keys"

pub record ClawChannelSpec : Type 0 where
  pub type : String
  pub enabled : Option Bool
  pub credentials_secret : String
  pub config : List (String × String)

unfoldable pub is_enabled : ClawChannelSpec → Bool
is_enabled c = elim c.enabled [ none ↦ true | some b ↦ b ]

pub record ClawChannel : Type 0 where
  pub meta : ObjectMeta
  pub spec : ClawChannelSpec
