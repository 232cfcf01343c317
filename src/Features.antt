-- ===== src/Features.antt =====
-- features/features.go and features/selector.go: which features a connection asks the edge for. The TXT
-- record is an argument; the map that removes duplicates has its keys in some order, here that of the
-- last mentions.
pub mod Listed
mod Tests
use shitflared.Prelude.{
  ℕ, ◌%◌, Bool, true, false, not, ◌&&◌, ◌||◌, List, [], ◌∷◌, ◌++◌, Option, none, some, ltb,
  if◌then◌else◌,
}
use shitflared.Prelude.Text.{Text, codes, same_text}
use shitflared.ProtocolSelection.{switch_threshold}

abbrev pub contains : List Text → Text → Bool
contains [] f = false
contains (g ∷ rest) f = same_text g f || contains rest f

abbrev pub default_features : List Text
default_features =
    codes "allow_remote_config"
    ∷ codes "serialized_headers"
    ∷ codes "support_datagram_v2"
    ∷ codes "support_quic_eof"
    ∷ codes "management_logs"
    ∷ []

abbrev pub deprecated_features : List Text
deprecated_features = codes "support_datagram_v3" ∷ codes "support_datagram_v3_1" ∷ []

abbrev pub feature_post_quantum : Text
feature_post_quantum = codes "postquantum"

pub data DatagramVersion : Type 0 where
  datagram_v2 datagram_v3 : DatagramVersion

abbrev pub version_feature : DatagramVersion → Text
version_feature datagram_v2 = codes "support_datagram_v2"
version_feature datagram_v3 = codes "support_datagram_v3_2"

unfoldable pub dedup_and_remove_features : List Text → List Text
dedup_and_remove_features [] = []
dedup_and_remove_features (f ∷ rest) =
    let later = dedup_and_remove_features rest in
    if contains deprecated_features f || contains later f then later else f ∷ later

-- `account_hash` is below 100; a record that cannot be read leaves the percentage as it is.
pub record FeatureSelector : Type 0 where
  pub account_hash : ℕ
  pub cli_features : List Text
  pub post_quantum_strict : Bool
  pub datagram_v3_percentage : ℕ

abbrev pub or_unchanged : ℕ → Option ℕ → ℕ
or_unchanged percentage none = percentage
or_unchanged percentage (some fetched) = fetched

unfoldable pub refresh : Option ℕ → FeatureSelector → FeatureSelector
refresh fetched fs = record fs {
  datagram_v3_percentage = or_unchanged fs.datagram_v3_percentage fetched;
}

unfoldable pub new_feature_selector :
    (account_tag : Text) → (cli_features : List Text) → (pq : Bool) → Option ℕ → FeatureSelector
new_feature_selector account_tag cli_features pq fetched = refresh fetched (record {
  account_hash = switch_threshold account_tag;
  cli_features =
      dedup_and_remove_features
        (if pq then cli_features ++ (feature_post_quantum ∷ []) else cli_features);
  post_quantum_strict = pq;
  datagram_v3_percentage = 0;
})

unfoldable pub account_enabled : FeatureSelector → ℕ → Bool
account_enabled fs percentage = ltb fs.account_hash percentage

unfoldable pub datagram_version : FeatureSelector → DatagramVersion
datagram_version fs =
    if contains fs.cli_features (version_feature datagram_v3)
    then datagram_v3
    else if contains fs.cli_features (version_feature datagram_v2)
    then datagram_v2
    else if account_enabled fs fs.datagram_v3_percentage
    then datagram_v3
    else datagram_v2

unfoldable pub client_features : FeatureSelector → List Text
client_features fs =
    dedup_and_remove_features
      (default_features ++ (fs.cli_features ++ (version_feature (datagram_version fs) ∷ [])))
