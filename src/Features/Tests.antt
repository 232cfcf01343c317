-- ===== src/Features/Tests.antt =====
-- A selector that was asked for a deprecated feature and, twice, for the third version of datagrams.
use shitflared.Prelude.{◌≡◌, refl, true, not, ◌&&◌, ◌||◌, [], ◌∷◌, none}
use shitflared.Prelude.Text.{codes, same_text}
use shitflared.Features.{
  contains, default_features, deprecated_features, datagram_v3, version_feature, FeatureSelector,
  new_feature_selector, refresh, dedup_and_remove_features, datagram_version, client_features,
}
use shitflared.Features.Listed.{Unrepeated, client_features_lem}

abbrev selector : FeatureSelector
selector =
    new_feature_selector (codes "tag")
      (codes "support_datagram_v3"
        ∷ codes "support_datagram_v3_2"
        ∷ codes "support_datagram_v3_2"
        ∷ [])
      true none

uses_v3 : datagram_version selector ≡ datagram_v3
unfolding new_feature_selector refresh dedup_and_remove_features datagram_version same_text
uses_v3 = refl

client_features_lem_example :
    Unrepeated (client_features selector)
    × ((contains (client_features selector) (version_feature (datagram_version selector)) ≡ true)
        × (contains (client_features selector) (codes "postquantum") ≡ (
            not (contains deprecated_features (codes "postquantum"))
            && (contains default_features (codes "postquantum")
                || (contains selector.cli_features (codes "postquantum")
                    || contains
                        (version_feature (datagram_version selector) ∷ [])
                        (codes "postquantum"))))))
client_features_lem_example = client_features_lem selector (codes "postquantum")
