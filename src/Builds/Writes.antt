-- ===== src/Builds/Writes.antt =====
-- The writing operations on builds (crates/stack_core/src/providers/appstore/client.rs).
use stack_connect_core.Prelude.{String, ◌<>◌, true, List, [], ◌∷◌}
use stack_connect_core.Json.{
  Json, text, flag, array, member, end, object, single, document, to_one, identifiers, changes,
}
use stack_connect_core.Wire.{Host, M}
use stack_connect_core.Transport.{AppStoreClient, patch_unit, post_unit, delete_with}

abbrev beta_review_document : String → Json
beta_review_document build_id = document (
    object (
      member "type" (text "betaAppReviewSubmissions")
        (member "relationships" (single "build" (to_one "builds" build_id)) end)))

module _ {H : Host} (c : AppStoreClient) where
  unfoldable pub expire_build : String → M H (Unit {0})
  expire_build build_id =
      patch_unit c (c.base_url <> "/v1/builds/" <> build_id)
        (changes "builds" build_id (member "expired" (flag true) end))

  unfoldable pub attach_build : String → String → M H (Unit {0})
  attach_build version_id build_id =
      patch_unit c (c.base_url <> "/v1/appStoreVersions/" <> version_id <> "/relationships/build")
        (to_one "builds" build_id)

  unfoldable pub submit_build_for_beta_review : String → M H (Unit {0})
  submit_build_for_beta_review build_id =
      post_unit c (c.base_url <> "/v1/betaAppReviewSubmissions") (beta_review_document build_id)

  unfoldable pub add_build_to_groups : String → List String → M H (Unit {0})
  add_build_to_groups build_id group_ids =
      post_unit c (c.base_url <> "/v1/builds/" <> build_id <> "/relationships/betaGroups")
        (document (array (identifiers "betaGroups" group_ids)))

  unfoldable pub remove_build_from_group : String → String → M H (Unit {0})
  remove_build_from_group build_id group_id =
      delete_with c (c.base_url <> "/v1/betaGroups/" <> group_id <> "/relationships/builds")
        (document (array (identifiers "builds" (build_id ∷ []))))
