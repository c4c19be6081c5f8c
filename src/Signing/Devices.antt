-- ===== src/Signing/Devices.antt =====
-- Devices, bundle ids and their capabilities (crates/stack_core/src/providers/appstore/client.rs).
use stack_connect_core.Prelude.{ℕ, String, ◌<>◌, Option, none, some, List, [], ◌∷◌, map}
use stack_connect_core.Error.{decode}
use stack_connect_core.Json.{
  Members, text, member, end, to_one, member_if, changes, creation, plain_creation,
}
use stack_connect_core.Wire.{Host, M, pure, raise, decoded, ◌>>=◌}
use stack_connect_core.Transport.{AppStoreClient, post_json_2xx, patch_unit, delete_at}
use stack_connect_core.Paging.{fetch_all}
use stack_connect_core.Signing.{
  Decoders, DeviceInfo, BundleIdInfo, BundleIdCapabilityResource, BundleIdCapabilityInfo,
  into_device_info, into_bundle_id_info, into_capability_info,
}

abbrev pub device_attributes : Option String → Option String → Members
device_attributes name status = member_if "name" name (member_if "status" status end)

-- `filter_map(BundleIdCapabilityResource::into_capability_info)`
unfoldable pub known_capabilities : List BundleIdCapabilityResource → List BundleIdCapabilityInfo
known_capabilities [] = []
known_capabilities (r ∷ rs) =
    let rest = known_capabilities rs in
    elim (into_capability_info r) [ none ↦ rest | some info ↦ info ∷ rest ]

module _ {H : Host} (D : Decoders) (c : AppStoreClient) where
  unfoldable pub fetch_devices : ℕ → M H (List DeviceInfo)
  fetch_devices fuel =
      fetch_all c "devices response: " D.devices (λ page. map into_device_info page.resources)
        (λ page. page.links) fuel (c.base_url <> "/v1/devices?sort=name&limit=200")

  unfoldable pub create_device : String → String → String → M H DeviceInfo
  create_device name platform udid = do
    body ← post_json_2xx c (c.base_url <> "/v1/devices") (
        plain_creation "devices" (
          member "name" (text name)
            (member "platform" (text platform) (member "udid" (text udid) end))))
    made ← decoded "device response: " (D.device body)
    pure (into_device_info made.resource)

  unfoldable pub fetch_bundle_ids : ℕ → M H (List BundleIdInfo)
  fetch_bundle_ids fuel =
      fetch_all c "bundleIds response: " D.bundle_ids
        (λ page. map into_bundle_id_info page.resources) (λ page. page.links) fuel
        (c.base_url <> "/v1/bundleIds?sort=name&limit=200")

  unfoldable pub create_bundle_id : String → String → String → M H BundleIdInfo
  create_bundle_id identifier name platform = do
    body ← post_json_2xx c (c.base_url <> "/v1/bundleIds") (
        plain_creation "bundleIds" (
          member "name" (text name)
            (member "platform" (text platform) (member "identifier" (text identifier) end))))
    made ← decoded "bundleId response: " (D.bundle_id body)
    pure (into_bundle_id_info made.resource)

  unfoldable pub fetch_bundle_id_capabilities : ℕ → String → M H (List BundleIdCapabilityInfo)
  fetch_bundle_id_capabilities fuel bundle_id =
      fetch_all c "bundleIdCapabilities response: " D.capabilities
        (λ page. known_capabilities page.resources) (λ page. page.links) fuel
        (c.base_url <> "/v1/bundleIds/" <> bundle_id <> "/bundleIdCapabilities")

  abbrev pub or_missing_type : Option BundleIdCapabilityInfo → M H BundleIdCapabilityInfo
  or_missing_type none = raise (decode "bundleIdCapability response: missing capabilityType")
  or_missing_type (some info) = pure info

  unfoldable pub enable_capability : String → String → M H BundleIdCapabilityInfo
  enable_capability bundle_id capability_type = do
    body ← post_json_2xx c (c.base_url <> "/v1/bundleIdCapabilities") (
        creation "bundleIdCapabilities" (member "capabilityType" (text capability_type) end)
          (member "bundleId" (to_one "bundleIds" bundle_id) end))
    made ← decoded "bundleIdCapability response: " (D.capability body)
    or_missing_type (into_capability_info made.resource)

module _ {H : Host} (c : AppStoreClient) where
  unfoldable pub update_device : String → Option String → Option String → M H (Unit {0})
  update_device id name status =
      patch_unit c (c.base_url <> "/v1/devices/" <> id)
        (changes "devices" id (device_attributes name status))

  unfoldable pub update_bundle_id : String → String → M H (Unit {0})
  update_bundle_id id name =
      patch_unit c (c.base_url <> "/v1/bundleIds/" <> id)
        (changes "bundleIds" id (member "name" (text name) end))

  unfoldable pub delete_bundle_id : String → M H (Unit {0})
  delete_bundle_id id = delete_at c (c.base_url <> "/v1/bundleIds/" <> id)

  unfoldable pub disable_capability : String → M H (Unit {0})
  disable_capability capability_id =
      delete_at c (c.base_url <> "/v1/bundleIdCapabilities/" <> capability_id)
