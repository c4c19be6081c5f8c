-- ===== src/Signing/Profiles.antt =====
-- Certificates and provisioning profiles (crates/stack_core/src/providers/appstore/client.rs): the
-- bundle id of a profile is resolved against the `included` section of its page.
use stack_connect_core.Prelude.{
  ℕ, String, ◌<>◌, not, Option, none, some, List, [], ◌∷◌, map, ◌==◌, keep_if,
}
use stack_connect_core.Prelude.Table.{Table, insert, add_each}
use stack_connect_core.Json.{
  Json, Members, text, array, member, end, object, single, document, to_one, identifiers, creation,
}
use stack_connect_core.Wire.{Host, M, pure, decoded, ◌>>=◌}
use stack_connect_core.Transport.{AppStoreClient, get_page, post_json_2xx, delete_at}
use stack_connect_core.Paging.{fetch_all}
use stack_connect_core.Signing.{
  Decoders, CertificateInfo, ProfileIncluded, bundle_ids, other, ProfilesResponse,
  ProvisioningProfileInfo, into_certificate_info, into_profile_info,
}

-- `filter(|v| !v.is_empty())`
abbrev pub given : Option String → Option String
given = keep_if (λ v. not (v == ""))

-- The owner of a certificate: a pass type before a merchant, and no member if there is neither.
abbrev pub owner_members : Option String → Option String → Members
owner_members (some id) merchant_id =
    member "relationships" (single "passTypeId" (to_one "passTypeIds" id)) end
owner_members none (some id) =
    member "relationships" (single "merchantId" (to_one "merchantIds" id)) end
owner_members none none = end

abbrev pub certificate_document : String → String → Option String → Option String → Json
certificate_document csr_content certificate_type pass_type_id merchant_id = document (
    object (
      member "type" (text "certificates") (
        member "attributes"
          (object (
            member "csrContent" (text csr_content)
              (member "certificateType" (text certificate_type) end)))
          (owner_members (given pass_type_id) (given merchant_id)))))

-- No member for an empty list of devices.
abbrev pub devices_member : List String → Members
devices_member [] = end
devices_member (id ∷ ids) =
    member "devices" (document (array (identifiers "devices" (id ∷ ids)))) end

abbrev pub profile_document : String → String → String → List String → List String → Json
profile_document name profile_type bundle_id certificate_ids device_ids =
    creation "profiles" (member "name" (text name) (member "profileType" (text profile_type) end)) (
      member "bundleId" (to_one "bundleIds" bundle_id) (
        member "certificates" (document (array (identifiers "certificates" certificate_ids)))
          (devices_member device_ids)))

-- One round of the `collect` into the table of included bundle ids.
unfoldable pub add_bundle_id : Table (Option String) → ProfileIncluded → Table (Option String)
add_bundle_id table (bundle_ids id attributes) = insert id attributes.identifier table
add_bundle_id table other = table

abbrev pub profiles_of : ProfilesResponse → List ProvisioningProfileInfo
profiles_of page =
    let table = add_each add_bundle_id [] page.included in
    map (λ p. into_profile_info p table) page.resources

module _ {H : Host} (D : Decoders) (c : AppStoreClient) where
  unfoldable pub fetch_certificates : ℕ → M H (List CertificateInfo)
  fetch_certificates fuel =
      fetch_all c "certificates response: " D.certificates
        (λ page. map into_certificate_info page.resources) (λ page. page.links) fuel
        (c.base_url <> "/v1/certificates?sort=displayName&limit=200")

  unfoldable pub fetch_certificate_content : String → M H (Option String)
  fetch_certificate_content id = do
    body ← get_page c (
        (c.base_url <> "/v1/certificates/")
        <> id
        <> "?fields[certificates]=certificateContent,displayName,name,certificateType,platform,serialNumber,expirationDate,activated")
    found ← decoded "certificate response: " (D.certificate body)
    pure found.resource.attributes.certificate_content

  unfoldable pub create_certificate :
      String → String → Option String → Option String → M H CertificateInfo
  create_certificate csr_content certificate_type pass_type_id merchant_id = do
    body ←
        post_json_2xx c (c.base_url <> "/v1/certificates")
          (certificate_document csr_content certificate_type pass_type_id merchant_id)
    made ← decoded "certificate response: " (D.certificate body)
    pure (into_certificate_info made.resource)

  unfoldable pub fetch_profiles : ℕ → M H (List ProvisioningProfileInfo)
  fetch_profiles fuel =
      fetch_all c "profiles response: " D.profiles profiles_of (λ page. page.links) fuel
        (c.base_url <> "/v1/profiles?sort=name&limit=200&include=bundleId")

  unfoldable pub create_profile :
      String → String → String → List String → List String → M H ProvisioningProfileInfo
  create_profile name profile_type bundle_id certificate_ids device_ids = do
    body ←
        post_json_2xx c (c.base_url <> "/v1/profiles")
          (profile_document name profile_type bundle_id certificate_ids device_ids)
    made ← decoded "profile response: " (D.profile body)
    pure (into_profile_info made.resource [])

  unfoldable pub fetch_profile_content : String → M H (Option String)
  fetch_profile_content id = do
    body ← get_page c (
        (c.base_url <> "/v1/profiles/")
        <> id
        <> "?fields[profiles]=profileContent,name,profileType,platform,profileState,uuid,createdDate,expirationDate")
    found ← decoded "profile response: " (D.profile body)
    pure found.resource.attributes.profile_content

module _ {H : Host} (c : AppStoreClient) where
  unfoldable pub revoke_certificate : String → M H (Unit {0})
  revoke_certificate id = delete_at c (c.base_url <> "/v1/certificates/" <> id)

  unfoldable pub delete_profile : String → M H (Unit {0})
  delete_profile id = delete_at c (c.base_url <> "/v1/profiles/" <> id)
