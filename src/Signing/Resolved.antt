-- ===== src/Signing/Resolved.antt =====
-- The bundle ids of a page of profiles (crates/stack_core/src/providers/appstore/client.rs).
use stack_connect_core.Prelude.{
  String, ◌≡◌, refl, ap, Option, none, some, List, [], ◌∷◌, map, and_then,
}
use stack_connect_core.Prelude.Table.{Table, lookup, replaced, last_from, add_each, add_each-last}
use stack_connect_core.Paging.{ResourceIdentifier}
use stack_connect_core.Signing.{
  ProfileResource, ProfileIncluded, bundle_ids, other, ProfilesResponse, ProvisioningProfileInfo,
  into_profile_info, flatten,
}
use stack_connect_core.Signing.Profiles.{add_bundle_id, profiles_of}

abbrev pub as_bundle_id : ProfileIncluded → Option (String × Option String)
as_bundle_id (bundle_ids id attributes) = some (id, attributes.identifier)
as_bundle_id other = none

-- The identifier in the last included bundle id that a profile's relationship names.
abbrev pub named_by : List ProfileIncluded → ProfileResource → Option String
named_by included r =
    and_then r.relationships.bundle_id.resource
      (λ rel. flatten (last_from as_bundle_id rel.id none included))

abbrev pub seen : ProvisioningProfileInfo → String × Option String
seen p = (p.id, p.bundle_id)

abbrev pub expected : List ProfileIncluded → ProfileResource → String × Option String
expected included r = (r.id, named_by included r)

add_bundle_id-step :
    (id : String) (table : Table (Option String)) (r : ProfileIncluded)
    → lookup id (add_bundle_id table r) ≡ replaced as_bundle_id id (lookup id table) r
unfolding add_bundle_id lookup
add_bundle_id-step id table (bundle_ids _ _) = refl
add_bundle_id-step id table other = refl

lookup-last :
    (id : String) (included : List ProfileIncluded)
    → lookup id (add_each add_bundle_id [] included) ≡ last_from as_bundle_id id none included
unfolding lookup
lookup-last id included =
    add_each-last as_bundle_id add_bundle_id (λ t. lookup id t) id (add_bundle_id-step id) []
      included

resolved :
    (included : List ProfileIncluded) (o : Option ResourceIdentifier)
    → and_then o (λ r. flatten (lookup r.id (add_each add_bundle_id [] included)))
      ≡ and_then o (λ r. flatten (last_from as_bundle_id r.id none included))
resolved included none = refl
resolved included (some r) = ap flatten (lookup-last r.id included)

module _ (included : List ProfileIncluded) where
  bundle_ids-last :
      (rs : List ProfileResource)
      → map seen (map (λ r. into_profile_info r (add_each add_bundle_id [] included)) rs)
        ≡ map (expected included) rs
  unfolding into_profile_info
  bundle_ids-last [] = refl
  bundle_ids-last (r ∷ rs) = rw (bundle_ids-last rs) (
      ap (λ b. (r.id, b) ∷ map (expected included) rs)
        (resolved included r.relationships.bundle_id.resource))

-- The profiles of a page are its resources in their order, each with the identifier of the last
-- included bundle id that its relationship names; a profile without a relationship, one whose
-- bundle id is not included, and one whose bundle id has no identifier have none.
pub profiles_of-last :
    (page : ProfilesResponse)
    → map seen (profiles_of page) ≡ map (expected page.included) page.resources
profiles_of-last page = bundle_ids-last page.included page.resources
