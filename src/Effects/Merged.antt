-- ===== src/Effects/Merged.antt =====
-- What a partial update does to the attributes that a service keeps
-- (crates/stack_core/src/providers/appstore/client.rs).
use mathlib.Core.Path.{fun_ext}
use mathlib.Core.Option
use stack_connect_core.Prelude.{
  ℤ, String, ◌<>◌, ◌≡◌, refl, ap, sym, ◌∙◌, Bool, true, false, Option, none, some, ◌==◌,
  if◌then◌else◌,
}
use stack_connect_core.Json.{
  Json, Members, text, flag, integer, member, end, member_if, flag_if, integer_if, changes,
}
use stack_connect_core.Wire.{Host, Request}
use stack_connect_core.Wire.Emits.{Emits}
use stack_connect_core.Transport.{AppStoreClient, patch}
use stack_connect_core.Transport.Requests.{request_rules, patch_unit-Emits}
use stack_connect_core.Versions.{version_attributes, update_version}
use stack_connect_core.Versions
use stack_connect_core.Listing.Localizations.{localization_attributes, update_localization}
use stack_connect_core.TestFlight
use stack_connect_core.TestFlight.Groups.{group_attributes, update_beta_group}

-- The attributes of one resource, as a service keeps them.
abbrev pub Stored : Type 0
Stored = String → Option Json

-- An argument replaces what is stored, if it is given.
abbrev pub override : Option Json → Option Json → Option Json
override none old = old
override (some value) old = some value

abbrev pub put : String → Option Json → Stored → Stored
put k value stored key = if k == key then override value (stored key) else stored key

-- A service that is sent attributes stores each of them, and keeps the others.
unfoldable pub merge : Members → Stored → Stored
merge end stored = stored
merge (member k value rest) stored = merge rest (put k (some value) stored)

same_if {ℓ} : {A : Type ℓ} (b : Bool) (x : A) → (if b then x else x) ≡ x
same_if true x = refl
same_if false x = refl

put-none : (k : String) (stored : Stored) → put k none stored ≡ stored
put-none k stored = fun_ext (λ key. same_if (k == key) (stored key))

module _ (k : String) where
  text-merge :
      (o : Option String) (rest : Members) (stored : Stored)
      → merge (member_if k o rest) stored ≡ merge rest (put k (Option.map text o) stored)
  unfolding merge
  text-merge none rest stored = ap (merge rest) (sym (put-none k stored))
  text-merge (some v) rest stored = refl

  flag-merge :
      (o : Option Bool) (rest : Members) (stored : Stored)
      → merge (flag_if k o rest) stored ≡ merge rest (put k (Option.map flag o) stored)
  unfolding merge
  flag-merge none rest stored = ap (merge rest) (sym (put-none k stored))
  flag-merge (some v) rest stored = refl

  integer-merge :
      (o : Option ℤ) (rest : Members) (stored : Stored)
      → merge (integer_if k o rest) stored ≡ merge rest (put k (Option.map integer o) stored)
  unfolding merge
  integer-merge none rest stored = ap (merge rest) (sym (put-none k stored))
  integer-merge (some v) rest stored = refl

-- What `update_version` is to do to a version.
abbrev pub version_put :
    Option String → Option String → Option String → Option String → Stored → Stored
version_put version_string copyright release_type earliest_release_date stored =
    put "earliestReleaseDate" (Option.map text earliest_release_date) (
      put "releaseType" (Option.map text release_type) (
        put "copyright" (Option.map text copyright)
          (put "versionString" (Option.map text version_string) stored)))

-- What `update_beta_group` is to do to a group.
abbrev pub group_put : Option String → Option Bool → Option ℤ → Option Bool → Stored → Stored
group_put name public_link_enabled public_link_limit feedback_enabled stored =
    put "isFeedbackEnabled" (Option.map flag feedback_enabled) (
      put "publicLinkLimit" (Option.map integer public_link_limit) (
        put "isPublicLinkEnabled" (Option.map flag public_link_enabled)
          (put "name" (Option.map text name) stored)))

-- What `update_localization` is to do to a localization of a version.
abbrev pub localization_put :
    Option String
    → Option String
    → Option String
    → Option String
    → Option String
    → Option String
    → Stored
    → Stored
localization_put description keywords promotional_text support_url marketing_url whats_new stored =
    put "whatsNew" (Option.map text whats_new) (
      put "marketingUrl" (Option.map text marketing_url) (
        put "supportUrl" (Option.map text support_url) (
          put "promotionalText" (Option.map text promotional_text) (
            put "keywords" (Option.map text keywords)
              (put "description" (Option.map text description) stored)))))

-- The request is a PATCH of the one resource, and a service that merges the attributes it carries
-- makes of them what is expected.
pub record Merges (url kind id : String) (expected : Stored → Stored) (req : Request) : Type 0 where
  pub attributes : Members
  pub token : String
  pub sent : req ≡ patch url token (changes kind id attributes)
  pub merged : (stored : Stored) → merge attributes stored ≡ expected stored

version-merge :
    (v c r e : Option String) (stored : Stored)
    → merge (version_attributes v c r e) stored ≡ version_put v c r e stored
unfolding merge
version-merge v c r e stored =
    text-merge "versionString" v _ stored
    ∙ text-merge "copyright" c _ _
    ∙ text-merge "releaseType" r _ _
    ∙ text-merge "earliestReleaseDate" e end _

group-merge :
    (n : Option String) (p : Option Bool) (l : Option ℤ) (f : Option Bool) (stored : Stored)
    → merge (group_attributes n p l f) stored ≡ group_put n p l f stored
unfolding merge
group-merge n p l f stored =
    text-merge "name" n _ stored
    ∙ flag-merge "isPublicLinkEnabled" p _ _
    ∙ integer-merge "publicLinkLimit" l _ _
    ∙ flag-merge "isFeedbackEnabled" f end _

localization-merge :
    (d k p s m w : Option String) (stored : Stored)
    → merge (localization_attributes d k p s m w) stored ≡ localization_put d k p s m w stored
unfolding merge
localization-merge d k p s m w stored =
    text-merge "description" d _ stored
    ∙ text-merge "keywords" k _ _
    ∙ text-merge "promotionalText" p _ _
    ∙ text-merge "supportUrl" s _ _
    ∙ text-merge "marketingUrl" m _ _
    ∙ text-merge "whatsNew" w end _

group_request :
    (c : AppStoreClient) (id : String) (n : Option String) (p : Option Bool) (l : Option ℤ)
    (f : Option Bool) (t : String)
    → Merges (c.base_url <> "/v1/betaGroups/" <> id) "betaGroups" id (group_put n p l f) (
        patch
          (c.base_url <> "/v1/betaGroups/" <> id)
          t
          (changes "betaGroups" id (group_attributes n p l f)))
group_request c id n p l f t = record {
  attributes = group_attributes n p l f;
  token = t;
  sent = refl;
  merged = group-merge n p l f;
}

-- An update of a version, of a beta group or of a version's localization sends no request but a
-- PATCH of the one resource. A service that stores the attributes it carries and keeps the others
-- then has for each attribute the argument, where one is given, and what it had, where none is: no
-- argument is lost or mistaken for another, and nothing else is overwritten.
pub updates-Merges :
    {H : Host} (V : Versions.Decoders) (T : TestFlight.Decoders) (c : AppStoreClient) (id : String)
    (v cp r e : Option String) (n : Option String) (p : Option Bool) (l : Option ℤ)
    (f : Option Bool) (d k pt su m w : Option String)
    → Emits {H = H}
        (Merges
          (c.base_url <> "/v1/appStoreVersions/" <> id)
          "appStoreVersions"
          id
          (version_put v cp r e))
        (update_version V c id v cp r e)
      × Emits {H = H}
          (Merges (c.base_url <> "/v1/betaGroups/" <> id) "betaGroups" id (group_put n p l f))
          (update_beta_group T c id n p l f)
      × Emits {H = H}
          (Merges
            (c.base_url <> "/v1/appStoreVersionLocalizations/" <> id)
            "appStoreVersionLocalizations"
            id
            (localization_put d k pt su m w))
          (update_localization c id d k pt su m w)
unfolding update_version update_beta_group update_localization
updates-Merges V T c id v cp r e n p l f d k pt su m w = (
  patch_unit-Emits c _ _
      (λ t. record { attributes = _; token = t; sent = refl; merged = version-merge v cp r e }),
  search (request_rules, group_request c id n p l f),
  patch_unit-Emits c _ _ (λ t. record {
    attributes = _;
    token = t;
    sent = refl;
    merged = localization-merge d k pt su m w;
  }),
)
