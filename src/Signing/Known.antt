-- ===== src/Signing/Known.antt =====
-- Which capabilities of a bundle id are listed
-- (crates/stack_core/src/providers/appstore/client.rs).
use mathlib.Core.Option
use stack_connect_core.Prelude.{
  ℕ, String, ◌≡◌, refl, Bool, true, false, not, inl, inr, Option, none, some, List, [], ◌∷◌, ◌==◌,
  All, All-append, Option-cases, keep_if,
}
use stack_connect_core.Wire.{Host}
use stack_connect_core.Wire.Outcomes.{Returns}
use stack_connect_core.Transport.{AppStoreClient}
use stack_connect_core.Paging.{read_page, fetch_all}
use stack_connect_core.Paging.Kept.{follow-Returns, extend-Returns, read_page-Returns}
use stack_connect_core.Signing.{
  Decoders, BundleIdCapabilityResource, BundleIdCapabilityInfo, into_capability_info,
}
use stack_connect_core.Signing.Devices.{known_capabilities, fetch_bundle_id_capabilities}

abbrev pub IsKnown : BundleIdCapabilityInfo → Type 0
IsKnown info = info.capability_type == "" ≡ false

abbrev typed : String → String → BundleIdCapabilityInfo
typed id t = record { id = id; capability_type = t }

kept_if-IsKnown :
    (b : Bool) (id t : String) (info : BundleIdCapabilityInfo)
    → t == "" ≡ b
    → Option.map (typed id) (elim (not b) [ true ↦ some t | false ↦ none ]) ≡ some info
    → IsKnown info
kept_if-IsKnown true id t info h e = absurd (cc e)
kept_if-IsKnown false id t info h e = let same : typed id t ≡ info = cc in rw (← same) h

kept-IsKnown :
    (r : BundleIdCapabilityResource) (info : BundleIdCapabilityInfo)
    → into_capability_info r ≡ some info
    → IsKnown info
unfolding into_capability_info
kept-IsKnown r info e = from r.attributes.capability_type e
  where
    from :
        (o : Option String)
        → Option.map (typed r.id) (keep_if (λ t. not (t == "")) o) ≡ some info
        → IsKnown info
    from none e = absurd (cc e)
    from (some t) e = kept_if-IsKnown (t == "") r.id t info refl e

known_capabilities-IsKnown :
    (rs : List BundleIdCapabilityResource) → All IsKnown (known_capabilities rs)
unfolding known_capabilities
known_capabilities-IsKnown [] = tt
known_capabilities-IsKnown (r ∷ rs) = elim (Option-cases (into_capability_info r)) [
  | inl e ↦ rw (e, known_capabilities) (known_capabilities-IsKnown rs)
  | inr (info, e) ↦
      rw (e, known_capabilities) (kept-IsKnown r info e, known_capabilities-IsKnown rs)
]

-- Whatever the service answers, a list of capabilities that is returned has a type that is not
-- empty for each of them.
pub capabilities-IsKnown :
    {H : Host} (D : Decoders) (c : AppStoreClient) (fuel : ℕ) (bundle_id : String)
    → Returns {H = H} (All IsKnown) (fetch_bundle_id_capabilities D c fuel bundle_id)
unfolding fetch_bundle_id_capabilities fetch_all
capabilities-IsKnown D c fuel bundle_id =
    follow-Returns (All IsKnown) _
      (extend-Returns _ _ (read_page c _ D.capabilities _ _)
        (read_page-Returns _ c _ D.capabilities _ _ (λ p. known_capabilities-IsKnown p.resources))
        (All-append IsKnown))
      fuel [] _ tt
