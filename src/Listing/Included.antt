-- ===== src/Listing/Included.antt =====
-- What the information on an app takes from the `included` section of its document
-- (crates/stack_core/src/providers/appstore/client.rs).
use mathlib.Core.List.{append-nil, append_assoc}
use stack_connect_core.Prelude.{
  String, ◌≡◌, refl, sym, ◌∙◌, Option, none, some, List, [], ◌∷◌, ◌++◌, and_then,
}
use stack_connect_core.Prelude.Table.{lookup, replaced, last_from, add_each, add_each-last}
use stack_connect_core.Listing.{
  AppInfoLocalizationInfo, AgeRatingDeclarationInfo, AppInfoResource, AppInfoIncluded,
  app_info_localizations, age_rating_declarations, other, AppDetailAttributes,
  to_app_info_localization_info, into_age_rating_declaration_info,
}
use stack_connect_core.Listing.Info.{Gathered, nothing_gathered, gather, id_of, details_from}

-- The localizations among the included resources, in their order.
abbrev pub localized : List AppInfoIncluded → List AppInfoLocalizationInfo
localized [] = []
localized (app_info_localizations loc ∷ rest) = to_app_info_localization_info loc ∷ localized rest
localized (age_rating_declarations _ ∷ rest) = localized rest
localized (other ∷ rest) = localized rest

abbrev pub as_age_rating : AppInfoIncluded → Option (String × AgeRatingDeclarationInfo)
as_age_rating (app_info_localizations _) = none
as_age_rating (age_rating_declarations decl) = some (decl.id, into_age_rating_declaration_info decl)
as_age_rating other = none

gather-localized :
    (g : Gathered) (included : List AppInfoIncluded)
    → (add_each gather g included).localizations ≡ g.localizations ++ localized included
unfolding add_each gather
gather-localized g [] = sym (append-nil g.localizations)
gather-localized g (app_info_localizations loc ∷ rest) =
    gather-localized (gather g (app_info_localizations loc)) rest
    ∙ append_assoc g.localizations (to_app_info_localization_info loc ∷ []) (localized rest)
gather-localized g (age_rating_declarations decl ∷ rest) =
    gather-localized (gather g (age_rating_declarations decl)) rest
gather-localized g (other ∷ rest) = gather-localized g rest

gather-step :
    (id : String) (g : Gathered) (r : AppInfoIncluded)
    → lookup id (gather g r).age_ratings ≡ replaced as_age_rating id (lookup id g.age_ratings) r
unfolding gather lookup
gather-step id g (app_info_localizations _) = refl
gather-step id g (age_rating_declarations _) = refl
gather-step id g other = refl

gathered_rating :
    (included : List AppInfoIncluded) (o : Option String)
    → and_then o (λ id. lookup id (add_each gather nothing_gathered included).age_ratings)
      ≡ and_then o (λ id. last_from as_age_rating id none included)
unfolding lookup
gathered_rating included none = refl
gathered_rating included (some id) =
    add_each-last as_age_rating gather (λ (g : Gathered). lookup id g.age_ratings) id
      (gather-step id) nothing_gathered included

-- The details of an app hold every included localization, in the order of the document, and the
-- last included age rating declaration that the relationship of the app info names, whatever stands
-- between them; without a relationship, or without the declaration, there is no age rating.
pub details_from-included :
    (app_id : String) (app_info : AppInfoResource) (included : List AppInfoIncluded)
    (app : AppDetailAttributes)
    → let d = details_from app_id app_info included app in
      (d.localizations ≡ localized included)
      × (d.age_rating
          ≡ and_then
              (id_of app_info.relationships.age_rating_declaration)
              (λ id. last_from as_age_rating id none included))
unfolding details_from
details_from-included app_id app_info included app = (
  gather-localized nothing_gathered included,
  gathered_rating included (id_of app_info.relationships.age_rating_declaration),
)
