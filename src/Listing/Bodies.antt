-- ===== src/Listing/Bodies.antt =====
-- The bodies of the requests that change an app's information
-- (crates/stack_core/src/providers/appstore/client.rs).
use stack_connect_core.Prelude.{String, Bool, Option, none, some}
use stack_connect_core.Json.{
  Json, Members, text, flag, member, end, object, document, to_one, member_if, flag_if,
}

abbrev pub category_if : String → Option String → Members → Members
category_if key none rest = rest
category_if key (some id) rest = member key (to_one "appCategories" id) rest

abbrev pub category_document :
    String → Option String → Option String → Option String → Option String → Json
category_document app_info_id primary subcategory_one secondary secondary_subcategory_one =
    document (
      object (
        member "type" (text "appInfos") (
          member "id" (text app_info_id) (
            member "relationships"
              (object (
                category_if "primaryCategory" primary (
                  category_if "primarySubcategoryOne" subcategory_one (
                    category_if "secondaryCategory" secondary
                      (category_if "secondarySubcategoryOne" secondary_subcategory_one end)))))
              end))))

-- The arguments of `update_age_rating`.
pub record AgeRatingAnswers : Type 0 where
  pub alcohol_tobacco : String
  pub contests : String
  pub gambling_simulated : String
  pub guns_or_other_weapons : String
  pub medical_information : String
  pub profanity : String
  pub sexual_content_graphic : String
  pub sexual_content_or_nudity : String
  pub horror_or_fear : String
  pub mature_or_suggestive : String
  pub violence_cartoon : String
  pub violence_realistic : String
  pub violence_graphic : String
  pub is_advertising : Bool
  pub is_gambling : Bool
  pub is_unrestricted_web_access : Bool
  pub is_user_generated_content : Bool
  pub age_rating_override : String

abbrev rating_flags : AgeRatingAnswers → Members
rating_flags a = member "isAdvertising" (flag a.is_advertising) (
    member "isGambling" (flag a.is_gambling) (
      member "isUnrestrictedWebAccess" (flag a.is_unrestricted_web_access) (
        member "isUserGeneratedContent" (flag a.is_user_generated_content)
          (member "ageRatingOverrideV2" (text a.age_rating_override) end))))

abbrev rating_violence : AgeRatingAnswers → Members
rating_violence a = member "horrorOrFearThemes" (text a.horror_or_fear) (
    member "matureOrSuggestiveThemes" (text a.mature_or_suggestive) (
      member "violenceCartoonOrFantasy" (text a.violence_cartoon) (
        member "violenceRealistic" (text a.violence_realistic) (
          member "violenceRealisticProlongedGraphicOrSadistic" (text a.violence_graphic)
            (rating_flags a)))))

abbrev pub rating_attributes : AgeRatingAnswers → Members
rating_attributes a = member "alcoholTobaccoOrDrugUseOrReferences" (text a.alcohol_tobacco) (
    member "contests" (text a.contests) (
      member "gamblingSimulated" (text a.gambling_simulated) (
        member "gunsOrOtherWeapons" (text a.guns_or_other_weapons) (
          member "medicalOrTreatmentInformation" (text a.medical_information) (
            member "profanityOrCrudeHumor" (text a.profanity) (
              member "sexualContentGraphicAndNudity" (text a.sexual_content_graphic) (
                member "sexualContentOrNudity" (text a.sexual_content_or_nudity)
                  (rating_violence a))))))))

abbrev pub review_attributes :
    Option String
    → Option String
    → Option String
    → Option String
    → Option String
    → Option String
    → Option String
    → Option Bool
    → Members
review_attributes first_name last_name email phone notes demo_name demo_password demo_required =
    member_if "contactFirstName" first_name (
      member_if "contactLastName" last_name (
        member_if "contactEmail" email (
          member_if "contactPhone" phone (
            member_if "notes" notes (
              member_if "demoAccountName" demo_name (
                member_if "demoAccountPassword" demo_password
                  (flag_if "demoAccountRequired" demo_required end)))))))
