-- ===== src/Tests/FacadeRuns.antt =====
-- Runs of the facade of the Dart binding (crates/stack_core/src/frb_api.rs).
use stack_connect_core.Prelude.{
  ℕ, ◌≡◌, refl, inl, inr, String, Option, none, some, List, [], ◌∷◌, ◌++◌, codes, to_string,
}
use stack_connect_core.Prelude.Table.{lookup, add_each}
use stack_connect_core.Error.{ok, parsed}
use stack_connect_core.Apps.{sync_apps}
use stack_connect_core.Facade.Clock.{civil_time, now_iso8601}
use stack_connect_core.Facade.Clock.Calendar.{IsTimeOf, civil_time-IsTimeOf}
use stack_connect_core.Facade.Scexport.{
  AccountExport, exported, encrypt_scexport, decrypt_scexport, remap_schema_to_ios, remap, store,
  without, renamed, insert_renamed,
}
use stack_connect_core.Facade.Scexport.Renamed.Entries.{Distinct}
use stack_connect_core.Facade.Scexport.Renamed.Names.{IsFileName}
use stack_connect_core.Facade.Scexport.Renamed.RoundTrip.{
  IsSameAccount, decrypt_scexport-encrypt_scexport,
}
use stack_connect_core.Facade.Sync.{sync_and_persist}
use stack_connect_core.Facade.Sync.Persisted.{Persisted, sync_and_persist-Persisted}
use stack_connect_core.Tests.Script.{sample_client as client}
use stack_connect_core.Tests.AccountRuns.{listing, blob_text, read_apps, online}
use stack_connect_core.Tests.Vault.{
  simple_with, simple_with-IsLawful, sample_salt, sample_nonce, sample_tag,
}

printed : now_iso8601 1709212896 ≡ "2024-02-29T13:21:36Z"
unfolding now_iso8601 civil_time to_string
printed = refl

-- A leap day.
civil_time-IsTimeOf_example : IsTimeOf 1709212896 (civil_time 1709212896)
civil_time-IsTimeOf_example = civil_time-IsTimeOf 1709212896

abbrev acme : AccountExport
acme = record {
  name = "Acme";
  provider_type = "apple";
  apps_bundles = none;
  credentials = ("keyId", "K1") ∷ [];
}

acme-Distinct : Distinct acme.credentials
unfolding Distinct lookup
acme-Distinct = (refl, tt)

acme_free : (k : String) → IsFileName k → lookup k acme.credentials ≡ none
unfolding lookup
acme_free k (inl e) = rw e refl
acme_free k (inr (inl e)) = rw e refl
acme_free k (inr (inr e)) = rw e refl

abbrev day : Option String
day = some "2024-02-29T13:21:36Z"

serialized :
    (simple_with (some "U1") day "privateKeyID").to_json (exported "U1" 1709212896 acme)
    ≡ parsed (codes "{}")
unfolding exported now_iso8601 civil_time to_string remap_schema_to_ios remap store without renamed
    insert_renamed add_each
serialized = refl

decrypt_scexport-encrypt_scexport_example :
    (out : List ℕ) × (back : AccountExport) × (encrypt_scexport
        (simple_with (some "U1") day "privateKeyID")
        "U1"
        1709212896
        acme
        (codes "pw")
        sample_salt
        sample_nonce
      ≡ ok out)
    × (decrypt_scexport (simple_with (some "U1") day "privateKeyID") out (codes "pw") ≡ ok back)
    × IsSameAccount "U1" 1709212896 acme back
decrypt_scexport-encrypt_scexport_example =
    decrypt_scexport-encrypt_scexport "U1" 1709212896 acme
      (simple_with (some "U1") day "privateKeyID")
      (simple_with-IsLawful (some "U1") day "privateKeyID") (codes "pw") sample_salt sample_nonce
      (codes "{}") (codes "{}" ++ sample_tag) refl refl refl refl refl acme-Distinct
      (λ h. acme_free) serialized refl

sync_and_persist-Persisted_example :
    Persisted client.debug_logger
      ("earlier" ∷ [])
      []
      (sync_apps listing blob_text "a1" read_apps client 1 online [])
      (sync_and_persist listing.save blob_text read_apps client "a1" 1 online ("earlier" ∷ []) [])
sync_and_persist-Persisted_example =
    sync_and_persist-Persisted listing blob_text read_apps client "a1" 1 online ("earlier" ∷ []) []
