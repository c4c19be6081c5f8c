-- ===== src/Facade/Scexport/Renamed/RoundTrip.antt =====
-- An exported account, imported again (crates/stack_core/src/frb_api.rs).
use stack_connect_core.Prelude.{
  ℕ, ◌≡◌, refl, Bool, true, false, String, none, List, [], ◌∷◌, length, is_empty, ◌==◌,
  if◌then◌else◌,
}
use stack_connect_core.Prelude.Table.{Table, lookup, add_each}
use stack_connect_core.Error.{ok, parsed}
use stack_connect_core.Export.{
  done, Primitives, validate, derive_key_pbkdf2, pbkdf2_iterations, salt_len, nonce_len,
}
use stack_connect_core.Export.RoundTrip.{IsLawful, decrypt-encrypt}
use stack_connect_core.Facade.Scexport.{
  AccountExport, provider_apple, store, insert_renamed, remap, schema_names, remap_ios_to_schema,
  remap_schema_to_ios, or_crypto_error, imported, exported, decrypt_scexport, encrypt_scexport,
}
use stack_connect_core.Facade.Scexport.Renamed.Entries.{Distinct}
use stack_connect_core.Facade.Scexport.Renamed.Names.{IsFileName, remap-remap}

loop_not_empty :
    (mapping : List (String × String)) (m out : Table String)
    → is_empty out ≡ false
    → is_empty (add_each (insert_renamed mapping) out m) ≡ false
unfolding add_each insert_renamed store
loop_not_empty mapping [] out h = h
loop_not_empty mapping ((key, value) ∷ m) out h = loop_not_empty mapping m _ refl

remap_not_empty :
    (mapping : List (String × String)) (m : Table String)
    → is_empty m ≡ false
    → is_empty (remap mapping m) ≡ false
unfolding remap add_each insert_renamed store
remap_not_empty mapping [] h = absurd (cc h)
remap_not_empty mapping ((key, value) ∷ m) h = loop_not_empty mapping m _ refl

-- The choice that the provider of the account makes, in both directions.
module _ (m : Table String) where
  written_not_empty :
      (apple : Bool)
      → is_empty m ≡ false
      → is_empty (if apple then remap_schema_to_ios m else m) ≡ false
  unfolding remap_schema_to_ios
  written_not_empty true h = remap_not_empty schema_names m h
  written_not_empty false h = h

  secrets_back :
      (apple : Bool)
      → Distinct m
      → (apple ≡ true → (k : String) → IsFileName k → lookup k m ≡ none)
      → (k : String)
      → let written = if apple then remap_schema_to_ios m else m in
        lookup k (if apple then remap_ios_to_schema written else written) ≡ lookup k m
  unfolding remap_schema_to_ios remap_ios_to_schema
  secrets_back true d free k = remap-remap m d (free refl) k
  secrets_back false d free k = refl

module _ (id : String) (secs : ℕ) (account : AccountExport) where
  exported_complete :
      (account.name == "") ≡ false
      → (account.provider_type == "") ≡ false
      → is_empty account.credentials ≡ false
      → validate (exported id secs account) ≡ done tt
  unfolding validate exported
  exported_complete n t m =
      rw (n, t, written_not_empty account.credentials (account.provider_type == provider_apple) m)
        refl

  -- What comes back is the account: its parts, and each secret under its name.
  pub record IsSameAccount (back : AccountExport) : Type 0 where
    pub name_same : back.name ≡ account.name
    pub provider_same : back.provider_type ≡ account.provider_type
    pub apps_same : back.apps_bundles ≡ account.apps_bundles
    pub secrets_same : (k : String) → lookup k back.credentials ≡ lookup k account.credentials

  imported-exported :
      Distinct account.credentials
      → ((account.provider_type == provider_apple) ≡ true
          → (k : String) → IsFileName k
          → lookup k account.credentials ≡ none)
      → IsSameAccount (imported (exported id secs account))
  unfolding imported exported
  imported-exported d free = record {
    name_same = refl;
    provider_same = refl;
    apps_same = refl;
    secrets_same =
        secrets_back account.credentials (account.provider_type == provider_apple) d free;
  }

  -- An account with a name, a provider and secrets, none of those of an Apple account under a name
  -- that is a file's, is exported into a file that imports under the same password as the same
  -- account: its name, its provider, its apps, and each secret under its name. The libraries are
  -- assumed lawful and to serialize and seal the payload.
  pub decrypt_scexport-encrypt_scexport :
      (L : Primitives)
      → IsLawful L
      → (password salt nonce json sealed : List ℕ) → length salt ≡ salt_len
      → length nonce ≡ nonce_len
      → (account.name == "") ≡ false
      → (account.provider_type == "") ≡ false
      → is_empty account.credentials ≡ false
      → Distinct account.credentials
      → ((account.provider_type == provider_apple) ≡ true
          → (k : String) → IsFileName k
          → lookup k account.credentials ≡ none)
      → L.to_json (exported id secs account) ≡ parsed json
      → L.aes_seal (derive_key_pbkdf2 L password salt pbkdf2_iterations) nonce json ≡ parsed sealed
      → (out : List ℕ) × (back : AccountExport) × (encrypt_scexport L id secs account password salt
            nonce
          ≡ ok out)
        × (decrypt_scexport L out password ≡ ok back)
        × IsSameAccount back
  unfolding encrypt_scexport decrypt_scexport or_crypto_error
  decrypt_scexport-encrypt_scexport L lawful password salt nonce json sealed hs hn n t m d free j
        e =
      let (out, written, read) =
        decrypt-encrypt L lawful (exported id secs account) password salt nonce json sealed hs hn
          (exported_complete n t m) j e in
      (
        out,
        imported (exported id secs account),
        rw written refl,
        rw read refl,
        imported-exported d free,
      )
