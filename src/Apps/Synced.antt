-- ===== src/Apps/Synced.antt =====
-- What a synchronization leaves in the store (crates/stack_core/src/service/sync.rs).
use stack_connect_core.Prelude.{
  ℕ, String, ◌≡◌, ◌≢◌, refl, ◌∙◌, sym, ap, Bool, true, false, ◌&&◌, Option, none, some, List, [],
  ◌∷◌, ◌==◌, ◌<>◌, eq_iff, if◌then◌else◌,
}
use stack_connect_core.Prelude.Table.{last_from}
use stack_connect_core.Error.{
  decode, Outcome, ok, err, panicked, unfinished, Parsed, parsed, malformed,
}
use stack_connect_core.Wire.{Host, Session}
use stack_connect_core.Transport.{AppStoreClient}
use stack_connect_core.Apps.{
  AppInfo, AppBlob, AppsResponse, BlobStore, blob_of, blob_type_app, save_each, returning,
  save_fetched, fetch_apps, sync_apps,
}

-- `save` inserts or replaces the blob of its type and id, and nothing else.
pub record IsLawful (S : BlobStore) : Type 0 where
  pub fetch_save :
      (type_name id json type_name' id' : String) (b : S.Blobs)
      → S.fetch type_name' id' (S.save type_name id json b)
        ≡ (if (type_name == type_name') && (id == id') then some json else S.fetch type_name' id' b)

-- The id and the blob of an app, where it has one.
abbrev serialized : String → Parsed String → Option (String × String)
serialized id (parsed json) = some (id, json)
serialized id (malformed e) = none

abbrev pub saved_as : (AppBlob → Parsed String) → String → AppInfo → Option (String × String)
saved_as to_json account_id app = serialized app.id (to_json (blob_of account_id app))

module _ (S : BlobStore) (lawful : IsLawful S) (to_json : AppBlob → Parsed String)
    (account_id : String) where
  -- A round of the loop, on what the serialization of the app came to.
  abbrev round : AppInfo → List AppInfo → S.Blobs → Parsed String → Outcome (Unit {0}) × S.Blobs
  round app apps b p = elim p [
    | malformed e ↦ (err (decode ("serialize app " <> app.id <> ": " <> e)), b)
    | parsed json ↦ save_each S to_json account_id apps (S.save blob_type_app app.id json b)
  ]

  round_last :
      (app : AppInfo) (apps : List AppInfo) (b : S.Blobs) (id : String) (p : Parsed String)
      → ((b' : S.Blobs)
          → (save_each S to_json account_id apps b').0 ≡ ok tt
          → S.fetch blob_type_app id (save_each S to_json account_id apps b').1
            ≡ last_from (saved_as to_json account_id) id (S.fetch blob_type_app id b') apps)
      → (round app apps b p).0 ≡ ok tt
      → S.fetch blob_type_app id (round app apps b p).1
        ≡ last_from
            (saved_as to_json account_id)
            id
            (elim (serialized app.id p) [
              | none ↦ S.fetch blob_type_app id b
              | some (j, v) ↦ if j == id then some v else S.fetch blob_type_app id b
            ])
            apps
  round_last app apps b id (malformed e) ih h = absurd (cc h)
  round_last app apps b id (parsed json) ih h =
      ih (S.save blob_type_app app.id json b) h
      ∙ ap (λ o. last_from (saved_as to_json account_id) id o apps)
          (lawful.fetch_save blob_type_app app.id json blob_type_app id b)

  save_each-last :
      (apps : List AppInfo) (b : S.Blobs) (id : String)
      → (save_each S to_json account_id apps b).0 ≡ ok tt
      → S.fetch blob_type_app id (save_each S to_json account_id apps b).1
        ≡ last_from (saved_as to_json account_id) id (S.fetch blob_type_app id b) apps
  unfolding save_each
  save_each-last [] b id h = refl
  save_each-last (app ∷ apps) b id h =
      round_last app apps b id (to_json (blob_of account_id app))
        (λ b' k. save_each-last apps b' id k) h

  elsewhere :
      (type_name id json id' : String) (b : S.Blobs)
      → type_name ≢ blob_type_app
      → S.fetch type_name id' (S.save blob_type_app id json b) ≡ S.fetch type_name id' b
  elsewhere type_name id json id' b h =
      lawful.fetch_save blob_type_app id json type_name id' b
      ∙ differs (blob_type_app == type_name) refl
    where
      differs :
          (t : Bool)
          → t ≡ (blob_type_app == type_name)
          → (if t && (id == id') then some json else S.fetch type_name id' b)
            ≡ S.fetch type_name id' b
      differs true e = absurd (h (sym ((eq_iff blob_type_app type_name).0 (sym e))))
      differs false e = refl

  round_other :
      (app : AppInfo) (apps : List AppInfo) (b : S.Blobs) (type_name id : String)
      (p : Parsed String)
      → ((b' : S.Blobs)
          → S.fetch type_name id (save_each S to_json account_id apps b').1
            ≡ S.fetch type_name id b')
      → type_name ≢ blob_type_app
      → S.fetch type_name id (round app apps b p).1 ≡ S.fetch type_name id b
  round_other app apps b type_name id (malformed e) ih h = refl
  round_other app apps b type_name id (parsed json) ih h =
      ih (S.save blob_type_app app.id json b) ∙ elsewhere type_name app.id json id b h

  save_each_other :
      (apps : List AppInfo) (b : S.Blobs) (type_name id : String)
      → type_name ≢ blob_type_app
      → S.fetch type_name id (save_each S to_json account_id apps b).1 ≡ S.fetch type_name id b
  unfolding save_each
  save_each_other [] b type_name id h = refl
  save_each_other (app ∷ apps) b type_name id h =
      round_other app apps b type_name id (to_json (blob_of account_id app))
        (λ b'. save_each_other apps b' type_name id h) h

  returned :
      (apps apps' : List AppInfo) (r : Outcome (Unit {0})) (b : S.Blobs)
      → (returning S to_json account_id apps (r, b)).0 ≡ ok apps'
      → (apps ≡ apps') × (r ≡ ok tt) × ((returning S to_json account_id apps (r, b)).1 ≡ b)
  returned apps apps' (ok u) b h = (cc h, refl, refl)
  returned apps apps' (err e) b h = absurd (cc h)
  returned apps apps' panicked b h = absurd (cc h)
  returned apps apps' unfinished b h = absurd (cc h)

  saved_fetched :
      (r : Outcome (List AppInfo)) (apps : List AppInfo) (b : S.Blobs)
      → (save_fetched S to_json account_id r b).0 ≡ ok apps
      → (r ≡ ok apps)
        × ((save_each S to_json account_id apps b).0 ≡ ok tt)
        × ((save_fetched S to_json account_id r b).1 ≡ (save_each S to_json account_id apps b).1)
  saved_fetched (ok fetched) apps b h =
      let (same, done, left) =
        returned fetched apps (save_each S to_json account_id fetched b).0
          (save_each S to_json account_id fetched b).1 h in
      (
        ap ok same,
        ap (λ l. (save_each S to_json account_id l b).0) (sym same) ∙ done,
        left ∙ ap (λ l. (save_each S to_json account_id l b).1) same,
      )
  saved_fetched (err e) apps b h = absurd (cc h)
  saved_fetched panicked apps b h = absurd (cc h)
  saved_fetched unfinished apps b h = absurd (cc h)

  module _ {H : Host} (read : String → Parsed AppsResponse) (c : AppStoreClient) where
    -- A synchronization that succeeds returns the apps that the provider listed. For every id the
    -- store then holds the blob of the last of them with that id, or what it held before if there
    -- is none, and blobs of other types are as they were. `save` and `fetch` of the store are
    -- assumed lawful.
    pub sync_apps-last :
        (fuel : ℕ) (s : Session H) (b : S.Blobs) (apps : List AppInfo)
        → (sync_apps S to_json account_id read c fuel s b).0 ≡ ok apps
        → let b' = (sync_apps S to_json account_id read c fuel s b).2 in
          ((fetch_apps read c fuel s).0 ≡ ok apps)
          × ((id : String)
              → S.fetch blob_type_app id b'
                ≡ last_from (saved_as to_json account_id) id (S.fetch blob_type_app id b) apps)
          × ((type_name id : String)
              → type_name ≢ blob_type_app
              → S.fetch type_name id b' ≡ S.fetch type_name id b)
    unfolding sync_apps
    sync_apps-last fuel s b apps h =
        let (fetched, done, left) = saved_fetched (fetch_apps read c fuel s).0 apps b h in
        (
          fetched,
          λ id. ap (S.fetch blob_type_app id) left ∙ save_each-last apps b id done,
          λ type_name id other.
              ap (S.fetch type_name id) left ∙ save_each_other apps b type_name id other,
        )
