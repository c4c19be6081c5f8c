-- ===== src/Facade/Sync/Persisted.antt =====
-- A synchronization through the Dart callback against one into the host's own store
-- (crates/stack_core/src/frb_api.rs, crates/stack_core/src/service/sync.rs).
use stack_connect_core.Prelude.{
  Bool, true, false, ℕ, String, ◌≡◌, refl, ◌∙◌, sym, ap, Bool, List, [], ◌∷◌, ◌++◌, ◌<>◌,
}
use stack_connect_core.Error.{
  decode, Outcome, ok, err, panicked, unfinished, Parsed, parsed, malformed,
}
use stack_connect_core.Wire.{Host, Session}
use stack_connect_core.Transport.{AppStoreClient}
use stack_connect_core.Apps.{
  AppInfo, AppBlob, AppsResponse, BlobStore, blob_of, blob_type_app, save_each, returning,
  save_fetched, fetch_apps, sync_apps,
}
use stack_connect_core.Facade.Sync.{
  flush, Saves, buffering_blob_store, flush_logs, persist_each, finished, sync_and_persist,
}

module _ (S : BlobStore) where
  persist_each-append :
      (saves : Saves) (type_name id json : String) (b : S.Blobs)
      → persist_each S.save (saves ++ ((type_name, id, json) ∷ [])) b
        ≡ S.save type_name id json (persist_each S.save saves b)
  unfolding persist_each
  persist_each-append [] type_name id json b = refl
  persist_each-append ((t, i, j) ∷ saves) type_name id json b =
      persist_each-append saves type_name id json (S.save t i j b)

  -- The end of a run into the buffer, with the saves replayed into a store.
  abbrev replayed : {A : Type 0} → S.Blobs → Outcome A × Saves → Outcome A × S.Blobs
  replayed b x = (x.0, persist_each S.save x.1 b)

  module _ (to_json : AppBlob → Parsed String) (account_id : String) where
    abbrev buffered : List AppInfo → Saves → Outcome (Unit {0}) × Saves
    buffered = save_each buffering_blob_store to_json account_id

    -- A round of the loop, on what the serialization of the app came to.
    abbrev round :
        (T : BlobStore)
        → AppInfo
        → List AppInfo
        → T.Blobs
        → Parsed String
        → Outcome (Unit {0}) × T.Blobs
    round T app apps x p = elim p [
      | malformed e ↦ (err (decode ("serialize app " <> app.id <> ": " <> e)), x)
      | parsed json ↦ save_each T to_json account_id apps (T.save blob_type_app app.id json x)
    ]

    round-replayed :
        (app : AppInfo) (apps : List AppInfo) (saves : Saves) (b : S.Blobs) (p : Parsed String)
        → ((saves' : Saves)
            → save_each S to_json account_id apps (persist_each S.save saves' b)
              ≡ replayed b (buffered apps saves'))
        → round S app apps (persist_each S.save saves b) p
          ≡ replayed b (round buffering_blob_store app apps saves p)
    round-replayed app apps saves b (malformed e) rest = refl
    round-replayed app apps saves b (parsed json) rest =
        ap (save_each S to_json account_id apps)
          (sym (persist_each-append saves blob_type_app app.id json b))
        ∙ rest (saves ++ ((blob_type_app, app.id, json) ∷ []))

    save_each-replayed :
        (apps : List AppInfo) (saves : Saves) (b : S.Blobs)
        → save_each S to_json account_id apps (persist_each S.save saves b)
          ≡ replayed b (buffered apps saves)
    unfolding save_each
    save_each-replayed [] saves b = refl
    save_each-replayed (app ∷ apps) saves b =
        round-replayed app apps saves b (to_json (blob_of account_id app))
          λ saves'. save_each-replayed apps saves' b

    returning-replayed :
        (apps : List AppInfo) (b : S.Blobs) (r : Outcome (Unit {0})) (saves : Saves)
        → returning S to_json account_id apps (replayed b (r, saves))
          ≡ replayed b (returning buffering_blob_store to_json account_id apps (r, saves))
    returning-replayed apps b (ok u) saves = refl
    returning-replayed apps b (err e) saves = refl
    returning-replayed apps b panicked saves = refl
    returning-replayed apps b unfinished saves = refl

    save_fetched-replayed :
        (fetched : Outcome (List AppInfo)) (b : S.Blobs)
        → save_fetched S to_json account_id fetched b
          ≡ replayed b (save_fetched buffering_blob_store to_json account_id fetched [])
    unfolding persist_each
    save_fetched-replayed (ok apps) b =
        ap (returning S to_json account_id apps) (save_each-replayed apps [] b)
        ∙ returning-replayed apps b (buffered apps []).0 (buffered apps []).1
    save_fetched-replayed (err e) b = refl
    save_fetched-replayed panicked b = refl
    save_fetched-replayed unfinished b = refl

-- What the Dart logger has got and what is left, from the session that the core has left: with a
-- logger all the pending lines in their order and none, without one what there was.
abbrev pub Delivered :
    {H : Host} → Bool → List String → Session H → Session H × List String → Type 0
Delivered true sunk t y =
    (y.1 ≡ sunk ++ t.log)
    × (y.0.log ≡ [])
    × (y.0.world ≡ t.world)
    × (y.0.cache ≡ t.cache)
    × (y.0.sent ≡ t.sent)
Delivered false sunk t y = y ≡ (t, sunk)

-- What the Dart host has, from what the core's synchronization into its store would leave: all of
-- the blobs if that succeeds, none of them if it fails.
unfoldable pub Persisted :
    {H : Host} {B : Type 0}
    → Bool
    → List String
    → B
    → Outcome (List AppInfo) × Session H × B
    → Outcome (List AppInfo) × (Session H × List String) × B
    → Type 0
Persisted logger sunk b (ok apps, t, b') (r, y, d) =
    (r ≡ ok apps) × Delivered logger sunk t y × (d ≡ b')
Persisted logger sunk b (err e, t, b') (r, y, d) = (r ≡ err e) × Delivered logger sunk t y × (d ≡ b)
Persisted logger sunk b (panicked, t, b') (r, y, d) = (r ≡ panicked) × (y ≡ (t, sunk)) × (d ≡ b)
Persisted logger sunk b (unfinished, t, b') (r, y, d) = (r ≡ unfinished) × (y ≡ (t, sunk)) × (d ≡ b)

delivered :
    {H : Host} (logger : Bool) (sunk : List String) (t : Session H)
    → Delivered logger sunk t (flush_logs logger (t, sunk))
unfolding flush_logs flush
delivered true sunk t = (refl, refl, refl, refl, refl)
delivered false sunk t = refl

module _ {H : Host} {B : Type 0} (persist : String → String → String → B → B) (logger : Bool)
    (sunk : List String) (b : B) where
  finished-Persisted :
      (r : Outcome (List AppInfo)) (s : Session H) (saves : Saves)
      → Persisted logger sunk b
          (r, s, persist_each persist saves b)
          (finished persist logger sunk b r s saves)
  unfolding Persisted finished
  finished-Persisted (ok apps) s saves = (refl, delivered logger sunk s, refl)
  finished-Persisted (err e) s saves = (refl, delivered logger sunk s, refl)
  finished-Persisted panicked s saves = (refl, refl, refl)
  finished-Persisted unfinished s saves = (refl, refl, refl)

-- The synchronization of the Dart handle ends as the core's into the host's own store would: with the
-- same result, and but for the log with the same session. If it succeeds, the callback has left the
-- store as that would have; if it fails, the store is as it was, where the core would have left what
-- it had saved before the error. Either way the Dart logger, if there is one, has got all the lines
-- that were pending, behind the earlier ones and in their order, and no line is left pending.
pub sync_and_persist-Persisted :
    (S : BlobStore) {H : Host} (to_json : AppBlob → Parsed String)
    (read : String → Parsed AppsResponse) (c : AppStoreClient) (account_id : String) (fuel : ℕ)
    (s : Session H) (sunk : List String) (b : S.Blobs)
    → Persisted c.debug_logger sunk b
        (sync_apps S to_json account_id read c fuel s b)
        (sync_and_persist S.save to_json read c account_id fuel s sunk b)
unfolding sync_and_persist sync_apps
sync_and_persist-Persisted S to_json read c account_id fuel s sunk b =
    let (fetched, s') = fetch_apps read c fuel s in
    rw (save_fetched-replayed S to_json account_id fetched b) (
      finished-Persisted S.save c.debug_logger sunk b
        (save_fetched buffering_blob_store to_json account_id fetched []).0 s'
        (save_fetched buffering_blob_store to_json account_id fetched []).1)
