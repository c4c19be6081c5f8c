-- ===== src/Tests/Vault.antt =====
-- A small lawful instance of the libraries under the export format, and the theorems about
-- crates/stack_core/src/crypto.rs at it.
use stack_connect_core.Prelude.{
  ℕ, ◌+◌, ◌-◌, ◌≡◌, ◌≢◌, refl, sym, ap, Bool, true, false, ◌&&◌, String, Option, none, some, List,
  [], ◌∷◌, ◌++◌, length, length-append, take, take-append, arith, ◌==◌, eq_iff, codes,
  if◌then◌else◌,
}
use stack_connect_core.Error.{parsed, malformed}
use stack_connect_core.Auth.Pem.{is_utf8}
use stack_connect_core.Export.{
  done, crashed, Primitives, ScexportPayload, validate, decrypt, encrypt, tag_len,
}
use stack_connect_core.Export.RoundTrip.{IsLawful, decrypt-encrypt}
use stack_connect_core.Export.Bounds.{decrypt-Safe}

abbrev same_text : Option String → Option String → Bool
same_text none none = true
same_text (some a) (some b) = a == b
same_text _ _ = false

abbrev is_none {ℓ} : {A : Type ℓ} → Option A → Bool
is_none none = true
is_none (some _) = false

and_split : (a b : Bool) → (a && b) ≡ true → (a ≡ true) × (b ≡ true)
and_split true b h = (refl, h)
and_split false b h = absurd (cc h)

none_of {ℓ} : {A : Type ℓ} (o : Option A) → is_none o ≡ true → o ≡ none
none_of none h = refl
none_of (some x) h = absurd (cc h)

text_of : (a b : Option String) → same_text a b ≡ true → a ≡ b
text_of none none h = refl
text_of (some a) (some b) h = ap some ((eq_iff a b).0 h)
text_of none (some b) h = absurd (cc h)
text_of (some a) none h = absurd (cc h)

abbrev pub sample_tag : List ℕ
sample_tag = 1 ∷ 2 ∷ 3 ∷ 4 ∷ 5 ∷ 6 ∷ 7 ∷ 8 ∷ 9 ∷ 10 ∷ 11 ∷ 12 ∷ 13 ∷ 14 ∷ 15 ∷ 16 ∷ []

seal_back :
    (m ct : List ℕ) → parsed (m ++ sample_tag) ≡ parsed ct → take (length ct - tag_len) ct ≡ m
seal_back m ct h =
    let e : ct ≡ m ++ sample_tag = cc h in
    let n : length (m ++ sample_tag) - tag_len ≡ length m =
      omega (arith, length-append m sample_tag) in
    rw (e, n) (take-append m sample_tag)

seal_grows : (m ct : List ℕ) → parsed (m ++ sample_tag) ≡ parsed ct → length ct ≡ length m + tag_len
seal_grows m ct h = let e : ct ≡ m ++ sample_tag = cc h in rw e (length-append m sample_tag)

braces_utf8 : is_utf8 (codes "{}") ≡ true
unfolding is_utf8
braces_utf8 = refl

written :
    (b : Bool) (j : List ℕ)
    → (if b then parsed (codes "{}") else malformed "no such account") ≡ parsed j
    → (b ≡ true) × (j ≡ codes "{}")
written true j h = (refl, cc h)
written false j h = absurd (cc h)

-- An account with one secret and its serialization.
module _ (id created_at : Option String) (key : String) where
  abbrev pub account_with : ScexportPayload
  account_with = record {
    id = id;
    name = "Acme";
    provider_type = "apple";
    created_at = created_at;
    role = none;
    expiration_date = none;
    rules = none;
    apps_bundles = none;
    credentials = (key, "K1") ∷ [];
  }

  abbrev has_key : List (String × String) → Bool
  has_key ((k, v) ∷ []) = k == key && v == "K1"
  has_key _ = false

  abbrev is_account : ScexportPayload → Bool
  is_account p =
      p.name == "Acme"
      && (p.provider_type == "apple"
          && (has_key p.credentials
              && (same_text p.id id
                  && (same_text p.created_at created_at
                      && (is_none p.role
                          && (is_none p.expiration_date
                              && (is_none p.rules && is_none p.apps_bundles)))))))

  key_of : (l : List (String × String)) → has_key l ≡ true → l ≡ ((key, "K1") ∷ [])
  key_of [] h = absurd (cc h)
  key_of ((k, v) ∷ []) h =
      let (hk, hv) = and_split _ _ h in rw ((eq_iff k key).0 hk, (eq_iff v "K1").0 hv)
  key_of (x ∷ y ∷ l) h = absurd (cc h)

  account_of : (p : ScexportPayload) → is_account p ≡ true → p ≡ account_with
  account_of p h =
      let (h1, r1) = and_split _ _ h in
      let (h2, r2) = and_split _ _ r1 in
      let (h3, r3) = and_split _ _ r2 in
      let (h4, r4) = and_split _ _ r3 in
      let (h5, r5) = and_split _ _ r4 in
      let (h6, r6) = and_split _ _ r5 in
      let (h7, r7) = and_split _ _ r6 in
      let (h8, h9) = and_split _ _ r7 in
      rw (
        text_of p.id id h4,
        (eq_iff p.name "Acme").0 h1,
        (eq_iff p.provider_type "apple").0 h2,
        text_of p.created_at created_at h5,
        none_of p.role h6,
        none_of p.expiration_date h7,
        none_of p.rules h8,
        none_of p.apps_bundles h9,
        key_of p.credentials h3,
      )

  -- One account has a serialization; the cipher adds its tag and nothing else.
  abbrev pub simple_with : Primitives
  simple_with = record {
    sha256 = λ m. m;
    hkdf_sha256 = λ salt secret info. salt ++ secret;
    pbkdf2_hmac_sha256 = λ password salt n. password ++ salt;
    aes_seal = λ key nonce m. parsed (m ++ sample_tag);
    aes_open = λ key nonce ct. some (take (length ct - tag_len) ct);
    to_json = λ p. if is_account p then parsed (codes "{}") else malformed "no such account";
    from_json = λ bytes. parsed account_with;
    utf8_error = λ bytes. "invalid utf-8";
  }

  pub simple_with-IsLawful : IsLawful simple_with
  simple_with-IsLawful = record {
    open_seal = λ key nonce m ct h. ap some (seal_back m ct h);
    seal_length = λ key nonce m ct h. seal_grows m ct h;
    json_utf8 = λ p j h. rw ((written (is_account p) j h).1) braces_utf8;
    json_back = λ p j h. ap parsed (sym (account_of p (written (is_account p) j h).0));
  }

abbrev account : ScexportPayload
account = account_with none none "keyId"

abbrev simple : Primitives
simple = simple_with none none "keyId"

simple-IsLawful : IsLawful simple
simple-IsLawful = simple_with-IsLawful none none "keyId"

abbrev pub sample_salt : List ℕ
sample_salt = 7 ∷ 7 ∷ 7 ∷ 7 ∷ 7 ∷ 7 ∷ 7 ∷ 7 ∷ 7 ∷ 7 ∷ 7 ∷ 7 ∷ 7 ∷ 7 ∷ 7 ∷ 7 ∷ []

abbrev pub sample_nonce : List ℕ
sample_nonce = 9 ∷ 9 ∷ 9 ∷ 9 ∷ 9 ∷ 9 ∷ 9 ∷ 9 ∷ 9 ∷ 9 ∷ 9 ∷ 9 ∷ []

account_valid : validate account ≡ done tt
unfolding validate
account_valid = refl

decrypt-encrypt_example :
    (out : List ℕ) × (encrypt simple account (codes "pw") sample_salt sample_nonce ≡ done out)
    × (decrypt simple out (codes "pw") ≡ done account)
decrypt-encrypt_example =
    decrypt-encrypt simple simple-IsLawful account (codes "pw") sample_salt sample_nonce
      (codes "{}") (codes "{}" ++ sample_tag) refl refl account_valid refl refl

-- A file that ends inside the iteration count of version 3.
decrypt-Safe_example : decrypt simple (codes "SCEX" ++ (3 ∷ 0 ∷ [])) (codes "pw") ≢ crashed
decrypt-Safe_example = decrypt-Safe simple (codes "SCEX" ++ (3 ∷ 0 ∷ [])) (codes "pw")
