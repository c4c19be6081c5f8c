-- ===== src/Facade/Scexport/Renamed/Names.antt =====
-- The names of an Apple account's secrets in a file and in the app
-- (crates/stack_core/src/frb_api.rs).
use stack_connect_core.Prelude.{
  All, ◌≡◌, ◌≢◌, refl, ◌∙◌, sym, ap, Bool, true, false, ◌⊎◌, inl, inr, String, none, some, [], ◌∷◌,
  ◌==◌, eq_iff, if◌then◌else◌,
}
use stack_connect_core.Prelude.Table.{Table, lookup}
use stack_connect_core.Connect.{key_issuer_id, key_key_id, key_private_key_p8}
use stack_connect_core.Facade.Scexport.{
  ios_key_issuer_id, ios_key_private_key_id, ios_key_private_key, renamed, remap, ios_names,
  schema_names,
}
use stack_connect_core.Facade.Scexport.Renamed.Entries.{
  same_or_not, same, differ, Distinct, remap-All, remap-Distinct, remap-lookup,
}

-- The name of an Apple secret in a file, which no account has in the app.
abbrev pub IsFileName : String → Type 0
IsFileName k = (k ≡ ios_key_issuer_id) ⊎ (k ≡ ios_key_private_key_id) ⊎ (k ≡ ios_key_private_key)

apart : (j k : String) → (j == k) ≡ false → j ≢ k
apart j k h e = absurd (cc (h, (eq_iff j k).1 e))

-- A name is one of three, or none of them.
abbrev Named : String → String → String → String → Type 0
Named a b c k =
    (a ≡ k) ⊎ (b ≡ k) ⊎ (c ≡ k) ⊎ (((a == k) ≡ false) × ((b == k) ≡ false) × ((c == k) ≡ false))

named : (a b c k : String) → Named a b c k
named a b c k = elim (same_or_not a k) [
  | inl e ↦ inl e
  | inr ea ↦ elim (same_or_not b k) [
    | inl e ↦ inr (inl e)
    | inr eb ↦ elim (same_or_not c k) [
      | inl e ↦ inr (inr (inl e))
      | inr ec ↦ inr (inr (inr (ea, eb, ec)))
    ]
  ]
]

not-IsFileName :
    (k : String)
    → (ios_key_issuer_id == k) ≡ false
    → (ios_key_private_key_id == k) ≡ false
    → (ios_key_private_key == k) ≡ false
    → ¬ IsFileName k
not-IsFileName k a b c (inl e) = apart _ k a (sym e)
not-IsFileName k a b c (inr (inl e)) = apart _ k b (sym e)
not-IsFileName k a b c (inr (inr e)) = apart _ k c (sym e)

IsFileName-or_not : (k : String) → IsFileName k ⊎ ¬ IsFileName k
IsFileName-or_not k = elim (named ios_key_issuer_id ios_key_private_key_id ios_key_private_key k) [
  | inl e ↦ inl (inl (sym e))
  | inr (inl e) ↦ inl (inr (inl (sym e)))
  | inr (inr (inl e)) ↦ inl (inr (inr (sym e)))
  | inr (inr (inr (a, b, c))) ↦ inr (not-IsFileName k a b c)
]

-- No name of a file is left after an import.
no-IsFileName : (k : String) → ¬ IsFileName (renamed ios_names k)
unfolding renamed
no-IsFileName k = elim (named ios_key_issuer_id ios_key_private_key_id ios_key_private_key k) [
  | inl e ↦ rw (← e) (not-IsFileName key_issuer_id refl refl refl)
  | inr (inl e) ↦ rw (← e) (not-IsFileName key_key_id refl refl refl)
  | inr (inr (inl e)) ↦ rw (← e) (not-IsFileName key_private_key_p8 refl refl refl)
  | inr (inr (inr (a, b, c))) ↦ rw (a, b, c) (not-IsFileName k a b c)
]

there_and_back : (k : String) → ¬ IsFileName k → renamed ios_names (renamed schema_names k) ≡ k
unfolding renamed
there_and_back k h = elim (named key_issuer_id key_key_id key_private_key_p8 k) [
  | inl e ↦ rw (← e) refl
  | inr (inl e) ↦ rw (← e) refl
  | inr (inr (inl e)) ↦ rw (← e) refl
  | inr (inr (inr (a, b, c))) ↦
      rw
        (
          a,
          b,
          c,
          differ ios_key_issuer_id k λ e. h (inl (sym e)),
          differ ios_key_private_key_id k λ e. h (inr (inl (sym e))),
          differ ios_key_private_key k λ e. h (inr (inr (sym e))),
        )
        refl
]

-- Where no secret is under a name of a file, none of the entries has one.
absent-All :
    (m : Table String)
    → ((k : String) → IsFileName k → lookup k m ≡ none)
    → All (λ e. ¬ IsFileName e.0) m
unfolding lookup
absent-All [] h = tt
absent-All ((j, v) ∷ m) h =
    (λ p. absurd (cc (rw (same j) at (h j p))), absent-All m λ k p. further k (j == k) (h k p))
  where
    further :
        (k : String) (t : Bool) → (if t then some v else lookup k m) ≡ none → lookup k m ≡ none
    further k true e = absurd (cc e)
    further k false e = e

All-absent :
    (m : Table String) (k : String)
    → All (λ e. ¬ IsFileName e.0) m
    → IsFileName k
    → lookup k m ≡ none
unfolding lookup
All-absent [] k h p = refl
All-absent ((j, v) ∷ m) k (h, hs) p = rw (differ j k λ e. h (rw e p)) (All-absent m k hs p)

All-map :
    (P Q : String × String → Type 0) (m : Table String)
    → ((e : String × String) → P e → Q e)
    → All P m
    → All Q m
All-map P Q [] f h = tt
All-map P Q (e ∷ m) f (h, hs) = (f e h, All-map P Q m f hs)

always : (Q : String × String → Type 0) (m : Table String) → ((e : String × String) → Q e) → All Q m
always Q [] f = tt
always Q (e ∷ m) f = (f e, always Q m f)

-- The secrets of an account, in a file and back.
pub remap-remap :
    (m : Table String)
    → Distinct m
    → ((k : String) → IsFileName k → lookup k m ≡ none)
    → (k : String) → lookup k (remap ios_names (remap schema_names m)) ≡ lookup k m
remap-remap m d free k =
    let own = absent-All m free in
    let written = remap schema_names m in
    elim (IsFileName-or_not k) [
      | inl p ↦
          All-absent (remap ios_names written) k
            (remap-All ios_names (λ e. ¬ IsFileName e.0) written
              (always _ written λ e. no-IsFileName e.0))
            p
          ∙ sym (free k p)
      | inr p ↦
          let same_name = there_and_back k p in
          ap (λ n. lookup n (remap ios_names written)) (sym same_name)
          ∙ remap-lookup ios_names (renamed schema_names) written (renamed schema_names k)
              (remap-Distinct schema_names m)
              (remap-All schema_names (λ e. renamed schema_names (renamed ios_names e.0) ≡ e.0) m
                (All-map _ _ m (λ e q. ap (renamed schema_names) (there_and_back e.0 q)) own))
              (ap (renamed schema_names) same_name)
          ∙ remap-lookup schema_names (renamed ios_names) m k d
              (All-map _ _ m (λ e q. there_and_back e.0 q) own) same_name
    ]
