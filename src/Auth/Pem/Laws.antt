-- ===== src/Auth/Pem/Laws.antt =====
-- What the normalization of a private key comes to (crates/stack_core/src/auth/es256.rs).
use stack_connect_core.Prelude.{
  ℕ, ◌≡◌, refl, sym, Bool, true, false, List, ◌++◌, contains, has_prefix, codes, if◌then◌else◌,
}
use stack_connect_core.Auth.Pem.{
  normalize_p8_pem, from_utf8_lossy, decode_utf8, next_byte, begin_char, pem_begin,
}

abbrev names_begin : List ℕ → Bool
names_begin raw = contains (codes "BEGIN") (from_utf8_lossy raw)

kept_if_pem : (raw : List ℕ) → names_begin raw ≡ true → normalize_p8_pem raw ≡ raw
unfolding normalize_p8_pem
kept_if_pem raw h = rw h refl

header_is_found : (rest : List ℕ) → names_begin (pem_begin ++ rest) ≡ true
unfolding contains has_prefix from_utf8_lossy decode_utf8 next_byte begin_char
header_is_found rest = refl

kept_or_wrapped :
    (raw rest : List ℕ) (b : Bool)
    → b ≡ names_begin raw
    → (let out = if b then raw else pem_begin ++ rest in normalize_p8_pem out ≡ out)
kept_or_wrapped raw rest true e = kept_if_pem raw (sym e)
kept_or_wrapped raw rest false e = kept_if_pem (pem_begin ++ rest) (header_is_found rest)

wrapping :
    (raw : List ℕ)
    → (rest : List ℕ) × (normalize_p8_pem raw
        ≡ (if names_begin raw then raw else pem_begin ++ rest))
unfolding normalize_p8_pem
wrapping raw = (_, refl)

-- A key that has been normalized is in its normal form: another normalization changes nothing.
pub normalize_p8_pem_twice :
    (raw : List ℕ) → normalize_p8_pem (normalize_p8_pem raw) ≡ normalize_p8_pem raw
normalize_p8_pem_twice raw =
    let (rest, e) = wrapping raw in rw e (kept_or_wrapped raw rest (names_begin raw) refl)
