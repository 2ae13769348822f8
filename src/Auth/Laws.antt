-- ===== src/Auth/Laws.antt =====
-- Who is let in: the tenant of the active key, and nobody else.
use Prim.Native.String.{◌++◌ as ◌+text+◌, count as chars}
use text.Mathlib.TextLemmas.{append-eq-nil_iff}
use tenant_billing_service.Base.{
  ◌≡◌, refl, ap, inl, inr, String, true, false, some, List, [], ◌∷◌, arith, select, select-head,
  str_eq, eq_iff, eq_refl, All, Bool-cases,
}
use tenant_billing_service.Model.Tenant.{Business, ApiKey}
use tenant_billing_service.Model.Db.{Db}
use tenant_billing_service.World.{World}
use tenant_billing_service.Auth.{
  Credentials, generate_api_key, hash_api_key, verify_api_key, prefix, is_key, has_business_id,
  owner_of, business_of, accepted, unauthorized, get_current_business,
}
use tenant_billing_service.Auth.Texts.{is_bearer, strip, has_space, strip-append}

module _ (w : World) (c : Credentials) (db : Db) where
  -- The key row and the tenant that let a request in.
  pub record LetIn (b : Business) : Type 0 where
    pub key : ApiKey
    pub bearer : is_bearer c.scheme ≡ true
    pub the_key : select (is_key (hash_api_key w (strip c.credentials))) db.api_keys ≡ key ∷ []
    pub of_hash : key.key_hash ≡ hash_api_key w (strip c.credentials)
    pub active : key.is_active ≡ true
    pub owner : select (has_business_id key.business_id) db.businesses ≡ b ∷ []

  owner-accepted :
      (rows : List Business) (b : Business) → owner_of rows ≡ accepted b → rows ≡ b ∷ []
  owner-accepted [] b h = cc
  owner-accepted (x ∷ []) b h = cc
  owner-accepted (x ∷ y ∷ rest) b h = cc

  let_in :
      (b : Business) (keys : List ApiKey)
      → is_bearer c.scheme ≡ true
      → select (is_key (hash_api_key w (strip c.credentials))) db.api_keys ≡ keys
      → business_of db keys ≡ accepted b
      → LetIn b
  let_in b [] bearer e h = cc
  let_in b (k ∷ []) bearer e h =
      let is_it = select-head (is_key (hash_api_key w (strip c.credentials))) db.api_keys k [] e in
      record {
        key = k;
        bearer = bearer;
        the_key = e;
        of_hash = (eq_iff k.key_hash (hash_api_key w (strip c.credentials))).0 (ground arith);
        active = ground arith;
        owner = owner-accepted (select (has_business_id k.business_id) db.businesses) b h;
      }
  let_in b (x ∷ y ∷ rest) bearer e h = cc

  -- If a request is let in as a business, then its scheme is Bearer, exactly one active key has
  -- the hash of the token without white space around it, and that key belongs to that business.
  pub get_current_business-LetIn :
      (b : Business) → get_current_business w (some c) db ≡ accepted b → LetIn b
  unfolding get_current_business
  get_current_business-LetIn b h = elim (Bool-cases (is_bearer c.scheme)) [
    | inr other ↦ cc (rw other at h)
    | inl bearer ↦ elim (Bool-cases (str_eq (strip c.credentials) "")) [
      | inl empty ↦ cc (rw (bearer, empty) at h)
      | inr full ↦
          let_in b (select (is_key (hash_api_key w (strip c.credentials))) db.api_keys) bearer refl
            (rw (bearer, full) at h)
    ]
  ]

  inactive-select :
      (hash : String) (rows : List ApiKey)
      → All (λ k. k.key_hash ≡ hash → k.is_active ≡ false) rows
      → select (is_key hash) rows ≡ []
  inactive-select hash [] h = refl
  inactive-select hash (k ∷ rows) (off, h) =
      ground (arith, (eq_iff k.key_hash hash).0, off, inactive-select hash rows h)

  -- If every key with the hash of the token is inactive (none at all, for one), then the request
  -- is refused with 401.
  pub get_current_business-revoked :
      All (λ k. k.key_hash ≡ hash_api_key w (strip c.credentials) → k.is_active ≡ false) db.api_keys
      → get_current_business w (some c) db ≡ unauthorized
  unfolding get_current_business
  get_current_business-revoked off =
      ground (arith, inactive-select (hash_api_key w (strip c.credentials)) db.api_keys off)

prefix-nonempty : (random_part : String) → str_eq (prefix +text+ random_part) "" ≡ false
prefix-nonempty random_part = elim (Bool-cases (str_eq (prefix +text+ random_part) "")) [
  | inr other ↦ other
  | inl empty ↦
      let e = append-eq-nil_iff.0 ((eq_iff (prefix +text+ random_part) "").0 empty) in
      absurd (let n = ap chars e.0 in omega arith)
]

-- If the random part has no white space, and of the active keys exactly one, of an existing
-- business, has the hash that a generated key is stored with, then the plaintext of that key lets
-- its bearer in as that business, and verifies against the hash.
pub generate_api_key-accepted :
    (w : World) (random_part : String) (db : Db) (k : ApiKey) (b : Business)
    → let key = generate_api_key w random_part in
      has_space random_part ≡ false
      → select (is_key key.key_hash) db.api_keys ≡ k ∷ []
      → select (has_business_id k.business_id) db.businesses ≡ b ∷ []
      → (get_current_business w
            (some (record { scheme = "Bearer"; credentials = key.plaintext }))
            db
          ≡ accepted b)
        × (verify_api_key w key.plaintext key.key_hash ≡ true)
unfolding generate_api_key get_current_business verify_api_key hash_api_key is_bearer
generate_api_key-accepted w random_part db k b no_space found owner = (
  ground (arith, strip-append prefix random_part refl no_space, prefix-nonempty random_part),
  eq_refl (w.sha256_hex (prefix +text+ random_part)),
)
