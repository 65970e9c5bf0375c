-- ===== src/ApiKeys/Laws.antt =====
-- Keys that have been created are accepted, and keys that have been revoked are not (ApiKeys).
use Prim.Native.Char.{code}
use Prim.Native.String
use Prim.Native.String.append
use hwala.Base.{
  ℕ, arith, String, Bool, true, Option, none, some, List, [], ◌∷◌, ◌≡◌, ◌≢◌, refl, sym, ap, ◌∙◌,
}
use hwala.Base.Result.{ok}
use hwala.Base.Table.{lookup, lookup-insert, lookup-erase}
use hwala.Db.{Db}
use hwala.ApiKeys.{
  KeyEnv, CreatedKey, split, joined, create_api_key, validate_api_key, revoke_api_key, key_row,
  raw_key, from_parts, by_uuid,
}

-- A text without underscores.
abbrev pub NoMark : String → Type 0
NoMark String.[] = Unit
NoMark (String.◌∷◌ c s) = (code c ≢ b'_') × NoMark s

split-NoMark : (s : String) → NoMark s → split s ≡ s ∷ []
unfolding split
split-NoMark String.[] h = refl
split-NoMark (String.◌∷◌ c s) (n, h) = ground (arith, split-NoMark s h)

split-joined : (s t : String) → NoMark s → split (String.◌++◌ s (String.◌∷◌ "_" t)) ≡ s ∷ split t
unfolding split
split-joined String.[] t h = ap split (append.nil (String.◌∷◌ "_" t)) ∙ refl
split-joined (String.◌∷◌ c s) t (n, h) =
    ap split (append.cons c s (String.◌∷◌ "_" t)) ∙ ground (arith, split-joined s t h)

split-raw :
    (prefix id secret : String)
    → NoMark prefix
    → NoMark id
    → NoMark secret
    → split (joined prefix id secret) ≡ prefix ∷ id ∷ secret ∷ []
split-raw prefix id secret p q r =
    split-joined prefix _ p
    ∙ ap (λ ps. prefix ∷ ps) (split-joined id secret q ∙ ap (λ ps. id ∷ ps) (split-NoMark secret r))

hwl-NoMark : NoMark "hwl"
hwl-NoMark = (ground arith, (ground arith, (ground arith, tt)))

module _ (uuid_text : ℕ → String) (uuid_of : String → Option ℕ)
    (hash : (salt : ℕ) (raw_key : String) → String)
    (compare : (raw_key key_hash : String) → Bool) where
  validate-joined :
      (id secret : String) (db : Db)
      → NoMark id
      → NoMark secret
      → validate_api_key uuid_text uuid_of hash compare (joined "hwl" id secret) db
        ≡ by_uuid uuid_text uuid_of hash compare (joined "hwl" id secret) (uuid_of id) db
  unfolding validate_api_key
  validate-joined id secret db q r =
      ap (λ ps. from_parts uuid_text uuid_of hash compare ps db)
        (split-raw "hwl" id secret hwl-NoMark q r)

  -- What a creation that returns has stored.
  pub created_row :
      (env : KeyEnv) (tenant_id : ℕ) (name : String) (scopes : List String) (db : Db)
      (key : CreatedKey) (db' : Db)
      → create_api_key uuid_text uuid_of hash compare env tenant_id name scopes db ≡ (ok key, db')
      → (key.api_key ≡ raw_key uuid_text uuid_of hash compare env)
        × (key.id ≡ env.new_id)
        × (lookup env.new_id db'.api_keys
            ≡ some (key_row uuid_text uuid_of hash compare env tenant_id name scopes))
  unfolding create_api_key
  created_row env tenant_id name scopes db key db' h = (
    ground arith,
    ground arith,
    ground (
      arith,
      lookup-insert env.new_id env.new_id
          (key_row uuid_text uuid_of hash compare env tenant_id name scopes) db.api_keys,
    ),
  )

  revoked_row :
      (env : KeyEnv) (tenant_id id : ℕ) (db : Db) (id' : ℕ) (db' : Db)
      → revoke_api_key env tenant_id id db ≡ (ok id', db')
      → lookup id db'.api_keys ≡ none
  unfolding revoke_api_key
  revoked_row env tenant_id id db id' db' h = ground (arith, lookup-erase id id db.api_keys)

  -- When the text of a UUID has no underscore and is parsed back, bcrypt accepts a text against its own hash,
  -- and the secret has no underscore: the key that a creation returns is validated as the record that was
  -- stored, for the tenant and with the scopes that it was created for.
  pub validate_api_key-create_api_key :
      ((id : ℕ) → NoMark (uuid_text id))
      → ((id : ℕ) → uuid_of (uuid_text id) ≡ some id)
      → ((salt : ℕ) (text : String) → compare text (hash salt text) ≡ true)
      → (env : KeyEnv) (tenant_id : ℕ) (name : String) (scopes : List String) (db : Db)
        (key : CreatedKey) (db' : Db)
      → NoMark env.secret
      → create_api_key uuid_text uuid_of hash compare env tenant_id name scopes db ≡ (ok key, db')
      → validate_api_key uuid_text uuid_of hash compare key.api_key db'
        ≡ ok (some (key.id, key_row uuid_text uuid_of hash compare env tenant_id name scopes))
  validate_api_key-create_api_key u v c env tenant_id name scopes db key db' n h =
      let (a, i, r) = created_row env tenant_id name scopes db key db' h in
      ap (λ text. validate_api_key uuid_text uuid_of hash compare text db') a
      ∙ validate-joined (uuid_text env.new_id) env.secret db' (u env.new_id) n
      ∙ ground (arith, v env.new_id, c env.salt (raw_key uuid_text uuid_of hash compare env))

  -- A key that its tenant has revoked, and whose text names it, is not validated any more.
  pub validate_api_key-revoke_api_key :
      ((id : ℕ) → NoMark (uuid_text id))
      → ((id : ℕ) → uuid_of (uuid_text id) ≡ some id)
      → (env : KeyEnv) (tenant_id id : ℕ) (secret : String) (db : Db) (id' : ℕ) (db' : Db)
      → NoMark secret
      → revoke_api_key env tenant_id id db ≡ (ok id', db')
      → validate_api_key uuid_text uuid_of hash compare (joined "hwl" (uuid_text id) secret) db'
        ≡ ok none
  validate_api_key-revoke_api_key u v env tenant_id id secret db id' db' n h =
      validate-joined (uuid_text id) secret db' (u id) n
      ∙ ground (arith, v id, revoked_row env tenant_id id db id' db' h)

  -- A text that names a key is validated alike with an underscore and any further text behind it.
  pub validate_api_key-suffix :
      ((id : ℕ) → NoMark (uuid_text id))
      → (id : ℕ) (secret suffix : String) (db : Db) → NoMark secret
      → validate_api_key uuid_text uuid_of hash compare
          (joined "hwl" (uuid_text id) (String.◌++◌ secret (String.◌∷◌ "_" suffix)))
          db
        ≡ validate_api_key uuid_text uuid_of hash compare (joined "hwl" (uuid_text id) secret) db
  unfolding validate_api_key
  validate_api_key-suffix u id secret suffix db n =
      ap (λ ps. from_parts uuid_text uuid_of hash compare ps db)
        (split-joined "hwl" _ hwl-NoMark
          ∙ ap (λ ps. "hwl" ∷ ps)
              (split-joined (uuid_text id) _ (u id)
                ∙ ap (λ ps. uuid_text id ∷ ps) (split-joined secret suffix n)))
      ∙ sym (
          ap (λ ps. from_parts uuid_text uuid_of hash compare ps db)
            (split-raw "hwl" (uuid_text id) secret hwl-NoMark (u id) n))
