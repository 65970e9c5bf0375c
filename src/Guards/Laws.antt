-- ===== src/Guards/Laws.antt =====
-- What a request with a new API key may do (Guards).
use Prim.Native.String
use Prim.Native.String.append
use hwala.Base.{ℕ, String, Bool, true, Option, some, List, ◌≡◌, refl, sym, ap, ◌∙◌}
use hwala.Base.Result.{ok}
use hwala.Db.{Db, api_user}
use hwala.ApiKeys.{KeyEnv, CreatedKey, create_api_key, validate_api_key, joined}
use hwala.ApiKeys.Laws.{NoMark, created_row, validate_api_key-create_api_key}
use hwala.Guards.{api_key_guard, identity_of}

module _ (uuid_text : ℕ → String) (uuid_of : String → Option ℕ)
    (hash : (salt : ℕ) (raw_key : String) → String)
    (compare : (raw_key key_hash : String) → Bool) where
  api_key_guard-joined :
      (id secret : String) (db : Db)
      → api_key_guard uuid_text uuid_of hash compare (some (joined "hwl" id secret)) db
        ≡ identity_of (validate_api_key uuid_text uuid_of hash compare (joined "hwl" id secret) db)
  unfolding api_key_guard
  api_key_guard-joined id secret db =
      rw (append.cons "h" "wl" (String.◌∷◌ "_" (String.◌++◌ id (String.◌∷◌ "_" secret)))) refl

  -- Under the assumptions on the text of UUIDs, on bcrypt and on the secret, a request with a key that has been
  -- created acts for the tenant of the key, as an API user, with exactly the scopes of the key.
  pub api_key_guard-create_api_key :
      ((id : ℕ) → NoMark (uuid_text id))
      → ((id : ℕ) → uuid_of (uuid_text id) ≡ some id)
      → ((salt : ℕ) (text : String) → compare text (hash salt text) ≡ true)
      → (env : KeyEnv) (tenant_id : ℕ) (name : String) (scopes : List String) (db : Db)
        (key : CreatedKey) (db' : Db)
      → NoMark env.secret
      → create_api_key uuid_text uuid_of hash compare env tenant_id name scopes db ≡ (ok key, db')
      → api_key_guard uuid_text uuid_of hash compare (some key.api_key) db'
        ≡ ok (record {
          tenant_id = tenant_id;
          role = some api_user;
          api_key_id = some key.id;
          scopes = some scopes;
        })
  api_key_guard-create_api_key u v c env tenant_id name scopes db key db' n h =
      let (a, _, _) =
        created_row uuid_text uuid_of hash compare env tenant_id name scopes db key db' h in
      ap (λ text. api_key_guard uuid_text uuid_of hash compare (some text) db') a
      ∙ api_key_guard-joined (uuid_text env.new_id) env.secret db'
      ∙ ap (λ text. identity_of (validate_api_key uuid_text uuid_of hash compare text db')) (sym a)
      ∙ ap identity_of (
          validate_api_key-create_api_key uuid_text uuid_of hash compare u v c env tenant_id name
            scopes db key db' n h)
