-- ===== src/Tests/Access.antt =====
-- Users and API keys of the small bank.
use Prim.Native.String
use text.Mathlib.Text
use text.Mathlib.TextEquality.{eq_iff}
use hwala.Base.{ℕ, suc, zero, arith, String, ◌≡◌, refl, ap, Bool, Option, none, some, true, [], ◌∷◌}
use hwala.Base.Result.{ok}
use hwala.Base.Table.{lookup, insert, erase}
use hwala.Db.{Db, support, api_user}
use hwala.Auth.{Profile, find_by_email, register, login}
use hwala.Auth.Laws.{login-register}
use hwala.ApiKeys.{KeyEnv, CreatedKey, joined, create_api_key, validate_api_key, revoke_api_key}
use hwala.ApiKeys.Laws.{NoMark, validate_api_key-revoke_api_key, validate_api_key-suffix}
use hwala.Guards.{api_key_guard}
use hwala.Guards.Laws.{api_key_guard-create_api_key}
use hwala.Tests.{bank}

-- A hash that is the text itself.
abbrev hash : ℕ → String → String
hash salt text = text

abbrev compare : String → String → Bool
compare text stored = Text.◌==◌ text stored

accepts : (salt : ℕ) (text : String) → compare text (hash salt text) ≡ true
accepts salt text = (eq_iff text text).1 refl

abbrev sign : Profile → String
sign p = p.email

abbrev with_ann : Db
with_ann = (register hash 70 1 (some 1) "ann@shop.example" "secret" (some support) bank).1

abbrev ann : Profile
ann = record { id = 70; tenant_id = 1; email = "ann@shop.example"; role = support }

ann_registers :
    register hash 70 1 (some 1) "ann@shop.example" "secret" (some support) bank ≡ (ok ann, with_ann)
unfolding register lookup find_by_email insert
ann_registers = refl

login-register_example :
    login compare sign "ann@shop.example" "secret" with_ann ≡ ok (sign ann, ann)
login-register_example =
    login-register hash compare sign accepts 70 1 (some 1) "ann@shop.example" "secret"
      (some support) bank ann with_ann ann_registers

-- Identifiers in unary.
abbrev uuid_text : ℕ → String
uuid_text zero = ""
uuid_text (suc n) = String.◌∷◌ "1" (uuid_text n)

abbrev next : Option ℕ → Option ℕ
next none = none
next (some n) = some (suc n)

abbrev uuid_of : String → Option ℕ
uuid_of String.[] = some 0
uuid_of (String.◌∷◌ c s) = next (uuid_of s)

uuid_text-NoMark : (id : ℕ) → NoMark (uuid_text id)
uuid_text-NoMark zero = tt
uuid_text-NoMark (suc n) = ((ground arith), uuid_text-NoMark n)

uuid_of-uuid_text : (id : ℕ) → uuid_of (uuid_text id) ≡ some id
uuid_of-uuid_text zero = refl
uuid_of-uuid_text (suc n) = ap next (uuid_of-uuid_text n)

abbrev key_env : KeyEnv
key_env = record {
  new_id = 3;
  secret = "abc";
  salt = 1;
  has_audit = true;
  audit_id = 90;
  now = 1000;
}

secret-NoMark : NoMark "abc"
secret-NoMark = ((ground arith), ((ground arith), ((ground arith), tt)))

abbrev db_with_key : Db
db_with_key = (create_api_key uuid_text uuid_of hash compare key_env 1 "shop" ("read" ∷ []) bank).1

key_runs :
    (key : CreatedKey) × (create_api_key uuid_text uuid_of hash compare key_env 1 "shop"
        ("read" ∷ [])
        bank
      ≡ (ok key, db_with_key))
unfolding create_api_key lookup insert
key_runs = (_, refl)

abbrev without_key : Db
without_key = (revoke_api_key key_env 1 3 db_with_key).1

revoke_runs : (id : ℕ) × (revoke_api_key key_env 1 3 db_with_key ≡ (ok id, without_key))
unfolding revoke_api_key create_api_key lookup insert erase
revoke_runs = (_, refl)

validate_api_key-revoke_api_key_example :
    validate_api_key uuid_text uuid_of hash compare (joined "hwl" (uuid_text 3) "abc") without_key
    ≡ ok none
validate_api_key-revoke_api_key_example =
    validate_api_key-revoke_api_key uuid_text uuid_of hash compare uuid_text-NoMark
      uuid_of-uuid_text key_env 1 3 "abc" db_with_key revoke_runs.0 without_key secret-NoMark
      revoke_runs.1

validate_api_key-suffix_example :
    validate_api_key uuid_text uuid_of hash compare
      (joined "hwl" (uuid_text 3) (String.◌++◌ "abc" (String.◌∷◌ "_" "more")))
      db_with_key
    ≡ validate_api_key uuid_text uuid_of hash compare (joined "hwl" (uuid_text 3) "abc") db_with_key
validate_api_key-suffix_example =
    validate_api_key-suffix uuid_text uuid_of hash compare uuid_text-NoMark 3 "abc" "more"
      db_with_key secret-NoMark

api_key_guard-create_api_key_example :
    api_key_guard uuid_text uuid_of hash compare (some (key_runs.0).api_key) db_with_key
    ≡ ok (record {
      tenant_id = 1;
      role = some api_user;
      api_key_id = some (key_runs.0).id;
      scopes = some ("read" ∷ []);
    })
api_key_guard-create_api_key_example =
    api_key_guard-create_api_key uuid_text uuid_of hash compare uuid_text-NoMark uuid_of-uuid_text
      accepts key_env 1 "shop" ("read" ∷ []) bank key_runs.0 db_with_key secret-NoMark key_runs.1
