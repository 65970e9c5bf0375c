-- ===== src/Auth/Laws.antt =====
-- What a registration makes of a login (Auth).
use text.Mathlib.Text
use text.Mathlib.TextEquality.{eq_iff}
use hwala.Base.{
  ℕ, arith, String, Bool, true, Option, none, some, [], ◌∷◌, ◌≡◌, refl, Option-cases, inl, inr,
}
use hwala.Base.Result.{ok}
use hwala.Base.Table.{Table, lookup, insert}
use hwala.Db.{Db, User, Role}
use hwala.Auth.{Profile, profile_of, find_by_email, register, login, user_row}

same_text : (s : String) → Text.◌==◌ s s ≡ true
same_text s = (eq_iff s s).1 refl

-- A new row is found under its email, if no other row has it.
find_by_email-insert :
    (email : String) (id : ℕ) (u : User) (rows : Table User)
    → lookup id rows ≡ none
    → find_by_email email rows ≡ none
    → Text.◌==◌ u.email email ≡ true
    → find_by_email email (insert id u rows) ≡ some (id, u)
unfolding find_by_email insert lookup
find_by_email-insert email id u [] p q e = ground arith
find_by_email-insert email id u ((j, v) ∷ rows) p q e =
    ground (arith, find_by_email-insert email id u rows)

module _ (hash : (salt : ℕ) (password : String) → String)
    (compare : (password password_hash : String) → Bool) (sign : Profile → String) where
  -- When bcrypt accepts a password against its own hash, a user who has registered can log in with the same
  -- email and password, and gets a token for the profile that the registration returned.
  pub login-register :
      ((salt : ℕ) (password : String) → compare password (hash salt password) ≡ true)
      → (new_id salt : ℕ) (tenant : Option ℕ) (email password : String) (role : Option Role)
        (db : Db) (profile : Profile) (db' : Db)
      → register hash new_id salt tenant email password role db ≡ (ok profile, db')
      → login compare sign email password db' ≡ ok (sign profile, profile)
  unfolding register login
  login-register c new_id salt none email password role db profile db' h = ground arith
  login-register c new_id salt (some tenant_id) email password role db profile db' h = ground (
    arith,
    c salt password,
    same_text email,
    find_by_email-insert email new_id (user_row hash salt tenant_id email password role) db.users,
  )

  -- A login that returns names a stored user with this email, whose hash bcrypt accepts for the password.
  login_sound :
      (email password : String) (db : Db) (token : String) (profile : Profile)
      → login compare sign email password db ≡ ok (token, profile)
      → (u : User) × (find_by_email email db.users ≡ some (profile.id, u))
        × (compare password u.password_hash ≡ true)
        × (profile ≡ profile_of profile.id u)
        × (token ≡ sign profile)
  unfolding login
  login_sound email password db token profile h =
      elim (Option-cases (find_by_email email db.users)) [
        | inl p ↦ absurd (ground arith)
        | inr ((id, u), p) ↦ (u, ground arith, ground arith, ground arith, ground arith)
      ]
