-- ===== src/Startup/Laws.antt =====
-- The origins that are read from their list (Startup).
use Prim.Native.Char.{Char, code}
use Prim.Native.String
use Prim.Native.String.append
use hwala.Base.{
  ℕ, arith, ◌≡◌, refl, ap, ◌∙◌, String, true, false, Option, some, List, [], ◌∷◌, ◌==◌, map, All,
  ◌≤◌,
}
use hwala.Startup.{
  split_commas, is_space, trim_start, trim_end, keep_char, trim_text, allowed_origins, listed,
  retry_strategy,
}

-- No comma stands in a text, no white space, nothing else.
abbrev HasNoComma : String → Type 0
HasNoComma String.[] = Unit
HasNoComma (String.◌∷◌ c s) = ((code c == b',') ≡ false) × HasNoComma s

abbrev HasNoSpace : String → Type 0
HasNoSpace String.[] = Unit
HasNoSpace (String.◌∷◌ c s) = (is_space c ≡ false) × HasNoSpace s

abbrev IsSpace : String → Type 0
IsSpace String.[] = Unit
IsSpace (String.◌∷◌ c s) = (is_space c ≡ true) × IsSpace s

abbrev IsFilled : String → Type 0
IsFilled String.[] = ⊥
IsFilled (String.◌∷◌ c s) = Unit

-- An origin with white space around it.
pub record Padded : Type 0 where
  pub before : String
  pub origin : String
  pub behind : String

pub record IsOrigin (p : Padded) : Type 0 where
  pub filled : IsFilled p.origin
  pub no_comma : HasNoComma p.origin
  pub no_space : HasNoSpace p.origin
  pub before_space : IsSpace p.before
  pub behind_space : IsSpace p.behind

abbrev pub text_of : Padded → String
text_of p = String.◌++◌ p.before (String.◌++◌ p.origin p.behind)

-- The texts of origins, with commas between them.
abbrev pub joined_origins : Padded → List Padded → String
joined_origins p [] = text_of p
joined_origins p (q ∷ rest) = String.◌++◌ (text_of p) (String.◌∷◌ "," (joined_origins q rest))

trim_end-space : (s : String) → IsSpace s → trim_end s ≡ String.[]
unfolding trim_end
trim_end-space String.[] h = refl
trim_end-space (String.◌∷◌ c s) (p, h) = rw (trim_end-space s h) (rw p refl)

kept : (c : Char) (s : String) → is_space c ≡ false → keep_char c s ≡ String.◌∷◌ c s
kept c String.[] h = rw h refl
kept c (String.◌∷◌ d s) h = refl

trim_end-origin :
    (s behind : String) → HasNoSpace s → IsSpace behind → trim_end (String.◌++◌ s behind) ≡ s
unfolding trim_end
trim_end-origin String.[] behind h b = rw (append.nil behind) (trim_end-space behind b)
trim_end-origin (String.◌∷◌ c s) behind (p, h) b =
    rw (append.cons c s behind) (rw (trim_end-origin s behind h b) (kept c s p))

trim_start-space :
    (before s : String) → IsSpace before → trim_start (String.◌++◌ before s) ≡ trim_start s
unfolding trim_start
trim_start-space String.[] s h = ap trim_start (append.nil s)
trim_start-space (String.◌∷◌ c before) s (p, h) =
    rw (append.cons c before s) (rw p (trim_start-space before s h))

trim_start-origin :
    (s behind : String)
    → IsFilled s
    → HasNoSpace s
    → trim_start (String.◌++◌ s behind) ≡ String.◌++◌ s behind
unfolding trim_start
trim_start-origin String.[] behind f h = absurd f
trim_start-origin (String.◌∷◌ c s) behind f (p, h) = rw (append.cons c s behind) (rw p refl)

trim_text-text_of : (p : Padded) → IsOrigin p → trim_text (text_of p) ≡ p.origin
unfolding trim_text
trim_text-text_of p h =
    rw (trim_start-space p.before (String.◌++◌ p.origin p.behind) h.before_space) (
      rw (trim_start-origin p.origin p.behind h.filled h.no_space)
        (trim_end-origin p.origin p.behind h.no_space h.behind_space))

space-HasNoComma : (s : String) → IsSpace s → HasNoComma s
space-HasNoComma String.[] h = tt
space-HasNoComma (String.◌∷◌ c s) (p, h) = (ground arith, space-HasNoComma s h)

append-HasNoComma : (s t : String) → HasNoComma s → HasNoComma t → HasNoComma (String.◌++◌ s t)
append-HasNoComma String.[] t h g = rw (append.nil t) g
append-HasNoComma (String.◌∷◌ c s) t (p, h) g =
    rw (append.cons c s t) (p, append-HasNoComma s t h g)

text_of-HasNoComma : (p : Padded) → IsOrigin p → HasNoComma (text_of p)
text_of-HasNoComma p h =
    append-HasNoComma p.before _ (space-HasNoComma p.before h.before_space)
      (append-HasNoComma p.origin p.behind h.no_comma (space-HasNoComma p.behind h.behind_space))

split_commas-one : (s : String) → HasNoComma s → split_commas s ≡ s ∷ []
unfolding split_commas
split_commas-one String.[] h = refl
split_commas-one (String.◌∷◌ c s) (p, h) = rw p (rw (split_commas-one s h) refl)

split_commas-next :
    (s t : String)
    → HasNoComma s
    → split_commas (String.◌++◌ s (String.◌∷◌ "," t)) ≡ s ∷ split_commas t
unfolding split_commas
split_commas-next String.[] t h = rw (append.nil (String.◌∷◌ "," t)) refl
split_commas-next (String.◌∷◌ c s) t (p, h) =
    rw (append.cons c s (String.◌∷◌ "," t)) (rw p (rw (split_commas-next s t h) refl))

abbrev pub origins_of : Padded → List Padded → List String
origins_of p [] = p.origin ∷ []
origins_of p (q ∷ rest) = p.origin ∷ origins_of q rest

map_trim :
    (p : Padded) (rest : List Padded)
    → IsOrigin p
    → All IsOrigin rest
    → map trim_text (split_commas (joined_origins p rest)) ≡ origins_of p rest
map_trim p [] h hs =
    rw (split_commas-one (text_of p) (text_of-HasNoComma p h)) (rw (trim_text-text_of p h) refl)
map_trim p (q ∷ rest) h (g, gs) =
    rw (split_commas-next (text_of p) (joined_origins q rest) (text_of-HasNoComma p h))
      (rw (trim_text-text_of p h) (rw (map_trim q rest g gs) refl))

given :
    (s : String) (node_env : Option String)
    → IsFilled s
    → allowed_origins (some s) node_env ≡ listed (map trim_text (split_commas s))
unfolding allowed_origins
given String.[] node_env f = absurd f
given (String.◌∷◌ c s) node_env f = refl

append-IsFilled : (s t : String) → IsFilled t → IsFilled (String.◌++◌ s t)
append-IsFilled String.[] t f = rw (append.nil t) f
append-IsFilled (String.◌∷◌ c s) t f = rw (append.cons c s t) tt

before-IsFilled : (s t : String) → IsFilled s → IsFilled (String.◌++◌ s t)
before-IsFilled String.[] t f = absurd f
before-IsFilled (String.◌∷◌ c s) t f = rw (append.cons c s t) tt

text_of-IsFilled : (p : Padded) → IsOrigin p → IsFilled (text_of p)
text_of-IsFilled p h = append-IsFilled p.before _ (before-IsFilled p.origin p.behind h.filled)

joined_origins-IsFilled :
    (p : Padded) (rest : List Padded) → IsOrigin p → IsFilled (joined_origins p rest)
joined_origins-IsFilled p [] h = text_of-IsFilled p h
joined_origins-IsFilled p (q ∷ rest) h = before-IsFilled (text_of p) _ (text_of-IsFilled p h)

-- A list of one or more origins, none of them empty, without commas or white space in them, that is written into
-- CORS_ORIGIN with commas between them and any white space around them, is read back as the allowed origins, in any
-- environment.
pub allowed_origins-joined_origins :
    (p : Padded) (rest : List Padded) (node_env : Option String)
    → IsOrigin p
    → All IsOrigin rest
    → allowed_origins (some (joined_origins p rest)) node_env ≡ listed (origins_of p rest)
allowed_origins-joined_origins p rest node_env h hs =
    given (joined_origins p rest) node_env (joined_origins-IsFilled p rest h)
    ∙ ap listed (map_trim p rest h hs)

-- The delay before the next attempt to reach Redis grows with the attempts up to three seconds.
retry_strategy-bounds :
    (m n : ℕ) → m ≤ n → (retry_strategy m ≤ retry_strategy n) × (retry_strategy n ≤ 3000)
unfolding retry_strategy
retry_strategy-bounds m n h = (ground arith, ground arith)
