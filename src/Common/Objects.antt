-- ===== src/Common/Objects.antt =====
-- JavaScript objects used as dictionaries, and sets of texts: association lists in insertion order.
use Prim.Native.String.{String}
use mathlib.Core.Path.{◌≡◌, refl}
use mathlib.Core.Option.{Option, none, some}
use mathlib.Core.Bool.{Bool, true, false, ◌||◌}
use mathlib.Core.List.{List, [], ◌∷◌}
use supabase_lab.Common.Lists.{includes}
use native.Mathlib.Omega.{arith}
use text.Mathlib.TextEquality.{eq_iff}
use supabase_lab.Common.Tests.{if◌then◌else◌, str_eq}

module _ {ℓ} {V : Type ℓ} where
  -- `o[k]`
  unfoldable pub lookup : String → List (String × V) → Option V
  lookup k [] = none
  lookup k ((j, v) ∷ o) = if str_eq j k then some v else lookup k o

  -- `o[k] = v`: in place if the key is there, else at the end
  unfoldable pub set_key : String → V → List (String × V) → List (String × V)
  set_key k v [] = (k, v) ∷ []
  set_key k v ((j, w) ∷ o) =
      let rest = set_key k v o in if str_eq j k then (j, v) ∷ o else (j, w) ∷ rest

  abbrev pub keys : List (String × V) → List String
  keys [] = []
  keys ((k, v) ∷ o) = k ∷ keys o

  -- `{ ...o, ...p }`
  unfoldable pub assign : List (String × V) → List (String × V) → List (String × V)
  unfolding set_key
  assign o [] = o
  assign o ((k, v) ∷ p) = assign (set_key k v o) p

  abbrev pub has_key : String → List (String × V) → Bool
  has_key k o = elim (lookup k o) [ none ↦ false | some v ↦ true ]

  pub lookup-set_key :
      (k j : String) (v : V) (o : List (String × V))
      → lookup j (set_key k v o) ≡ (if str_eq k j then some v else lookup j o)
  unfolding lookup set_key
  lookup-set_key k j v [] = refl
  lookup-set_key k j v ((i, w) ∷ o) =
      ground (arith, eq_iff k j, eq_iff i k, eq_iff i j, lookup-set_key k j v o)

  pub has_key-set_key :
      (k j : String) (v : V) (o : List (String × V))
      → has_key j (set_key k v o) ≡ (str_eq k j || has_key j o)
  unfolding lookup set_key
  has_key-set_key k j v [] = ground arith
  has_key-set_key k j v ((i, w) ∷ o) =
      ground (arith, eq_iff k j, eq_iff i k, eq_iff i j, has_key-set_key k j v o)

-- the names that every object has a value for on `Object.prototype`, a function or an object
abbrev pub inherited : List String
inherited =
    "constructor" ∷ "__proto__" ∷ "hasOwnProperty" ∷ "isPrototypeOf" ∷ "propertyIsEnumerable"
    ∷ "toLocaleString" ∷ "toString" ∷ "valueOf" ∷ "__defineGetter__" ∷ "__defineSetter__"
    ∷ "__lookupGetter__" ∷ "__lookupSetter__" ∷ []

-- `[...new Set(list)]`
unfoldable pub distinct : List String → List String → List String
distinct seen [] = []
distinct seen (s ∷ ss) =
    let later = distinct seen ss in
    let new = distinct (s ∷ seen) ss in if includes str_eq s seen then later else s ∷ new
