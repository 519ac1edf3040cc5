-- ===== src/Base/Maps.antt =====
-- A JavaScript `Map` or plain object, as the list of its entries in insertion order: a write to a
-- present key keeps its place, a new key goes to the end.
use Prim.Native.Nat.{ℕ, ◌+◌, ◌≤◌}
use Prim.Native.String.{String}
use text.Mathlib.Text.{◌==◌ as str_eq}
use text.Mathlib.TextEquality.{eq_iff}
use mathlib.Core.Path.{◌≡◌, refl, subst}
use mathlib.Core.Logic.{◌≢◌, ◌↔◌, inl, inr}
use mathlib.Core.Bool.{Bool, true}
use mathlib.Core.Option.{Option, none, some, some-injective}
use mathlib.Core.List.{List, [], ◌∷◌}
use native.Mathlib.Omega.{arith}
use kubus_node.Base.Tests.{if◌then◌else◌, is_some, ◌==◌, ==_iff, Bool-cases}
use kubus_node.Base.Lists.{length, All}

-- Keys are compared by a test that decides equality.
pub record Key {ℓ} (K : Type ℓ) : Type ℓ where
  pub same : K → K → Bool
  pub same_iff : (a b : K) → (same a b ≡ true) ↔ (a ≡ b)

instance abbrev pub string_key : Key String
string_key = record { same = str_eq; same_iff = eq_iff }

instance abbrev pub number_key : Key ℕ
number_key = record { same = ◌==◌; same_iff = ==_iff }

abbrev pub Dict {ℓ κ} : Type ℓ → Type κ → Type (ℓ ⊔ κ)
Dict K V = List (K × V)

module _ {ℓ κ} {K : Type ℓ} {V : Type κ} ⦃e : Key K⦄ where
  unfoldable pub get : Dict K V → K → Option V
  get [] key = none
  get ((at, value) ∷ entries) key = if e.same at key then some value else get entries key

  unfoldable pub put : Dict K V → K → V → Dict K V
  put [] key value = (key, value) ∷ []
  put ((at, old) ∷ entries) key value =
      let rest = put entries key value in
      if e.same at key then (at, value) ∷ entries else (at, old) ∷ rest

  -- `delete` of a key; a map has one entry of it at most.
  unfoldable pub remove : Dict K V → K → Dict K V
  remove [] key = []
  remove ((at, value) ∷ entries) key =
      let rest = remove entries key in if e.same at key then rest else (at, value) ∷ rest

  unfoldable pub has : Dict K V → K → Bool
  has entries key = is_some (get entries key)

  pub get-put :
      (entries : Dict K V) (key : K) (value : V) (other : K)
      → get (put entries key value) other
        ≡ (if e.same key other then some value else get entries other)
  unfolding get put
  get-put [] key value other = refl
  get-put ((at, old) ∷ entries) key value other = ground (
    arith,
    get-put entries key value other,
    e.same_iff at key,
    e.same_iff at other,
    e.same_iff key other,
  )

  pub get-put_self :
      (entries : Dict K V) (key : K) (value : V) → get (put entries key value) key ≡ some value
  get-put_self entries key value = rw (get-put, (e.same_iff key key).1 refl)

  pub get-put_ne :
      (entries : Dict K V) (key : K) (value : V) {other : K}
      → key ≢ other
      → get (put entries key value) other ≡ get entries other
  get-put_ne entries key value {other} apart =
      ground (arith, get-put entries key value other, e.same_iff key other)

  pub get-remove :
      (entries : Dict K V) (key other : K)
      → get (remove entries key) other ≡ (if e.same key other then none else get entries other)
  unfolding get remove
  get-remove [] key other = ground arith
  get-remove ((at, value) ∷ entries) key other = ground (
    arith,
    get-remove entries key other,
    e.same_iff at key,
    e.same_iff at other,
    e.same_iff key other,
  )

  pub get-remove_self : (entries : Dict K V) (key : K) → get (remove entries key) key ≡ none
  get-remove_self entries key = rw (get-remove, (e.same_iff key key).1 refl)

  pub get-remove_ne :
      (entries : Dict K V) (key : K) {other : K}
      → key ≢ other
      → get (remove entries key) other ≡ get entries other
  get-remove_ne entries key {other} apart =
      ground (arith, get-remove entries key other, e.same_iff key other)

  -- A write adds an entry exactly when the key is new.
  pub length-put :
      (entries : Dict K V) (key : K) (value : V)
      → length (put entries key value)
        ≡ (if has entries key then length entries else length entries + 1)
  unfolding put has get
  length-put [] key value = omega arith
  length-put ((at, old) ∷ entries) key value = ground (arith, length-put entries key value)

  pub length-remove : (entries : Dict K V) (key : K) → length (remove entries key) ≤ length entries
  unfolding remove
  length-remove [] key = omega arith
  length-remove ((at, value) ∷ entries) key = ground (arith, length-remove entries key)

  -- A predicate on the values.
  abbrev pub Values {μ} : (V → Type μ) → Dict K V → Type μ
  Values P = All λ entry. P entry.1

  pub Values-put {μ} :
      (P : V → Type μ) (entries : Dict K V) (key : K) {value : V}
      → P value
      → Values P entries
      → Values P (put entries key value)
  unfolding put
  Values-put P [] key p h = (p, tt)
  Values-put P ((at, old) ∷ entries) key p h = ground (arith, Values-put P entries key p h.1)

  pub Values-remove {μ} :
      (P : V → Type μ) (entries : Dict K V) (key : K)
      → Values P entries
      → Values P (remove entries key)
  unfolding remove
  Values-remove P [] key h = tt
  Values-remove P ((at, value) ∷ entries) key h = ground (arith, Values-remove P entries key h.1)

  pub Values-get {μ} :
      (P : V → Type μ) (entries : Dict K V) (key : K) {value : V}
      → Values P entries
      → get entries key ≡ some value
      → P value
  unfolding get
  Values-get P [] key h found = absurd (ground arith)
  Values-get P ((at, v) ∷ entries) key {value} h found = elim (Bool-cases (e.same at key)) [
    | inl hit ↦ subst P (some-injective _ _ (ground arith)) h.0
    | inr miss ↦ Values-get P entries key h.1 (ground arith)
  ]
